-- ===== src/Workspace/Clerk/Format.antt =====
-- Texts that src/boule/workspace.py formats: times, and the ids of events.
use Prim.Native.Char.{code}
use daryxx_boule_protocol.Prelude.{
  Bool, true, false, ◌&&◌, ℕ, zero, suc, ◌-◌, ◌/◌, ◌%◌, String, ◌≡◌, some, ltb, eqb, if◌then◌else◌,
}
use daryxx_boule_protocol.Python.{
  ends_with_z, Dict, lookup, Value, object, codes, text_length, is_hex_text, ◌+s◌,
}
use daryxx_boule_protocol.Crypto.{Platform}
use daryxx_boule_protocol.Model.{replace_z}

-- `s.startswith(prefix)`, from the left
unfoldable pub begins : String → String → Bool
begins s String.[] = true
begins String.[] (String.◌∷◌ d p) = false
begins (String.◌∷◌ c s) (String.◌∷◌ d p) = eqb (code c) (code d) && begins s p

-- `text.replace("+00:00", "Z")`; the number counts the characters of a match still to skip
unfoldable pub replace_offset : ℕ → String → String
unfolding begins
replace_offset k String.[] = ""
replace_offset zero (String.◌∷◌ c s) =
    if begins (String.◌∷◌ c s) "+00:00"
    then "Z" +s replace_offset 5 s
    else String.◌∷◌ c (replace_offset 0 s)
replace_offset (suc k) (String.◌∷◌ c s) = replace_offset k s

-- `_stamp`
unfoldable pub stamp : Platform → ℕ → String
unfolding replace_offset
stamp sys now = replace_offset 0 (sys.isoformat now)

unfoldable pub digit : ℕ → String
digit zero = "0"
digit (suc zero) = "1"
digit (suc (suc zero)) = "2"
digit (suc (suc (suc zero))) = "3"
digit (suc (suc (suc (suc zero)))) = "4"
digit (suc (suc (suc (suc (suc zero))))) = "5"
digit (suc (suc (suc (suc (suc (suc zero)))))) = "6"
digit (suc (suc (suc (suc (suc (suc (suc zero))))))) = "7"
digit (suc (suc (suc (suc (suc (suc (suc (suc zero)))))))) = "8"
digit _ = "9"

-- the digits of n in front of a text; a number has no more digits than it says
unfoldable pub digits : ℕ → ℕ → String → String
digits zero n rest = rest
digits (suc fuel) n rest =
    let more = digits fuel (n / 10) (digit (n % 10) +s rest) in
    if ltb n 10 then digit n +s rest else more

-- `str(n)`
unfoldable pub decimal : ℕ → String
unfolding digits
decimal n = digits (suc n) n ""

unfoldable pub zeros : ℕ → String
zeros zero = ""
zeros (suc n) = "0" +s zeros n

-- `f"{n:08d}"`
unfoldable pub padded : ℕ → String
padded n = let ds = decimal n in zeros (8 - text_length ds) +s ds

-- `s[:n]`
unfoldable pub prefix : ℕ → String → String
prefix n String.[] = ""
prefix zero (String.◌∷◌ c s) = ""
prefix (suc n) (String.◌∷◌ c s) = String.◌∷◌ c (prefix n s)

-- `f"{seq:08d}-{digest[:16]}"`
unfoldable pub event_id_of : ℕ → String → String
unfolding padded prefix
event_id_of seq digest = padded seq +s "-" +s prefix 16 digest

-- the name of an event's file: `f"{event['seq']:08d}-{event['event_id']}.json"`
unfoldable pub file_name : ℕ → String → String
unfolding padded
file_name seq event_id = padded seq +s ("-" +s (event_id +s ".json"))

-- What the documentation of Python promises of hashlib, json and datetime: `hexdigest` of SHA-256 is
-- 64 lowercase hex digits, `json.dumps` with `sort_keys=True` depends only on what the keys lead to,
-- and `fromisoformat` reads what `isoformat` wrote. A number past `max_instant` is no datetime, and what
-- `isoformat` gives for it is of no account.
pub record IsStandard (sys : Platform) : Type 0 where
  pub hexdigest-is_hex : (s : String) → is_hex_text 64 (sys.sha256_hexdigest s) ≡ true
  pub json_dumps-lookup :
      (d e : Dict Value)
      → ((k : String) → lookup k d ≡ lookup k e)
      → sys.json_dumps (object d) ≡ sys.json_dumps (object e)
  pub ends_with_z-stamp : (now : ℕ) → ends_with_z (codes (stamp sys now)) ≡ true
  pub fromisoformat-stamp :
      (now : ℕ)
      → sys.fromisoformat (replace_z (stamp sys now))
        ≡ some (record { instant = now; aware = true })
