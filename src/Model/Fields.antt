-- ===== src/Model/Fields.antt =====
-- The field checks of src/boule/model.py: `_mapping`, `_exact_keys`, `_text`, `_integer`,
-- `_hex_digest` and `parse_time`.
use daryxx_boule_protocol.Prelude.{
  ℕ, ◌≤◌, String, ◌≡◌, Bool, false, ◌&&◌, ◌||◌, none, some, List, [], ◌∷◌, arith, ltb, leb, eqb,
  if◌then◌else◌,
}
use daryxx_boule_protocol.Python.{
  protocol, invalid, crash, Result, ok, err, ◌>>=◌, or_crash, Dict, contains, same_set, lookup,
  keys, ℤ, Value, items, members, is_blank, text_length, is_hex_text, ◌+s◌,
}
use daryxx_boule_protocol.Crypto.{Platform}
use Prim.Native.Char.{code}

-- `d[k]`
unfoldable pub required : Dict Value → String → Result Value
required d k = or_crash (lookup k d)

-- a value that was checked to be a `str`
unfoldable pub as_text : Value → Result String
as_text (Value.text s) = ok s
as_text _ = err crash

unfoldable pub mapping : Value → String → Result (Dict Value)
mapping (Value.obj ms) name = ok (members ms)
mapping _ name = err (invalid "{name} must be an object" name)

unfoldable pub exact_keys : Dict Value → List String → String → Result (Unit {0})
exact_keys value expected name =
    if same_set (keys value) expected
    then ok tt
    else err (invalid "{name} fields differ: missing={missing}, extra={extra}" name)

-- `_text`; the length is in characters
unfoldable pub text_field : Value → String → ℕ → Result String
text_field (Value.text s) name max_length =
    if is_blank s || ltb max_length (text_length s)
    then err (invalid "{name} must be non-empty text up to {max_length} characters" name)
    else ok s
text_field _ name max_length =
    err (invalid "{name} must be non-empty text up to {max_length} characters" name)

-- `_integer`; every caller's `low` is 0 or more, so a negative value is out of range
unfoldable pub integer_field : Value → String → ℕ → ℕ → Result ℕ
integer_field (Value.int (ℤ.pos n)) name low high =
    if leb low n && leb n high
    then ok n
    else err (invalid "{name} must be an integer in [{low}, {high}]" name)
integer_field _ name low high = err (invalid "{name} must be an integer in [{low}, {high}]" name)

unfoldable pub hex_digest : Value → String → Result String
hex_digest (Value.text s) name =
    if is_hex_text 64 s
    then ok s
    else err (invalid "{name} must be a lowercase SHA-256 hex digest" name)
hex_digest _ name = err (invalid "{name} must be a lowercase SHA-256 hex digest" name)

-- `text.replace("Z", "+00:00")`
unfoldable pub replace_z : String → String
replace_z String.[] = ""
replace_z (String.◌∷◌ c s) =
    if eqb (code c) b'Z' then "+00:00" +s replace_z s else String.◌∷◌ c (replace_z s)

module _ (sys : Platform) where
  unfoldable pub parse_time : Value → String → Result ℕ
  parse_time value name = do
    text ← text_field value name 64
    parsed ← elim (sys.fromisoformat (replace_z text)) [
      | some moment ↦ ok moment
      | none ↦ err (invalid "{name} must be ISO-8601" name)
    ]
    if parsed.aware then ok parsed.instant else err (invalid "{name} must include a timezone" name)

-- `v in names`: a list or an object is not hashable
unfoldable pub in_set : Value → List String → Result Bool
in_set (Value.text s) names = ok (contains s names)
in_set (Value.arr _) names = err crash
in_set (Value.obj _) names = err crash
in_set _ names = ok false

-- a list whose items are all `str`, or the message
unfoldable pub text_list : Value → String → Result (List String)
text_list (Value.arr vs) message = go (items vs)
  where
    go : List Value → Result (List String)
    go [] = ok []
    go (Value.text t ∷ rest) = do ts ← go rest; ok (t ∷ ts)
    go (_ ∷ rest) = err (protocol message)
text_list _ message = err (protocol message)

-- An accepted text is the value itself, not blank and not too long.
pub text_field_accepts :
    (v : Value) (name : String) (max_length : ℕ) {s : String}
    → text_field v name max_length ≡ ok s
    → (v ≡ Value.text s) × (is_blank s ≡ false) × (text_length s ≤ max_length)
unfolding text_field
text_field_accepts (Value.text s) name m h = ground arith
text_field_accepts Value.null name m h = cc
text_field_accepts _ name m h = cc

-- An accepted integer is within its bounds.
pub integer_field_bounds :
    (v : Value) (name : String) (low high : ℕ) {n : ℕ}
    → integer_field v name low high ≡ ok n
    → (low ≤ n) × (n ≤ high)
unfolding integer_field
integer_field_bounds (Value.int (ℤ.pos n)) name low high h = ground arith
integer_field_bounds _ name low high h = cc
