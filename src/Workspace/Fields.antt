-- ===== src/Workspace/Fields.antt =====
-- The field checks of src/boule/workspace.py.
use daryxx_boule_protocol.Prelude.{
  ℕ, ◌+◌, ◌≤◌, ◌≡◌, arith, ◌*◌, String, Bool, false, not, ◌&&◌, ◌||◌, Option, none, some, List, [],
  ◌∷◌, ◌++◌, ltb, ◌==◌, if◌then◌else◌, length,
}
use daryxx_boule_protocol.Python.{
  is_sha256, is_uuid_at, ends_with_z, protocol, crash, invalid, Result, ok, err, ◌>>=◌, ◌>>◌,
  raise_if, Dict, distinct, same_set, lookup, keys, values, Value, items, members, codes,
}
use daryxx_boule_protocol.Crypto.{Platform}
use daryxx_boule_protocol.Model.{required, text_field, replace_z, text_list}

-- `p.get(key)`
unfoldable pub get_or_none : Dict Value → String → Value
get_or_none p key = elim (lookup key p) [ some v ↦ v | none ↦ Value.null ]

-- `_text`
unfoldable pub checked_text : Value → String → ℕ → Result String
unfolding text_field
checked_text value name maximum = text_field value name maximum

-- the loop `for key in names: _text(p[key], key, maximum)`
unfoldable pub check_texts : Dict Value → List String → ℕ → Result (Unit {0})
check_texts p [] maximum = ok tt
check_texts p (name ∷ names) maximum = do
  value ← required p name
  checked_text value name maximum
  check_texts p names maximum

-- `_sha256`
unfoldable pub checked_sha256 : Value → String → Result String
checked_sha256 (Value.text s) name =
    if is_sha256 (codes s)
    then ok s
    else err (invalid "{name} must be a lowercase sha256 digest" name)
checked_sha256 _ name = err (invalid "{name} must be a lowercase sha256 digest" name)

-- `_uuid`: the value is the text of the UUID that it reads as
unfoldable pub checked_uuid : Value → String → Result String
checked_uuid (Value.text s) name =
    if is_uuid_at 0 (codes s) then ok s else err (invalid "{name} must be a canonical UUID" name)
checked_uuid _ name = err (invalid "{name} must be a canonical UUID" name)

-- `_time`
unfoldable pub utc_time : Platform → Value → Result ℕ
utc_time sys (Value.text s) =
    if ends_with_z (codes s)
    then elim (sys.fromisoformat (replace_z s)) [
      | some moment ↦ ok moment.instant
      | none ↦ err (protocol "invalid timestamp")
    ]
    else err (protocol "time must be an ISO-8601 UTC Z string")
utc_time sys _ = err (protocol "time must be an ISO-8601 UTC Z string")

-- `timedelta(seconds=n)`, in microseconds
abbrev pub seconds : ℕ → ℕ
seconds n = n * 1000000

-- `datetime.max` in microseconds, counted from `datetime.min`
abbrev pub max_instant : ℕ
max_instant = 315537897599999999

-- `at + timedelta(seconds=n)`, which raises OverflowError past the year 9999
unfoldable pub plus_seconds : ℕ → ℕ → Result ℕ
plus_seconds at n = if ltb max_instant (at + seconds n) then err crash else ok (at + seconds n)

pub plus_seconds-eq-ok : (at n : ℕ) {t : ℕ} → plus_seconds at n ≡ ok t → t ≡ at + seconds n
unfolding plus_seconds
plus_seconds-eq-ok at n h = ground arith

pub plus_seconds-ok :
    (at n : ℕ) → at + seconds n ≤ max_instant → plus_seconds at n ≡ ok (at + seconds n)
unfolding plus_seconds
plus_seconds-ok at n h = ground arith

-- an object with exactly the fields `ref` and `sha256`
unfoldable pub reference : Value → Option (Dict Value)
reference (Value.obj ms) =
    if same_set (keys (members ms)) ("ref" ∷ "sha256" ∷ []) then some (members ms) else none
reference _ = none

-- `_artifact`
unfoldable pub checked_artifact : Value → String → Result (String × String)
checked_artifact value name = do
  fields ← elim (reference value) [
    | some d ↦ ok d
    | none ↦ err (invalid "{name} has invalid fields" name)
  ]
  ref ← checked_text (← required fields "ref") "{name}.ref" 1000
  sha256 ← checked_sha256 (← required fields "sha256") "{name}.sha256"
  ok (ref, sha256)

-- `pair in seen`
unfoldable pub has_pair : String × String → List (String × String) → Bool
has_pair p [] = false
has_pair p (q ∷ seen) = (p.0 == q.0 && p.1 == q.1) || has_pair p seen

-- the loop of `_evidence`, with `seen`; it gives the references
unfoldable pub evidence_items :
    List Value → List (String × String) → Result (List (String × String))
evidence_items [] seen = ok seen
evidence_items (value ∷ values) seen = do
  fields ← elim (reference value) [
    | some d ↦ ok d
    | none ↦ err (protocol "evidence item has invalid fields")
  ]
  ref ← checked_text (← required fields "ref") "evidence.ref" 1000
  digest ← checked_sha256 (← required fields "sha256") "evidence sha256"
  raise_if (has_pair (ref, digest) seen) "evidence contains duplicate references"
  evidence_items values (seen ++ (ref, digest) ∷ [])

-- `_evidence`
unfoldable pub checked_evidence : Value → Result (List (String × String))
unfolding evidence_items
checked_evidence (Value.arr vs) = do
  raise_if (ltb 16 (length (items vs))) "evidence must be a list of at most 16 references"
  evidence_items (items vs) []
checked_evidence _ = err (protocol "evidence must be a list of at most 16 references")

-- a list of at most `most` texts with no text twice, or the message
unfoldable pub unique_texts : Value → Option ℕ → String → Result (List String)
unique_texts value most message = do
  ts ← text_list value message
  raise_if (elim most [ some m ↦ ltb m (length ts) | none ↦ false ]) message
  raise_if (not (distinct ts)) message
  ok ts
