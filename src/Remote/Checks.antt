-- ===== src/Remote/Checks.antt =====
-- The field checks of src/boule/remote_protocol.py, and what its signed objects share.
use daryxx_boule_protocol.Prelude.{
  ℕ, String, ◌≡◌, refl, ap, Option, none, some, [], ◌∷◌, ◌++◌, ◌==◌, if◌then◌else◌,
}
use daryxx_boule_protocol.Python.{
  is_sha256, is_uuid_at, ends_with_z, invalid, crash, Result, ok, err, Dict, ℤ, Value, members,
  object, codes, is_hex_text, ◌+s◌,
}
use daryxx_boule_protocol.Crypto.{Platform, digest_object, sign_object}
use daryxx_boule_protocol.Model.{replace_z}

-- `_canonical_uuid`: the value is the text of the UUID that it reads as
unfoldable pub canonical_uuid : Value → String → Result String
canonical_uuid (Value.text s) name =
    if is_uuid_at 0 (codes s) then ok s else err (invalid "{name} must be a canonical UUID" name)
canonical_uuid _ name = err (invalid "{name} must be a canonical UUID" name)

abbrev pub bad_hash : String
bad_hash = "{name} must be a lowercase 64-hex event hash or null"

-- `_event_hash` with `nullable=True`
unfoldable pub event_hash : Value → String → Result (Option String)
event_hash Value.null name = ok none
event_hash (Value.text s) name =
    if is_hex_text 64 s then ok (some s) else err (invalid bad_hash name)
event_hash _ name = err (invalid bad_hash name)

-- `_event_hash` with `nullable=False`
unfoldable pub present_hash : Value → String → Result String
present_hash Value.null name = err (invalid "{name} must be a lowercase 64-hex event hash" name)
present_hash (Value.text s) name = if is_hex_text 64 s then ok s else err (invalid bad_hash name)
present_hash _ name = err (invalid bad_hash name)

-- `_sha256_digest`
unfoldable pub sha256_digest : Value → String → Result String
sha256_digest (Value.text s) name =
    if is_sha256 (codes s)
    then ok s
    else err (invalid "{name} must be a lowercase sha256 digest" name)
sha256_digest _ name = err (invalid "{name} must be a lowercase sha256 digest" name)

-- `sha256:` and the digest of a value
unfoldable pub prefixed_digest : Platform → Value → String
prefixed_digest sys v = "sha256:" +s digest_object sys v

-- an `int` that is no `bool`
unfoldable pub int_of : Value → Option ℤ
int_of (Value.int n) = some n
int_of _ = none

-- an `int` that is no `bool`, and not negative
unfoldable pub natural : Value → Option ℕ
natural (Value.int (ℤ.pos n)) = some n
natural _ = none

-- `{key: value for key, value in d.items() if key != "signature"}`
unfoldable pub without_signature : Dict Value → Dict Value
without_signature [] = []
without_signature ((k, v) ∷ d) =
    let rest = without_signature d in if k == "signature" then rest else (k, v) ∷ rest

-- `receipt_unsigned`, `snapshot_unsigned` and `_chain_proof_unsigned` with their `domain`
unfoldable pub unsigned : String → Dict Value → Value
unsigned domain d = object (("domain", Value.text domain) ∷ without_signature d)

unfoldable pub unsigned_of : String → Value → Result Value
unfolding unsigned
unsigned_of domain (Value.obj ms) = ok (unsigned domain (members ms))
unsigned_of domain _ = err crash

-- `{**d, "signature": sign_object(private_key, unsigned(d))}`
unfoldable pub signed : Platform → String → String → Dict Value → Value
unfolding unsigned
signed sys domain private_key d =
    object (d ++ ("signature", Value.text (sign_object sys private_key (unsigned domain d))) ∷ [])

module _ (sys : Platform) where
  -- `_utc_time`
  unfoldable pub checked_utc_time : Value → String → Result String
  checked_utc_time (Value.text s) name =
      if ends_with_z (codes s)
      then elim (sys.fromisoformat (replace_z s)) [
        | some moment ↦ if moment.aware then ok s else err (invalid "{name} is invalid" name)
        | none ↦ err (invalid "{name} is invalid" name)
      ]
      else err (invalid "{name} must be an ISO-8601 UTC Z string" name)
  checked_utc_time _ name = err (invalid "{name} must be an ISO-8601 UTC Z string" name)

-- What the signature covers is what was signed: adding it changes nothing of it.
pub without_signature-signed :
    (d : Dict Value) (v : Value)
    → without_signature (d ++ ("signature", v) ∷ []) ≡ without_signature d
unfolding without_signature
without_signature-signed [] v = refl
without_signature-signed ((k, w) ∷ d) v =
    ap (λ rest. if k == "signature" then rest else (k, w) ∷ rest) (without_signature-signed d v)
