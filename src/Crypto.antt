-- ===== src/Crypto.antt =====
-- src/boule/canonical.py and src/boule/crypto.py: digests, keys and signatures. What these files
-- call (json, hashlib, base64, the Ed25519 of `cryptography`, and datetime's ISO parser) is the
-- record `Platform`, an argument of all that uses it. A private key is named by a text.
use daryxx_boule_protocol.Prelude.{
  ℕ, zero, suc, ◌-◌, ◌%◌, String, ◌≡◌, Bool, true, not, Option, none, some, List, eqb,
  if◌then◌else◌, length,
}
use daryxx_boule_protocol.Python.{
  protocol, Result, ok, err, ◌>>=◌, ◌>>◌, raise_if, Value, ◌+s◌, startswith, removeprefix,
  startswith-append, removeprefix-append,
}
use Prim.Native.Char.{code}
use Prim.Native.String.{count}

-- An instant, in microseconds, and whether the datetime carries a timezone.
pub record Moment : Type 0 where
  pub instant : ℕ
  pub aware : Bool

pub record Platform : Type 0 where
  -- `json.dumps` with the arguments of `canonical_bytes`
  pub json_dumps : Value → String
  -- `hashlib.sha256(value).hexdigest()`
  pub sha256_hexdigest : String → String
  -- `base64.urlsafe_b64encode` and `base64.b64decode(..., altchars=b"-_", validate=True)`
  pub urlsafe_b64encode : List ℕ → String
  pub b64decode : String → Option (List ℕ)
  -- Ed25519: the raw public key of a private key, signing, and verification
  pub public_bytes : String → List ℕ
  pub sign : String → String → List ℕ
  pub verify : List ℕ → List ℕ → String → Bool
  -- `datetime.fromisoformat`
  pub fromisoformat : String → Option Moment
  -- `isoformat` of an instant in UTC
  pub isoformat : ℕ → String

abbrev pub public_prefix : String
public_prefix = "ed25519:"

abbrev pub signature_prefix : String
signature_prefix = "ed25519sig:"

-- `.rstrip(b"=")`
unfoldable pub rstrip_padding : String → String
rstrip_padding String.[] = String.[]
rstrip_padding (String.◌∷◌ c s) = elim (rstrip_padding s) [
  | String.[] ↦ if eqb (code c) b'=' then String.[] else String.◌∷◌ c String.[]
  | String.◌∷◌ d r ↦ String.◌∷◌ c (String.◌∷◌ d r)
]

-- `"=" * n`
unfoldable pub padding : ℕ → String
padding zero = ""
padding (suc n) = "=" +s padding n

module _ (sys : Platform) where
  -- A `Value` has finite floats and no lone surrogates: `json.dumps` with `allow_nan=False` and the
  -- encoding, which raise for these, give bytes.
  unfoldable pub canonical_bytes : Value → String
  canonical_bytes value = sys.json_dumps value

  unfoldable pub digest_object : Value → String
  unfolding canonical_bytes
  digest_object value = sys.sha256_hexdigest (canonical_bytes value)

  -- `_encode`
  unfoldable pub encode : List ℕ → String
  encode raw = rstrip_padding (sys.urlsafe_b64encode raw)

  -- `_decode`; `-len(text) % 4` is not negative in Python
  unfoldable pub decode : String → Result (List ℕ)
  decode text = elim (sys.b64decode (text +s padding ((4 - count text % 4) % 4))) [
    | some raw ↦ ok raw
    | none ↦ err (protocol "invalid base64 encoding")
  ]

  unfoldable pub public_key_text : String → String
  public_key_text key = public_prefix +s encode (sys.public_bytes key)

  -- A public key of 32 bytes is accepted by `from_public_bytes`.
  unfoldable pub load_public_key : Value → Result (List ℕ)
  load_public_key (Value.text text) = do
    raise_if (not (startswith text public_prefix)) "public key must use the ed25519: prefix"
    raw ← decode (removeprefix text public_prefix)
    raise_if (not (eqb (length raw) 32)) "Ed25519 public key must be 32 bytes"
    ok raw
  load_public_key _ = err (protocol "public key must use the ed25519: prefix")

  unfoldable pub sign_object : String → Value → String
  sign_object private_key value =
      signature_prefix +s encode (sys.sign private_key (canonical_bytes value))

  unfoldable pub verify_object : Value → Value → Value → Result (Unit {0})
  verify_object public_key value (Value.text signature) = do
    raise_if (not (startswith signature signature_prefix))
        "signature must use the ed25519sig: prefix"
    raw ← decode (removeprefix signature signature_prefix)
    raise_if (not (eqb (length raw) 64)) "Ed25519 signature must be 64 bytes"
    key ← load_public_key public_key
    raise_if (not (sys.verify key raw (canonical_bytes value))) "signature verification failed"
  verify_object public_key value _ = err (protocol "signature must use the ed25519sig: prefix")

-- What the documentation of these libraries promises: decoding the padded form of a text without
-- padding undoes the encoding, keys have 32 bytes and signatures 64, and the public key accepts
-- what the private key signed.
pub record IsSound (sys : Platform) : Type 0 where
  pub decode-encode : (raw : List ℕ) → decode sys (encode sys raw) ≡ ok raw
  pub length-public_bytes : (key : String) → length (sys.public_bytes key) ≡ 32
  pub length-sign : (key message : String) → length (sys.sign key message) ≡ 64
  pub verify-sign :
      (key message : String)
      → sys.verify (sys.public_bytes key) (sys.sign key message) message ≡ true

module _ (sys : Platform) (sound : IsSound sys) where
  pub load_public_key-public_key_text :
      (key : String)
      → load_public_key sys (Value.text (public_key_text sys key)) ≡ ok (sys.public_bytes key)
  unfolding load_public_key public_key_text
  load_public_key-public_key_text key = rw (
    startswith-append,
    removeprefix-append,
    sound.decode-encode (sys.public_bytes key),
    sound.length-public_bytes key,
  )

  -- A signature verifies under the public key of its private key.
  pub verify_object-sign_object :
      (key : String) (value : Value)
      → verify_object sys
          (Value.text (public_key_text sys key))
          value
          (Value.text (sign_object sys key value))
        ≡ ok tt
  unfolding verify_object sign_object
  verify_object-sign_object key value = rw (
    startswith-append,
    removeprefix-append,
    sound.decode-encode (sys.sign key (canonical_bytes sys value)),
    sound.length-sign key (canonical_bytes sys value),
    load_public_key-public_key_text key,
    sound.verify-sign key (canonical_bytes sys value),
  )
