-- ===== src/Remote/Signed.antt =====
-- What the signed objects of src/boule/remote_protocol.py have in common: the members that were
-- signed can be read back, and the signature covers them.
use daryxx_boule_protocol.Prelude.{
  String, ◌≡◌, refl, ◌∙◌, inl, inr, none, some, [], ◌∷◌, ◌++◌, arith, ◌==◌, Bool-cases,
}
use daryxx_boule_protocol.Python.{members-of_members, ok, Dict, lookup, Value, object}
use daryxx_boule_protocol.Crypto.{Platform, sign_object}
use daryxx_boule_protocol.Model.{required}
use daryxx_boule_protocol.Ledger.{member_of}
use daryxx_boule_protocol.Remote.Checks.{unsigned, unsigned_of, signed, without_signature-signed}

pub lookup-append {ℓ} :
    {V : Type ℓ} (k : String) (d e : Dict V) {v : V}
    → lookup k d ≡ some v
    → lookup k (d ++ e) ≡ some v
unfolding lookup
lookup-append k [] e h = cc
lookup-append k ((j, w) ∷ d) e h = elim (Bool-cases (k == j)) [
  | inl same ↦ rw same (rw same at h)
  | inr other ↦ rw other (lookup-append k d e (rw other at h))
]

pub lookup-append_none {ℓ} :
    {V : Type ℓ} (k : String) (d e : Dict V) → lookup k d ≡ none → lookup k (d ++ e) ≡ lookup k e
unfolding lookup
lookup-append_none k [] e h = refl
lookup-append_none k ((j, w) ∷ d) e h = ground (arith, lookup-append_none k d e)

pub member_of-object :
    (k : String) (d : Dict Value) {v : Value} → lookup k d ≡ some v → member_of (object d) k ≡ ok v
unfolding member_of required
member_of-object k d h = rw (members-of_members d, h) refl

module _ (sys : Platform) (domain key : String) (d : Dict Value) where
  pub member_of-signed :
      (k : String) {v : Value} → lookup k d ≡ some v → member_of (signed sys domain key d) k ≡ ok v
  unfolding signed
  member_of-signed k h = member_of-object k (d ++ _) (lookup-append k d _ h)

  pub signature-signed :
      lookup "signature" d ≡ none
      → member_of (signed sys domain key d) "signature"
        ≡ ok (Value.text (sign_object sys key (unsigned domain d)))
  unfolding signed
  signature-signed h =
      member_of-object "signature" (d ++ _)
        (lookup-append_none "signature" d _ h ∙ (unfold lookup in ground arith))

  pub unsigned_of-signed : unsigned_of domain (signed sys domain key d) ≡ ok (unsigned domain d)
  unfolding unsigned_of signed unsigned
  unsigned_of-signed =
      rw (members-of_members (d ++ ("signature", _) ∷ []), without_signature-signed d _) refl
