-- ===== src/Remote/Digests.antt =====
-- Envelopes of src/boule/remote_protocol.py with the same members have the same digest.
use mathlib.Core.Path.{subst}
use daryxx_boule_protocol.Prelude.{
  same_texts, not_both, and_both, String, ◌≡◌, refl, sym, ap, ◌∙◌, inl, inr, true, false, none,
  some, List, [], ◌∷◌, ◌==◌, Bool-cases, All,
}
use daryxx_boule_protocol.Python.{
  contains-subset, Members, ok, or_crash-eq-ok, Dict, contains, subset, same_set, lookup, keys,
  Value, members, object, of_members,
}
use daryxx_boule_protocol.Crypto.{Platform, canonical_bytes, digest_object}
use daryxx_boule_protocol.Model.{required}
use daryxx_boule_protocol.Ledger.{member_of, has_fields}
use daryxx_boule_protocol.Remote.Envelopes.{envelope_fields}
use daryxx_boule_protocol.Remote.Agreed.{Envelope, Holds}

of_members-members : (ms : Members) → of_members (members ms) ≡ ms
unfolding of_members members
of_members-members Members.end = refl
of_members-members (Members.member k v rest) = ap (Members.member k v) (of_members-members rest)

lookup-absent : (k : String) (d : Dict Value) → contains k (keys d) ≡ false → lookup k d ≡ none
unfolding lookup contains keys
lookup-absent k [] h = refl
lookup-absent k ((j, v) ∷ d) h = elim (Bool-cases (k == j)) [
  | inl same ↦ absurd (not_both (rw same refl) h)
  | inr other ↦ rw other (lookup-absent k d (rw other at h))
]

-- The dicts lead to the same where a name is one of the list.
abbrev AgreeOn : List String → Dict Value → Dict Value → Type 0
AgreeOn names d e = All (λ name. lookup name d ≡ lookup name e) names

AgreeOn-contains :
    (k : String) (names : List String) (d e : Dict Value)
    → AgreeOn names d e
    → contains k names ≡ true
    → lookup k d ≡ lookup k e
unfolding contains
AgreeOn-contains k [] d e a h = cc
AgreeOn-contains k (name ∷ names) d e a h = elim (Bool-cases (k == name)) [
  | inl same ↦ subst (λ j. lookup j d ≡ lookup j e) (sym (same_texts k name same)) a.0
  | inr other ↦ AgreeOn-contains k names d e a.1 (rw other at h)
]

lookup_agree :
    (names : List String) (d e : Dict Value)
    → AgreeOn names d e
    → subset (keys d) names ≡ true
    → subset (keys e) names ≡ true
    → (k : String) → lookup k d ≡ lookup k e
lookup_agree names d e a b c k = elim (Bool-cases (contains k names)) [
  | inl there ↦ AgreeOn-contains k names d e a there
  | inr away ↦
      lookup-absent k d (contains-subset k (keys d) names b away)
      ∙ sym (lookup-absent k e (contains-subset k (keys e) names c away))
]

member_of-lookup :
    (ms : Members) (k : String) {v : Value}
    → member_of (Value.obj ms) k ≡ ok v
    → lookup k (members ms) ≡ some v
unfolding member_of required
member_of-lookup ms k h = or_crash-eq-ok (lookup k (members ms)) h

same_member :
    (ms ns : Members) (k : String) {v : Value}
    → member_of (Value.obj ms) k ≡ ok v
    → member_of (Value.obj ns) k ≡ ok v
    → lookup k (members ms) ≡ lookup k (members ns)
same_member ms ns k a b = member_of-lookup ms k a ∙ sym (member_of-lookup ns k b)

AgreeOn-Holds :
    (ms ns : Members) (problem_id key : String) (v : Envelope)
    → Holds (Value.obj ms) problem_id key v
    → Holds (Value.obj ns) problem_id key v
    → AgreeOn envelope_fields (members ms) (members ns)
AgreeOn-Holds ms ns problem_id key v h k = (
  same_member ms ns _ h.schema_of k.schema_of,
  (
    same_member ms ns _ h.request_of k.request_of,
    (
      same_member ms ns _ h.problem_of k.problem_of,
      (
        same_member ms ns _ h.clerk_of k.clerk_of,
        (
          same_member ms ns _ h.base_of k.base_of,
          (
            same_member ms ns _ h.kind_of k.kind_of,
            (
              same_member ms ns _ h.actor_of k.actor_of,
              (
                same_member ms ns _ h.payload_of k.payload_of,
                (same_member ms ns _ h.signature_of k.signature_of, tt),
              ),
            ),
          ),
        ),
      ),
    ),
  ),
)

-- `json.dumps` with `sort_keys=True` depends only on what the keys lead to.
abbrev pub IsSorting : Platform → Type 0
IsSorting sys =
    (d e : Dict Value)
    → ((k : String) → lookup k d ≡ lookup k e)
    → sys.json_dumps (object d) ≡ sys.json_dumps (object e)

has_fields-subset :
    (ms : Members) (names : List String)
    → has_fields (Value.obj ms) names ≡ true
    → subset (keys (members ms)) names ≡ true
unfolding has_fields same_set
has_fields-subset ms names h = (and_both h).0

has_fields-object :
    (a : Value) (names : List String)
    → has_fields a names ≡ true
    → (ms : Members) × (a ≡ Value.obj ms)
unfolding has_fields
has_fields-object (Value.obj ms) names h = (ms, refl)
has_fields-object Value.null names h = cc
has_fields-object _ names h = cc

module _ (sys : Platform) (sorting : IsSorting sys) where
  same_digest :
      (ms ns : Members) (problem_id key : String) (v : Envelope)
      → Holds (Value.obj ms) problem_id key v
      → Holds (Value.obj ns) problem_id key v
      → digest_object sys (Value.obj ms) ≡ digest_object sys (Value.obj ns)
  unfolding digest_object canonical_bytes
  same_digest ms ns problem_id key v h k =
      let same = sorting (members ms) (members ns) (
        lookup_agree envelope_fields (members ms) (members ns)
          (AgreeOn-Holds ms ns problem_id key v h k)
          (has_fields-subset ms envelope_fields h.has_all)
          (has_fields-subset ns envelope_fields k.has_all)) in
      ap sys.sha256_hexdigest (
        ap (λ w. sys.json_dumps (Value.obj w)) (sym (of_members-members ms))
        ∙ same
        ∙ ap (λ w. sys.json_dumps (Value.obj w)) (of_members-members ns))

  pub digest_object-Holds :
      (a b : Value) (problem_id key : String) (v : Envelope)
      → Holds a problem_id key v
      → Holds b problem_id key v
      → digest_object sys a ≡ digest_object sys b
  digest_object-Holds a b problem_id key v h k =
      let (ms, form_a) = has_fields-object a envelope_fields h.has_all in
      let (ns, form_b) = has_fields-object b envelope_fields k.has_all in
      ap (λ w. digest_object sys w) form_a
      ∙ same_digest ms ns problem_id key v (subst (λ w. Holds w problem_id key v) form_a h)
          (subst (λ w. Holds w problem_id key v) form_b k)
      ∙ sym (ap (λ w. digest_object sys w) form_b)
