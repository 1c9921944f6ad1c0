-- ===== src/Remote/Admitted.antt =====
-- `verify_envelope` of src/boule/remote_protocol.py accepts exactly the envelopes whose members hold
-- admitted values under the actor's signature.
use mathlib.Core.Path.{subst}
use daryxx_boule_protocol.Prelude.{ℕ, String, ◌≡◌, refl, sym, ap, ◌∙◌, true, not, List, [], ◌∷◌}
use daryxx_boule_protocol.Python.{
  raise_unless-eq-ok, Members, ok, raise_if, >>=-eq-ok, ok_injective, contains, Value, object,
  is_text, is_text_refl, optional_text,
}
use daryxx_boule_protocol.Crypto.{Platform, load_public_key, verify_object}
use daryxx_boule_protocol.Ledger.{member_of, get_of, is_object}
use daryxx_boule_protocol.Remote.Envelopes.{
  envelope_schema, select, envelope_unsigned, as_authentication, is_one_of, check_envelope_target,
  check_envelope_event, check_envelope_signature, verify_envelope,
}
use daryxx_boule_protocol.Remote.Agreed.{
  Envelope, Holds, IsAdmitted, check_envelope_target-IsTarget, is_one_of-text, is_object-obj,
  as_authentication-eq-ok,
}

-- the object that `envelope_unsigned` signs
abbrev pub unsigned_object : String → String → Envelope → Value
unsigned_object problem_id key v = object (
    ("domain", Value.text "boule-workspace-envelope-v0.5")
    ∷ ("schema", Value.text envelope_schema)
    ∷ ("request_id", Value.text v.request_id)
    ∷ ("problem_id", Value.text problem_id)
    ∷ ("clerk_key", Value.text key)
    ∷ ("base_event_hash", optional_text v.base)
    ∷ ("kind", Value.text v.kind)
    ∷ ("actor", v.actor)
    ∷ ("payload", Value.obj v.payload)
    ∷ [])

envelope_unsigned-Holds :
    (envelope : Value) (problem_id key : String) (v : Envelope)
    → Holds envelope problem_id key v
    → envelope_unsigned envelope ≡ ok (unsigned_object problem_id key v)
unfolding envelope_unsigned select
envelope_unsigned-Holds envelope problem_id key v h =
    rw
      (
        h.schema_of, h.request_of, h.problem_of, h.clerk_of, h.base_of, h.kind_of, h.actor_of,
        h.payload_of,
      )
      refl

check_envelope_event-eq-ok :
    (envelope : Value) (problem_id : String) (allowed : List String) {u : Unit {0}}
    → check_envelope_event envelope problem_id allowed ≡ ok u
    → (kind : String) × (payload : Members) × (member_of envelope "kind" ≡ ok (Value.text kind))
      × (member_of envelope "payload" ≡ ok (Value.obj payload))
      × (contains kind allowed ≡ true)
      × (target : Value) × (get_of (Value.obj payload) "problem_id" ≡ ok target)
      × (is_text target problem_id ≡ true)
unfolding check_envelope_event
check_envelope_event-eq-ok envelope problem_id allowed h =
    let (kind, kind_of, h1) = >>=-eq-ok (member_of envelope "kind") _ h in
    let (_, one, h2) =
      >>=-eq-ok
        (raise_if (not (is_one_of kind allowed)) "remote envelope event kind is not admitted") _
        h1 in
    let (payload, payload_of, h3) = >>=-eq-ok (member_of envelope "payload") _ h2 in
    let (_, object_at, h4) =
      >>=-eq-ok (raise_if (not (is_object payload)) "remote envelope payload must be an object") _
        h3 in
    let (target, target_of, h5) = >>=-eq-ok (get_of payload "problem_id") _ h4 in
    let (name, named, among) =
      is_one_of-text kind allowed
        (raise_unless-eq-ok _ "remote envelope event kind is not admitted" one) in
    let (ms, form) =
      is_object-obj payload
        (raise_unless-eq-ok _ "remote envelope payload must be an object" object_at) in
    (
      name,
      ms,
      kind_of ∙ ap ok named,
      payload_of ∙ ap ok form,
      among,
      target,
      subst (λ w. get_of w "problem_id" ≡ ok target) form target_of,
      raise_unless-eq-ok _ "remote envelope payload belongs to another problem" h5,
    )

-- The actor's key loads, and its signature covers the envelope.
pub record IsSigned (sys : Platform) (problem_id key : String) (v : Envelope) : Type 0 where
  pub public_key : List ℕ
  pub loaded : load_public_key sys v.actor ≡ ok public_key
  pub verified : verify_object sys v.actor (unsigned_object problem_id key v) v.signature ≡ ok tt

module _ (sys : Platform) where
  pub verify_envelope-accepts :
      (envelope : Value) (problem_id key : String) (allowed : List String) (v : Envelope)
      → Holds envelope problem_id key v
      → IsAdmitted sys problem_id allowed v
      → IsSigned sys problem_id key v
      → verify_envelope sys envelope problem_id key allowed ≡ ok envelope
  unfolding verify_envelope check_envelope_target check_envelope_event check_envelope_signature
      as_authentication is_one_of is_object
  verify_envelope-accepts envelope problem_id key allowed v h a s =
      rw
        (
          h.has_all,
          h.schema_of,
          is_text_refl envelope_schema,
          h.request_of,
          a.is_uuid,
          h.problem_of,
          h.clerk_of,
          is_text_refl problem_id,
          is_text_refl key,
          h.base_of,
          a.is_hash,
          h.kind_of,
          a.is_kind,
          h.payload_of,
          a.target_of,
          a.targeted,
          h.actor_of,
          s.loaded,
          envelope_unsigned-Holds envelope problem_id key v h,
          h.signature_of,
          s.verified,
        )
        refl

  check_envelope_signature-eq-ok :
      (envelope : Value) {u : Unit {0}}
      → check_envelope_signature sys envelope ≡ ok u
      → (actor : Value) × (public_key : List ℕ) × (body : Value) × (signature : Value) × (member_of
            envelope "actor"
          ≡ ok actor)
        × (load_public_key sys actor ≡ ok public_key)
        × (envelope_unsigned envelope ≡ ok body)
        × (member_of envelope "signature" ≡ ok signature)
        × (verify_object sys actor body signature ≡ ok u)
  unfolding check_envelope_signature
  check_envelope_signature-eq-ok envelope h =
      let (actor, actor_of, h1) = >>=-eq-ok (member_of envelope "actor") _ h in
      let (public_key, loaded, h2) = >>=-eq-ok (load_public_key sys actor) _ h1 in
      let (body, body_of, h3) = >>=-eq-ok (envelope_unsigned envelope) _ h2 in
      let (signature, signature_of, h4) = >>=-eq-ok (member_of envelope "signature") _ h3 in
      (actor, public_key, body, signature, actor_of, loaded, body_of, signature_of, h4)

  pub verify_envelope-Holds :
      (envelope : Value) (problem_id key : String) (allowed : List String) {out : Value}
      → verify_envelope sys envelope problem_id key allowed ≡ ok out
      → (v : Envelope) × Holds envelope problem_id key v
        × IsAdmitted sys problem_id allowed v
        × IsSigned sys problem_id key v
  unfolding verify_envelope
  verify_envelope-Holds envelope problem_id key allowed h =
      let (_, targeted, h1) = >>=-eq-ok (check_envelope_target envelope problem_id key) _ h in
      let (_, admitted, h2) = >>=-eq-ok (check_envelope_event envelope problem_id allowed) _ h1 in
      let (_, signed, _) =
        >>=-eq-ok
          (as_authentication (check_envelope_signature sys envelope)
            "remote envelope signature verification failed")
          _ h2 in
      let t = check_envelope_target-IsTarget envelope problem_id key targeted in
      let (kind, payload, kind_of, payload_of, is_kind, target, target_of, at) =
        check_envelope_event-eq-ok envelope problem_id allowed admitted in
      let (actor, public_key, body, signature, actor_of, loaded, body_of, signature_of, verified) =
        check_envelope_signature-eq-ok envelope (
          as_authentication-eq-ok (check_envelope_signature sys envelope)
            "remote envelope signature verification failed" signed) in
      let v : Envelope = record {
        request_id = t.request_id;
        base = t.base;
        kind = kind;
        actor = actor;
        payload = payload;
        signature = signature;
      } in
      let holds : Holds envelope problem_id key v = record {
        has_all = t.has_all;
        schema_of = t.schema_of;
        request_of = t.request_of;
        problem_of = t.problem_of;
        clerk_of = t.clerk_of;
        base_of = t.base_of;
        kind_of = kind_of;
        actor_of = actor_of;
        payload_of = payload_of;
        signature_of = signature_of;
      } in
      let same =
        ok_injective (sym body_of ∙ envelope_unsigned-Holds envelope problem_id key v holds) in
      (
        v,
        holds,
        record {
          is_uuid = t.is_uuid;
          is_hash = t.is_hash;
          is_kind = is_kind;
          target = target;
          target_of = target_of;
          targeted = at;
        },
        record {
          public_key = public_key;
          loaded = loaded;
          verified = subst (λ b. verify_object sys actor b signature ≡ ok tt) same verified;
        },
      )
