-- ===== src/Remote/Building.antt =====
-- Envelopes of src/boule/remote_protocol.py: what `build_envelope` signs, `verify_envelope` accepts.
use mathlib.Core.Path.{subst}
use daryxx_boule_protocol.Prelude.{String, ◌≡◌, refl, true, Option, List, [], ◌∷◌}
use daryxx_boule_protocol.Python.{
  Members, ok, >>=-eq-ok, ok_injective, contains, subset, same_set, lookup, keys, Value, members,
  object, is_text_refl, optional_text, of_members,
}
use daryxx_boule_protocol.Crypto.{
  Platform, public_key_text, sign_object, IsSound, load_public_key-public_key_text,
  verify_object-sign_object,
}
use daryxx_boule_protocol.Model.{required}
use daryxx_boule_protocol.Ledger.{member_of, get_of, has_fields}
use daryxx_boule_protocol.Remote.Checks.{canonical_uuid, event_hash}
use daryxx_boule_protocol.Remote.Envelopes.{
  envelope_schema, select, envelope_unsigned, build_envelope, verify_envelope,
}
use daryxx_boule_protocol.Remote.Agreed.{canonical_uuid-eq-ok, event_hash-eq-ok, Envelope, Holds}
use daryxx_boule_protocol.Remote.Admitted.{unsigned_object, verify_envelope-accepts}

-- An envelope's members, as `build_envelope` and `_events` write them.
abbrev pub envelope_value : String → String → Envelope → Value
envelope_value problem_id key v = object (
    ("schema", Value.text envelope_schema)
    ∷ ("request_id", Value.text v.request_id)
    ∷ ("problem_id", Value.text problem_id)
    ∷ ("clerk_key", Value.text key)
    ∷ ("base_event_hash", optional_text v.base)
    ∷ ("kind", Value.text v.kind)
    ∷ ("actor", v.actor)
    ∷ ("payload", Value.obj v.payload)
    ∷ ("signature", v.signature)
    ∷ [])

pub envelope_value-Holds :
    (problem_id key : String) (v : Envelope)
    → Holds (envelope_value problem_id key v) problem_id key v
unfolding has_fields member_of required lookup keys members of_members same_set subset contains
envelope_value-Holds problem_id key v = record {
  has_all = refl;
  schema_of = refl;
  request_of = refl;
  problem_of = refl;
  clerk_of = refl;
  base_of = refl;
  kind_of = refl;
  actor_of = refl;
  payload_of = refl;
  signature_of = refl;
}

unsigned_envelope :
    (problem_id key : String) (v : Envelope)
    → envelope_unsigned (
        object (
          ("schema", Value.text envelope_schema)
          ∷ ("request_id", Value.text v.request_id)
          ∷ ("problem_id", Value.text problem_id)
          ∷ ("clerk_key", Value.text key)
          ∷ ("base_event_hash", optional_text v.base)
          ∷ ("kind", Value.text v.kind)
          ∷ ("actor", v.actor)
          ∷ ("payload", Value.obj v.payload)
          ∷ []))
      ≡ ok (unsigned_object problem_id key v)
unfolding envelope_unsigned select member_of required lookup members of_members
unsigned_envelope problem_id key v = refl

-- A participant's envelope is accepted by the clerk that it names, if its payload names the problem,
-- its kind is admitted and the crypto functions keep their promises.
pub verify_envelope-build_envelope :
    (sys : Platform) (sound : IsSound sys) (request_id problem_id key : String)
    (base : Option String) (kind : String) (payload : Members) (private_key : String)
    (allowed : List String) {envelope : Value}
    → build_envelope sys request_id problem_id key base kind (Value.obj payload) private_key
      ≡ ok envelope
    → contains kind allowed ≡ true
    → get_of (Value.obj payload) "problem_id" ≡ ok (Value.text problem_id)
    → verify_envelope sys envelope problem_id key allowed ≡ ok envelope
unfolding build_envelope
verify_envelope-build_envelope sys sound request_id problem_id key base kind payload private_key
      allowed {envelope} h among target =
    let actor = Value.text (public_key_text sys private_key) in
    let (request, is_uuid, h1) =
      >>=-eq-ok (canonical_uuid (Value.text request_id) "request_id") _ h in
    let (head, hashed, h2) = >>=-eq-ok (event_hash (optional_text base) "base_event_hash") _ h1 in
    let unsigned : Envelope = record {
      request_id = request;
      base = head;
      kind = kind;
      actor = actor;
      payload = payload;
      signature = Value.null;
    } in
    let body = unsigned_object problem_id key unsigned in
    let v : Envelope = record unsigned {
      signature = Value.text (sign_object sys private_key body);
    } in
    let built : envelope_value problem_id key v ≡ envelope =
      ok_injective (rw (unsigned_envelope problem_id key unsigned) at h2) in
    let accepted =
      verify_envelope-accepts sys (envelope_value problem_id key v) problem_id key allowed v
        (envelope_value-Holds problem_id key v)
        (record {
          is_uuid =
              subst (λ w. canonical_uuid w "request_id" ≡ ok request)
                (canonical_uuid-eq-ok (Value.text request_id) "request_id" is_uuid) is_uuid;
          is_hash =
              subst (λ w. event_hash w "base_event_hash" ≡ ok head)
                (event_hash-eq-ok (optional_text base) "base_event_hash" hashed) hashed;
          is_kind = among;
          target = Value.text problem_id;
          target_of = target;
          targeted = is_text_refl problem_id;
        })
        (record {
          public_key = sys.public_bytes private_key;
          loaded = load_public_key-public_key_text sys sound private_key;
          verified = verify_object-sign_object sys sound private_key body;
        }) in
    subst (λ w. verify_envelope sys w problem_id key allowed ≡ ok w) built accepted
