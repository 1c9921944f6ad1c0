-- ===== src/Remote/Agreed.antt =====
-- What `verify_envelope` of src/boule/remote_protocol.py has found of an envelope, and that only the
-- members of the envelope count.
use mathlib.Core.Path.{subst}
use daryxx_boule_protocol.Prelude.{String, ◌≡◌, refl, ap, ◌∙◌, true, not, ◌&&◌, Option, List, arith}
use daryxx_boule_protocol.Python.{
  raise_unless-eq-ok, raise_unless_both, Members, protocol, crash, Result, ok, err, raise_if,
  >>=-eq-ok, ok_injective, contains, Value, is_text, is_text_lem, optional_text,
}
use daryxx_boule_protocol.Crypto.{Platform}
use daryxx_boule_protocol.Ledger.{member_of, get_of, is_object, has_fields}
use daryxx_boule_protocol.Remote.Checks.{canonical_uuid, event_hash}
use daryxx_boule_protocol.Remote.Envelopes.{
  envelope_schema, envelope_fields, as_authentication, is_one_of, check_envelope_target,
}

-- The values of an envelope's members.
pub record Envelope : Type 0 where
  pub request_id : String
  pub base : Option String
  pub kind : String
  pub actor : Value
  pub payload : Members
  pub signature : Value

pub record Holds (envelope : Value) (problem_id clerk_key : String) (v : Envelope) : Type 0 where
  pub has_all : has_fields envelope envelope_fields ≡ true
  pub schema_of : member_of envelope "schema" ≡ ok (Value.text envelope_schema)
  pub request_of : member_of envelope "request_id" ≡ ok (Value.text v.request_id)
  pub problem_of : member_of envelope "problem_id" ≡ ok (Value.text problem_id)
  pub clerk_of : member_of envelope "clerk_key" ≡ ok (Value.text clerk_key)
  pub base_of : member_of envelope "base_event_hash" ≡ ok (optional_text v.base)
  pub kind_of : member_of envelope "kind" ≡ ok (Value.text v.kind)
  pub actor_of : member_of envelope "actor" ≡ ok v.actor
  pub payload_of : member_of envelope "payload" ≡ ok (Value.obj v.payload)
  pub signature_of : member_of envelope "signature" ≡ ok v.signature

-- What holds of the values.
pub record IsAdmitted (sys : Platform) (problem_id : String) (allowed : List String) (v : Envelope)
    : Type 0 where
  pub is_uuid : canonical_uuid (Value.text v.request_id) "request_id" ≡ ok v.request_id
  pub is_hash : event_hash (optional_text v.base) "base_event_hash" ≡ ok v.base
  pub is_kind : contains v.kind allowed ≡ true
  pub target : Value
  pub target_of : get_of (Value.obj v.payload) "problem_id" ≡ ok target
  pub targeted : is_text target problem_id ≡ true

pub canonical_uuid-eq-ok :
    (v : Value) (name : String) {s : String} → canonical_uuid v name ≡ ok s → v ≡ Value.text s
unfolding canonical_uuid
canonical_uuid-eq-ok (Value.text t) name h = ground arith
canonical_uuid-eq-ok Value.null name h = cc
canonical_uuid-eq-ok _ name h = cc

pub event_hash-eq-ok :
    (v : Value) (name : String) {o : Option String} → event_hash v name ≡ ok o → v ≡ optional_text o
unfolding event_hash
event_hash-eq-ok (Value.text t) name h = ground arith
event_hash-eq-ok Value.null name h = ap optional_text (ok_injective h)
event_hash-eq-ok _ name h = cc

pub is_one_of-text :
    (v : Value) (names : List String)
    → is_one_of v names ≡ true
    → (s : String) × (v ≡ Value.text s) × (contains s names ≡ true)
unfolding is_one_of
is_one_of-text (Value.text s) names h = (s, refl, h)
is_one_of-text Value.null names h = cc
is_one_of-text _ names h = cc

pub is_object-obj : (v : Value) → is_object v ≡ true → (ms : Members) × (v ≡ Value.obj ms)
unfolding is_object
is_object-obj (Value.obj ms) h = (ms, refl)
is_object-obj Value.null h = cc
is_object-obj _ h = cc

pub as_authentication-eq-ok :
    (r : Result (Unit {0})) (m : String) {u : Unit {0}} → as_authentication r m ≡ ok u → r ≡ ok u
unfolding as_authentication
as_authentication-eq-ok (ok u) m h = h
as_authentication-eq-ok (err crash) m h = cc
as_authentication-eq-ok (err (protocol s)) m h = cc
as_authentication-eq-ok (err _) m h = cc

pub record IsTarget (envelope : Value) (problem_id clerk_key : String) : Type 0 where
  pub request_id : String
  pub base : Option String
  pub has_all : has_fields envelope envelope_fields ≡ true
  pub schema_of : member_of envelope "schema" ≡ ok (Value.text envelope_schema)
  pub request_of : member_of envelope "request_id" ≡ ok (Value.text request_id)
  pub problem_of : member_of envelope "problem_id" ≡ ok (Value.text problem_id)
  pub clerk_of : member_of envelope "clerk_key" ≡ ok (Value.text clerk_key)
  pub base_of : member_of envelope "base_event_hash" ≡ ok (optional_text base)
  pub is_uuid : canonical_uuid (Value.text request_id) "request_id" ≡ ok request_id
  pub is_hash : event_hash (optional_text base) "base_event_hash" ≡ ok base

pub check_envelope_target-IsTarget :
    (envelope : Value) (problem_id clerk_key : String)
    → check_envelope_target envelope problem_id clerk_key ≡ ok tt
    → IsTarget envelope problem_id clerk_key
unfolding check_envelope_target
check_envelope_target-IsTarget envelope problem_id clerk h =
    let (_, fields, h1) =
      >>=-eq-ok
        (raise_if (not (has_fields envelope envelope_fields)) "remote envelope has invalid fields")
        _ h in
    let (schema, schema_of, h2) = >>=-eq-ok (member_of envelope "schema") _ h1 in
    let (_, schemed, h3) =
      >>=-eq-ok
        (raise_if (not (is_text schema envelope_schema)) "remote envelope schema is unsupported") _
        h2 in
    let (request, request_of, h4) = >>=-eq-ok (member_of envelope "request_id") _ h3 in
    let (id, is_uuid, h5) = >>=-eq-ok (canonical_uuid request "request_id") _ h4 in
    let (problem, problem_of, h6) = >>=-eq-ok (member_of envelope "problem_id") _ h5 in
    let (key, key_of, h7) = >>=-eq-ok (member_of envelope "clerk_key") _ h6 in
    let (_, both, h8) =
      >>=-eq-ok
        (raise_if (not (is_text problem problem_id && is_text key clerk))
          "remote envelope targets another problem or clerk")
        _ h7 in
    let (base, base_of, h9) = >>=-eq-ok (member_of envelope "base_event_hash") _ h8 in
    let (head, hashed, _) = >>=-eq-ok (event_hash base "base_event_hash") _ h9 in
    let (p, k) =
      raise_unless_both (is_text problem problem_id) (is_text key clerk)
        "remote envelope targets another problem or clerk" both in
    let same_request = canonical_uuid-eq-ok request "request_id" is_uuid in
    let same_base = event_hash-eq-ok base "base_event_hash" hashed in
    record {
      request_id = id;
      base = head;
      has_all = raise_unless-eq-ok _ "remote envelope has invalid fields" fields;
      schema_of =
          schema_of
          ∙ ap ok (
              is_text_lem schema envelope_schema
                (raise_unless-eq-ok _ "remote envelope schema is unsupported" schemed));
      request_of = request_of ∙ ap ok same_request;
      problem_of = problem_of ∙ ap ok (is_text_lem problem problem_id p);
      clerk_of = key_of ∙ ap ok (is_text_lem key clerk k);
      base_of = base_of ∙ ap ok same_base;
      is_uuid = subst (λ v. canonical_uuid v "request_id" ≡ ok id) same_request is_uuid;
      is_hash = subst (λ v. event_hash v "base_event_hash" ≡ ok head) same_base hashed;
    }
