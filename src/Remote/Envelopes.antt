-- ===== src/Remote/Envelopes.antt =====
-- Envelopes of src/boule/remote_protocol.py: what a participant signs for one clerk.
use daryxx_boule_protocol.Prelude.{
  ◌&&◌, String, Bool, false, not, Option, List, [], ◌∷◌, ◌++◌, if◌then◌else◌,
}
use daryxx_boule_protocol.Python.{
  authentication, Result, ok, err, ◌>>=◌, ◌>>◌, raise_if, is_protocol_error, Dict, contains, Value,
  object, is_text, optional_text,
}
use daryxx_boule_protocol.Crypto.{
  Platform, public_key_text, load_public_key, sign_object, verify_object,
}
use daryxx_boule_protocol.Ledger.{member_of, get_of, is_object, has_fields, clerk_key}
use daryxx_boule_protocol.Remote.Checks.{canonical_uuid, event_hash, prefixed_digest}

abbrev pub envelope_schema : String
envelope_schema = "boule-workspace-envelope/0.5"

-- `ENVELOPE_FIELDS - {"signature"}`; a set has no order, and `json.dumps` sorts the keys
abbrev pub unsigned_envelope_fields : List String
unsigned_envelope_fields =
    "schema" ∷ "request_id" ∷ "problem_id" ∷ "clerk_key" ∷ "base_event_hash" ∷ "kind" ∷ "actor"
    ∷ "payload" ∷ []

-- `ENVELOPE_FIELDS`
abbrev pub envelope_fields : List String
envelope_fields =
    "schema" ∷ "request_id" ∷ "problem_id" ∷ "clerk_key" ∷ "base_event_hash" ∷ "kind" ∷ "actor"
    ∷ "payload" ∷ "signature" ∷ []

-- `{key: d[key] for key in names}`
unfoldable pub select : Value → List String → Result (Dict Value)
select value [] = ok []
select value (name ∷ names) = do
  v ← member_of value name
  rest ← select value names
  ok ((name, v) ∷ rest)

unfoldable pub envelope_unsigned : Value → Result Value
envelope_unsigned envelope = do
  fields ← select envelope unsigned_envelope_fields
  ok (object (("domain", Value.text "boule-workspace-envelope-v0.5") ∷ fields))

-- `except ProtocolError as exc: raise AuthenticationError(message) from exc`
unfoldable pub as_authentication : Result (Unit {0}) → String → Result (Unit {0})
as_authentication (ok u) message = ok u
as_authentication (err e) message =
    if is_protocol_error e then err (authentication message) else err e

-- `isinstance(value, str) and value in kinds`
unfoldable pub is_one_of : Value → List String → Bool
is_one_of (Value.text s) names = contains s names
is_one_of _ names = false

-- the fields, the schema, the request id, the problem and the clerk, and the base
unfoldable pub check_envelope_target : Value → String → String → Result (Unit {0})
check_envelope_target envelope problem_id clerk_key = do
  raise_if (not (has_fields envelope envelope_fields)) "remote envelope has invalid fields"
  schema ← member_of envelope "schema"
  raise_if (not (is_text schema envelope_schema)) "remote envelope schema is unsupported"
  request_id ← member_of envelope "request_id"
  canonical_uuid request_id "request_id"
  problem ← member_of envelope "problem_id"
  clerk ← member_of envelope "clerk_key"
  raise_if (not (is_text problem problem_id && is_text clerk clerk_key))
      "remote envelope targets another problem or clerk"
  base ← member_of envelope "base_event_hash"
  event_hash base "base_event_hash"
  ok tt

-- the kind and the payload
unfoldable pub check_envelope_event : Value → String → List String → Result (Unit {0})
unfolding is_one_of
check_envelope_event envelope problem_id allowed_kinds = do
  kind ← member_of envelope "kind"
  raise_if (not (is_one_of kind allowed_kinds)) "remote envelope event kind is not admitted"
  payload ← member_of envelope "payload"
  raise_if (not (is_object payload)) "remote envelope payload must be an object"
  target ← get_of payload "problem_id"
  raise_if (not (is_text target problem_id)) "remote envelope payload belongs to another problem"

module _ (sys : Platform) where
  unfoldable pub build_envelope :
      String → String → String → Option String → String → Value → String → Result Value
  build_envelope request_id problem_id clerk_key base_event_hash kind payload private_key = do
    let actor = Value.text (public_key_text sys private_key)
    request ← canonical_uuid (Value.text request_id) "request_id"
    base ← event_hash (optional_text base_event_hash) "base_event_hash"
    let envelope =
        ("schema", Value.text envelope_schema)
        ∷ ("request_id", Value.text request)
        ∷ ("problem_id", Value.text problem_id)
        ∷ ("clerk_key", Value.text clerk_key)
        ∷ ("base_event_hash", optional_text base)
        ∷ ("kind", Value.text kind)
        ∷ ("actor", actor)
        ∷ ("payload", payload)
        ∷ []
    body ← envelope_unsigned (object envelope)
    ok (object (envelope ++ ("signature", Value.text (sign_object sys private_key body)) ∷ []))

  -- the body of the `try`
  unfoldable pub check_envelope_signature : Value → Result (Unit {0})
  check_envelope_signature envelope = do
    actor ← member_of envelope "actor"
    load_public_key sys actor
    body ← envelope_unsigned envelope
    signature ← member_of envelope "signature"
    verify_object sys actor body signature

  unfoldable pub verify_envelope : Value → String → String → List String → Result Value
  unfolding as_authentication check_envelope_signature check_envelope_target check_envelope_event
  verify_envelope envelope problem_id clerk_key allowed_kinds = do
    check_envelope_target envelope problem_id clerk_key
    check_envelope_event envelope problem_id allowed_kinds
    as_authentication (check_envelope_signature envelope)
        "remote envelope signature verification failed"
    ok envelope

  unfoldable pub envelope_digest : Value → String
  envelope_digest envelope = prefixed_digest sys envelope
