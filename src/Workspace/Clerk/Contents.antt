-- ===== src/Workspace/Clerk/Contents.antt =====
-- The first loop of `_events` of src/boule/workspace.py: the ids, the hashes and the signatures of each
-- event.
use daryxx_boule_protocol.Prelude.{ℕ, ◌+◌, String, not, some, List, [], ◌∷◌, if◌then◌else◌}
use daryxx_boule_protocol.Python.{
  Result, ok, ◌>>=◌, ◌>>◌, raise_if, Value, object, list, is_text, same_value,
}
use daryxx_boule_protocol.Crypto.{Platform, digest_object, load_public_key, verify_object}
use daryxx_boule_protocol.Model.{as_text, in_set}
use daryxx_boule_protocol.Ledger.{member_of, has_fields, moved_back}
use daryxx_boule_protocol.Remote.{
  envelope_schema, select, is_one_of, verify_envelope, envelope_digest, verify_receipt,
}
use daryxx_boule_protocol.Workspace.State.{Config}
use daryxx_boule_protocol.Workspace.Log.{participant_events}
use daryxx_boule_protocol.Workspace.Clerk.Format.{event_id_of}
use daryxx_boule_protocol.Workspace.Clerk.Entries.{
  event_schema, unsigned_fields, legacy_event_fields, core_fields, Logged, Walk, check_place,
  check_shape, logged_of,
}

-- the keys that a receipt and its event have in common
abbrev pub shared_fields : List String
shared_fields =
    "seq" ∷ "event_id" ∷ "received_at" ∷ "prev_event_hash" ∷ "event_hash" ∷ "envelope_digest" ∷ []

-- the loop `for key in (...): if receipt[key] != e[key]: raise`
unfoldable pub same_fields : Value → Value → List String → Result (Unit {0})
same_fields receipt e [] = ok tt
same_fields receipt e (key ∷ names) = do
  v ← member_of receipt key
  w ← member_of e key
  raise_if (not (same_value v w)) "remote clerk receipt does not match its event"
  same_fields receipt e names

module _ (sys : Platform) (config : Config) where
  -- the branch on `LEGACY_EVENT_FIELDS`
  unfoldable pub verify_legacy : ℕ → Value → Result (Unit {0})
  verify_legacy seq e = do
    kind ← member_of e "kind"
    payload ← member_of e "payload"
    received_at ← member_of e "received_at"
    event_id ← member_of e "event_id"
    let identity_digest = digest_object sys (list (kind ∷ payload ∷ received_at ∷ []))
    raise_if (not (is_text event_id (event_id_of seq identity_digest)))
        "event id does not match its signed contents"
    actor ← member_of e "actor"
    load_public_key sys actor
    fields ← select e unsigned_fields
    hash ← member_of e "event_hash"
    raise_if (not (is_text hash (digest_object sys (object fields)))) "event hash mismatch"
    signature ← member_of e "signature"
    verify_object sys actor (object fields) signature

  -- the `envelope` of a remote event
  unfoldable pub envelope_of : Value → Result Value
  envelope_of e = do
    request_id ← member_of e "request_id"
    base ← member_of e "base_event_hash"
    kind ← member_of e "kind"
    actor ← member_of e "actor"
    payload ← member_of e "payload"
    signature ← member_of e "envelope_signature"
    ok (
        object (
          ("schema", Value.text envelope_schema)
          ∷ ("request_id", request_id)
          ∷ ("problem_id", Value.text config.problem_id)
          ∷ ("clerk_key", Value.text config.maintainer_key)
          ∷ ("base_event_hash", base)
          ∷ ("kind", kind)
          ∷ ("actor", actor)
          ∷ ("payload", payload)
          ∷ ("signature", signature)
          ∷ []))

  -- the tests before the envelope is rebuilt
  unfoldable pub check_remote : List String → Value → Result String
  check_remote request_ids e = do
    kind ← member_of e "kind"
    raise_if (not (is_one_of kind participant_events))
        "remote event kind is not a participant event"
    base ← member_of e "base_event_hash"
    prev ← member_of e "prev_event_hash"
    raise_if (not (same_value base prev)) "remote event base does not match its ordered predecessor"
    request_id ← member_of e "request_id"
    seen ← in_set request_id request_ids
    raise_if seen "remote request id is not unique"
    envelope ← envelope_of e
    verify_envelope sys envelope config.problem_id config.maintainer_key participant_events
    as_text request_id

  -- the tests on the digest, the id, the hash and the receipt
  unfoldable pub check_ordered : ℕ → String → Value → Result (Unit {0})
  unfolding same_fields
  check_ordered seq request_id e = do
    envelope ← envelope_of e
    digest ← member_of e "envelope_digest"
    raise_if (not (is_text digest (envelope_digest sys envelope)))
        "remote event envelope digest mismatch"
    event_id ← member_of e "event_id"
    raise_if (not (is_text event_id (event_id_of seq (digest_object sys envelope))))
        "remote event id does not match its envelope"
    core ← select e core_fields
    hash ← member_of e "event_hash"
    raise_if (not (is_text hash (digest_object sys (object core)))) "remote event hash mismatch"
    clerk_receipt ← member_of e "clerk_receipt"
    receipt ←
        verify_receipt sys clerk_receipt config.problem_id config.maintainer_key (some request_id)
          (some envelope)
    same_fields receipt e shared_fields

  -- the branch on `EVENT_SCHEMA`: the request ids with the event's
  unfoldable pub verify_remote : ℕ → List String → Value → Result (List String)
  unfolding check_remote check_ordered
  verify_remote seq request_ids e = do
    schema ← member_of e "schema"
    raise_if (not (is_text schema event_schema)) "remote event schema is unsupported"
    request_id ← check_remote request_ids e
    check_ordered seq request_id e
    ok (request_id ∷ request_ids)

  -- the branches
  unfoldable pub verify_contents : ℕ → List String → Value → Result (List String)
  unfolding verify_legacy verify_remote
  verify_contents seq request_ids e =
      if has_fields e legacy_event_fields
      then verify_legacy seq e >> ok request_ids
      else verify_remote seq request_ids e

  -- the body of the loop
  unfoldable pub read_event : Walk → Value → Result (Walk × Logged)
  unfolding verify_contents check_place check_shape logged_of
  read_event walk e = do
    check_place walk e
    (received_at, event_id) ← check_shape sys e
    request_ids ← verify_contents walk.seq walk.request_ids e
    raise_if (moved_back walk.last received_at) "event receipt times must be monotonic"
    logged ← logged_of e received_at event_id
    ok (
      record {
        seq = walk.seq + 1;
        previous = some logged.hash;
        last = some received_at;
        request_ids = request_ids;
      },
      logged,
    )

  -- the loop
  unfoldable pub read_events : Walk → List Value → Result (Walk × List Logged)
  unfolding read_event
  read_events walk [] = ok (walk, [])
  read_events walk (e ∷ events) = do
    (next, logged) ← read_event walk e
    (end, rest) ← read_events next events
    ok (end, logged ∷ rest)
