-- ===== src/Workspace/Clerk/Append.antt =====
-- `append_envelope`, `remote_receipt` and `remote_chain_proof` of src/boule/workspace.py.
use daryxx_boule_protocol.Prelude.{
  ℕ, ◌-◌, String, Bool, true, false, not, ◌&&◌, ◌||◌, Option, none, some, List, [], ◌∷◌, ◌++◌, ltb,
  ◌==◌, if◌then◌else◌, length, take, drop, find?, last?,
}
use daryxx_boule_protocol.Python.{
  Error, Error, protocol, request_conflict, stale_head, Result, ok, err, ◌>>=◌, ◌>>◌, raise_if,
  Dict, lookup, ℤ, Value, members, object, is_text, is_optional_text, optional_text,
}
use daryxx_boule_protocol.Crypto.{Moment, Platform, digest_object, public_key_text}
use daryxx_boule_protocol.Model.{as_text}
use daryxx_boule_protocol.Ledger.{member_of}
use daryxx_boule_protocol.Remote.{
  verify_envelope, envelope_digest, build_receipt, build_chain_proof, max_chain_proof_links,
}
use daryxx_boule_protocol.Workspace.State.{Config}
use daryxx_boule_protocol.Workspace.Expiry.{state_from}
use daryxx_boule_protocol.Workspace.Authorize.{authorize}
use daryxx_boule_protocol.Workspace.Log.{participant_events}
use daryxx_boule_protocol.Workspace.Clerk.Format.{stamp, event_id_of}
use daryxx_boule_protocol.Workspace.Clerk.Entries.{event_schema, Logged, as_dict}
use daryxx_boule_protocol.Workspace.Clerk.Load.{logged_before, hash_of, events_of, load_events}

-- `value.get("schema") == EVENT_SCHEMA and value.get("request_id") == request_id`
unfoldable pub answers : String → Value → Bool
answers request_id (Value.obj ms) =
    elim (lookup "schema" (members ms)) [ some v ↦ is_text v event_schema | none ↦ false ]
    && elim (lookup "request_id" (members ms)) [ some v ↦ is_text v request_id | none ↦ false ]
answers request_id _ = false

-- `max(now, _time(events[-1]["received_at"]))`, if there are events
unfoldable pub not_before : ℕ → Option Logged → ℕ
not_before now none = now
not_before now (some l) = if ltb now l.event.received_at then l.event.received_at else now

-- `core`
unfoldable pub core_of :
    ℕ
    → String
    → String
    → Value
    → Value
    → Value
    → Option String
    → Value
    → Value
    → String
    → Value
    → Dict Value
core_of seq event_id received_at kind actor payload current_head request_id base digest signature =
    ("schema", Value.text event_schema)
    ∷ ("seq", Value.int (ℤ.pos seq))
    ∷ ("event_id", Value.text event_id)
    ∷ ("received_at", Value.text received_at)
    ∷ ("kind", kind)
    ∷ ("actor", actor)
    ∷ ("payload", payload)
    ∷ ("prev_event_hash", optional_text current_head)
    ∷ ("request_id", request_id)
    ∷ ("base_event_hash", base)
    ∷ ("envelope_digest", Value.text digest)
    ∷ ("envelope_signature", signature)
    ∷ []

-- `if not test: raise e`
unfoldable pub unless : Bool → Error → Result (Unit {0})
unless true e = ok tt
unless false e = err e

-- what `append_envelope` returns, and the directory behind it
pub record Appended : Type 0 where
  pub created : Bool
  pub event : Value
  pub receipt : Value
  pub events : List Value

module _ (sys : Platform) (config : Config) where
  -- the event before it has a receipt
  unfoldable pub ordered_event : ℕ → String → Option String → Value → Result (Dict Value)
  unfolding core_of
  ordered_event seq received_at current_head envelope = do
    kind ← member_of envelope "kind"
    actor ← member_of envelope "actor"
    payload ← member_of envelope "payload"
    request_id ← member_of envelope "request_id"
    base ← member_of envelope "base_event_hash"
    signature ← member_of envelope "signature"
    let event_id = event_id_of seq (digest_object sys envelope)
    let digest = envelope_digest sys envelope
    let core =
        core_of seq event_id received_at kind actor payload current_head request_id base digest
          signature
    ok (core ++ ("event_hash", Value.text (digest_object sys (object core))) ∷ [])

  -- the case of a request id that an event has
  unfoldable pub answer_again : Value → List Value → Value → Result Appended
  unfolding unless
  answer_again envelope files previous = do
    digest ← member_of previous "envelope_digest"
    unless (is_text digest (envelope_digest sys envelope))
        (request_conflict "remote request id was reused with another envelope")
    receipt ← member_of previous "clerk_receipt"
    ok (record { created = false; event = previous; receipt = receipt; events = files })

  -- `_authorize` of what the envelope holds
  unfoldable pub authorize_envelope : List Logged → Value → ℕ → Result (Unit {0})
  unfolding as_dict events_of
  authorize_envelope events envelope now = do
    state ← state_from config (events_of events) now
    kind ← as_text (← member_of envelope "kind")
    payload ← as_dict (← member_of envelope "payload")
    actor ← as_text (← member_of envelope "actor")
    authorize sys config kind payload actor state now true

  -- the case of a new request id
  unfoldable pub order_envelope : String → ℕ → Value → List Value → List Logged → Result Appended
  unfolding unless hash_of not_before authorize_envelope ordered_event stamp
  order_envelope maintainer_private_key observed envelope files events = do
    let current_head = hash_of (last? events)
    base ← member_of envelope "base_event_hash"
    unless (is_optional_text base current_head) (stale_head current_head (length events))
    let now = not_before observed (last? events)
    authorize_envelope events envelope now
    fields ← ordered_event (length events) (stamp sys now) current_head envelope
    receipt ← build_receipt sys (object fields) config.problem_id maintainer_private_key
    let event = object (fields ++ ("clerk_receipt", receipt) ∷ [])
    ok (record { created = true; event = event; receipt = receipt; events = files ++ event ∷ [] })

  -- `append_envelope`; `stable` is what `json.loads(canonical_bytes(envelope))` gives
  unfoldable pub append_envelope :
      Option Value → String → Moment → List Value → List Value → Result Appended
  unfolding load_events answers answer_again order_envelope
  append_envelope stable maintainer_private_key observed files receipts = do
    raise_if (not (public_key_text sys maintainer_private_key == config.maintainer_key))
        "wrong maintainer key"
    envelope ← elim stable [
      | some v ↦ ok v
      | none ↦ err (protocol "remote envelope is not canonical JSON")
    ]
    verify_envelope sys envelope config.problem_id config.maintainer_key participant_events
    raise_if (not observed.aware) "workspace clock must return a timezone-aware datetime"
    events ← load_events sys config files receipts
    request_id ← as_text (← member_of envelope "request_id")
    elim (find? (answers request_id) files) [
      | some previous ↦ answer_again envelope files previous
      | none ↦ order_envelope maintainer_private_key observed.instant envelope files events
    ]

  -- `remote_receipt`
  unfoldable pub remote_receipt : String → String → List Value → List Value → Result (Option Value)
  unfolding load_events answers
  remote_receipt request_id maintainer_private_key files receipts = do
    raise_if (not (public_key_text sys maintainer_private_key == config.maintainer_key))
        "wrong maintainer key"
    events ← load_events sys config files receipts
    elim (find? (answers request_id) files) [
      | some event ↦ do receipt ← member_of event "clerk_receipt"; ok (some receipt)
      | none ↦ ok none
    ]

  -- `remote_chain_proof`
  unfoldable pub remote_chain_proof : ℕ → ℕ → String → List Value → List Value → Result Value
  unfolding load_events hash_of logged_before
  remote_chain_proof from_count to_count maintainer_private_key files receipts = do
    raise_if (not (public_key_text sys maintainer_private_key == config.maintainer_key))
        "wrong maintainer key"
    raise_if (ltb to_count from_count || ltb max_chain_proof_links (to_count - from_count))
        "chain proof range is invalid"
    events ← load_events sys config files receipts
    raise_if (ltb (length events) to_count) "chain proof range exceeds the event log"
    build_chain_proof sys config.problem_id (Value.int (ℤ.pos from_count))
        (hash_of (logged_before from_count events))
        (take (to_count - from_count) (drop from_count files)) maintainer_private_key
