-- ===== src/Workspace/Clerk/Entries.antt =====
-- Event files of `_events` (src/boule/workspace.py): their fields, their place in the chain, and what
-- the second loop reads of them.
use daryxx_boule_protocol.Prelude.{
  ℕ, String, Bool, false, not, ◌&&◌, Option, none, some, List, [], ◌∷◌, ◌++◌, eqb,
}
use daryxx_boule_protocol.Python.{
  crash, Result, ok, err, ◌>>=◌, ◌>>◌, raise_if, Dict, Value, members, is_optional_text,
}
use daryxx_boule_protocol.Crypto.{Platform}
use daryxx_boule_protocol.Model.{as_text}
use daryxx_boule_protocol.Ledger.{member_of, is_object, has_fields}
use daryxx_boule_protocol.Remote.{is_one_of, natural}
use daryxx_boule_protocol.Workspace.Fields.{checked_text, utc_time}
use daryxx_boule_protocol.Workspace.State.{Event}
use daryxx_boule_protocol.Workspace.Log.{participant_events}

abbrev pub event_schema : String
event_schema = "boule-workspace-event/0.5"

-- `WORKSPACE_EVENTS`
abbrev pub workspace_events : List String
workspace_events =
    participant_events
    ++ "external_submission_receipted" ∷ "candidate_feedback_recorded" ∷ "case_resolution_recorded"
      ∷ []

-- `LEGACY_EVENT_FIELDS - {"event_hash", "signature"}`
abbrev pub unsigned_fields : List String
unsigned_fields =
    "seq" ∷ "event_id" ∷ "received_at" ∷ "kind" ∷ "actor" ∷ "payload" ∷ "prev_event_hash" ∷ []

-- `LEGACY_EVENT_FIELDS`
abbrev pub legacy_event_fields : List String
legacy_event_fields = unsigned_fields ++ "event_hash" ∷ "signature" ∷ []

-- `REMOTE_EVENT_FIELDS - {"event_hash", "clerk_receipt"}`
abbrev pub core_fields : List String
core_fields =
    "schema" ∷ "seq" ∷ "event_id" ∷ "received_at" ∷ "kind" ∷ "actor" ∷ "payload" ∷ "prev_event_hash"
    ∷ "request_id" ∷ "base_event_hash" ∷ "envelope_digest" ∷ "envelope_signature" ∷ []

-- `REMOTE_EVENT_FIELDS`
abbrev pub remote_event_fields : List String
remote_event_fields = core_fields ++ "event_hash" ∷ "clerk_receipt" ∷ []

-- an event that was read, with the text of its hash
pub record Logged : Type 0 where
  pub event : Event
  pub hash : String

-- what the loop keeps: the number of the next event, the hash and the time of the last one, and
-- `remote_request_ids`
pub record Walk : Type 0 where
  pub seq : ℕ
  pub previous : Option String
  pub last : Option ℕ
  pub request_ids : List String

abbrev pub walk_start : Walk
walk_start = record { seq = 0; previous = none; last = none; request_ids = [] }

unfoldable pub is_at : Value → ℕ → Bool
is_at v n = elim (natural v) [ some m ↦ eqb m n | none ↦ false ]

-- a payload that was checked to be an object
unfoldable pub as_dict : Value → Result (Dict Value)
as_dict (Value.obj ms) = ok (members ms)
as_dict _ = err crash

-- the fields, the place in the chain and the kind
unfoldable pub check_place : Walk → Value → Result (Unit {0})
unfolding is_at
check_place walk e = do
  raise_if (not (has_fields e legacy_event_fields) && not (has_fields e remote_event_fields))
      "event chain fields are invalid"
  seq ← member_of e "seq"
  prev ← member_of e "prev_event_hash"
  raise_if (not (is_at seq walk.seq && is_optional_text prev walk.previous))
      "event chain fields are invalid"
  kind ← member_of e "kind"
  raise_if (not (is_one_of kind workspace_events)) "unsupported workspace event"

-- the time, the id, and that the payload is an object
unfoldable pub check_shape : Platform → Value → Result (ℕ × String)
check_shape sys e = do
  received_at ← utc_time sys (← member_of e "received_at")
  event_id ← checked_text (← member_of e "event_id") "event_id" 128
  payload ← member_of e "payload"
  raise_if (not (is_object payload)) "event payload must be an object"
  ok (received_at, event_id)

-- the event as the second loop reads it
unfoldable pub logged_of : Value → ℕ → String → Result Logged
unfolding as_dict
logged_of e received_at event_id = do
  hash ← as_text (← member_of e "event_hash")
  kind ← as_text (← member_of e "kind")
  actor ← as_text (← member_of e "actor")
  payload ← as_dict (← member_of e "payload")
  let event : Event = record {
    event_id = event_id;
    received_at = received_at;
    kind = kind;
    actor = actor;
    payload = payload;
    remote = not (has_fields e legacy_event_fields);
  }
  ok (record { event = event; hash = hash })
