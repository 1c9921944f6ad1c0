-- ===== src/Workspace/Log.antt =====
-- The second loop of `_events` of src/boule/workspace.py: each event of the log is authorized in the
-- state that the events before it project to, at its own time.
use daryxx_boule_protocol.Prelude.{String, List, [], ◌∷◌, ◌++◌, if◌then◌else◌}
use daryxx_boule_protocol.Python.{Result, ok, ◌>>=◌, ◌>>◌, contains}
use daryxx_boule_protocol.Crypto.{Platform}
use daryxx_boule_protocol.Workspace.State.{Config, Event, State}
use daryxx_boule_protocol.Workspace.Expiry.{state_from}
use daryxx_boule_protocol.Workspace.Authorize.{authorize, authorize_maintainer}

abbrev pub participant_events : List String
participant_events =
    "session_started" ∷ "work_claimed" ∷ "claim_heartbeat" ∷ "checkpoint_published"
    ∷ "message_posted" ∷ "claim_released" ∷ "handoff_published" ∷ "submission_candidate_published"
    ∷ []

module _ (sys : Platform) (config : Config) where
  unfoldable pub authorize_event : State → Event → Result (Unit {0})
  authorize_event s e =
      if contains e.kind participant_events
      then authorize sys config e.kind e.payload e.actor s e.received_at e.remote
      else authorize_maintainer sys config e.kind e.payload e.actor s e.received_at

  -- one round of the loop
  unfoldable pub validate_event : List Event → Event → Result (List Event)
  validate_event validated e = do
    s ← state_from config validated e.received_at
    authorize_event s e
    ok (validated ++ e ∷ [])

  -- the loop
  unfoldable pub validate_events : List Event → List Event → Result (List Event)
  unfolding validate_event
  validate_events validated [] = ok validated
  validate_events validated (e ∷ events) = do
    next ← validate_event validated e
    validate_events next events
