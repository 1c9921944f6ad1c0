-- ===== src/Workspace/Authorize.antt =====
-- `_authorize` and `_authorize_maintainer` of src/boule/workspace.py, by the kind of the event. A
-- payload that is no object, which the first test refuses, is not a value of the model's payloads.
use daryxx_boule_protocol.Prelude.{ℕ, String, Bool, not, ◌==◌, if◌then◌else◌}
use daryxx_boule_protocol.Python.{
  protocol, Result, err, ◌>>=◌, ◌>>◌, raise_if, Dict, Value, is_text,
}
use daryxx_boule_protocol.Crypto.{Platform}
use daryxx_boule_protocol.Workspace.State.{Config, Session, Claim, State}
use daryxx_boule_protocol.Workspace.Fields.{get_or_none}
use daryxx_boule_protocol.Workspace.Claims.{
  authorize_session, active_session, authorize_message, authorize_claim, owned_claim,
  authorize_heartbeat, authorize_checkpoint, authorize_release,
}
use daryxx_boule_protocol.Workspace.Publish.{authorize_handoff, authorize_candidate}
use daryxx_boule_protocol.Workspace.Maintain.{
  authorize_receipt, authorize_feedback, authorize_resolution,
}

module _ (sys : Platform) (config : Config) where
  -- the kinds that act on a claim
  unfoldable pub authorize_on_claim : String → Dict Value → Claim → State → ℕ → Result (Unit {0})
  authorize_on_claim kind p claim s now =
      if kind == "claim_heartbeat"
      then authorize_heartbeat config p claim now
      else if kind == "checkpoint_published"
      then authorize_checkpoint p
      else if kind == "claim_released"
      then authorize_release p
      else if kind == "handoff_published"
      then authorize_handoff p s
      else err (protocol "unsupported participant event")

  -- the kinds that need a session
  unfoldable pub authorize_in_session :
      String → Dict Value → Session → State → ℕ → Result (Unit {0})
  unfolding authorize_on_claim
  authorize_in_session kind p session s now =
      let on_claim = owned_claim p session s >>= λ claim. authorize_on_claim kind p claim s now in
      if kind == "submission_candidate_published"
      then authorize_candidate config p s
      else if kind == "message_posted"
      then authorize_message p s
      else if kind == "work_claimed"
      then authorize_claim p session s
      else on_claim

  -- `_authorize`
  unfoldable pub authorize : String → Dict Value → String → State → ℕ → Bool → Result (Unit {0})
  unfolding authorize_in_session
  authorize kind p actor s now remote = do
    raise_if (not (is_text (get_or_none p "problem_id") config.problem_id))
        "event belongs to another problem"
    let in_session = active_session sys config p actor s now >>= λ session.
        authorize_in_session kind p session s now
    (if kind == "session_started"
        then authorize_session sys config p actor s now remote
        else in_session)

  -- `_authorize_maintainer`
  unfoldable pub authorize_maintainer : String → Dict Value → String → State → ℕ → Result (Unit {0})
  authorize_maintainer kind p actor s now = do
    raise_if (not (actor == config.maintainer_key))
        "submission observations require the maintainer key"
    raise_if (not (is_text (get_or_none p "problem_id") config.problem_id))
        "event belongs to another problem"
    (if kind == "external_submission_receipted"
        then authorize_receipt sys config p s now
        else if kind == "candidate_feedback_recorded"
        then authorize_feedback config p s
        else if kind == "case_resolution_recorded"
        then authorize_resolution config p s
        else err (protocol "unsupported maintainer event"))
