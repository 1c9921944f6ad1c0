-- ===== src/Workspace/Project.antt =====
-- `_state_from` of src/boule/workspace.py: the loop over the log. It reads what `_authorize` has checked; a missing
-- key is a crash.
use daryxx_boule_protocol.Prelude.{
  ℕ, ◌+◌, String, Option, none, some, List, [], ◌∷◌, ◌++◌, ◌==◌, if◌then◌else◌,
}
use daryxx_boule_protocol.Python.{
  crash, Result, ok, err, ◌>>=◌, or_crash, Dict, lookup, insert, Value, is_text,
}
use daryxx_boule_protocol.Model.{required, as_text}
use Prim.Native.Nat.{min}
use daryxx_boule_protocol.Workspace.State.{
  Config, Event, ClaimStatus, Claim, Observation, Handoff, CandidateStatus, Candidate, State,
}
use daryxx_boule_protocol.Workspace.Fields.{plus_seconds}

-- `p[key]`, a text
unfoldable pub key_of : Dict Value → String → Result String
unfolding required as_text
key_of p key = do value ← required p key; as_text value

abbrev pub observed : Event → Observation
observed e = record { event_id = e.event_id; received_at = e.received_at; payload = e.payload }

unfoldable pub session_started : State → Event → Result State
session_started s e = do
  session_id ← key_of e.payload "session_id"
  session_key ← key_of e.payload "session_key"
  participant_id ← required e.payload "participant_id"
  not_after ← required e.payload "not_after"
  ok (record s {
    sessions =
        insert session_id
          (record {
            session_id = session_id;
            participant_id = participant_id;
            not_after = not_after;
            payload = e.payload;
            active_claim = none;
          })
          s.sessions;
    session_keys = insert session_key session_id s.session_keys;
  })

-- `s["sessions"][session_id]["active_claim"] = claim`
unfoldable pub set_active_claim : State → String → Option String → Result State
set_active_claim s session_id claim = do
  session ← or_crash (lookup session_id s.sessions)
  ok (record s {
    sessions = insert session_id (record session { active_claim = claim }) s.sessions;
  })

-- `c`, once its two limits are there
unfoldable pub claim_of : String → String → Event → ℕ → ℕ → Claim
claim_of claim_id session_id e limit absolute = record {
  claim_id = claim_id;
  session_id = session_id;
  payload = e.payload;
  opened_at = e.received_at;
  last_activity = e.received_at;
  deadline = min limit absolute;
  absolute_deadline = absolute;
  renewals = 0;
  status = ClaimStatus.active;
}

unfoldable pub new_claim : Config → String → String → Event → Result Claim
unfolding claim_of
new_claim config claim_id session_id e = do
  absolute ← plus_seconds e.received_at config.absolute_lease_seconds
  limit ← plus_seconds e.received_at config.lease_seconds
  ok (claim_of claim_id session_id e limit absolute)

unfoldable pub work_claimed : Config → State → Event → Result State
unfolding new_claim
work_claimed config s e = do
  claim_id ← key_of e.payload "claim_id"
  session_id ← key_of e.payload "session_id"
  claim ← new_claim config claim_id session_id e
  set_active_claim (record s { claims = insert claim_id claim s.claims }) session_id (some claim_id)

-- `c` after a heartbeat, once its new limit is there
unfoldable pub renewed_until : ℕ → ℕ → Claim → Claim
renewed_until limit at c = record c {
  renewals = c.renewals + 1;
  last_activity = at;
  deadline = min limit c.absolute_deadline;
}

unfoldable pub renewed : Config → ℕ → Claim → Result Claim
unfolding renewed_until
renewed config at c = do limit ← plus_seconds at config.lease_seconds; ok (renewed_until limit at c)

unfoldable pub claim_heartbeat : Config → State → Event → Result State
unfolding renewed
claim_heartbeat config s e = do
  claim_id ← key_of e.payload "claim_id"
  c ← or_crash (lookup claim_id s.claims)
  next ← renewed config e.received_at c
  ok (record s { claims = insert claim_id next s.claims })

-- the end of a claim: it is released, or completed by a handoff
unfoldable pub close_claim : State → Event → ClaimStatus → Result State
close_claim s e status = do
  claim_id ← key_of e.payload "claim_id"
  c ← or_crash (lookup claim_id s.claims)
  session_id ← key_of e.payload "session_id"
  set_active_claim (record s { claims = insert claim_id (record c { status = status }) s.claims })
      session_id none

unfoldable pub handoff_published : State → Event → Result State
handoff_published s e = do
  t ← close_claim s e ClaimStatus.completed
  handoff_id ← key_of e.payload "handoff_id"
  let handoff : Handoff = record { handoff_id = handoff_id; observation = observed e }
  ok (record t {
    handoffs = t.handoffs ++ handoff ∷ [];
    handoff_ids = handoff_id ∷ t.handoff_ids;
    handoffs_by_id = insert handoff_id handoff t.handoffs_by_id;
  })

unfoldable pub submission_candidate_published : State → Event → Result State
submission_candidate_published s e = do
  candidate_id ← key_of e.payload "candidate_id"
  ok (record s {
    candidates =
        insert candidate_id
          (record {
            candidate_id = candidate_id;
            observation = observed e;
            status = CandidateStatus.candidate_ready;
            submission = none;
            verifier = none;
            review = none;
            reward = none;
            feedback = [];
          })
          s.candidates;
  })

unfoldable pub external_submission_receipted : State → Event → Result State
external_submission_receipted s e = do
  candidate_id ← key_of e.payload "candidate_id"
  candidate ← or_crash (lookup candidate_id s.candidates)
  submission_id ← key_of e.payload "submission_id"
  ok (record s {
    candidates =
        insert candidate_id
          (record candidate {
            status = CandidateStatus.verification_pending;
            submission = some (observed e);
          })
          s.candidates;
    submission_ids = insert submission_id candidate_id s.submission_ids;
  })

unfoldable pub verifier_feedback : Candidate → Event → Result Candidate
verifier_feedback candidate e = do
  decision ← required e.payload "decision"
  ok (record candidate {
    verifier = some (observed e);
    status =
        if is_text decision "VERIFIED"
        then CandidateStatus.review_pending
        else CandidateStatus.rejected;
  })

-- the table of a review's decisions
unfoldable pub reviewed : Value → Result CandidateStatus
reviewed decision =
    if is_text decision "APPROVED"
    then ok CandidateStatus.approved
    else if is_text decision "REJECTED"
    then ok CandidateStatus.rejected
    else if is_text decision "PARTIAL_AWARD"
    then ok CandidateStatus.partial_award
    else err crash

unfoldable pub review_feedback : Candidate → Event → Result Candidate
review_feedback candidate e = do
  decision ← required e.payload "decision"
  status ← reviewed decision
  ok (record candidate { review = some (observed e); status = status })

abbrev pub note_feedback : Candidate → Event → Candidate
note_feedback candidate e = record candidate { feedback = candidate.feedback ++ observed e ∷ [] }

-- what a feedback event makes of its candidate, by the stage and the decision
unfoldable pub with_feedback : Candidate → Event → Value → Result Candidate
with_feedback candidate e stage =
    if is_text stage "verifier"
    then verifier_feedback (note_feedback candidate e) e
    else if is_text stage "review"
    then review_feedback (note_feedback candidate e) e
    else ok (record (note_feedback candidate e) { reward = some (observed e) })

unfoldable pub candidate_feedback_recorded : State → Event → Result State
candidate_feedback_recorded s e = do
  candidate_id ← key_of e.payload "candidate_id"
  candidate ← or_crash (lookup candidate_id s.candidates)
  stage ← required e.payload "stage"
  next ← with_feedback candidate e stage
  ok (record s {
    candidates = insert candidate_id next s.candidates;
    feedback = s.feedback ++ observed e ∷ [];
  })

-- one round of the loop over the events
unfoldable pub project_kind : Config → State → String → Event → Result State
project_kind config s kind e =
    if kind == "session_started"
    then session_started s e
    else if kind == "work_claimed"
    then work_claimed config s e
    else if kind == "claim_heartbeat"
    then claim_heartbeat config s e
    else if kind == "checkpoint_published"
    then ok (record s { checkpoints = s.checkpoints ++ observed e ∷ [] })
    else if kind == "message_posted"
    then ok (record s { messages = s.messages ++ observed e ∷ [] })
    else if kind == "claim_released"
    then close_claim s e ClaimStatus.released
    else if kind == "handoff_published"
    then handoff_published s e
    else if kind == "submission_candidate_published"
    then submission_candidate_published s e
    else if kind == "external_submission_receipted"
    then external_submission_receipted s e
    else if kind == "candidate_feedback_recorded"
    then candidate_feedback_recorded s e
    else if kind == "case_resolution_recorded"
    then ok (record s { resolutions = s.resolutions ++ observed e ∷ [] })
    else ok s

unfoldable pub project_event : Config → State → Event → Result State
unfolding project_kind
project_event config s e = project_kind config s e.kind e

unfoldable pub project_all : Config → State → List Event → Result State
project_all config s [] = ok s
project_all config s (e ∷ events) = do
  next ← project_event config s e
  project_all config next events
