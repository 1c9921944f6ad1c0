-- ===== src/Workspace/Status.antt =====
-- `_problem_status` and `_research_resume` of src/boule/workspace.py: where the problem stands, and
-- what a researcher does next.
use daryxx_boule_protocol.Prelude.{
  String, Bool, true, false, not, ◌||◌, Option, none, some, List, [], ◌∷◌, eqb, if◌then◌else◌,
  length,
}
use daryxx_boule_protocol.Python.{crash, Result, ok, err, ◌>>=◌, or_crash, values, Value}
use daryxx_boule_protocol.Model.{required}
use daryxx_boule_protocol.Workspace.State.{
  Observation, CandidateStatus, same_status, Candidate, State,
}

pub data ProblemStatus : Type 0 where
  solved acceptance_recorded review_pending verification_pending : ProblemStatus
  candidate_ready open_after_feedback open_problem : ProblemStatus

-- `status in {candidate["status"] for candidate in candidates}`
unfoldable pub any_status : CandidateStatus → List Candidate → Bool
any_status status [] = false
any_status status (c ∷ cs) = same_status c.status status || any_status status cs

abbrev pub is_returned : CandidateStatus → Bool
is_returned CandidateStatus.rejected = true
is_returned CandidateStatus.partial_award = true
is_returned _ = false

unfoldable pub problem_status : State → ProblemStatus
problem_status s =
    let candidates = values s.candidates in
    if not (eqb (length s.resolutions) 0)
    then ProblemStatus.solved
    else if any_status CandidateStatus.approved candidates
    then ProblemStatus.acceptance_recorded
    else if any_status CandidateStatus.review_pending candidates
    then ProblemStatus.review_pending
    else if any_status CandidateStatus.verification_pending candidates
    then ProblemStatus.verification_pending
    else if any_status CandidateStatus.candidate_ready candidates
    then ProblemStatus.candidate_ready
    else if any_status CandidateStatus.rejected candidates
        || any_status CandidateStatus.partial_award candidates
    then ProblemStatus.open_after_feedback
    else ProblemStatus.open_problem

abbrev pub is_solved : ProblemStatus → Bool
is_solved ProblemStatus.solved = true
is_solved _ = false

-- the states in which no external submission may be receipted
abbrev pub blocks_receipt : ProblemStatus → Bool
blocks_receipt ProblemStatus.verification_pending = true
blocks_receipt ProblemStatus.review_pending = true
blocks_receipt ProblemStatus.acceptance_recorded = true
blocks_receipt ProblemStatus.solved = true
blocks_receipt _ = false

pub data Action : Type 0 where
  start_or_resume_research await_external_submission await_official_feedback : Action
  stop_research_preserve_evidence await_trusted_clerk_finalization : Action
  continue_research_from_feedback : Action

-- `submission_id` is absent where the source does not set it
pub record Resume : Type 0 where
  pub action : Action
  pub candidate_id : Option String
  pub submission_id : Option Value
  pub feedback : Option Observation

-- `next(c for c in candidates if c["status"] == status)`, with `StopIteration` as a crash
unfoldable pub first_with : (CandidateStatus → Bool) → List Candidate → Result Candidate
first_with test [] = err crash
first_with test (c ∷ cs) = if test c.status then ok c else first_with test cs

-- the same over `reversed(list(candidates))`
unfoldable pub last_with : (CandidateStatus → Bool) → List Candidate → Result Candidate
last_with test [] = err crash
last_with test (c ∷ cs) = elim (last_with test cs) [
  | ok d ↦ ok d
  | err _ ↦ if test c.status then ok c else err crash
]

-- `candidate["submission"]["submission_id"]`; a submission that is not there is a crash
unfoldable pub submission_of : Candidate → Result Value
unfolding required
submission_of c = do submission ← or_crash c.submission; required submission.payload "submission_id"

unfoldable pub resume_candidate : Action → Candidate → Option Observation → Result Resume
unfolding submission_of
resume_candidate action c feedback = do
  submission_id ← submission_of c
  ok (record {
    action = action;
    candidate_id = some c.candidate_id;
    submission_id = some submission_id;
    feedback = feedback;
  })

-- `returned["review"] or returned["verifier"]`; an observation is never an empty object
abbrev pub or_else : Option Observation → Option Observation → Option Observation
or_else (some o) other = some o
or_else none other = other

unfoldable pub resume_at : ProblemStatus → List Candidate → Result Resume
unfolding resume_candidate last_with first_with
resume_at ProblemStatus.open_problem cs = ok (record {
  action = Action.start_or_resume_research;
  candidate_id = none;
  submission_id = none;
  feedback = none;
})
resume_at ProblemStatus.candidate_ready cs = do
  ready ← last_with (same_status CandidateStatus.candidate_ready) cs
  ok (record {
    action = Action.await_external_submission;
    candidate_id = some ready.candidate_id;
    submission_id = none;
    feedback = none;
  })
resume_at ProblemStatus.verification_pending cs = do
  pending ← last_with (same_status CandidateStatus.verification_pending) cs
  resume_candidate Action.await_official_feedback pending none
resume_at ProblemStatus.review_pending cs = do
  pending ← last_with (same_status CandidateStatus.review_pending) cs
  resume_candidate Action.await_official_feedback pending pending.verifier
resume_at ProblemStatus.acceptance_recorded cs = do
  accepted ← first_with (same_status CandidateStatus.approved) cs
  resume_candidate Action.await_trusted_clerk_finalization accepted accepted.review
resume_at ProblemStatus.solved cs = do
  accepted ← first_with (same_status CandidateStatus.approved) cs
  resume_candidate Action.stop_research_preserve_evidence accepted accepted.review
resume_at ProblemStatus.open_after_feedback cs = do
  returned ← last_with is_returned cs
  resume_candidate Action.continue_research_from_feedback returned
      (or_else returned.review returned.verifier)

-- `_research_resume`
unfoldable pub research_resume : State → Result Resume
unfolding resume_at problem_status
research_resume s = resume_at (problem_status s) (values s.candidates)
