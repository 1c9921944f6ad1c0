-- ===== src/Workspace/Maintain.antt =====
-- `_authorize_maintainer` of src/boule/workspace.py: the receipt of an external submission, the
-- official feedback on it, and the resolution of the case.
use daryxx_boule_protocol.Prelude.{
  ℕ, String, Bool, true, false, not, ◌&&◌, Option, none, some, List, [], ◌∷◌, ltb, ◌==◌,
  if◌then◌else◌,
}
use daryxx_boule_protocol.Python.{
  protocol, crash, Result, ok, err, ◌>>=◌, ◌>>◌, raise_if, Dict, has_key, Value, is_text,
  same_value, is_optional_text, ◌+s◌,
}
use daryxx_boule_protocol.Crypto.{Platform}
use daryxx_boule_protocol.Model.{required, in_set}
use daryxx_boule_protocol.Workspace.State.{Config, CandidateStatus, same_status, Candidate, State}
use daryxx_boule_protocol.Workspace.Fields.{
  get_or_none, check_texts, checked_uuid, utc_time, checked_artifact,
}
use daryxx_boule_protocol.Workspace.Project.{key_of}
use daryxx_boule_protocol.Workspace.Status.{is_returned, problem_status, blocks_receipt}
use daryxx_boule_protocol.Workspace.Claims.{exact_fields, get_value}
use daryxx_boule_protocol.Workspace.Publish.{artifact_sha256, task_binding, is_empty}

abbrev pub common_fields : List String
common_fields =
    "problem_id" ∷ "candidate_id" ∷ "submission_id" ∷ "task_id" ∷ "task_commitment"
    ∷ "formal_repository_pin" ∷ "artifact_sha256" ∷ "public_result_url" ∷ "source" ∷ []

-- `_result_url`
unfoldable pub check_result_url : Value → String → Result (Unit {0})
check_result_url value submission_id =
    raise_if (not (is_text value ("https://conjectures.io/results/" +s submission_id)))
      "public result URL must match the external submission id"

-- `_external_source`; `ref` is `evidence["ref"]`
unfoldable pub check_source : Value → Option String → String → Value → Result (Unit {0})
check_source source expected ref result_url = do
  raise_if (not (is_optional_text source expected)) "external observation source is invalid"
  raise_if (not (is_text result_url ref))
      "external evidence must digest the canonical public result URL"

-- `_bound_candidate`
unfoldable pub bound_candidate : Config → Dict Value → State → Result Candidate
bound_candidate config p s = do
  found ← get_value (get_or_none p "candidate_id") s.candidates
  candidate ← elim found [ none ↦ err (protocol "candidate does not exist") | some c ↦ ok c ]
  task_binding config p
  sealed ← artifact_sha256 candidate.observation.payload
  raise_if (not (same_value (get_or_none p "artifact_sha256") sealed))
      "event artifact does not match the sealed candidate"
  ok candidate

-- `submission is None or submission["submission_id"] != p["submission_id"]`
unfoldable pub bound_submission : Candidate → Dict Value → String → Result (Unit {0})
bound_submission candidate p message = do
  submission ← elim candidate.submission [ none ↦ err (protocol message) | some o ↦ ok o ]
  known ← required submission.payload "submission_id"
  named ← required p "submission_id"
  raise_if (not (same_value known named)) message

module _ (sys : Platform) (config : Config) where
  unfoldable pub authorize_receipt : Dict Value → State → ℕ → Result (Unit {0})
  unfolding bound_candidate check_result_url check_source
  authorize_receipt p s now = do
    exact_fields p ("submitted_at" ∷ "receipt" ∷ common_fields)
        "invalid external_submission_receipted payload"
    candidate ← bound_candidate config p s
    raise_if (elim candidate.submission [ none ↦ false | some _ ↦ true ])
        "candidate already has an external submission"
    raise_if (not (same_status candidate.status CandidateStatus.candidate_ready))
        "candidate is not ready for external submission receipt"
    raise_if (blocks_receipt (problem_status s))
        "another submission state currently blocks external receipt"
    an_id ← required p "submission_id"
    submission_id ← checked_uuid an_id "submission_id"
    raise_if (has_key submission_id s.submission_ids) "external submission id is already bound"
    url ← required p "public_result_url"
    check_result_url url submission_id
    a_receipt ← required p "receipt"
    receipt ← checked_artifact a_receipt "submission receipt"
    source ← required p "source"
    check_source source (some "trusted-clerk/conjectures.io-submission") receipt.0 url
    submitted ← required p "submitted_at"
    submitted_at ← utc_time sys submitted
    raise_if (ltb now submitted_at) "external submission time cannot be in the future"
    ok tt

-- `{...}.get(stage)`
unfoldable pub expected_source : Value → Result (Option String)
expected_source (Value.text stage) = ok (
    if stage == "verifier"
    then some "trusted-clerk/conjectures.io-lean-verifier"
    else if stage == "review"
    then some "trusted-clerk/conjectures.io-human-review"
    else if stage == "reward"
    then some "trusted-clerk/conjectures.io-reward-eligibility"
    else none)
expected_source (Value.arr _) = err crash
expected_source (Value.obj _) = err crash
expected_source _ = ok none

unfoldable pub verifier_stage : Value → Candidate → Result (Unit {0})
verifier_stage decision candidate = do
  known ← in_set decision ("VERIFIED" ∷ "REJECTED" ∷ [])
  raise_if (not known) "invalid verifier decision"
  raise_if (not (same_status candidate.status CandidateStatus.verification_pending))
      "verifier feedback is not valid in the candidate state"

unfoldable pub review_stage : Value → Candidate → Result (Unit {0})
review_stage decision candidate = do
  known ← in_set decision ("APPROVED" ∷ "REJECTED" ∷ "PARTIAL_AWARD" ∷ [])
  raise_if (not known) "invalid review decision"
  raise_if (not (same_status candidate.status CandidateStatus.review_pending))
      "review feedback requires a Lean-verified candidate"

-- APPROVED, REJECTED or PARTIAL_AWARD
abbrev pub is_reviewed : CandidateStatus → Bool
is_reviewed CandidateStatus.approved = true
is_reviewed status = is_returned status

unfoldable pub reward_stage : Value → Candidate → Result (Unit {0})
reward_stage decision candidate = do
  known ← in_set decision ("ELIGIBLE" ∷ "INELIGIBLE" ∷ [])
  raise_if (not known) "invalid reward decision"
  raise_if (not (is_reviewed candidate.status)) "reward feedback requires a completed human review"
  raise_if (elim candidate.reward [ none ↦ false | some _ ↦ true ])
      "reward decision is already terminal"

unfoldable pub check_stage : Value → Value → Candidate → Result (Unit {0})
unfolding verifier_stage review_stage reward_stage
check_stage stage decision candidate =
    if is_text stage "verifier"
    then verifier_stage decision candidate
    else if is_text stage "review"
    then review_stage decision candidate
    else if is_text stage "reward"
    then reward_stage decision candidate
    else err (protocol "feedback stage must be verifier, review, or reward")

module _ (config : Config) where
  unfoldable pub authorize_feedback : Dict Value → State → Result (Unit {0})
  unfolding bound_candidate bound_submission check_result_url expected_source check_source
      check_stage
  authorize_feedback p s = do
    exact_fields p
        ("stage" ∷ "decision" ∷ "reason_code" ∷ "summary" ∷ "next_action" ∷ "report"
          ∷ common_fields)
        "invalid candidate_feedback_recorded payload"
    candidate ← bound_candidate config p s
    bound_submission candidate p "feedback is not bound to the candidate submission"
    url ← required p "public_result_url"
    submission_id ← key_of p "submission_id"
    check_result_url url submission_id
    a_report ← required p "report"
    report ← checked_artifact a_report "feedback report"
    stage ← required p "stage"
    expected ← expected_source stage
    source ← required p "source"
    check_source source expected report.0 url
    check_texts p ("reason_code" ∷ "summary" ∷ "next_action" ∷ []) 2000
    decision ← required p "decision"
    check_stage stage decision candidate

  -- `candidate["review"]` is there, and is the event that the payload names
  abbrev pub is_review : Candidate → Value → Bool
  is_review candidate event_id = elim candidate.review [
    | none ↦ false
    | some review ↦ is_text event_id review.event_id
  ]

  unfoldable pub authorize_resolution : Dict Value → State → Result (Unit {0})
  unfolding bound_candidate bound_submission check_result_url
  authorize_resolution p s = do
    exact_fields p ("resolution" ∷ "review_event_id" ∷ "note" ∷ common_fields)
        "invalid case_resolution_recorded payload"
    candidate ← bound_candidate config p s
    bound_submission candidate p "resolution is not bound to the candidate submission"
    url ← required p "public_result_url"
    submission_id ← key_of p "submission_id"
    check_result_url url submission_id
    source ← required p "source"
    raise_if (not (is_text source "trusted-clerk/conjectures.io-human-review"))
        "resolution source is invalid"
    review_event_id ← required p "review_event_id"
    resolution ← required p "resolution"
    raise_if
        (not (
          same_status candidate.status CandidateStatus.approved
          && is_review candidate review_event_id
          && is_text resolution "SOLVED"))
        "case resolution requires the exact approved review event"
    raise_if (not (is_empty s.resolutions)) "case already has a resolution"
    check_texts p ("note" ∷ []) 2000
