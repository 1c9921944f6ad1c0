-- ===== src/Tests/Logs.antt =====
-- A log of src/boule/workspace.py, from the first session to the resolution of the case.
use daryxx_boule_protocol.Prelude.{ℕ, String, ◌≡◌, refl, true, false, List, [], ◌∷◌, ◌++◌, length}
use daryxx_boule_protocol.Python.{
  is_sha256, is_uuid_at, ends_with_z, ok, Dict, contains, distinct, subset, same_set, lookup,
  insert, keys, values, AllValues, Value, items, members, object, list, texts, is_text, number_of,
  same_number, is_number, same_value, find_member, size, same_items, same_members, both_numbers,
  is_optional_text, array, of_members, is_blank, text_length, is_hex_text, startswith, removeprefix,
  text_le, sorted, insert_sorted, codes_le,
}
use daryxx_boule_protocol.Crypto.{
  canonical_bytes, digest_object, public_key_text, load_public_key, sign_object, verify_object,
  rstrip_padding, padding, encode, decode,
}
use daryxx_boule_protocol.Model.{
  required, as_text, mapping, exact_keys, text_field, integer_field, hex_digest, parse_time,
  replace_z, in_set, text_list, validate_case, validate_reviewer, roster_digest,
  validate_contribution, validate_technical_receipt, validate_ballot, is_case_id, objective_texts,
  validate_objective, agent_keys, validate_agents, controller_texts, validate_controllers,
  criterion_weights, validate_criteria, validate_policy, same_times, distinct_times,
  validate_deadlines, validate_roster, agent_scores, evidence_refs, validate_finding,
  validate_scores, criterion_reviews,
}
use daryxx_boule_protocol.Workspace.{
  Config, Event, get_or_none, checked_text, check_texts, checked_sha256, checked_uuid, utc_time,
  reference, checked_artifact, has_pair, evidence_items, checked_evidence, unique_texts, key_of,
  session_started, set_active_claim, plus_seconds, claim_of, new_claim, work_claimed, renewed_until,
  renewed, claim_heartbeat, close_claim, handoff_published, submission_candidate_published,
  external_submission_receipted, verifier_feedback, reviewed, review_feedback, with_feedback,
  candidate_feedback_recorded, project_kind, project_event, project_all, aged, drop_expired,
  age_claims, drop_all_expired, expire_claims, state_from, any_status, problem_status, first_with,
  last_with, submission_of, resume_candidate, resume_at, research_resume, exact_fields, get_value,
  check_label, check_lifetime, authorize_session, active_session, check_claim_id, authorize_message,
  authorize_claim, owned_claim, authorize_heartbeat, authorize_checkpoint, authorize_release,
  text_among, check_citations, authorize_handoff, artifact_sha256, is_sealed, linked_handoffs,
  item_pairs, linked_evidence, task_binding, authorize_candidate, check_result_url, check_source,
  bound_candidate, bound_submission, authorize_receipt, expected_source, verifier_stage,
  review_stage, reward_stage, check_stage, authorize_feedback, authorize_resolution,
  authorize_on_claim, authorize_in_session, authorize, authorize_maintainer, authorize_event,
  validate_event, validate_events,
}
use daryxx_boule_protocol.Workspace.Leases.{IsLeased, state_from-IsLeased}
use daryxx_boule_protocol.Workspace.Adjudication.{IsAdjudicated, state_from-IsAdjudicated}
use daryxx_boule_protocol.Workspace.Resumption.{Resumes, research_resume-Resumes}
use daryxx_boule_protocol.Tests.Toy.{toy, unary, write, read, copies}
use daryxx_boule_protocol.Tests.Cases.{text_of, key_text, key_of_agent}

abbrev config : Config
config = record {
  problem_id = "p";
  task_id = "task";
  task_commitment = "commitment";
  formal_repository_pin = "pin";
  maintainer_key = "m";
  lease_seconds = 60;
  absolute_lease_seconds = 600;
  stale_seconds = 30;
  max_renewals = 2;
  policy_digest = "policy";
}

abbrev event : String → ℕ → String → String → Dict Value → Event
event id at kind actor payload = record {
  event_id = id;
  received_at = at;
  kind = kind;
  actor = actor;
  payload = ("problem_id", text_of "p") ∷ payload;
  remote = true;
}

abbrev by_session : String → ℕ → String → Dict Value → Event
by_session id at kind payload =
    event id at kind (key_of_agent "bb")
      (("participant_id", text_of "alice") ∷ ("session_id", text_of "s1") ∷ payload)

abbrev digest : String
digest = "sha256:0000000000000000000000000000000000000000000000000000000000000000"

abbrev submission : String
submission = "00000000-0000-0000-0000-000000000000"

abbrev url : String
url = "https://conjectures.io/results/00000000-0000-0000-0000-000000000000"

abbrev at_ref : String → Value
at_ref ref = object (("ref", text_of ref) ∷ ("sha256", text_of digest) ∷ [])

abbrev task : Dict Value
task =
    ("task_id", text_of "task")
    ∷ ("task_commitment", text_of "commitment")
    ∷ ("formal_repository_pin", text_of "pin")
    ∷ []

abbrev by_maintainer : String → ℕ → String → String → Dict Value → Event
by_maintainer id at kind source payload = event id at kind "m" (
    ("candidate_id", text_of "c1")
    ∷ ("submission_id", text_of submission)
    ∷ ("artifact_sha256", text_of digest)
    ∷ ("public_result_url", text_of url)
    ∷ ("source", text_of source)
    ∷ (task ++ payload))

abbrev feedback : String → ℕ → String → String → String → Event
feedback id at stage source decision = by_maintainer id at "candidate_feedback_recorded" source (
    ("stage", text_of stage)
    ∷ ("decision", text_of decision)
    ∷ ("reason_code", text_of "r")
    ∷ ("summary", text_of "s")
    ∷ ("next_action", text_of "n")
    ∷ ("report", at_ref url)
    ∷ [])

abbrev log : List Event
log =
    event "e1" 1 "session_started" (key_of_agent "a") (
      ("participant_id", text_of "alice")
      ∷ ("controller_id", text_of "controller")
      ∷ ("controller_key", key_text "a")
      ∷ ("session_id", text_of "s1")
      ∷ ("session_key", key_text "bb")
      ∷ ("not_after", text_of "2030-01-01T00:00:00Z")
      ∷ ("policy_digest", text_of "policy")
      ∷ [])
    ∷ by_session "e2" 2 "work_claimed" (
        ("claim_id", text_of "w1")
        ∷ ("route", text_of "r")
        ∷ ("success_gate", text_of "g")
        ∷ ("falsifier", text_of "f")
        ∷ ("parallel", Value.bool false)
        ∷ [])
    ∷ by_session "e3" 3 "claim_heartbeat"
        (("claim_id", text_of "w1") ∷ ("progress_digest", text_of digest) ∷ [])
    ∷ by_session "e4" 4 "handoff_published" (
        ("claim_id", text_of "w1")
        ∷ ("handoff_id", text_of "h1")
        ∷ ("outcome", text_of "ADVANCE")
        ∷ ("summary", text_of "s")
        ∷ ("next_action", text_of "n")
        ∷ ("limitations", text_of "l")
        ∷ ("reproduce", text_of "r")
        ∷ ("evidence", list (at_ref "proof" ∷ []))
        ∷ ("depends_on", list [])
        ∷ ("provenance", text_of "original")
        ∷ ("citations", list [])
        ∷ [])
    ∷ by_session "e5" 5 "submission_candidate_published" (
        ("candidate_id", text_of "c1")
        ∷ ("handoff_ids", list (text_of "h1" ∷ []))
        ∷ ("artifact", at_ref "proof")
        ∷ ("summary", text_of "s")
        ∷ ("reproduce", text_of "r")
        ∷ ("limitations", text_of "l")
        ∷ task)
    ∷ by_session "e6" 6 "work_claimed" (
        ("claim_id", text_of "w2")
        ∷ ("route", text_of "r")
        ∷ ("success_gate", text_of "g")
        ∷ ("falsifier", text_of "f")
        ∷ ("parallel", Value.bool true)
        ∷ [])
    ∷ by_maintainer "e7" 8 "external_submission_receipted" "trusted-clerk/conjectures.io-submission"
        (("submitted_at", text_of "1Z") ∷ ("receipt", at_ref url) ∷ [])
    ∷ feedback "e8" 9 "verifier" "trusted-clerk/conjectures.io-lean-verifier" "VERIFIED"
    ∷ feedback "e9" 10 "review" "trusted-clerk/conjectures.io-human-review" "APPROVED"
    ∷ by_maintainer "e10" 11 "case_resolution_recorded" "trusted-clerk/conjectures.io-human-review"
        (("resolution", text_of "SOLVED")
          ∷ ("review_event_id", text_of "e9")
          ∷ ("note", text_of "n")
          ∷ [])
    ∷ []

abbrev accepted : (out : List Event) × (validate_events toy config [] log ≡ ok out)
unfolding get_or_none checked_text check_texts is_sha256 checked_sha256 is_uuid_at checked_uuid
    ends_with_z utc_time reference checked_artifact has_pair evidence_items checked_evidence
    unique_texts key_of session_started set_active_claim plus_seconds claim_of new_claim
    work_claimed renewed_until renewed claim_heartbeat close_claim handoff_published
    submission_candidate_published external_submission_receipted verifier_feedback reviewed
    review_feedback with_feedback candidate_feedback_recorded project_kind project_event project_all
    aged drop_expired age_claims drop_all_expired expire_claims state_from any_status problem_status
    first_with last_with submission_of resume_candidate resume_at research_resume exact_fields
    get_value check_label check_lifetime authorize_session active_session check_claim_id
    authorize_message authorize_claim owned_claim authorize_heartbeat authorize_checkpoint
    authorize_release text_among check_citations authorize_handoff artifact_sha256 is_sealed
    linked_handoffs item_pairs linked_evidence task_binding authorize_candidate check_result_url
    check_source bound_candidate bound_submission authorize_receipt expected_source verifier_stage
    review_stage reward_stage check_stage authorize_feedback authorize_resolution authorize_on_claim
    authorize_in_session authorize authorize_maintainer authorize_event validate_event
    validate_events required as_text mapping exact_keys text_field integer_field hex_digest
    replace_z parse_time in_set text_list is_case_id objective_texts validate_objective agent_keys
    validate_agents controller_texts validate_controllers criterion_weights validate_criteria
    validate_policy same_times distinct_times validate_deadlines validate_case validate_reviewer
    validate_roster roster_digest validate_contribution validate_technical_receipt agent_scores
    evidence_refs validate_finding validate_scores criterion_reviews validate_ballot rstrip_padding
    padding canonical_bytes digest_object encode decode public_key_text load_public_key sign_object
    verify_object contains distinct subset same_set lookup insert keys values items array members
    of_members texts is_text number_of same_number is_number is_optional_text both_numbers
    find_member size insert_sorted sorted is_blank text_length is_hex_text startswith removeprefix
    codes_le text_le unary write read copies same_value same_items same_members
accepted = (_, refl)

abbrev projected : (s : _) × (state_from config accepted.0 12 ≡ ok s)
unfolding get_or_none checked_text check_texts is_sha256 checked_sha256 is_uuid_at checked_uuid
    ends_with_z utc_time reference checked_artifact has_pair evidence_items checked_evidence
    unique_texts key_of session_started set_active_claim plus_seconds claim_of new_claim
    work_claimed renewed_until renewed claim_heartbeat close_claim handoff_published
    submission_candidate_published external_submission_receipted verifier_feedback reviewed
    review_feedback with_feedback candidate_feedback_recorded project_kind project_event project_all
    aged drop_expired age_claims drop_all_expired expire_claims state_from any_status problem_status
    first_with last_with submission_of resume_candidate resume_at research_resume exact_fields
    get_value check_label check_lifetime authorize_session active_session check_claim_id
    authorize_message authorize_claim owned_claim authorize_heartbeat authorize_checkpoint
    authorize_release text_among check_citations authorize_handoff artifact_sha256 is_sealed
    linked_handoffs item_pairs linked_evidence task_binding authorize_candidate check_result_url
    check_source bound_candidate bound_submission authorize_receipt expected_source verifier_stage
    review_stage reward_stage check_stage authorize_feedback authorize_resolution authorize_on_claim
    authorize_in_session authorize authorize_maintainer authorize_event validate_event
    validate_events required as_text mapping exact_keys text_field integer_field hex_digest
    replace_z parse_time in_set text_list is_case_id objective_texts validate_objective agent_keys
    validate_agents controller_texts validate_controllers criterion_weights validate_criteria
    validate_policy same_times distinct_times validate_deadlines validate_case validate_reviewer
    validate_roster roster_digest validate_contribution validate_technical_receipt agent_scores
    evidence_refs validate_finding validate_scores criterion_reviews validate_ballot rstrip_padding
    padding canonical_bytes digest_object encode decode public_key_text load_public_key sign_object
    verify_object contains distinct subset same_set lookup insert keys values items array members
    of_members texts is_text number_of same_number is_number is_optional_text both_numbers
    find_member size insert_sorted sorted is_blank text_length is_hex_text startswith removeprefix
    codes_le text_le unary write read copies same_value same_items same_members
projected = (_, refl)

-- The log comes to the resolution, with a claim that is active.
log_resolves : (length projected.0.resolutions ≡ 1) × (length (keys projected.0.claims) ≡ 2)
unfolding keys projected
log_resolves = (refl, refl)

state_from-IsLeased_example : AllValues (IsLeased config 12) projected.0.claims
state_from-IsLeased_example = state_from-IsLeased toy config log 12 accepted.1 projected.1

state_from-IsAdjudicated_example : IsAdjudicated projected.0
state_from-IsAdjudicated_example = state_from-IsAdjudicated toy config log 12 accepted.1 projected.1

research_resume-Resumes_example : Resumes (problem_status projected.0) (research_resume projected.0)
research_resume-Resumes_example = research_resume-Resumes toy config log 12 accepted.1 projected.1
