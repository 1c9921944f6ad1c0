-- ===== src/Workspace/Allowed.antt =====
-- What `_authorize_maintainer` of src/boule/workspace.py has checked of a candidate.
use daryxx_boule_protocol.Prelude.{ℕ, String, ◌≡◌, Bool, true, false, not, ◌&&◌, none, some, arith}
use daryxx_boule_protocol.Python.{
  ok, raise_if, >>=-eq-ok, ok_injective, raise_if-eq-ok, Dict, lookup, Value, is_text,
}
use daryxx_boule_protocol.Crypto.{Platform}
use daryxx_boule_protocol.Model.{required, as_text}
use daryxx_boule_protocol.Workspace.State.{Config, CandidateStatus, same_status, Candidate, State}
use daryxx_boule_protocol.Workspace.Fields.{get_or_none, check_texts, checked_artifact}
use daryxx_boule_protocol.Workspace.Project.{key_of}
use daryxx_boule_protocol.Workspace.Status.{problem_status, blocks_receipt}
use daryxx_boule_protocol.Workspace.Claims.{exact_fields, get_value}
use daryxx_boule_protocol.Workspace.Publish.{is_empty}
use daryxx_boule_protocol.Workspace.Maintain.{
  bound_candidate, bound_submission, check_source, check_result_url, expected_source,
  authorize_receipt, check_stage, authorize_feedback, authorize_resolution, is_review,
}
use daryxx_boule_protocol.Workspace.Counting.{is_approved}
use daryxx_boule_protocol.Workspace.Candidates.{expect_status}

-- The candidate that the event is bound to is the one under its candidate id.
pub bound_candidate-found :
    (config : Config) (p : Dict Value) (seen : State) (k : String) {c : Candidate}
    → key_of p "candidate_id" ≡ ok k
    → bound_candidate config p seen ≡ ok c
    → lookup k seen.candidates ≡ some c
unfolding bound_candidate key_of required as_text get_or_none get_value
bound_candidate-found config p seen k {c} named bound = ground arith

-- What was authorized of a receipt.
pub receipt_allowed :
    (sys : Platform) (config : Config) (p : Dict Value) (seen : State) (now : ℕ)
    → authorize_receipt sys config p seen now ≡ ok tt
    → (c : Candidate) × (id : Value) × (bound_candidate config p seen ≡ ok c)
      × (c.status ≡ CandidateStatus.candidate_ready)
      × (blocks_receipt (problem_status seen) ≡ false)
      × (required p "submission_id" ≡ ok id)
unfolding authorize_receipt
receipt_allowed sys config p seen now a =
    let (u1, _, a1) = >>=-eq-ok (exact_fields p _ _) _ a in
    let (c, bound, a2) = >>=-eq-ok (bound_candidate config p seen) _ a1 in
    let (u2, _, a3) =
      >>=-eq-ok (raise_if (elim c.submission [ none ↦ false | some _ ↦ true ]) _) _ a2 in
    let (u3, ready, a4) =
      >>=-eq-ok (raise_if (not (same_status c.status CandidateStatus.candidate_ready)) _) _ a3 in
    let (u4, free, a5) = >>=-eq-ok (raise_if (blocks_receipt (problem_status seen)) _) _ a4 in
    let (id, named, a6) = >>=-eq-ok (required p "submission_id") _ a5 in
    (
      c,
      id,
      bound,
      expect_status c.status CandidateStatus.candidate_ready _ ready,
      raise_if-eq-ok (blocks_receipt (problem_status seen)) _ free,
      named,
    )

-- What was authorized of a feedback.
pub feedback_allowed :
    (config : Config) (p : Dict Value) (seen : State)
    → authorize_feedback config p seen ≡ ok tt
    → (c : Candidate) × (stage decision : Value) × (bound_candidate config p seen ≡ ok c)
      × (required p "stage" ≡ ok stage)
      × (required p "decision" ≡ ok decision)
      × (check_stage stage decision c ≡ ok tt)
unfolding authorize_feedback
feedback_allowed config p seen a =
    let (u1, _, a1) = >>=-eq-ok (exact_fields p _ _) _ a in
    let (c, bound, a2) = >>=-eq-ok (bound_candidate config p seen) _ a1 in
    let (u2, _, a3) = >>=-eq-ok (bound_submission c p _) _ a2 in
    let (url, _, a4) = >>=-eq-ok (required p "public_result_url") _ a3 in
    let (id, _, a5) = >>=-eq-ok (key_of p "submission_id") _ a4 in
    let (u3, _, a6) = >>=-eq-ok (check_result_url url id) _ a5 in
    let (a_report, _, a7) = >>=-eq-ok (required p "report") _ a6 in
    let (report, _, a8) = >>=-eq-ok (checked_artifact a_report "feedback report") _ a7 in
    let (stage, at, a9) = >>=-eq-ok (required p "stage") _ a8 in
    let (expected, _, a10) = >>=-eq-ok (expected_source stage) _ a9 in
    let (source, _, a11) = >>=-eq-ok (required p "source") _ a10 in
    let (u4, _, a12) = >>=-eq-ok (check_source source expected report.0 url) _ a11 in
    let (u5, _, a13) = >>=-eq-ok (check_texts p _ 2000) _ a12 in
    let (decision, is, a14) = >>=-eq-ok (required p "decision") _ a13 in
    (c, stage, decision, bound, at, is, a14)

under_key :
    {V : Type 0} (v : Value) (d : Dict V) {c : V}
    → get_value v d ≡ ok (some c)
    → (k : String) × (lookup k d ≡ some c)
unfolding get_value
under_key (Value.text k) d h = (k, ok_injective h)
under_key _ d h = cc

-- The candidate that the event is bound to is under some id.
bound_somewhere :
    (config : Config) (p : Dict Value) (seen : State) {c : Candidate}
    → bound_candidate config p seen ≡ ok c
    → (k : String) × (lookup k seen.candidates ≡ some c)
unfolding bound_candidate
bound_somewhere config p seen {c} bound =
    let (o, found, b1) =
      >>=-eq-ok (get_value (get_or_none p "candidate_id") seen.candidates) _ bound in
    let is : o ≡ some c = ground arith in
    under_key (get_or_none p "candidate_id") seen.candidates (rw is at found)

approved_of :
    (a b c : Bool) (m : String) {u : Unit {0}} → raise_if (not (a && b && c)) m ≡ ok u → a ≡ true
approved_of a b c m h = ground arith

empty_of : (a : Bool) (m : String) {u : Unit {0}} → raise_if (not a) m ≡ ok u → a ≡ true
empty_of a m h = ground arith

-- What was authorized of a resolution.
pub resolution_allowed :
    (config : Config) (p : Dict Value) (seen : State)
    → authorize_resolution config p seen ≡ ok tt
    → (c : Candidate) × (k : String) × (lookup k seen.candidates ≡ some c)
      × (is_approved c.status ≡ true)
      × (is_empty seen.resolutions ≡ true)
unfolding authorize_resolution
resolution_allowed config p seen a =
    let (u1, _, a1) = >>=-eq-ok (exact_fields p _ _) _ a in
    let (c, bound, a2) = >>=-eq-ok (bound_candidate config p seen) _ a1 in
    let (k, found) = bound_somewhere config p seen bound in
    let (u2, _, a3) = >>=-eq-ok (bound_submission c p _) _ a2 in
    let (url, _, a4) = >>=-eq-ok (required p "public_result_url") _ a3 in
    let (id, _, a5) = >>=-eq-ok (key_of p "submission_id") _ a4 in
    let (u3, _, a6) = >>=-eq-ok (check_result_url url id) _ a5 in
    let (source, _, a7) = >>=-eq-ok (required p "source") _ a6 in
    let (u4, _, a8) = >>=-eq-ok (raise_if (not (is_text source _)) _) _ a7 in
    let (event_id, _, a9) = >>=-eq-ok (required p "review_event_id") _ a8 in
    let (resolution, _, a10) = >>=-eq-ok (required p "resolution") _ a9 in
    let (u5, exact, a11) =
      >>=-eq-ok
        (raise_if
          (not (
            same_status c.status CandidateStatus.approved
            && is_review config c event_id
            && is_text resolution "SOLVED"))
          _)
        _ a10 in
    let (u6, only, a12) = >>=-eq-ok (raise_if (not (is_empty seen.resolutions)) _) _ a11 in
    (c, k, found, approved_of _ _ _ _ exact, empty_of _ _ only)
