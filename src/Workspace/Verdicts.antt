-- ===== src/Workspace/Verdicts.antt =====
-- A feedback of src/boule/workspace.py that is authorized is one that `_state_from` can record.
use Prim.{absurd}
use daryxx_boule_protocol.Workspace.Status.{blocks_receipt, problem_status}
use daryxx_boule_protocol.Prelude.{
  ℕ, String, ◌≡◌, refl, inl, inr, true, false, not, none, some, arith, ◌==◌, Bool-cases,
}
use daryxx_boule_protocol.Python.{ok, raise_if, >>=-eq-ok, Dict, contains, lookup, Value, is_text}
use daryxx_boule_protocol.Crypto.{Platform}
use daryxx_boule_protocol.Model.{required, as_text, in_set}
use daryxx_boule_protocol.Workspace.State.{
  Config, Event, CandidateStatus, same_status, Candidate, State,
}
use daryxx_boule_protocol.Workspace.Fields.{get_or_none, checked_uuid}
use daryxx_boule_protocol.Workspace.Project.{
  key_of, verifier_feedback, reviewed, review_feedback, with_feedback,
}
use daryxx_boule_protocol.Workspace.Claims.{exact_fields, get_value}
use daryxx_boule_protocol.Workspace.Maintain.{
  bound_candidate, authorize_receipt, review_stage, check_stage,
}
use daryxx_boule_protocol.Workspace.Reading.{Returns, value_key}

review_decision :
    (decision : Value) (b : Candidate)
    → review_stage decision b ≡ ok tt
    → Returns (reviewed decision)
unfolding review_stage in_set contains reviewed is_text
review_decision (Value.text t) b a = elim (Bool-cases (t == "APPROVED")) [
  | inl y ↦ rw y (_, refl)
  | inr n1 ↦ elim (Bool-cases (t == "REJECTED")) [
    | inl y ↦ rw n1 (rw y (_, refl))
    | inr n2 ↦ elim (Bool-cases (t == "PARTIAL_AWARD")) [
      | inl y ↦ rw n1 (rw n2 (rw y (_, refl)))
      | inr n3 ↦ absurd (ground arith)
    ]
  ]
]
review_decision _ b a = cc

pub with_feedback-Returns :
    (b : Candidate) (e : Event) (stage decision : Value)
    → required e.payload "decision" ≡ ok decision
    → check_stage stage decision b ≡ ok tt
    → Returns (with_feedback b e stage)
unfolding check_stage with_feedback verifier_feedback review_feedback
with_feedback-Returns b e stage decision is a = elim (Bool-cases (is_text stage "verifier")) [
  | inl v ↦ rw v (rw is (_, refl))
  | inr nv ↦
      let a1 = rw nv at a in
      elim (Bool-cases (is_text stage "review")) [
        | inl r ↦
            let (status, told) = review_decision decision b (rw r at a1) in
            rw nv (rw r (rw is (rw told (_, refl))))
        | inr nr ↦ rw nv (rw nr (_, refl))
      ]
]

-- The candidate that an event is bound to, and its id in the payload.
pub bound_candidate-key :
    (config : Config) (p : Dict Value) (seen : State) {c : Candidate}
    → bound_candidate config p seen ≡ ok c
    → (k : String) × (key_of p "candidate_id" ≡ ok k) × (lookup k seen.candidates ≡ some c)
unfolding bound_candidate
bound_candidate-key config p seen {c} bound =
    let (o, found, b1) =
      >>=-eq-ok (get_value (get_or_none p "candidate_id") seen.candidates) _ bound in
    let is : o ≡ some c = ground arith in
    value_key p "candidate_id" seen.candidates (rw is at found)

uuid_text :
    (v : Value) (name : String) {t : String} → checked_uuid v name ≡ ok t → Returns (as_text v)
unfolding checked_uuid as_text
uuid_text (Value.text t) name h = (t, refl)
uuid_text _ name h = cc

-- The id of a receipted submission is a text.
pub receipt-key :
    (sys : Platform) (config : Config) (p : Dict Value) (seen : State) (now : ℕ)
    → authorize_receipt sys config p seen now ≡ ok tt
    → Returns (key_of p "submission_id")
unfolding authorize_receipt key_of
receipt-key sys config p seen now a =
    let (u1, _, a1) = >>=-eq-ok (exact_fields p _ _) _ a in
    let (c, bound, a2) = >>=-eq-ok (bound_candidate config p seen) _ a1 in
    let (u2, _, a3) =
      >>=-eq-ok (raise_if (elim c.submission [ none ↦ false | some _ ↦ true ]) _) _ a2 in
    let (u3, ready, a4) =
      >>=-eq-ok (raise_if (not (same_status c.status CandidateStatus.candidate_ready)) _) _ a3 in
    let (u4, free, a5) = >>=-eq-ok (raise_if (blocks_receipt (problem_status seen)) _) _ a4 in
    let (id, named, a6) = >>=-eq-ok (required p "submission_id") _ a5 in
    let (text, is, a7) = >>=-eq-ok (checked_uuid id "submission_id") _ a6 in
    rw named (uuid_text id "submission_id" is)
