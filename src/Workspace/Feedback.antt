-- ===== src/Workspace/Feedback.antt =====
-- What an authorized receipt or feedback of src/boule/workspace.py makes of its candidate.
use mathlib.Core.Path.{subst}
use daryxx_boule_protocol.Prelude.{◌≤◌, ◌≡◌, inl, inr, not, some, arith, Bool-cases}
use daryxx_boule_protocol.Python.{ok, raise_if, >>=-eq-ok, ok_injective, Value, is_text}
use daryxx_boule_protocol.Model.{required, in_set}
use daryxx_boule_protocol.Workspace.State.{Event, CandidateStatus, Candidate}
use daryxx_boule_protocol.Workspace.Project.{
  observed, verifier_feedback, reviewed, review_feedback, note_feedback, with_feedback,
}
use daryxx_boule_protocol.Workspace.Status.{submission_of}
use daryxx_boule_protocol.Workspace.Maintain.{verifier_stage, review_stage, check_stage}
use daryxx_boule_protocol.Workspace.Counting.{one, in_flight, is_approved}
use daryxx_boule_protocol.Workspace.Candidates.{IsCoherent, expect_status}

-- From a candidate to the one that replaces it: coherent, in flight only if it was, and approved if it
-- was.
pub record Follows (b c : Candidate) : Type 0 where
  pub coherent : IsCoherent c
  pub flight : one (in_flight c.status) ≤ one (in_flight b.status)
  pub approval : one (is_approved b.status) ≤ one (is_approved c.status)

verifier_stage-pending :
    (decision : Value) (b : Candidate)
    → verifier_stage decision b ≡ ok tt
    → b.status ≡ CandidateStatus.verification_pending
unfolding verifier_stage
verifier_stage-pending decision b a =
    let (known, _, a1) = >>=-eq-ok (in_set decision _) _ a in
    let (u1, _, a2) = >>=-eq-ok (raise_if (not known) _) _ a1 in
    expect_status b.status CandidateStatus.verification_pending _ a2

review_stage-pending :
    (decision : Value) (b : Candidate)
    → review_stage decision b ≡ ok tt
    → b.status ≡ CandidateStatus.review_pending
unfolding review_stage
review_stage-pending decision b a =
    let (known, _, a1) = >>=-eq-ok (in_set decision _) _ a in
    let (u1, _, a2) = >>=-eq-ok (raise_if (not known) _) _ a1 in
    expect_status b.status CandidateStatus.review_pending _ a2

module _ (b : Candidate) (e : Event) (h : IsCoherent b) where
  verified-Follows :
      {c : Candidate}
      → b.status ≡ CandidateStatus.verification_pending
      → verifier_feedback (note_feedback b e) e ≡ ok c
      → Follows b c
  unfolding verifier_feedback submission_of
  verified-Follows is p = ground arith

  reviewed-Follows :
      {c : Candidate}
      → b.status ≡ CandidateStatus.review_pending
      → review_feedback (note_feedback b e) e ≡ ok c
      → Follows b c
  unfolding review_feedback reviewed submission_of
  reviewed-Follows is p = ground arith

  rewarded-Follows : Follows b (record (note_feedback b e) { reward = some (observed e) })
  unfolding submission_of
  rewarded-Follows = record {
    coherent = record { submitted = h.submitted; verified = h.verified; reviewed = h.reviewed };
    flight = omega arith;
    approval = omega arith;
  }

  pub feedback-Follows :
      (stage decision : Value) {c : Candidate}
      → check_stage stage decision b ≡ ok tt
      → with_feedback b e stage ≡ ok c
      → Follows b c
  unfolding check_stage with_feedback
  feedback-Follows stage decision {c} a p = elim (Bool-cases (is_text stage "verifier")) [
    | inl v ↦ verified-Follows (verifier_stage-pending decision b (rw v at a)) (rw v at p)
    | inr n ↦
        let a1 = rw n at a in
        let p1 = rw n at p in
        elim (Bool-cases (is_text stage "review")) [
          | inl r ↦ reviewed-Follows (review_stage-pending decision b (rw r at a1)) (rw r at p1)
          | inr m ↦ subst (Follows b) (ok_injective (rw m at p1)) rewarded-Follows
        ]
  ]

-- A receipted candidate is coherent.
pub receipted-IsCoherent :
    (b : Candidate) (e : Event) (id : Value)
    → required e.payload "submission_id" ≡ ok id
    → IsCoherent
        (record b { status = CandidateStatus.verification_pending; submission = some (observed e) })
unfolding submission_of
receipted-IsCoherent b e id h = record {
  submitted = λ _. (id, h);
  verified = λ q. ground arith;
  reviewed = λ q. ground arith;
}
