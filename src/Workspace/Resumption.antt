-- ===== src/Workspace/Resumption.antt =====
-- `_research_resume` of src/boule/workspace.py in the states that its logs project to.
use daryxx_boule_protocol.Prelude.{
  ℕ, ◌≤◌, ◌≡◌, refl, sym, inl, inr, Bool, true, false, Option, none, some, List, [], arith, eqb,
  Bool-cases, length, All,
}
use daryxx_boule_protocol.Python.{Result, ok, values}
use daryxx_boule_protocol.Crypto.{Platform}
use daryxx_boule_protocol.Workspace.State.{
  Config, Event, Observation, CandidateStatus, same_status, Candidate, State,
}
use daryxx_boule_protocol.Workspace.Expiry.{state_from}
use daryxx_boule_protocol.Workspace.Status.{
  ProblemStatus, any_status, is_returned, problem_status, Action, Resume, resume_candidate, or_else,
  resume_at, research_resume,
}
use daryxx_boule_protocol.Workspace.Log.{validate_events}
use daryxx_boule_protocol.Workspace.Counting.{count_if, is_approved}
use daryxx_boule_protocol.Workspace.Candidates.{
  is_there, behind_verifier, IsCoherent, same_status_lem,
}
use daryxx_boule_protocol.Workspace.Adjudication.{IsAdjudicated, state_from-IsAdjudicated}
use daryxx_boule_protocol.Workspace.Search.{
  all_values, some_status, first_with-Finds, last_with-Finds, count_if-same, approved_same,
  count_returned,
}

-- The resumption of a candidate that has been submitted.
resume_candidate-total :
    (c : Candidate)
    → IsCoherent c
    → same_status c.status CandidateStatus.candidate_ready ≡ false
    → (action : Action) (feedback : Option Observation)
    → (r : Resume) × (resume_candidate action c feedback ≡ ok r) × (r.feedback ≡ feedback)
unfolding resume_candidate
resume_candidate-total c h sent action feedback =
    let (id, has) = h.submitted sent in rw has (_, refl, refl)

-- the candidate that the status speaks of
abbrev test_of : ProblemStatus → CandidateStatus → Bool
test_of ProblemStatus.candidate_ready = same_status CandidateStatus.candidate_ready
test_of ProblemStatus.verification_pending = same_status CandidateStatus.verification_pending
test_of ProblemStatus.review_pending = same_status CandidateStatus.review_pending
test_of ProblemStatus.acceptance_recorded = same_status CandidateStatus.approved
test_of ProblemStatus.solved = same_status CandidateStatus.approved
test_of _ = is_returned

abbrev is_open_problem : ProblemStatus → Bool
is_open_problem ProblemStatus.open_problem = true
is_open_problem _ = false

-- the statuses that come with a feedback
abbrev pub has_feedback : ProblemStatus → Bool
has_feedback ProblemStatus.review_pending = true
has_feedback ProblemStatus.acceptance_recorded = true
has_feedback ProblemStatus.solved = true
has_feedback ProblemStatus.open_after_feedback = true
has_feedback _ = false

-- The resumption is there, and has a feedback if the status comes with one.
abbrev pub Resumes : ProblemStatus → Result Resume → Type 0
Resumes st found =
    (r : Resume) × (found ≡ ok r) × (has_feedback st ≡ true → is_there r.feedback ≡ true)

or_else-there : (a b : Option Observation) → is_there b ≡ true → is_there (or_else a b) ≡ true
or_else-there none b h = h
or_else-there (some o) b h = refl

module _ (cs : List Candidate) (h : All IsCoherent cs) where
  resume_at-Resumes :
      (st : ProblemStatus)
      → (is_open_problem st ≡ false → 1 ≤ count_if (test_of st) cs)
      → Resumes st (resume_at st cs)
  unfolding resume_at
  resume_at-Resumes ProblemStatus.open_problem n = (_, refl, λ q. cc)
  resume_at-Resumes ProblemStatus.candidate_ready n =
      let (c, found, f) =
        last_with-Finds (same_status CandidateStatus.candidate_ready) cs h (n refl) in
      rw found (_, refl, λ q. cc)
  resume_at-Resumes ProblemStatus.verification_pending n =
      let (c, found, f) =
        last_with-Finds (same_status CandidateStatus.verification_pending) cs h (n refl) in
      let is = same_status_lem CandidateStatus.verification_pending c.status f.passes in
      let (r, resumed, _) =
        resume_candidate-total c f.coherent (rw (sym is) refl) Action.await_official_feedback
          none in
      rw found (r, resumed, λ q. cc)
  resume_at-Resumes ProblemStatus.review_pending n =
      let (c, found, f) =
        last_with-Finds (same_status CandidateStatus.review_pending) cs h (n refl) in
      let is = same_status_lem CandidateStatus.review_pending c.status f.passes in
      let (r, resumed, told) =
        resume_candidate-total c f.coherent (rw (sym is) refl) Action.await_official_feedback
          c.verifier in
      let there = f.coherent.verified (rw (sym is) refl) in
      rw found (r, resumed, λ q. rw told there)
  resume_at-Resumes ProblemStatus.acceptance_recorded n =
      let (c, found, f) = first_with-Finds (same_status CandidateStatus.approved) cs h (n refl) in
      let is = same_status_lem CandidateStatus.approved c.status f.passes in
      let (r, resumed, told) =
        resume_candidate-total c f.coherent (rw (sym is) refl)
          Action.await_trusted_clerk_finalization c.review in
      let there = f.coherent.reviewed (rw (sym is) refl) in
      rw found (r, resumed, λ q. rw told there)
  resume_at-Resumes ProblemStatus.solved n =
      let (c, found, f) = first_with-Finds (same_status CandidateStatus.approved) cs h (n refl) in
      let is = same_status_lem CandidateStatus.approved c.status f.passes in
      let (r, resumed, told) =
        resume_candidate-total c f.coherent (rw (sym is) refl)
          Action.stop_research_preserve_evidence c.review in
      let there = f.coherent.reviewed (rw (sym is) refl) in
      rw found (r, resumed, λ q. rw told there)
  resume_at-Resumes ProblemStatus.open_after_feedback n =
      let (c, found, f) = last_with-Finds is_returned cs h (n refl) in
      let (sent, behind) = returned_is c.status f.passes in
      let (r, resumed, told) =
        resume_candidate-total c f.coherent sent Action.continue_research_from_feedback
          (or_else c.review c.verifier) in
      rw found
        (r, resumed, λ q. rw told (or_else-there c.review c.verifier (f.coherent.verified behind)))
    where
      returned_is :
          (st : CandidateStatus)
          → is_returned st ≡ true
          → (same_status st CandidateStatus.candidate_ready ≡ false) × (behind_verifier st ≡ true)
      returned_is CandidateStatus.rejected q = (refl, refl)
      returned_is CandidateStatus.partial_award q = (refl, refl)
      returned_is CandidateStatus.candidate_ready q = cc
      returned_is CandidateStatus.verification_pending q = cc
      returned_is CandidateStatus.review_pending q = cc
      returned_is CandidateStatus.approved q = cc

module _ (s : State) (h : IsAdjudicated s) where
  -- The status that is not OPEN speaks of a candidate that is there.
  problem_status-there :
      is_open_problem (problem_status s) ≡ false
      → 1 ≤ count_if (test_of (problem_status s)) (values s.candidates)
  unfolding problem_status
  problem_status-there n = elim (Bool-cases (eqb (length s.resolutions) 0)) [
    | inr some_there ↦
        let swap =
          count_if-same is_approved (same_status CandidateStatus.approved) approved_same
            (values s.candidates) in
        let more = h.approved in
        rw some_there (let at_least : 1 ≤ length s.resolutions = ground arith in omega arith)
    | inl none_there ↦
        elim (Bool-cases (any_status CandidateStatus.approved (values s.candidates))) [
          | inl a ↦
              rw none_there (rw a (some_status CandidateStatus.approved (values s.candidates) a))
          | inr na ↦
              elim (Bool-cases (any_status CandidateStatus.review_pending (values s.candidates))) [
                | inl r ↦ rw none_there (
                    rw na
                      (rw r (some_status CandidateStatus.review_pending (values s.candidates) r)))
                | inr nr ↦
                    elim (Bool-cases
                      (any_status CandidateStatus.verification_pending (values s.candidates))) [
                        | inl v ↦ rw none_there (
                            rw na (
                              rw nr (
                                rw v (
                                  some_status CandidateStatus.verification_pending
                                    (values s.candidates) v))))
                        | inr nv ↦
                            elim (Bool-cases
                              (any_status CandidateStatus.candidate_ready (values s.candidates))) [
                                | inl c ↦ rw none_there (
                                    rw na (
                                      rw nr (
                                        rw nv (
                                          rw c (
                                            some_status CandidateStatus.candidate_ready
                                              (values s.candidates) c)))))
                                | inr nc ↦
                                    elim (Bool-cases
                                      (any_status CandidateStatus.rejected (values s.candidates))) [
                                        | inl j ↦ rw none_there (
                                            rw na (
                                              rw nr (
                                                rw nv (
                                                  rw nc (
                                                    rw j (
                                                      count_returned CandidateStatus.rejected refl
                                                        (values s.candidates) j))))))
                                        | inr nj ↦
                                            elim (Bool-cases (
                                              any_status CandidateStatus.partial_award
                                                (values s.candidates))) [
                                                  | inl w ↦ rw none_there (
                                                      rw na (
                                                        rw nr (
                                                          rw nv (
                                                            rw nc (
                                                            rw nj (
                                                            rw w (
                                                            count_returned
                                                            CandidateStatus.partial_award refl
                                                            (values s.candidates) w)))))))
                                                  | inr nw ↦
                                                      let n1 = rw none_there at n in
                                                      let n2 = rw na at n1 in
                                                      let n3 = rw nr at n2 in
                                                      let n4 = rw nv at n3 in
                                                      let n5 = rw nc at n4 in
                                                      let n6 = rw nj at n5 in
                                                      let n7 = rw nw at n6 in cc
                                                ]
                                      ]
                              ]
                      ]
              ]
        ]
  ]

  adjudicated-Resumes : Resumes (problem_status s) (research_resume s)
  unfolding research_resume
  adjudicated-Resumes =
      resume_at-Resumes (values s.candidates) (all_values s.candidates h.coherent)
        (problem_status s) problem_status-there

-- In the state that an accepted log projects to at any time, what to do next is always answered: the
-- searches for a candidate and for its submission's id succeed, and where the problem's status comes
-- with a feedback, the answer has one.
pub research_resume-Resumes :
    (sys : Platform) (config : Config) (events : List Event) (now : ℕ) {out : List Event}
    {s : State}
    → validate_events sys config [] events ≡ ok out
    → state_from config out now ≡ ok s
    → Resumes (problem_status s) (research_resume s)
research_resume-Resumes sys config events now {out} {s} accepted projected =
    adjudicated-Resumes s (state_from-IsAdjudicated sys config events now accepted projected)
