-- ===== src/Workspace/Counting.antt =====
-- How many candidates of src/boule/workspace.py have a status, and how that changes with one of them.
use daryxx_boule_protocol.Prelude.{
  ℕ, ◌+◌, ◌≤◌, String, ◌≡◌, refl, inl, inr, Bool, true, false, none, some, List, [], ◌∷◌, arith,
  ◌==◌, Bool-cases,
}
use daryxx_boule_protocol.Python.{Dict, lookup, insert, values}
use daryxx_boule_protocol.Workspace.State.{CandidateStatus, same_status, Candidate, State}
use daryxx_boule_protocol.Workspace.Status.{any_status, problem_status, blocks_receipt}

abbrev pub one : Bool → ℕ
one true = 1
one false = 0

unfoldable pub count_if : (CandidateStatus → Bool) → List Candidate → ℕ
count_if test [] = 0
count_if test (c ∷ cs) = one (test c.status) + count_if test cs

module _ (test : CandidateStatus → Bool) where
  pub count_if-replaced :
      (k : String) (c : Candidate) (d : Dict Candidate) {b : Candidate}
      → lookup k d ≡ some b
      → count_if test (values (insert k c d)) + one (test b.status)
        ≡ count_if test (values d) + one (test c.status)
  unfolding lookup insert values count_if
  count_if-replaced k c [] h = cc
  count_if-replaced k c ((j, a) ∷ d) {b} h = elim (Bool-cases (k == j)) [
    | inl same ↦ let is : a ≡ b = ground (arith, same, h) in rw same (rw is (omega arith))
    | inr other ↦ let rest = count_if-replaced k c d (rw other at h) in rw other (omega arith)
  ]

  pub count_if-added :
      (k : String) (c : Candidate) (d : Dict Candidate)
      → lookup k d ≡ none
      → count_if test (values (insert k c d)) ≡ count_if test (values d) + one (test c.status)
  unfolding lookup insert values count_if
  count_if-added k c [] h = omega arith
  count_if-added k c ((j, a) ∷ d) h = elim (Bool-cases (k == j)) [
    | inl same ↦ ground (arith, same, h)
    | inr other ↦ let rest = count_if-added k c d (rw other at h) in rw other (omega arith)
  ]

  pub count_if-lookup :
      (k : String) (d : Dict Candidate) {b : Candidate}
      → lookup k d ≡ some b
      → test b.status ≡ true
      → 1 ≤ count_if test (values d)
  unfolding lookup values count_if
  count_if-lookup k [] h is = cc
  count_if-lookup k ((j, a) ∷ d) {b} h is = elim (Bool-cases (k == j)) [
    | inl same ↦ let found : a ≡ b = ground (arith, same, h) in rw found (rw is (omega arith))
    | inr other ↦ let rest = count_if-lookup k d (rw other at h) is in omega arith
  ]

-- No candidate has the status.
pub any_status-count :
    (status : CandidateStatus) (cs : List Candidate)
    → any_status status cs ≡ false
    → count_if (λ st. same_status st status) cs ≡ 0
unfolding any_status count_if
any_status-count status [] h = refl
any_status-count status (c ∷ cs) h = elim (Bool-cases (same_status c.status status)) [
  | inl same ↦ ground (arith, same, h)
  | inr other ↦ let rest = any_status-count status cs (rw other at h) in rw other (omega arith)
]

-- submitted, and not sent back: VERIFICATION_PENDING, REVIEW_PENDING or APPROVED
abbrev pub in_flight : CandidateStatus → Bool
in_flight CandidateStatus.verification_pending = true
in_flight CandidateStatus.review_pending = true
in_flight CandidateStatus.approved = true
in_flight _ = false

abbrev pub is_approved : CandidateStatus → Bool
is_approved status = same_status status CandidateStatus.approved

abbrev by_status : CandidateStatus → List Candidate → ℕ
by_status status cs = count_if (λ st. same_status st status) cs

one-in_flight :
    (st : CandidateStatus)
    → one (in_flight st)
      ≡ one (same_status st CandidateStatus.verification_pending)
        + one (same_status st CandidateStatus.review_pending)
        + one (is_approved st)
one-in_flight CandidateStatus.candidate_ready = refl
one-in_flight CandidateStatus.verification_pending = refl
one-in_flight CandidateStatus.review_pending = refl
one-in_flight CandidateStatus.approved = refl
one-in_flight CandidateStatus.rejected = refl
one-in_flight CandidateStatus.partial_award = refl

pub in_flight-count :
    (cs : List Candidate)
    → count_if in_flight cs
      ≡ by_status CandidateStatus.verification_pending cs
        + by_status CandidateStatus.review_pending cs
        + by_status CandidateStatus.approved cs
unfolding count_if
in_flight-count [] = refl
in_flight-count (c ∷ cs) =
    let split = one-in_flight c.status in let rest = in_flight-count cs in omega arith

-- Nothing is in flight when a receipt is not blocked.
pub unblocked-count :
    (s : State)
    → blocks_receipt (problem_status s) ≡ false
    → count_if in_flight (values s.candidates) ≡ 0
unfolding problem_status
unblocked-count s h =
    let v : any_status CandidateStatus.verification_pending (values s.candidates) ≡ false =
      ground arith in
    let r : any_status CandidateStatus.review_pending (values s.candidates) ≡ false =
      ground arith in
    let a : any_status CandidateStatus.approved (values s.candidates) ≡ false = ground arith in
    let split = in_flight-count (values s.candidates) in
    let v0 = any_status-count CandidateStatus.verification_pending (values s.candidates) v in
    let r0 = any_status-count CandidateStatus.review_pending (values s.candidates) r in
    let a0 = any_status-count CandidateStatus.approved (values s.candidates) a in omega arith
