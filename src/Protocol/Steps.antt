-- ===== src/Protocol/Steps.antt =====
-- A rule for proofs about `apply`: what every handler gives, `apply` gives.
use daryxx_boule_protocol.Prelude.{◌≡◌, Bool, true, false, some, arith, if◌then◌else◌}
use daryxx_boule_protocol.Python.{Result, ok, >>=-eq-ok, Value, is_text}
use daryxx_boule_protocol.Crypto.{Platform}
use daryxx_boule_protocol.Model.{Case}
use daryxx_boule_protocol.Protocol.State.{State, require_case, Entry, entry_of}
use daryxx_boule_protocol.Protocol.Evidence
use daryxx_boule_protocol.Protocol.Review
use daryxx_boule_protocol.Protocol.Apply.{apply_in_case, apply}

if_ok :
    {A Q : Type 0} {t : A} (b : Bool) (x y : Result A)
    → (x ≡ ok t → Q)
    → (y ≡ ok t → Q)
    → (if b then x else y) ≡ ok t
    → Q
if_ok true x y f g h = f h
if_ok false x y f g h = g h

-- What a handler does to a state, for every entry and every case that is open.
pub record Handlers (sys : Platform) (s : State) (Q : State → Type 0) : Type 0 where
  pub case_opened : (e : Entry) {t : State} → Evidence.case_opened sys s e ≡ ok t → Q t
  pub contribution_added :
      (c : Case) (e : Entry) {t : State}
      → s.case ≡ some c
      → Evidence.contribution_added sys s c e ≡ ok t
      → Q t
  pub technical_receipt_recorded :
      (c : Case) (e : Entry) {t : State}
      → s.case ≡ some c
      → Evidence.technical_receipt_recorded sys s c e ≡ ok t
      → Q t
  pub evidence_sealed :
      (c : Case) (e : Entry) {t : State}
      → s.case ≡ some c
      → Evidence.evidence_sealed sys s c e ≡ ok t
      → Q t
  pub reviewers_assigned :
      (c : Case) (e : Entry) {t : State}
      → s.case ≡ some c
      → Review.reviewers_assigned sys s c e ≡ ok t
      → Q t
  pub review_committed :
      (c : Case) (e : Entry) {t : State}
      → s.case ≡ some c
      → Review.review_committed sys s c e ≡ ok t
      → Q t
  pub review_commit_phase_closed :
      (c : Case) (e : Entry) {t : State}
      → s.case ≡ some c
      → Review.review_commit_phase_closed sys s c e ≡ ok t
      → Q t
  pub review_revealed :
      (c : Case) (e : Entry) {t : State}
      → s.case ≡ some c
      → Review.review_revealed sys s c e ≡ ok t
      → Q t
  pub provisional_decision_recorded :
      (c : Case) (e : Entry) {t : State}
      → s.case ≡ some c
      → Review.provisional_decision_recorded sys s c e ≡ ok t
      → Q t

module _ (sys : Platform) (s : State) (Q : State → Type 0) (handlers : Handlers sys s Q) where
  apply_in_case_rule :
      (c : Case) (e : Entry) {t : State} → s.case ≡ some c → apply_in_case sys s c e ≡ ok t → Q t
  unfolding apply_in_case
  apply_in_case_rule c e open_case =
      if_ok (is_text e.kind "contribution_added") (Evidence.contribution_added sys s c e) _
        (handlers.contribution_added c e open_case)
        (if_ok (is_text e.kind "technical_receipt_recorded")
          (Evidence.technical_receipt_recorded sys s c e) _
          (handlers.technical_receipt_recorded c e open_case)
          (if_ok (is_text e.kind "evidence_sealed") (Evidence.evidence_sealed sys s c e) _
            (handlers.evidence_sealed c e open_case)
            (if_ok (is_text e.kind "reviewers_assigned") (Review.reviewers_assigned sys s c e) _
              (handlers.reviewers_assigned c e open_case)
              (if_ok (is_text e.kind "review_committed") (Review.review_committed sys s c e) _
                (handlers.review_committed c e open_case)
                (if_ok (is_text e.kind "review_commit_phase_closed")
                  (Review.review_commit_phase_closed sys s c e) _
                  (handlers.review_commit_phase_closed c e open_case)
                  (if_ok (is_text e.kind "review_revealed") (Review.review_revealed sys s c e) _
                    (handlers.review_revealed c e open_case)
                    (if_ok (is_text e.kind "provisional_decision_recorded")
                      (Review.provisional_decision_recorded sys s c e) _
                      (handlers.provisional_decision_recorded c e open_case) (λ failed. cc))))))))

  pub apply_rule : (entry : Value) {t : State} → apply sys s entry ≡ ok t → Q t
  unfolding apply require_case
  apply_rule entry p =
      let (e, e1, e2) = >>=-eq-ok (entry_of entry) _ p in
      if_ok (is_text e.kind "case_opened") (Evidence.case_opened sys s e) _ (handlers.case_opened e)
        (λ q.
          let (c, c1, c2) = >>=-eq-ok (require_case s) _ q in
          apply_in_case_rule c e (ground arith) c2)
        e2
