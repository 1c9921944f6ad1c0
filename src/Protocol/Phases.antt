-- ===== src/Protocol/Phases.antt =====
-- The phases of `ProtocolState`: what holds in each, and that they only move forward.
use daryxx_boule_protocol.Prelude.{
  ◌≤◌, ◌≡◌, Bool, true, false, Option, none, some, List, [], ◌∷◌, arith, leb, ◌==◌,
}
use daryxx_boule_protocol.Python.{ok, >>=-eq-ok, same_set, keys, Value}
use daryxx_boule_protocol.Crypto.{Platform}
use daryxx_boule_protocol.Model.{Case, Receipt}
use daryxx_boule_protocol.Protocol.State.{phase_code, State, initial, Entry}
use daryxx_boule_protocol.Protocol.Evidence.{
  case_opened, contribution_added, technical_receipt_recorded, evidence_sealed,
}
use daryxx_boule_protocol.Protocol.Review.{
  reviewers_assigned, review_committed, review_commit_phase_closed, review_revealed,
  provisional_decision_recorded,
}
use daryxx_boule_protocol.Protocol.Steps.{apply_rule}
use daryxx_boule_protocol.Protocol.Apply.{apply, apply_all}

abbrev pub is_set {ℓ} : {A : Type ℓ} → Option A → Bool
is_set none = false
is_set (some a) = true

abbrev pub Passed : Option Receipt → Type 0
Passed none = ⊥
Passed (some r) = (r.status == "pass") ≡ true

-- What the fields say in each phase.
pub record IsCoherent (s : State) : Type 0 where
  pub opened : is_set s.case ≡ leb 1 (phase_code s.phase)
  pub sealed_root : is_set s.evidence_root ≡ leb 2 (phase_code s.phase)
  pub passed : 2 ≤ phase_code s.phase → Passed s.technical_receipt
  pub no_early_commits : phase_code s.phase ≤ 2 → s.review_commits ≡ []
  pub closed_late : s.commits_closed ≡ true → 3 ≤ phase_code s.phase
  pub reveals_after_close : s.commits_closed ≡ false → s.ballots ≡ []
  pub closed_complete :
      s.commits_closed ≡ true → same_set (keys s.review_commits) s.assigned_reviewers ≡ true
  pub decided_last : is_set s.decision ≡ leb 4 (phase_code s.phase)
  pub decided_closed : 4 ≤ phase_code s.phase → s.commits_closed ≡ true

pub IsCoherent-initial : IsCoherent initial
IsCoherent-initial = ground arith

-- A handler keeps the invariant, and the phase does not go back.
abbrev pub Advances : State → State → Type 0
Advances s t = IsCoherent t × (phase_code s.phase ≤ phase_code t.phase)

module _ (sys : Platform) (s : State) (e : Entry) (h : IsCoherent s) where
  case_opened-Advances : {t : State} → case_opened sys s e ≡ ok t → Advances s t
  unfolding case_opened
  case_opened-Advances p = ground arith

module _ (sys : Platform) (s : State) (c : Case) (e : Entry) (h : IsCoherent s) where
  contribution_added-Advances : {t : State} → contribution_added sys s c e ≡ ok t → Advances s t
  unfolding contribution_added
  contribution_added-Advances p = ground arith

  technical_receipt_recorded-Advances :
      {t : State} → technical_receipt_recorded sys s c e ≡ ok t → Advances s t
  unfolding technical_receipt_recorded
  technical_receipt_recorded-Advances p = ground arith

  evidence_sealed-Advances : {t : State} → evidence_sealed sys s c e ≡ ok t → Advances s t
  unfolding evidence_sealed
  evidence_sealed-Advances p = ground arith

  reviewers_assigned-Advances : {t : State} → reviewers_assigned sys s c e ≡ ok t → Advances s t
  unfolding reviewers_assigned
  reviewers_assigned-Advances p = ground arith

  review_committed-Advances : {t : State} → review_committed sys s c e ≡ ok t → Advances s t
  unfolding review_committed
  review_committed-Advances p = ground arith

  review_commit_phase_closed-Advances :
      {t : State} → review_commit_phase_closed sys s c e ≡ ok t → Advances s t
  unfolding review_commit_phase_closed
  review_commit_phase_closed-Advances p = ground arith

  review_revealed-Advances : {t : State} → review_revealed sys s c e ≡ ok t → Advances s t
  unfolding review_revealed
  review_revealed-Advances p = ground arith

  provisional_decision_recorded-Advances :
      {t : State} → provisional_decision_recorded sys s c e ≡ ok t → Advances s t
  unfolding provisional_decision_recorded
  provisional_decision_recorded-Advances p = ground arith

module _ (sys : Platform) where
  -- If a state is coherent and an entry is applied to it, the new state is coherent (a root once the
  -- evidence is sealed, with a passing receipt; no commitments before the reviewing phase, no ballots
  -- before the commitments are closed, all reviewers committed then, a decision exactly in the last
  -- phase), and its phase is not an earlier one.
  pub apply-Advances :
      (s : State) (entry : Value) {t : State}
      → IsCoherent s
      → apply sys s entry ≡ ok t
      → Advances s t
  apply-Advances s entry {t} h p =
      apply_rule sys s (Advances s)
        (record {
          case_opened = λ e. case_opened-Advances sys s e h;
          contribution_added = λ c e o. contribution_added-Advances sys s c e h;
          technical_receipt_recorded = λ c e o. technical_receipt_recorded-Advances sys s c e h;
          evidence_sealed = λ c e o. evidence_sealed-Advances sys s c e h;
          reviewers_assigned = λ c e o. reviewers_assigned-Advances sys s c e h;
          review_committed = λ c e o. review_committed-Advances sys s c e h;
          review_commit_phase_closed = λ c e o. review_commit_phase_closed-Advances sys s c e h;
          review_revealed = λ c e o. review_revealed-Advances sys s c e h;
          provisional_decision_recorded =
              λ c e o. provisional_decision_recorded-Advances sys s c e h;
        })
        entry p

  -- The same of any number of entries.
  pub apply_all-Advances :
      (s : State) (entries : List Value) {t : State}
      → IsCoherent s
      → apply_all sys s entries ≡ ok t
      → Advances s t
  unfolding apply_all
  apply_all-Advances s [] {t} h p = ground arith
  apply_all-Advances s (entry ∷ entries) {t} h p =
      let (m, first, rest) = >>=-eq-ok (apply sys s entry) _ p in
      let (mid, le) = apply-Advances s entry h first in
      let (end, le') = apply_all-Advances m entries mid rest in (end, omega arith)
