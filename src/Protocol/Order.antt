-- ===== src/Protocol/Order.antt =====
-- Contributions: none is lost or replaced, and each depends only on earlier ones.
use daryxx_boule_protocol.Prelude.{
  String, ◌≡◌, refl, sym, ap, ◌∙◌, true, false, not, List, [], ◌∷◌, ◌++◌, arith,
}
use daryxx_boule_protocol.Python.{
  ok, raise_if, or_crash, >>=-eq-ok, ok_injective, raise_if-eq-ok, Dict, subset, lookup, has_key,
  insert, keys, Value, is_text,
}
use daryxx_boule_protocol.Crypto.{Platform}
use daryxx_boule_protocol.Model.{Case, validate_contribution}
use daryxx_boule_protocol.Protocol.State.{
  Phase, same_phase, Recorded, State, initial, not_after, contribution_ids, Entry,
}
use daryxx_boule_protocol.Protocol.Evidence.{
  case_opened, contribution_added, technical_receipt_recorded, evidence_sealed,
}
use daryxx_boule_protocol.Protocol.Review.{
  reviewers_assigned, review_committed, review_commit_phase_closed, review_revealed,
  provisional_decision_recorded,
}
use daryxx_boule_protocol.Protocol.Apply.{apply, apply_all, replay_ledger}
use mathlib.Core.Path.{subst}
use mathlib.Core.List.{append-nil, append_assoc}
use daryxx_boule_protocol.Ledger.{verify}
use daryxx_boule_protocol.Protocol.Steps.{apply_rule}

-- Behind `seen`, each contribution depends only on those before it.
abbrev pub DependsBack : List String → Dict Recorded → Type 0
DependsBack seen [] = Unit
DependsBack seen ((k, r) ∷ d) =
    (subset r.payload.depends_on seen ≡ true) × DependsBack (seen ++ k ∷ []) d

-- A new key goes to the end of a dict.
insert_new :
    (k : String) (r : Recorded) (d : Dict Recorded)
    → has_key k d ≡ false
    → insert k r d ≡ d ++ (k, r) ∷ []
unfolding insert lookup
insert_new k r [] h = refl
insert_new k r ((j, q) ∷ d) h = ground (arith, insert_new k r d)

DependsBack-append_one :
    (seen : List String) (d : Dict Recorded) (k : String) (r : Recorded)
    → DependsBack seen d
    → subset r.payload.depends_on (seen ++ keys d) ≡ true
    → DependsBack seen (d ++ (k, r) ∷ [])
unfolding keys
DependsBack-append_one seen [] k r h p =
    (subst (λ l. subset r.payload.depends_on l ≡ true) (append-nil seen) p, tt)
DependsBack-append_one seen ((j, q) ∷ d) k r h p = (
  h.0,
  DependsBack-append_one (seen ++ j ∷ []) d k r h.1 (
      subst (λ l. subset r.payload.depends_on l ≡ true) (sym (append_assoc seen (j ∷ []) (keys d)))
        p),
)

-- What one entry does to the contributions: nothing, or one more at the end, whose dependencies
-- are there.
pub data Extends (s : State) (t : State) : Type 0 where
  same : t.contributions ≡ s.contributions → Extends s t
  one_more :
      (k : String) (r : Recorded)
      → t.contributions ≡ s.contributions ++ (k, r) ∷ []
      → has_key k s.contributions ≡ false
      → subset r.payload.depends_on (keys s.contributions) ≡ true
      → Extends s t

module _ (sys : Platform) (s : State) where
  contribution_added-Extends :
      (c : Case) (e : Entry) {t : State} → contribution_added sys s c e ≡ ok t → Extends s t
  unfolding contribution_added contribution_ids
  contribution_added-Extends c e {t} p =
      let (u1, _, p1) =
        >>=-eq-ok (raise_if (not (same_phase s.phase Phase.active)) "contributions are closed") _
          p in
      let (u2, _, p2) = >>=-eq-ok (not_after sys e.received_at c.deadlines.submission) _ p1 in
      let (x, _, p3) = >>=-eq-ok (validate_contribution e.payload c) _ p2 in
      let (a, _, p4) = >>=-eq-ok (or_crash (lookup x.agent_id c.agents)) _ p3 in
      let (u3, _, p5) =
        >>=-eq-ok
          (raise_if (not (is_text e.actor a)) "contribution signer does not match its agent") _
          p4 in
      let (u4, new, p6) =
        >>=-eq-ok (raise_if (has_key x.contribution_id s.contributions) "duplicate contribution ID")
          _ p5 in
      let (u5, back, p7) =
        >>=-eq-ok
          (raise_if (not (subset x.depends_on (keys s.contributions)))
            "contribution has unknown dependencies: {sorted(missing)}")
          _ p6 in
      let r : Recorded = record { payload = x; entry_hash = e.entry_hash } in
      let fresh =
        raise_if-eq-ok (has_key x.contribution_id s.contributions) "duplicate contribution ID"
          new in
      let known =
        raise_if-eq-ok (not (subset x.depends_on (keys s.contributions)))
          "contribution has unknown dependencies: {sorted(missing)}" back in
      Extends.one_more x.contribution_id r
        (ap (λ (q : State). q.contributions) (sym (ok_injective p7))
          ∙ insert_new x.contribution_id r s.contributions fresh)
        fresh (ground (arith, known))

  -- Each entry that is applied leaves the contributions as they are, or adds one at the end: its ID
  -- is new and its dependencies are IDs that are there.
  pub apply-Extends : (entry : Value) {t : State} → apply sys s entry ≡ ok t → Extends s t
  apply-Extends entry p =
      apply_rule sys s (Extends s)
        (record {
          case_opened = λ e q. unfold case_opened in Extends.same (ground arith);
          contribution_added = λ c e o q. contribution_added-Extends c e q;
          technical_receipt_recorded =
              λ c e o q. unfold technical_receipt_recorded in Extends.same (ground arith);
          evidence_sealed = λ c e o q. unfold evidence_sealed in Extends.same (ground arith);
          reviewers_assigned = λ c e o q. unfold reviewers_assigned in Extends.same (ground arith);
          review_committed = λ c e o q. unfold review_committed in Extends.same (ground arith);
          review_commit_phase_closed =
              λ c e o q. unfold review_commit_phase_closed in Extends.same (ground arith);
          review_revealed = λ c e o q. unfold review_revealed in Extends.same (ground arith);
          provisional_decision_recorded =
              λ c e o q. unfold provisional_decision_recorded in Extends.same (ground arith);
        })
        entry p

Extends-DependsBack :
    (s t : State) → Extends s t → DependsBack [] s.contributions → DependsBack [] t.contributions
Extends-DependsBack s t (Extends.same e) h = rw e h
Extends-DependsBack s t (Extends.one_more k r e new back) h =
    rw e (DependsBack-append_one [] s.contributions k r h back)

module _ (sys : Platform) where
  apply_all-DependsBack :
      (s : State) (entries : List Value) {t : State}
      → DependsBack [] s.contributions
      → apply_all sys s entries ≡ ok t
      → DependsBack [] t.contributions
  unfolding apply_all
  apply_all-DependsBack s [] {t} h p =
      subst (λ q. DependsBack [] q.contributions) (ok_injective p) h
  apply_all-DependsBack s (entry ∷ entries) h p =
      let (m, first, rest) = >>=-eq-ok (apply sys s entry) _ p in
      apply_all-DependsBack m entries (Extends-DependsBack s m (apply-Extends sys s entry first) h)
        rest

  -- In a state that a ledger replays to, every contribution depends only on contributions recorded
  -- before it, so the dependencies have no cycle.
  pub replay_ledger-DependsBack :
      (entries : List Value) {t : State}
      → replay_ledger sys entries ≡ ok t
      → DependsBack [] t.contributions
  unfolding replay_ledger
  replay_ledger-DependsBack entries p =
      let (c, _, q) = >>=-eq-ok (verify sys entries) _ p in
      apply_all-DependsBack initial entries tt q
