-- ===== src/Protocol/Reviews.antt =====
-- Commit and reveal: every ballot of a state opens the commitment that its reviewer recorded
-- while no ballot was revealed.
use daryxx_boule_protocol.Prelude.{
  String, ◌≡◌, sym, ap, ◌∙◌, inl, inr, not, ◌||◌, some, List, [], ◌∷◌, arith, eq_iff, ◌==◌,
  if◌then◌else◌, Bool-cases,
}
use daryxx_boule_protocol.Python.{
  ok, raise_if, or_crash, >>=-eq-ok, ok_injective, or_crash-eq-ok, raise_unless_same, Dict, lookup,
  has_key, insert, lookup-insert, Value,
}
use daryxx_boule_protocol.Crypto.{Platform}
use daryxx_boule_protocol.Model.{required, as_text, Case, Ballot, validate_ballot}
use daryxx_boule_protocol.Moderation.{ballot_commitment}
use daryxx_boule_protocol.Protocol.State.{
  Phase, same_phase, State, initial, exact_payload, not_after, contribution_ids, Entry, expect_root,
}
use daryxx_boule_protocol.Protocol.Evidence.{
  case_opened, contribution_added, technical_receipt_recorded, evidence_sealed,
}
use daryxx_boule_protocol.Protocol.Review.{
  one_of, reviewers_assigned, review_committed, review_commit_phase_closed, review_revealed,
  provisional_decision_recorded,
}
use daryxx_boule_protocol.Protocol.Apply.{apply, apply_all, replay_ledger}
use mathlib.Core.Path.{subst}
use daryxx_boule_protocol.Ledger.{verify}
use daryxx_boule_protocol.Protocol.Phases.{IsCoherent, IsCoherent-initial, apply-Advances}
use daryxx_boule_protocol.Protocol.Steps.{apply_rule}

-- The commitment of this reviewer is the digest of this ballot with some salt.
pub record Opens (sys : Platform) (commits : Dict String) (reviewer : String) (ballot : Ballot)
    : Type 0 where
  pub salt : Value
  pub commitment : String
  pub hashed : ballot_commitment sys ballot.raw salt ≡ ok commitment
  pub recorded : lookup reviewer commits ≡ some commitment

pub record IsCommitted (sys : Platform) (s : State) : Type 0 where
  pub opens :
      (reviewer : String) (ballot : Ballot)
      → lookup reviewer s.ballots ≡ some ballot
      → Opens sys s.review_commits reviewer ballot

-- The state has the same ballots and commitments.
kept :
    (sys : Platform) (s t : State)
    → t.ballots ≡ s.ballots
    → t.review_commits ≡ s.review_commits
    → IsCommitted sys s
    → IsCommitted sys t
kept sys s t b r h = record {
  opens = λ a ballot e.
      subst (λ d. Opens sys d a ballot) (sym r)
        (h.opens a ballot (subst (λ d. lookup a d ≡ some ballot) b e));
}

module _ (sys : Platform) (s : State) (h : IsCommitted sys s) where
  review_committed-IsCommitted :
      (c : Case) (e : Entry) {t : State}
      → IsCoherent s
      → review_committed sys s c e ≡ ok t
      → IsCommitted sys t
  unfolding review_committed
  review_committed-IsCommitted c e {t} coherent p =
      let none_yet : t.ballots ≡ [] = ground arith in
      record { opens = λ a ballot found. absurd (unfold lookup in cc (rw none_yet at found)) }

  revealed :
      (c : Case) (e : Entry) {t : State}
      → review_revealed sys s c e ≡ ok t
      → (actor : String) × (b : Ballot) × Opens sys s.review_commits actor b
        × (t.ballots ≡ insert actor b s.ballots)
        × (t.review_commits ≡ s.review_commits)
  unfolding review_revealed
  revealed c e {t} p =
      let (u1, _, p1) =
        >>=-eq-ok
          (raise_if (not (same_phase s.phase Phase.reviewing) || not s.commits_closed)
            "review reveal is premature or out of phase")
          _ p in
      let (u2, _, p2) = >>=-eq-ok (not_after sys e.received_at c.deadlines.review_reveal) _ p1 in
      let (payload, _, p3) =
        >>=-eq-ok
          (exact_payload e.payload ("case_id" ∷ "evidence_root" ∷ "ballot" ∷ "salt" ∷ [])
            "review_revealed")
          _ p2 in
      let (u3, _, p4) =
        >>=-eq-ok
          (raise_if (not (one_of e.actor s.assigned_reviewers))
            "reviewer has no valid assignment and commitment")
          _ p3 in
      let (actor, _, p5) = >>=-eq-ok (as_text e.actor) _ p4 in
      let (u4, _, p6) =
        >>=-eq-ok
          (raise_if (not (has_key actor s.review_commits))
            "reviewer has no valid assignment and commitment")
          _ p5 in
      let (u5, _, p7) =
        >>=-eq-ok (raise_if (has_key actor s.ballots) "reviewer already revealed") _ p6 in
      let (bound, _, p8) = >>=-eq-ok (expect_root payload c s) _ p7 in
      let (u6, _, p9) =
        >>=-eq-ok (raise_if (not bound) "review reveal is bound to the wrong case") _ p8 in
      let (value, _, p10) = >>=-eq-ok (required payload "ballot") _ p9 in
      let (ballot, _, p11) =
        >>=-eq-ok (validate_ballot value c s.evidence_root actor (contribution_ids s)) _ p10 in
      let (salt, _, p12) = >>=-eq-ok (required payload "salt") _ p11 in
      let (commitment, hashed, p13) = >>=-eq-ok (ballot_commitment sys ballot.raw salt) _ p12 in
      let (committed, found, p14) = >>=-eq-ok (or_crash (lookup actor s.review_commits)) _ p13 in
      let (u7, same, p15) =
        >>=-eq-ok
          (raise_if (not (commitment == committed)) "review reveal does not match its commitment") _
          p14 in
      let stored : lookup actor s.review_commits ≡ some committed =
        or_crash-eq-ok (lookup actor s.review_commits) found in
      let match : commitment ≡ committed =
        raise_unless_same commitment committed "review reveal does not match its commitment" same in
      (
        actor,
        ballot,
        record {
          salt = salt;
          commitment = commitment;
          hashed = hashed;
          recorded = rw match stored;
        },
        ap (λ (q : State). q.ballots) (sym (ok_injective p15)),
        ap (λ (q : State). q.review_commits) (sym (ok_injective p15)),
      )

  review_revealed-IsCommitted :
      (c : Case) (e : Entry) {t : State} → review_revealed sys s c e ≡ ok t → IsCommitted sys t
  review_revealed-IsCommitted c e {t} p =
      let (actor, b, opened, grown, same) = revealed c e p in
      record {
        opens = λ a ballot found.
            let found' : (if a == actor then some b else lookup a s.ballots) ≡ some ballot =
              sym (lookup-insert actor a b s.ballots) ∙ (rw grown at found) in
            subst (λ d. Opens sys d a ballot) (sym same)
              (elim (Bool-cases (a == actor)) [
                | inl own ↦
                    let who : actor ≡ a = sym ((eq_iff a actor).0 own) in
                    let what : b ≡ ballot = ground (arith, own, found') in
                    subst (λ q. Opens sys s.review_commits q ballot) who
                      (subst (λ q. Opens sys s.review_commits actor q) what opened)
                | inr other ↦ h.opens a ballot (rw other at found')
              ]);
      }

module _ (sys : Platform) where
  -- If a coherent state's ballots all open recorded commitments, so they do after one more entry.
  pub apply-IsCommitted :
      (s : State) (entry : Value) {t : State}
      → IsCoherent s
      → IsCommitted sys s
      → apply sys s entry ≡ ok t
      → IsCommitted sys t
  apply-IsCommitted s entry coherent h p =
      apply_rule sys s (IsCommitted sys)
        (record {
          case_opened = λ e q. unfold case_opened in kept sys s _ (ground arith) (ground arith) h;
          contribution_added =
              λ c e o q. unfold contribution_added in kept sys s _ (ground arith) (ground arith) h;
          technical_receipt_recorded = λ c e o q.
              unfold technical_receipt_recorded in kept sys s _ (ground arith) (ground arith) h;
          evidence_sealed =
              λ c e o q. unfold evidence_sealed in kept sys s _ (ground arith) (ground arith) h;
          reviewers_assigned =
              λ c e o q. unfold reviewers_assigned in kept sys s _ (ground arith) (ground arith) h;
          review_committed = λ c e o q. review_committed-IsCommitted sys s h c e coherent q;
          review_commit_phase_closed = λ c e o q.
              unfold review_commit_phase_closed in kept sys s _ (ground arith) (ground arith) h;
          review_revealed = λ c e o q. review_revealed-IsCommitted sys s h c e q;
          provisional_decision_recorded = λ c e o q.
              unfold provisional_decision_recorded in kept sys s _ (ground arith) (ground arith) h;
        })
        entry p

  apply_all-IsCommitted :
      (s : State) (entries : List Value) {t : State}
      → IsCoherent s
      → IsCommitted sys s
      → apply_all sys s entries ≡ ok t
      → IsCommitted sys t
  unfolding apply_all
  apply_all-IsCommitted s [] {t} coherent h p = subst (IsCommitted sys) (ok_injective p) h
  apply_all-IsCommitted s (entry ∷ entries) coherent h p =
      let (m, first, rest) = >>=-eq-ok (apply sys s entry) _ p in
      apply_all-IsCommitted m entries (apply-Advances sys s entry coherent first).0
        (apply-IsCommitted s entry coherent h first) rest

  -- In a state that a ledger replays to, every ballot of a reviewer is the one whose digest, with
  -- some salt, is the commitment recorded for that reviewer.
  pub replay_ledger-IsCommitted :
      (entries : List Value) {t : State} → replay_ledger sys entries ≡ ok t → IsCommitted sys t
  unfolding replay_ledger
  replay_ledger-IsCommitted entries p =
      let (c, _, q) = >>=-eq-ok (verify sys entries) _ p in
      apply_all-IsCommitted initial entries IsCoherent-initial
        (record { opens = λ a ballot found. absurd (unfold lookup in cc found) }) q
