-- ===== src/Protocol/Review.antt =====
-- The review events of `ProtocolState.apply` (src/boule/protocol.py): assignment, commitments,
-- their closing, reveals and the decision.
use daryxx_boule_protocol.Prelude.{
  String, Bool, true, false, not, ◌&&◌, ◌||◌, Option, none, some, List, [], ◌∷◌, ltb, ◌==◌,
  if◌then◌else◌, length, any,
}
use daryxx_boule_protocol.Python.{
  protocol, Result, ok, err, ◌>>=◌, ◌>>◌, raise_if, or_crash, same_set, lookup, has_key, insert,
  keys, values, Value, texts, is_text, same_value, is_hex_text, text_le, sorted,
}
use daryxx_boule_protocol.Crypto.{Platform}
use daryxx_boule_protocol.Model.{required, as_text, parse_time, Case, validate_ballot}
use daryxx_boule_protocol.Moderation.{
  select_reviewers, ballot_commitment, aggregate_ballots, Decision, decision_value,
}
use daryxx_boule_protocol.Protocol.State.{
  Phase, same_phase, State, exact_payload, not_after, contribution_ids, Entry, expect_root,
}
use daryxx_boule_protocol.Protocol.Evidence.{is_actor}

-- `actor in names`, for a tuple of texts
unfoldable pub one_of : Value → List String → Bool
one_of v names = any (is_text v) names

module _ (sys : Platform) where
  unfoldable pub reviewers_assigned : State → Case → Entry → Result State
  reviewers_assigned s case e = do
    raise_if (not (same_phase s.phase Phase.sealed)) "reviewer assignment is out of phase"
    not_after sys e.received_at case.deadlines.review_commit
    raise_if (not (is_actor e.actor s.clerk_key)) "only the clerk can publish reviewer assignment"
    payload ←
        exact_payload e.payload ("case_id" ∷ "evidence_root" ∷ "seed" ∷ "reviewers" ∷ [])
          "reviewers_assigned"
    bound ← expect_root payload case s
    raise_if (not bound) "reviewer assignment is bound to the wrong evidence"
    seed ← required payload "seed"
    expected ← select_reviewers sys case s.roster seed s.evidence_root
    reviewers ← required payload "reviewers"
    raise_if (not (same_value reviewers (texts expected)))
        "reviewer assignment is not the deterministic result"
    ok (record s { assigned_reviewers = expected; phase = Phase.reviewing })

  unfoldable pub review_committed : State → Case → Entry → Result State
  review_committed s case e = do
    raise_if (not (same_phase s.phase Phase.reviewing) || s.commits_closed)
        "review commit phase is closed"
    not_after sys e.received_at case.deadlines.review_commit
    payload ←
        exact_payload e.payload ("case_id" ∷ "evidence_root" ∷ "commitment" ∷ []) "review_committed"
    raise_if (not (one_of e.actor s.assigned_reviewers)) "reviewer was not assigned"
    actor ← as_text e.actor
    raise_if (has_key actor s.review_commits) "reviewer already committed"
    bound ← expect_root payload case s
    raise_if (not bound) "review commitment is bound to the wrong case"
    commitment ← required payload "commitment"
    digest ← elim commitment [
      | Value.text c ↦
          if is_hex_text 64 c
          then ok c
          else err (protocol "review commitment must be a SHA-256 digest")
      | _ ↦ err (protocol "review commitment must be a SHA-256 digest")
    ]
    ok (record s { review_commits = insert actor digest s.review_commits })

  unfoldable pub review_commit_phase_closed : State → Case → Entry → Result State
  review_commit_phase_closed s case e = do
    raise_if (not (same_phase s.phase Phase.reviewing) || s.commits_closed)
        "review commit close is duplicate or out of phase"
    not_after sys e.received_at case.deadlines.review_commit
    raise_if (not (is_actor e.actor s.clerk_key)) "only the clerk can close review commits"
    payload ←
        exact_payload e.payload ("case_id" ∷ "evidence_root" ∷ "committed_reviewers" ∷ [])
          "review_commit_phase_closed"
    bound ← expect_root payload case s
    raise_if (not bound) "review close is bound to the wrong case"
    committed ← required payload "committed_reviewers"
    raise_if (not (same_value committed (texts (sorted text_le (keys s.review_commits)))))
        "review close does not match recorded commitments"
    raise_if (not (same_set (keys s.review_commits) s.assigned_reviewers))
        "every assigned reviewer must commit before reveal"
    ok (record s { commits_closed = true })

  unfoldable pub review_revealed : State → Case → Entry → Result State
  review_revealed s case e = do
    raise_if (not (same_phase s.phase Phase.reviewing) || not s.commits_closed)
        "review reveal is premature or out of phase"
    not_after sys e.received_at case.deadlines.review_reveal
    payload ←
        exact_payload e.payload ("case_id" ∷ "evidence_root" ∷ "ballot" ∷ "salt" ∷ [])
          "review_revealed"
    raise_if (not (one_of e.actor s.assigned_reviewers))
        "reviewer has no valid assignment and commitment"
    actor ← as_text e.actor
    raise_if (not (has_key actor s.review_commits))
        "reviewer has no valid assignment and commitment"
    raise_if (has_key actor s.ballots) "reviewer already revealed"
    bound ← expect_root payload case s
    raise_if (not bound) "review reveal is bound to the wrong case"
    value ← required payload "ballot"
    ballot ← validate_ballot value case s.evidence_root actor (contribution_ids s)
    salt ← required payload "salt"
    commitment ← ballot_commitment sys ballot.raw salt
    committed ← or_crash (lookup actor s.review_commits)
    raise_if (not (commitment == committed)) "review reveal does not match its commitment"
    ok (record s { ballots = insert actor ballot s.ballots })

  abbrev decided : Option Decision → Bool
  decided none = false
  decided (some d) = true

  unfoldable pub provisional_decision_recorded : State → Case → Entry → Result State
  provisional_decision_recorded s case e = do
    raise_if
        (not (same_phase s.phase Phase.reviewing) || not s.commits_closed || decided s.decision)
        "provisional decision is duplicate or out of phase"
    raise_if (not (is_actor e.actor s.clerk_key))
        "only the clerk can record the deterministic decision"
    received ← parse_time sys e.received_at "entry.received_at"
    raise_if
        (ltb (length s.ballots) (length s.assigned_reviewers)
          && ltb received case.deadlines.review_reveal)
        "cannot finalize while valid reveal time remains"
    raise_if (ltb case.deadlines.appeal received)
        "cannot record a decision after the appeal deadline"
    expected ← aggregate_ballots case s.evidence_root (values s.ballots) (contribution_ids s)
    raise_if (not (same_value e.payload (decision_value expected)))
        "provisional decision does not match deterministic aggregation"
    ok (record s { decision = some expected; phase = Phase.provisional })
