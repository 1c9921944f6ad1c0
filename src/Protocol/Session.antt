-- ===== src/Protocol/Session.antt =====
-- `ProtocolSession` of src/boule/protocol.py: a ledger and the state of its entries. A method
-- returns what it gives or raises, with the session as it is then.
use daryxx_boule_protocol.Prelude.{String, not, none, some, List, [], ◌∷◌, get_elem?}
use daryxx_boule_protocol.Python.{
  protocol, Result, ok, err, ◌>>=◌, ◌>>◌, raise_if, or_crash, keys, values, Value, object, texts,
  is_text, optional_text, text_le, sorted,
}
use daryxx_boule_protocol.Crypto.{Platform, public_key_text}
use daryxx_boule_protocol.Model.{validate_ballot}
use daryxx_boule_protocol.Moderation.{
  select_reviewers, ballot_commitment, aggregate_ballots, Decision, decision_value,
}
use daryxx_boule_protocol.Ledger.{clerk_key, create, append, rollback_last}
use daryxx_boule_protocol.Protocol.State.{
  State, initial, require_case, contribution_ids, expected_evidence_root,
}
use daryxx_boule_protocol.Protocol.Apply.{apply}

pub record Session : Type 0 where
  pub ledger : List Value
  pub state : State
  pub clerk_private_key : String

abbrev pub Action : Type 0 → Type 0
Action A = Session → Result A × Session

module _ (sys : Platform) where
  -- `ProtocolSession(...)` and `ProtocolSession.open`
  unfoldable pub new_session : List Value → State → String → Result Session
  new_session ledger state clerk_private_key = do
    key ← clerk_key sys ledger
    raise_if (not (is_text key (public_key_text sys clerk_private_key)))
        "session clerk key does not match ledger"
    ok (record { ledger = ledger; state = state; clerk_private_key = clerk_private_key })

  unfoldable pub open_session : Value → Value → String → String → Result Session
  unfolding new_session
  open_session case reviewers clerk_private_key received_at = do
    ledger ← create sys case reviewers clerk_private_key received_at
    first ← or_crash (get_elem? ledger 0)
    state ← apply sys initial first
    new_session ledger state clerk_private_key

  -- The ledger keeps the entry only if the state accepts it. A handler of the source tests before it
  -- changes the state, so that one that raises leaves the state as it was.
  unfoldable pub settle : Session → List Value → Value → Result State → Result Value × Session
  settle s grown entry (ok state) = (ok entry, record s { ledger = grown; state = state })
  settle s grown entry (err e) = (err e, record s { ledger = rollback_last grown })

  -- what is done with the result of `ledger.append`
  unfoldable pub extend : Session → Result (List Value × Value) → Result Value × Session
  unfolding settle
  extend s (err e) = (err e, s)
  extend s (ok (grown, entry)) = settle s grown entry (apply sys s.state entry)

  -- `_append`
  unfoldable pub append_entry : String → Value → String → String → Action Value
  unfolding extend
  append_entry kind payload actor_private_key received_at s =
      extend s (append sys s.ledger kind payload actor_private_key s.clerk_private_key received_at)

  unfoldable pub add_contribution : Value → String → String → Action Value
  add_contribution contribution agent_private_key received_at =
      append_entry "contribution_added" contribution agent_private_key received_at

  unfoldable pub record_technical_receipt : Value → String → String → Action Value
  record_technical_receipt receipt verifier_private_key received_at =
      append_entry "technical_receipt_recorded" receipt verifier_private_key received_at

  -- a payload that is computed from the state, before anything is appended
  abbrev pub with_payload : {A : Type 0} → String → String → String → Result (Value × A) → Action A
  with_payload kind key received_at (err e) s = (err e, s)
  with_payload kind key received_at (ok (payload, a)) s =
      let (r, t) = append_entry kind payload key received_at s in (r >> ok a, t)

  unfoldable pub seal_payload : State → Result (Value × String)
  seal_payload s = do
    receipt ← elim s.technical_receipt [
      | some r ↦ ok r
      | none ↦ err (protocol "technical receipt is missing")
    ]
    root ← expected_evidence_root sys s
    case ← or_crash s.case
    ok (
      object (
          ("case_id", Value.text case.case_id)
          ∷ ("evidence_root", Value.text root)
          ∷ ("contribution_ids", texts (sorted text_le (contribution_ids s)))
          ∷ ("technical_report_digest", Value.text receipt.report_digest)
          ∷ ("artifact_digest", Value.text receipt.artifact_digest)
          ∷ []),
      root,
    )

  unfoldable pub seal_evidence : String → Action String
  unfolding seal_payload
  seal_evidence received_at s =
      with_payload "evidence_sealed" s.clerk_private_key received_at (seal_payload s.state) s

  unfoldable pub assignment_payload : State → String → Result (Value × List String)
  assignment_payload s seed = do
    case ← require_case s
    root ← elim s.evidence_root [ some r ↦ ok r | none ↦ err (protocol "evidence is not sealed") ]
    assigned ← select_reviewers sys case s.roster (Value.text seed) (some root)
    ok (
      object (
          ("case_id", Value.text case.case_id)
          ∷ ("evidence_root", Value.text root)
          ∷ ("seed", Value.text seed)
          ∷ ("reviewers", texts assigned)
          ∷ []),
      assigned,
    )

  unfoldable pub assign_reviewers : String → String → Action (List String)
  unfolding assignment_payload
  assign_reviewers seed received_at s =
      with_payload "reviewers_assigned" s.clerk_private_key received_at
        (assignment_payload s.state seed) s

  unfoldable pub commit_payload : State → Value → String → String → Result (Value × String)
  commit_payload s ballot salt reviewer_private_key = do
    case ← require_case s
    let reviewer_id = public_key_text sys reviewer_private_key
    validate_ballot ballot case s.evidence_root reviewer_id (contribution_ids s)
    commitment ← ballot_commitment sys ballot (Value.text salt)
    ok (
      object (
          ("case_id", Value.text case.case_id)
          ∷ ("evidence_root", optional_text s.evidence_root)
          ∷ ("commitment", Value.text commitment)
          ∷ []),
      commitment,
    )

  unfoldable pub commit_review : Value → String → String → String → Action String
  unfolding commit_payload
  commit_review ballot salt reviewer_private_key received_at s =
      with_payload "review_committed" reviewer_private_key received_at
        (commit_payload s.state ballot salt reviewer_private_key) s

  unfoldable pub close_payload : State → Result (Value × Unit {0})
  close_payload s = do
    case ← require_case s
    ok (
      object (
          ("case_id", Value.text case.case_id)
          ∷ ("evidence_root", optional_text s.evidence_root)
          ∷ ("committed_reviewers", texts (sorted text_le (keys s.review_commits)))
          ∷ []),
      tt,
    )

  unfoldable pub close_review_commits : String → Action (Unit {0})
  unfolding close_payload
  close_review_commits received_at s =
      with_payload "review_commit_phase_closed" s.clerk_private_key received_at
        (close_payload s.state) s

  unfoldable pub reveal_payload : State → Value → String → Result (Value × Unit {0})
  reveal_payload s ballot salt = do
    case ← require_case s
    ok (
      object (
          ("case_id", Value.text case.case_id)
          ∷ ("evidence_root", optional_text s.evidence_root)
          ∷ ("ballot", ballot)
          ∷ ("salt", Value.text salt)
          ∷ []),
      tt,
    )

  unfoldable pub reveal_review : Value → String → String → String → Action (Unit {0})
  unfolding reveal_payload
  reveal_review ballot salt reviewer_private_key received_at s =
      with_payload "review_revealed" reviewer_private_key received_at
        (reveal_payload s.state ballot salt) s

  unfoldable pub decision_payload : State → Result (Value × Decision)
  decision_payload s = do
    case ← require_case s
    decision ← aggregate_ballots case s.evidence_root (values s.ballots) (contribution_ids s)
    ok (decision_value decision, decision)

  unfoldable pub finalize : String → Action Decision
  unfolding decision_payload
  finalize received_at s =
      with_payload "provisional_decision_recorded" s.clerk_private_key received_at
        (decision_payload s.state) s
