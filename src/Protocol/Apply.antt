-- ===== src/Protocol/Apply.antt =====
-- `ProtocolState.apply` and `replay_ledger` of src/boule/protocol.py.
use daryxx_boule_protocol.Prelude.{List, [], ◌∷◌, if◌then◌else◌}
use daryxx_boule_protocol.Python.{protocol, Result, ok, err, ◌>>=◌, ◌>>◌, Value, is_text}
use daryxx_boule_protocol.Crypto.{Platform}
use daryxx_boule_protocol.Model.{Case}
use daryxx_boule_protocol.Ledger.{verify}
use daryxx_boule_protocol.Protocol.State.{State, initial, require_case, Entry, entry_of}
use daryxx_boule_protocol.Protocol.Evidence.{
  case_opened, contribution_added, technical_receipt_recorded, evidence_sealed,
}
use daryxx_boule_protocol.Protocol.Review.{
  reviewers_assigned, review_committed, review_commit_phase_closed, review_revealed,
  provisional_decision_recorded,
}

module _ (sys : Platform) where
  -- the kinds that need an open case
  unfoldable pub apply_in_case : State → Case → Entry → Result State
  apply_in_case s case e =
      if is_text e.kind "contribution_added"
      then contribution_added sys s case e
      else if is_text e.kind "technical_receipt_recorded"
      then technical_receipt_recorded sys s case e
      else if is_text e.kind "evidence_sealed"
      then evidence_sealed sys s case e
      else if is_text e.kind "reviewers_assigned"
      then reviewers_assigned sys s case e
      else if is_text e.kind "review_committed"
      then review_committed sys s case e
      else if is_text e.kind "review_commit_phase_closed"
      then review_commit_phase_closed sys s case e
      else if is_text e.kind "review_revealed"
      then review_revealed sys s case e
      else if is_text e.kind "provisional_decision_recorded"
      then provisional_decision_recorded sys s case e
      else err (protocol "unsupported event kind: {kind}")

  unfoldable pub apply : State → Value → Result State
  unfolding apply_in_case
  apply s entry = do
    e ← entry_of entry
    let in_case = require_case s >>= λ case. apply_in_case s case e
    (if is_text e.kind "case_opened" then case_opened sys s e else in_case)

  -- `for entry in ledger.entries: state.apply(entry)`
  unfoldable pub apply_all : State → List Value → Result State
  apply_all s [] = ok s
  apply_all s (entry ∷ entries) = do next ← apply s entry; apply_all next entries

  unfoldable pub replay_ledger : List Value → Result State
  unfolding apply_all
  replay_ledger entries = do verify sys entries; apply_all initial entries
