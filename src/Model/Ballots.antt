-- ===== src/Model/Ballots.antt =====
-- `validate_ballot` of src/boule/model.py.
use daryxx_boule_protocol.Prelude.{ℕ, String, not, ◌||◌, Option, List, [], ◌∷◌, eqb, length}
use daryxx_boule_protocol.Python.{
  protocol, Result, ok, err, ◌>>=◌, ◌>>◌, raise_if, Dict, distinct, same_set, keys, values, Value,
  items, is_text, is_optional_text,
}
use daryxx_boule_protocol.Model.Fields.{
  required, as_text, mapping, exact_keys, text_field, integer_field, in_set,
}
use daryxx_boule_protocol.Model.Cases.{Case}

pub record Finding : Type 0 where
  pub evidence_refs : List String
  pub note : String

pub record Ballot : Type 0 where
  pub reviewer_id : String
  pub decision : String
  pub confidence_bps : ℕ
  -- the scores of each criterion by agent, in the order of the case's criteria
  pub scores : Dict (Dict ℕ)
  pub findings : Dict Finding
  pub raw : Value

abbrev ballot_fields : List String
ballot_fields =
    "case_id" ∷ "evidence_root" ∷ "reviewer_id" ∷ "decision" ∷ "confidence_bps" ∷ "scores"
    ∷ "findings" ∷ []

-- `for agent, score in criterion_scores.items()`
unfoldable pub agent_scores : Dict Value → Result (Dict ℕ)
agent_scores [] = ok []
agent_scores ((agent, score) ∷ scores) = do
  n ← integer_field score "scores.{criterion}.{agent}" 0 4
  rest ← agent_scores scores
  ok ((agent, n) ∷ rest)

-- `ref not in contribution_ids`, for each: a list or an object is not hashable
unfoldable pub evidence_refs : List Value → List String → Result (List String)
evidence_refs [] contribution_ids = ok []
evidence_refs (ref ∷ refs) contribution_ids = do
  sealed ← in_set ref contribution_ids
  raise_if (not sealed) "findings.{criterion} cites unsealed evidence"
  name ← as_text ref
  rest ← evidence_refs refs contribution_ids
  ok (name ∷ rest)

unfoldable pub validate_finding : Value → List String → Result Finding
unfolding evidence_refs
validate_finding v contribution_ids = do
  finding ← mapping v "findings.{criterion}"
  exact_keys finding ("evidence_refs" ∷ "note" ∷ []) "findings.{criterion}"
  refs ← required finding "evidence_refs"
  values ← elim refs [
    | Value.arr vs ↦ ok (items vs)
    | _ ↦ err (protocol "findings.{criterion}.evidence_refs cannot be empty")
  ]
  raise_if (eqb (length values) 0) "findings.{criterion}.evidence_refs cannot be empty"
  names ← evidence_refs values contribution_ids
  raise_if (not (distinct names)) "findings.{criterion} contains duplicate evidence"
  note ← text_field (← required finding "note") "findings.{criterion}.note" 1000
  ok (record { evidence_refs = names; note = note })

unfoldable pub validate_scores : Value → List String → Result (Dict ℕ)
unfolding agent_scores
validate_scores v agents = do
  scores ← mapping v "scores.{criterion}"
  raise_if (not (same_set (keys scores) agents))
      "scores.{criterion} must contain exactly both agents"
  agent_scores scores

-- `for criterion in criteria`
unfoldable pub criterion_reviews :
    List String
    → Dict Value
    → Dict Value
    → List String
    → List String
    → Result (Dict (Dict ℕ) × Dict Finding)
criterion_reviews [] scores findings agents contribution_ids = ok ([], [])
criterion_reviews (criterion ∷ criteria) scores findings agents contribution_ids = do
  score ← validate_scores (← required scores criterion) agents
  finding ← validate_finding (← required findings criterion) contribution_ids
  (more_scores, more_findings) ← criterion_reviews criteria scores findings agents contribution_ids
  ok ((criterion, score) ∷ more_scores, (criterion, finding) ∷ more_findings)

unfoldable pub validate_ballot : Value → Case → Option String → String → List String → Result Ballot
validate_ballot v case evidence_root reviewer_id contribution_ids = do
  value ← mapping v "ballot"
  exact_keys value ballot_fields "ballot"
  case_id ← required value "case_id"
  root ← required value "evidence_root"
  raise_if (not (is_text case_id case.case_id) || not (is_optional_text root evidence_root))
      "ballot is not bound to this sealed case"
  raise_if (not (is_text (← required value "reviewer_id") reviewer_id))
      "ballot reviewer does not match signer"
  decision ← required value "decision"
  known ← in_set decision ("decided" ∷ "inconclusive" ∷ [])
  raise_if (not known) "ballot decision is invalid"
  decision_text ← as_text decision
  confidence ← integer_field (← required value "confidence_bps") "ballot.confidence_bps" 0 10000
  scores ← mapping (← required value "scores") "ballot.scores"
  findings ← mapping (← required value "findings") "ballot.findings"
  let criteria = keys case.criteria_weights_bps
  raise_if (not (same_set (keys scores) criteria) || not (same_set (keys findings) criteria))
      "ballot must score and explain every frozen criterion"
  (score_table, finding_table) ←
      criterion_reviews criteria scores findings (keys case.agents) contribution_ids
  ok (record {
    reviewer_id = reviewer_id;
    decision = decision_text;
    confidence_bps = confidence;
    scores = score_table;
    findings = finding_table;
    raw = v;
  })
