-- ===== src/Model/Records.antt =====
-- `validate_reviewer`, `roster_digest`, `validate_contribution` and `validate_technical_receipt`
-- of src/boule/model.py.
use daryxx_boule_protocol.Prelude.{ℕ, String, not, List, [], ◌∷◌, map, ltb, ◌==◌}
use daryxx_boule_protocol.Python.{
  Result, ok, ◌>>=◌, ◌>>◌, raise_if, contains, distinct, keys, Value, list, is_text, text_le,
  sorted,
}
use daryxx_boule_protocol.Crypto.{Platform, digest_object, load_public_key}
use daryxx_boule_protocol.Model.Fields.{
  required, as_text, mapping, exact_keys, text_field, integer_field, hex_digest, in_set, text_list,
}
use daryxx_boule_protocol.Model.Cases.{Case}

pub record Reviewer : Type 0 where
  pub reviewer_id : String
  pub controller_id : String
  pub status : String
  pub calibration_passes : ℕ
  pub calibration_total : ℕ
  pub reveal_rate_bps : ℕ
  pub conflicts : List String
  pub raw : Value

pub record Contribution : Type 0 where
  pub contribution_id : String
  pub agent_id : String
  pub kind : String
  pub artifact_digest : String
  pub depends_on : List String
  pub visibility : String
  pub raw : Value

pub record Receipt : Type 0 where
  pub artifact_digest : String
  pub environment_digest : String
  pub report_digest : String
  pub status : String
  pub mode : String

abbrev contribution_kinds : List String
contribution_kinds =
    "idea" ∷ "lemma" ∷ "counterexample" ∷ "experiment" ∷ "source" ∷ "patch" ∷ "debugging"
    ∷ "integration" ∷ "verification" ∷ "dead_end" ∷ []

abbrev visibilities : List String
visibilities = "public" ∷ "committee" ∷ "hash_only" ∷ []

abbrev reviewer_fields : List String
reviewer_fields =
    "reviewer_id" ∷ "controller_id" ∷ "status" ∷ "calibration_passes" ∷ "calibration_total"
    ∷ "reveal_rate_bps" ∷ "conflicts" ∷ []

abbrev contribution_fields : List String
contribution_fields =
    "case_id" ∷ "contribution_id" ∷ "agent_id" ∷ "kind" ∷ "summary" ∷ "artifact_digest"
    ∷ "depends_on" ∷ "visibility" ∷ []

abbrev receipt_fields : List String
receipt_fields =
    "case_id" ∷ "artifact_digest" ∷ "environment_digest" ∷ "report_digest" ∷ "status" ∷ "mode"
    ∷ "summary" ∷ []

module _ (sys : Platform) where
  unfoldable pub validate_reviewer : Value → Result Reviewer
  validate_reviewer v = do
    profile ← mapping v "reviewer"
    exact_keys profile reviewer_fields "reviewer"
    reviewer ← required profile "reviewer_id"
    load_public_key sys reviewer
    reviewer_id ← as_text reviewer
    controller_id ← text_field (← required profile "controller_id") "reviewer.controller_id" 128
    status ← required profile "status"
    known ← in_set status ("probation" ∷ "active" ∷ "suspended" ∷ [])
    raise_if (not known) "reviewer.status is invalid"
    status_text ← as_text status
    total ← integer_field (← required profile "calibration_total") "calibration_total" 0 100000
    passes ← integer_field (← required profile "calibration_passes") "calibration_passes" 0 total
    raise_if (ltb total passes) "calibration passes cannot exceed total"
    rate ← integer_field (← required profile "reveal_rate_bps") "reveal_rate_bps" 0 10000
    conflicts ←
        text_list (← required profile "conflicts") "reviewer.conflicts must be a list of case IDs"
    raise_if (not (distinct conflicts)) "reviewer.conflicts contains duplicates"
    ok (record {
      reviewer_id = reviewer_id;
      controller_id = controller_id;
      status = status_text;
      calibration_passes = passes;
      calibration_total = total;
      reveal_rate_bps = rate;
      conflicts = conflicts;
      raw = v;
    })

  unfoldable pub validate_roster : List Value → Result (List Reviewer)
  validate_roster [] = ok []
  validate_roster (v ∷ vs) = do
    reviewer ← validate_reviewer v
    rest ← validate_roster vs
    ok (reviewer ∷ rest)

  -- `roster_digest`, of profiles that were read already; it validates each again
  unfoldable pub roster_digest : List Reviewer → Result String
  unfolding validate_roster
  roster_digest roster = do
    validated ← validate_roster (map (λ r. r.raw) roster)
    raise_if (not (distinct (map (λ r. r.reviewer_id) validated)))
        "reviewer roster contains duplicate keys"
    ok (
        digest_object sys
          (list (map (λ r. r.raw) (sorted (λ a b. text_le a.reviewer_id b.reviewer_id) validated))))

unfoldable pub validate_contribution : Value → Case → Result Contribution
validate_contribution v case = do
  value ← mapping v "contribution"
  exact_keys value contribution_fields "contribution"
  raise_if (not (is_text (← required value "case_id") case.case_id))
      "contribution belongs to another case"
  contribution_id ← text_field (← required value "contribution_id") "contribution_id" 128
  agent ← required value "agent_id"
  participant ← in_set agent (keys case.agents)
  raise_if (not participant) "contribution agent is not a case participant"
  agent_id ← as_text agent
  kind ← required value "kind"
  known ← in_set kind contribution_kinds
  raise_if (not known) "contribution kind is invalid"
  kind_text ← as_text kind
  text_field (← required value "summary") "contribution.summary" 2000
  artifact ← hex_digest (← required value "artifact_digest") "contribution.artifact_digest"
  dependencies ←
      text_list (← required value "depends_on") "contribution.depends_on must be a list of IDs"
  raise_if (not (distinct dependencies)) "contribution.depends_on contains duplicates"
  raise_if (contains contribution_id dependencies) "a contribution cannot depend on itself"
  visibility ← required value "visibility"
  visible ← in_set visibility visibilities
  raise_if (not visible) "contribution visibility is invalid"
  visibility_text ← as_text visibility
  ok (record {
    contribution_id = contribution_id;
    agent_id = agent_id;
    kind = kind_text;
    artifact_digest = artifact;
    depends_on = dependencies;
    visibility = visibility_text;
    raw = v;
  })

-- The source makes the test of the environment twice.
unfoldable pub validate_technical_receipt : Value → Case → Result Receipt
validate_technical_receipt v case = do
  value ← mapping v "technical receipt"
  exact_keys value receipt_fields "technical receipt"
  raise_if (not (is_text (← required value "case_id") case.case_id))
      "technical receipt belongs to another case"
  artifact ← hex_digest (← required value "artifact_digest") "technical_receipt.artifact_digest"
  environment ←
      hex_digest (← required value "environment_digest") "technical_receipt.environment_digest"
  report ← hex_digest (← required value "report_digest") "technical_receipt.report_digest"
  raise_if (not (environment == case.environment_digest))
      "technical receipt used the wrong frozen environment"
  raise_if (not (environment == case.environment_digest))
      "technical receipt used the wrong frozen environment"
  status ← required value "status"
  known ← in_set status ("pass" ∷ "fail" ∷ [])
  raise_if (not known) "technical receipt status is invalid"
  status_text ← as_text status
  mode ← text_field (← required value "mode") "technical_receipt.mode" 64
  text_field (← required value "summary") "technical_receipt.summary" 1000
  ok (record {
    artifact_digest = artifact;
    environment_digest = environment;
    report_digest = report;
    status = status_text;
    mode = mode;
  })
