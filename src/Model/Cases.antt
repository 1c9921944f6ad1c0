-- ===== src/Model/Cases.antt =====
-- `validate_case` of src/boule/model.py.
use daryxx_boule_protocol.Prelude.{
  ℕ, ◌+◌, ◌%◌, String, Bool, true, false, not, ◌&&◌, ◌||◌, none, some, List, [], ◌∷◌, ltb, leb, eqb,
  length, all, any,
}
use daryxx_boule_protocol.Python.{
  invalid, Result, ok, err, ◌>>=◌, ◌>>◌, raise_if, Dict, distinct, same_set, lookup, keys, values,
  Value, is_text, codes, is_digit, is_lower, sorted,
}
use daryxx_boule_protocol.Crypto.{Platform, load_public_key}
use daryxx_boule_protocol.Model.Fields.{
  required, as_text, mapping, exact_keys, text_field, integer_field, hex_digest, parse_time,
}

-- `case["review_policy"]`
pub record Policy : Type 0 where
  pub panel_size : ℕ
  pub quorum : ℕ
  pub max_dispersion_bps : ℕ
  pub min_calibration_passes : ℕ
  pub min_calibration_total : ℕ
  pub min_reveal_rate_bps : ℕ
  pub seed_commitment : String
  pub roster_digest : String

-- `case["deadlines"]`, as instants
pub record Deadlines : Type 0 where
  pub submission : ℕ
  pub review_commit : ℕ
  pub review_reveal : ℕ
  pub appeal : ℕ

pub record Case : Type 0 where
  pub case_id : String
  -- `case["objective"]["environment_digest"]`
  pub environment_digest : String
  pub agents : Dict String
  pub agent_controllers : Dict String
  pub verifier_key : String
  pub criteria_weights_bps : Dict ℕ
  pub collaboration_floor_bps : ℕ
  pub review_policy : Policy
  pub deadlines : Deadlines
  pub raw : Value

abbrev case_fields : List String
case_fields =
    "protocol" ∷ "case_id" ∷ "title" ∷ "objective" ∷ "agents" ∷ "agent_controllers" ∷ "verifier_key"
    ∷ "criteria_weights_bps" ∷ "collaboration_floor_bps" ∷ "disclosure" ∷ "economics"
    ∷ "review_policy" ∷ "deadlines" ∷ []

abbrev policy_fields : List String
policy_fields =
    "panel_size" ∷ "quorum" ∷ "max_dispersion_bps" ∷ "min_calibration_passes"
    ∷ "min_calibration_total" ∷ "min_reveal_rate_bps" ∷ "seed_commitment" ∷ "roster_digest" ∷ []

-- `CASE_ID_RE`: a lowercase letter or digit, then 2 to 127 of those and `.`, `_`, `-`
unfoldable pub is_case_id : String → Bool
is_case_id s = go (codes s)
  where
    tail_ok : ℕ → Bool
    tail_ok c = is_lower c || is_digit c || eqb c b'.' || eqb c b'_' || eqb c b'-'

    go : List ℕ → Bool
    go [] = false
    go (c ∷ cs) =
        (is_lower c || is_digit c) && all tail_ok cs && leb 2 (length cs) && leb (length cs) 127

-- the loop over the required fields of the objective; it gives the last one's text
unfoldable pub objective_texts : Dict Value → List String → Result (Unit {0})
objective_texts objective [] = ok tt
objective_texts objective (name ∷ names) = do
  value ← elim (lookup name objective) [
    | some v ↦ ok v
    | none ↦ err (invalid "case.objective is missing {required}" name)
  ]
  text_field value name 4096
  objective_texts objective names

unfoldable pub validate_objective : Value → Result String
unfolding objective_texts
validate_objective v = do
  objective ← mapping v "case.objective"
  objective_texts objective
      ("type" ∷ "statement" ∷ "base_commit" ∷ "environment_digest" ∷ "verifier" ∷ [])
  environment ← required objective "environment_digest"
  as_text environment

module _ (sys : Platform) where
  unfoldable pub agent_keys : Dict Value → Result (Dict String)
  agent_keys [] = ok []
  agent_keys ((agent_id, key) ∷ agents) = do
    text_field (Value.text agent_id) "agent id" 64
    load_public_key sys key
    name ← as_text key
    rest ← agent_keys agents
    ok ((agent_id, name) ∷ rest)

  unfoldable pub validate_agents : Value → Result (Dict String)
  unfolding agent_keys
  validate_agents v = do
    agents ← mapping v "case.agents"
    raise_if (not (eqb (length agents) 2)) "case.agents must contain exactly two agents"
    agent_keys agents

unfoldable pub controller_texts : Dict Value → Result (Dict String)
controller_texts [] = ok []
controller_texts ((agent_id, controller) ∷ controllers) = do
  name ← text_field controller "agent controller" 128
  rest ← controller_texts controllers
  ok ((agent_id, name) ∷ rest)

unfoldable pub validate_controllers : Value → Dict String → Result (Dict String)
unfolding controller_texts
validate_controllers v agents = do
  controllers ← mapping v "case.agent_controllers"
  raise_if (not (same_set (keys controllers) (keys agents)))
      "agent controller IDs must match agent IDs"
  names ← controller_texts controllers
  raise_if (not (distinct (values names))) "the two agents must declare distinct controllers"
  ok names

-- the loop over the criteria, with the sum so far
unfoldable pub criterion_weights : Dict Value → ℕ → Result (ℕ × Dict ℕ)
criterion_weights [] total = ok (total, [])
criterion_weights ((name, value) ∷ criteria) total = do
  text_field (Value.text name) "criterion name" 64
  weight ← integer_field value "weight for {name}" 1 10000
  (sum, rest) ← criterion_weights criteria (total + weight)
  ok (sum, (name, weight) ∷ rest)

unfoldable pub validate_criteria : Value → Result (Dict ℕ)
validate_criteria v = do
  criteria ← mapping v "case.criteria_weights_bps"
  raise_if (not (leb 2 (length criteria) && leb (length criteria) 12))
      "case must define between 2 and 12 criteria"
  (total_weight, weights) ← criterion_weights criteria 0
  raise_if (not (eqb total_weight 10000)) "criterion weights must sum to 10000 basis points"
  ok weights

unfoldable pub validate_policy : Value → Result Policy
validate_policy v = do
  policy ← mapping v "case.review_policy"
  exact_keys policy policy_fields "case.review_policy"
  panel_size ← integer_field (← required policy "panel_size") "panel_size" 3 21
  raise_if (eqb (panel_size % 2) 0) "panel_size must be odd"
  quorum ← integer_field (← required policy "quorum") "quorum" 3 panel_size
  raise_if (ltb panel_size quorum) "quorum cannot exceed panel_size"
  minimum_total ←
      integer_field (← required policy "min_calibration_total") "min_calibration_total" 1 100
  minimum_passes ←
      integer_field (← required policy "min_calibration_passes") "min_calibration_passes" 1
        minimum_total
  raise_if (ltb minimum_total minimum_passes) "minimum calibration passes cannot exceed total"
  reveal_rate ←
      integer_field (← required policy "min_reveal_rate_bps") "min_reveal_rate_bps" 0 10000
  dispersion ← integer_field (← required policy "max_dispersion_bps") "max_dispersion_bps" 0 10000
  seed ← hex_digest (← required policy "seed_commitment") "seed_commitment"
  roster ← hex_digest (← required policy "roster_digest") "roster_digest"
  ok (record {
    panel_size = panel_size;
    quorum = quorum;
    max_dispersion_bps = dispersion;
    min_calibration_passes = minimum_passes;
    min_calibration_total = minimum_total;
    min_reveal_rate_bps = reveal_rate;
    seed_commitment = seed;
    roster_digest = roster;
  })

unfoldable pub same_times : List ℕ → List ℕ → Bool
same_times [] [] = true
same_times (x ∷ xs) (y ∷ ys) = eqb x y && same_times xs ys
same_times _ _ = false

unfoldable pub distinct_times : List ℕ → Bool
distinct_times [] = true
distinct_times (x ∷ xs) = not (any (eqb x) xs) && distinct_times xs

module _ (sys : Platform) where
  unfoldable pub validate_deadlines : Value → Result Deadlines
  validate_deadlines v = do
    deadlines ← mapping v "case.deadlines"
    exact_keys deadlines ("submission" ∷ "review_commit" ∷ "review_reveal" ∷ "appeal" ∷ [])
        "case.deadlines"
    submission ← parse_time sys (← required deadlines "submission") "deadline.submission"
    commit ← parse_time sys (← required deadlines "review_commit") "deadline.review_commit"
    reveal ← parse_time sys (← required deadlines "review_reveal") "deadline.review_reveal"
    appeal ← parse_time sys (← required deadlines "appeal") "deadline.appeal"
    let times = submission ∷ commit ∷ reveal ∷ appeal ∷ []
    raise_if (not (same_times times (sorted leb times)) || not (distinct_times times))
        "deadlines must be strictly increasing"
    ok (record {
      submission = submission;
      review_commit = commit;
      review_reveal = reveal;
      appeal = appeal;
    })

  unfoldable pub validate_case : Value → Result Case
  validate_case v = do
    case ← mapping v "case"
    exact_keys case case_fields "case"
    raise_if (not (is_text (← required case "protocol") "boule/0.1"))
        "unsupported protocol: {case['protocol']!r}"
    case_id ← text_field (← required case "case_id") "case.case_id" 128
    raise_if (not (is_case_id case_id)) "case.case_id has an invalid format"
    text_field (← required case "title") "case.title" 240
    environment ← validate_objective (← required case "objective")
    agents ← validate_agents sys (← required case "agents")
    controllers ← validate_controllers (← required case "agent_controllers") agents
    verifier ← required case "verifier_key"
    load_public_key sys verifier
    verifier_key ← as_text verifier
    criteria ← validate_criteria (← required case "criteria_weights_bps")
    floor ←
        integer_field (← required case "collaboration_floor_bps") "collaboration_floor_bps" 0 4999
    mapping (← required case "disclosure") "case.disclosure"
    mapping (← required case "economics") "case.economics"
    policy ← validate_policy (← required case "review_policy")
    deadlines ← validate_deadlines (← required case "deadlines")
    ok (record {
      case_id = case_id;
      environment_digest = environment;
      agents = agents;
      agent_controllers = controllers;
      verifier_key = verifier_key;
      criteria_weights_bps = criteria;
      collaboration_floor_bps = floor;
      review_policy = policy;
      deadlines = deadlines;
      raw = v;
    })
