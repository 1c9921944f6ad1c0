-- ===== src/Moderation/Aggregate.antt =====
-- `ballot_causal_share_bps`, `_median_int` and `aggregate_ballots` of src/boule/moderation.py.
use daryxx_boule_protocol.Prelude.{
  ℕ, zero, suc, ◌+◌, ◌-◌, ◌*◌, ◌/◌, ◌%◌, String, not, Option, none, some, List, [], ◌∷◌, ◌++◌, ltb,
  leb, eqb, ◌==◌, if◌then◌else◌, length,
}
use daryxx_boule_protocol.Python.{
  crash, Result, ok, err, ◌>>=◌, ◌>>◌, raise_if, or_crash, Dict, contains, lookup, insert, keys,
  values, ℤ, Value, object, optional_text, text_le, sorted,
}
use daryxx_boule_protocol.Model.{Policy, Case, Ballot, validate_ballot}

-- `agent_a, agent_b = sorted(case["agents"])`
unfoldable pub unpack_pair : List String → Result (String × String)
unpack_pair (a ∷ b ∷ []) = ok (a, b)
unpack_pair _ = err crash

unfoldable pub agent_pair : Case → Result (String × String)
agent_pair case = unpack_pair (sorted text_le (keys case.agents))

-- `ballot["scores"][criterion][agent]`
unfoldable pub score : Ballot → String → String → Result ℕ
score ballot criterion agent = do
  scores ← or_crash (lookup criterion ballot.scores)
  or_crash (lookup agent scores)

-- the loop over the criteria, with the two sums so far
unfoldable pub weighted : Ballot → String → String → Dict ℕ → ℕ → ℕ → Result (ℕ × ℕ)
unfolding score
weighted ballot agent_a agent_b [] a b = ok (a, b)
weighted ballot agent_a agent_b ((criterion, weight) ∷ weights) a b = do
  score_a ← score ballot criterion agent_a
  score_b ← score ballot criterion agent_b
  weighted ballot agent_a agent_b weights (a + weight * score_a) (b + weight * score_b)

unfoldable pub share_of : ℕ × ℕ → Option ℕ
share_of (a, b) =
    let denominator = a + b in
    if eqb denominator 0 then none else some ((10000 * a + denominator / 2) / denominator)

unfoldable pub ballot_causal_share_bps : Ballot → Case → Result (Option ℕ)
unfolding agent_pair weighted share_of
ballot_causal_share_bps ballot case = if not (ballot.decision == "decided") then ok none else do
  (agent_a, agent_b) ← agent_pair case
  sums ← weighted ballot agent_a agent_b case.criteria_weights_bps 0 0
  ok (share_of sums)

-- `values[i]`, where the callers' index is in range
abbrev pub at : List ℕ → ℕ → ℕ
at [] i = 0
at (x ∷ xs) zero = x
at (x ∷ xs) (suc i) = at xs i

-- `_median_int`, of at least one value
unfoldable pub median_int : List ℕ → ℕ
median_int values =
    let ordered = sorted leb values in
    let midpoint = length ordered / 2 in
    if eqb (length ordered % 2) 0
    then (at ordered (midpoint - 1) + at ordered midpoint) / 2
    else at ordered midpoint

unfoldable pub maximum : List ℕ → ℕ
maximum [] = 0
maximum (x ∷ xs) = let m = maximum xs in if leb x m then m else x

unfoldable pub minimum : List ℕ → ℕ
minimum [] = 0
minimum (x ∷ []) = x
minimum (x ∷ y ∷ xs) = let m = minimum (y ∷ xs) in if leb x m then x else m

-- what the loop over the ballots gathers: the shares and the confidences beside them
pub record Tally : Type 0 where
  pub shares : List ℕ
  pub confidences : List ℕ

unfoldable pub record_share : Ballot → Option ℕ → Tally → Tally
record_share ballot none t = t
record_share ballot (some share) t = record {
  shares = t.shares ++ share ∷ [];
  confidences = t.confidences ++ ballot.confidence_bps ∷ [];
}

unfoldable pub tally :
    Case → Option String → List String → List Ballot → List String → Tally → Result Tally
unfolding record_share
tally case evidence_root contribution_ids [] seen t = ok t
tally case evidence_root contribution_ids (raw ∷ ballots) seen t = do
  ballot ← validate_ballot raw.raw case evidence_root raw.reviewer_id contribution_ids
  raise_if (contains ballot.reviewer_id seen) "duplicate reviewer ballot"
  share ← ballot_causal_share_bps ballot case
  tally case evidence_root contribution_ids ballots (seen ++ ballot.reviewer_id ∷ [])
      (record_share ballot share t)

-- the dict that `aggregate_ballots` returns
pub record Decision : Type 0 where
  pub case_id : String
  pub evidence_root : Option String
  pub status : String
  pub allocation_bps : Option (Dict ℕ)
  pub median_causal_share_bps : Option ℕ
  pub dispersion_bps : Option ℕ
  pub reveals : ℕ
  pub decided_ballots : ℕ
  pub confidence_bps : Option ℕ
  pub reason : Option String

-- the JSON object that a decision is
unfoldable pub optional_number : Option ℕ → Value
optional_number none = Value.null
optional_number (some n) = Value.int (ℤ.pos n)

unfoldable pub number_members : Dict ℕ → Dict Value
number_members [] = []
number_members ((k, n) ∷ d) = (k, Value.int (ℤ.pos n)) ∷ number_members d

unfoldable pub optional_members : Option (Dict ℕ) → Value
optional_members none = Value.null
optional_members (some d) = object (number_members d)

unfoldable pub decision_value : Decision → Value
unfolding optional_number number_members optional_members
decision_value d = object (
    ("case_id", Value.text d.case_id)
    ∷ ("evidence_root", optional_text d.evidence_root)
    ∷ ("status", Value.text d.status)
    ∷ ("allocation_bps", optional_members d.allocation_bps)
    ∷ ("median_causal_share_bps", optional_number d.median_causal_share_bps)
    ∷ ("dispersion_bps", optional_number d.dispersion_bps)
    ∷ ("reveals", Value.int (ℤ.pos d.reveals))
    ∷ ("decided_ballots", Value.int (ℤ.pos d.decided_ballots))
    ∷ ("confidence_bps", optional_number d.confidence_bps)
    ∷ ("reason", optional_text d.reason)
    ∷ [])

-- `f(values) if values else None`
unfoldable pub when_any : (List ℕ → ℕ) → List ℕ → Option ℕ
when_any f [] = none
when_any f (x ∷ xs) = some (f (x ∷ xs))

unfoldable pub spread : List ℕ → ℕ
unfolding maximum minimum
spread shares = maximum shares - minimum shares

-- why the ballots decide nothing, if they do not
unfoldable pub inconclusive_reason : Policy → ℕ → List ℕ → Option String
unfolding spread
inconclusive_reason policy ballots shares =
    if ltb ballots policy.quorum
    then some "review_quorum_not_met"
    else if ltb (length shares) 2
    then some "insufficient_decided_ballots"
    else if ltb policy.max_dispersion_bps (spread shares)
    then some "reviewer_dispersion_exceeded"
    else none

unfoldable pub allocation_a : ℕ → ℕ → ℕ
allocation_a floor median_share =
    let distributable = 10000 - 2 * floor in floor + (distributable * median_share + 5000) / 10000

-- the end of `aggregate_ballots`, once there is a reason or none
unfoldable pub conclude : Case → Option String → ℕ → Tally → Option String → Result Decision
unfolding allocation_a when_any median_int agent_pair spread
conclude case evidence_root ballots t (some reason) = ok (record {
  case_id = case.case_id;
  evidence_root = evidence_root;
  status = "inconclusive";
  allocation_bps = none;
  median_causal_share_bps = when_any median_int t.shares;
  dispersion_bps = when_any spread t.shares;
  reveals = ballots;
  decided_ballots = length t.shares;
  confidence_bps = when_any median_int t.confidences;
  reason = some reason;
})
conclude case evidence_root ballots t none = do
  let median_share = median_int t.shares
  let a = allocation_a case.collaboration_floor_bps median_share
  (agent_a, agent_b) ← agent_pair case
  ok (record {
    case_id = case.case_id;
    evidence_root = evidence_root;
    status = "decided";
    allocation_bps = some (insert agent_b (10000 - a) ((agent_a, a) ∷ []));
    median_causal_share_bps = some median_share;
    dispersion_bps = when_any spread t.shares;
    reveals = ballots;
    decided_ballots = length t.shares;
    confidence_bps = some (median_int t.confidences);
    reason = none;
  })

unfoldable pub aggregate_ballots :
    Case → Option String → List Ballot → List String → Result Decision
unfolding tally conclude inconclusive_reason
aggregate_ballots case evidence_root ballots contribution_ids = do
  t ←
      tally case evidence_root contribution_ids ballots []
        (record { shares = []; confidences = [] })
  conclude case evidence_root (length ballots) t
      (inconclusive_reason case.review_policy (length ballots) t.shares)
