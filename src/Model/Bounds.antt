-- ===== src/Model/Bounds.antt =====
-- What `validate_case` and the other validators guarantee.
use daryxx_boule_protocol.Prelude.{
  ℕ, ◌+◌, ◌%◌, ◌≤◌, ◌<◌, String, ◌≡◌, refl, sym, true, false, not, ◌&&◌, none, some, List, [], ◌∷◌,
  arith, leb, eqb, length,
}
use daryxx_boule_protocol.Python.{ok, raise_if, >>=-eq-ok, Dict, lookup, Value, sorted}
use daryxx_boule_protocol.Crypto.{Platform, load_public_key}
use daryxx_boule_protocol.Model.Fields.{required, as_text, mapping, text_field, integer_field}
use mathlib.Core.Path.{subst}
use daryxx_boule_protocol.Python.{IsAscending, sorted-IsAscending}
use daryxx_boule_protocol.Model.Fields.{integer_field_bounds}
use daryxx_boule_protocol.Model.Controllers.{IsControlled, validate_controllers-IsControlled}
use daryxx_boule_protocol.Model.Cases.{
  Policy, Deadlines, Case, validate_agents, agent_keys, validate_criteria, criterion_weights,
  validate_policy, validate_deadlines, validate_case, same_times, distinct_times,
}

pub record IsPolicy (p : Policy) : Type 0 where
  pub odd : p.panel_size % 2 ≡ 1
  pub panel_low : 3 ≤ p.panel_size
  pub panel_high : p.panel_size ≤ 21
  pub quorum_low : 3 ≤ p.quorum
  pub quorum_high : p.quorum ≤ p.panel_size
  pub passes : p.min_calibration_passes ≤ p.min_calibration_total

pub record IsOrdered (d : Deadlines) : Type 0 where
  pub submit_commit : d.submission < d.review_commit
  pub commit_reveal : d.review_commit < d.review_reveal
  pub reveal_appeal : d.review_reveal < d.appeal

abbrev pub sum : Dict ℕ → ℕ
sum [] = 0
sum ((k, n) ∷ d) = n + sum d

validate_policy-IsPolicy : (v : Value) {p : Policy} → validate_policy v ≡ ok p → IsPolicy p
unfolding validate_policy
validate_policy-IsPolicy v {p} e = record {
  odd = ground arith;
  panel_low = grind (arith, integer_field_bounds);
  panel_high = grind (arith, integer_field_bounds);
  quorum_low = grind (arith, integer_field_bounds);
  quorum_high = ground arith;
  passes = ground arith;
}

criterion_weights-sum :
    (criteria : Dict Value) (total : ℕ) {t : ℕ} {ws : Dict ℕ}
    → criterion_weights criteria total ≡ ok (t, ws)
    → (t ≡ total + sum ws) × (length ws ≡ length criteria)
unfolding criterion_weights
criterion_weights-sum [] total {t} {ws} e = (ground arith, ground arith)
criterion_weights-sum ((name, value) ∷ criteria) total {t} {ws} e =
    let (x, e1, e2) = >>=-eq-ok (text_field (Value.text name) "criterion name" 64) _ e in
    let (w, e3, e4) = >>=-eq-ok (integer_field value "weight for {name}" 1 10000) _ e2 in
    let ((u, rest), e5, e6) = >>=-eq-ok (criterion_weights criteria (total + w)) _ e4 in
    let ih = criterion_weights-sum criteria (total + w) e5 in (ground arith, ground arith)

same_times_lem : (xs ys : List ℕ) → same_times xs ys ≡ true → xs ≡ ys
unfolding same_times
same_times_lem [] [] h = refl
same_times_lem (x ∷ xs) (y ∷ ys) h = ground (arith, same_times_lem xs ys)
same_times_lem [] (y ∷ ys) h = cc
same_times_lem (x ∷ xs) [] h = cc

leb_total : (x y : ℕ) → leb x y ≡ false → leb y x ≡ true
leb_total x y h = ground arith

increasing :
    (a b c d : ℕ)
    → same_times (a ∷ b ∷ c ∷ d ∷ []) (sorted leb (a ∷ b ∷ c ∷ d ∷ [])) ≡ true
    → distinct_times (a ∷ b ∷ c ∷ d ∷ []) ≡ true
    → (a < b) × (b < c) × (c < d)
unfolding distinct_times
increasing a b c d same apart =
    let times : List ℕ = a ∷ b ∷ c ∷ d ∷ [] in
    let e : times ≡ sorted leb times = same_times_lem times (sorted leb times) same in
    let up : IsAscending leb times =
      subst (IsAscending leb) (sym e) (sorted-IsAscending leb leb_total times) in
    (ground (arith, up.0), ground (arith, up.1.0), ground (arith, up.1.1.0))

validate_deadlines-IsOrdered :
    (sys : Platform) (v : Value) {d : Deadlines} → validate_deadlines sys v ≡ ok d → IsOrdered d
unfolding validate_deadlines
validate_deadlines-IsOrdered sys v {d} e =
    let o =
      increasing d.submission d.review_commit d.review_reveal d.appeal (ground arith)
        (ground arith) in
    record { submit_commit = o.0; commit_reveal = o.1; reveal_appeal = o.2 }

-- What a case that `validate_case` accepts satisfies.
pub record IsValid (c : Case) : Type 0 where
  pub two_agents : length c.agents ≡ 2
  pub controlled : IsControlled c.agents c.agent_controllers
  pub weights_sum : sum c.criteria_weights_bps ≡ 10000
  pub criteria_low : 2 ≤ length c.criteria_weights_bps
  pub criteria_high : length c.criteria_weights_bps ≤ 12
  pub floor : c.collaboration_floor_bps ≤ 4999
  pub policy : IsPolicy c.review_policy
  pub deadlines : IsOrdered c.deadlines

length-agent_keys :
    (sys : Platform) (d : Dict Value) {a : Dict String}
    → agent_keys sys d ≡ ok a
    → length a ≡ length d
unfolding agent_keys
length-agent_keys sys [] {a} e = ground arith
length-agent_keys sys ((agent_id, key) ∷ agents) {a} e =
    let (x, e1, e2) = >>=-eq-ok (text_field (Value.text agent_id) "agent id" 64) _ e in
    let (k, e3, e4) = >>=-eq-ok (load_public_key sys key) _ e2 in
    let (name, e5, e6) = >>=-eq-ok (as_text key) _ e4 in
    let (rest, e7, e8) = >>=-eq-ok (agent_keys sys agents) _ e6 in
    ground (arith, length-agent_keys sys agents e7)

validate_agents_two :
    (sys : Platform) (v : Value) {a : Dict String} → validate_agents sys v ≡ ok a → length a ≡ 2
unfolding validate_agents
validate_agents_two sys v {a} e =
    let (d, e1, e2) = >>=-eq-ok (mapping v "case.agents") _ e in
    let (u, e3, e4) =
      >>=-eq-ok (raise_if (not (eqb (length d) 2)) "case.agents must contain exactly two agents") _
        e2 in
    ground (arith, length-agent_keys sys d e4)

pub record IsCriteria (ws : Dict ℕ) : Type 0 where
  pub total : sum ws ≡ 10000
  pub low : 2 ≤ length ws
  pub high : length ws ≤ 12

validate_criteria-IsCriteria :
    (v : Value) {ws : Dict ℕ} → validate_criteria v ≡ ok ws → IsCriteria ws
unfolding validate_criteria
validate_criteria-IsCriteria v {ws} e =
    let (d, e1, e2) = >>=-eq-ok (mapping v "case.criteria_weights_bps") _ e in
    let (u, e3, e4) =
      >>=-eq-ok
        (raise_if (not (leb 2 (length d) && leb (length d) 12))
          "case must define between 2 and 12 criteria")
        _ e2 in
    let ((t, w), e5, e6) = >>=-eq-ok (criterion_weights d 0) _ e4 in
    let s = criterion_weights-sum d 0 e5 in
    let same : w ≡ ws = ground arith in
    record {
      total = rw (sym same) (ground arith);
      low = rw (sym same) (ground arith);
      high = rw (sym same) (ground arith);
    }

-- `d[k]`, where it is there
abbrev value_at : Dict Value → String → Value
value_at d k = elim (lookup k d) [ some v ↦ v | none ↦ Value.null ]

criteria_part :
    (sys : Platform) (v : Value) {c : Case}
    → validate_case sys v ≡ ok c
    → (d : Dict Value) × (validate_criteria (value_at d "criteria_weights_bps")
        ≡ ok c.criteria_weights_bps)
unfolding validate_case required
criteria_part sys v {c} e = let (d, e1, e2) = >>=-eq-ok (mapping v "case") _ e in (d, ground arith)

controllers_part :
    (sys : Platform) (v : Value) {c : Case}
    → validate_case sys v ≡ ok c
    → IsControlled c.agents c.agent_controllers
unfolding validate_case required
controllers_part sys v {c} e =
    let (d, e1, e2) = >>=-eq-ok (mapping v "case") _ e in
    validate_controllers-IsControlled (value_at d "agent_controllers") c.agents (ground arith)

policy_part :
    (sys : Platform) (v : Value) {c : Case}
    → validate_case sys v ≡ ok c
    → (d : Dict Value) × (validate_policy (value_at d "review_policy") ≡ ok c.review_policy)
unfolding validate_case required
policy_part sys v {c} e = let (d, e1, e2) = >>=-eq-ok (mapping v "case") _ e in (d, ground arith)

-- A case that `validate_case` accepts has two agents, exactly these have a controller each, no two the
-- same one, and it has 2 to 12 criteria whose weights sum to 10000, a floor of at most 4999, an odd panel of 3 to 21 with a quorum from
-- 3 up to its size, and deadlines that increase strictly.
pub validate_case-IsValid :
    (sys : Platform) (v : Value) {c : Case} → validate_case sys v ≡ ok c → IsValid c
unfolding validate_case
validate_case-IsValid sys v {c} e =
    let (d, criteria) = criteria_part sys v e in
    let (d', policy) = policy_part sys v e in
    let h = validate_criteria-IsCriteria (value_at d "criteria_weights_bps") criteria in
    record {
      two_agents = grind (arith, validate_agents_two);
      controlled = controllers_part sys v e;
      weights_sum = h.total;
      criteria_low = h.low;
      criteria_high = h.high;
      floor = grind (arith, integer_field_bounds);
      policy = validate_policy-IsPolicy (value_at d' "review_policy") policy;
      deadlines = grind (arith, validate_deadlines-IsOrdered);
    }
