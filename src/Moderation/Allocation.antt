-- ===== src/Moderation/Allocation.antt =====
-- The bounds of the shares, medians and allocations that moderation.py computes.
use daryxx_boule_protocol.Prelude.{
  ℕ, zero, suc, ◌+◌, ◌-◌, ◌*◌, ◌/◌, ◌≤◌, ◌<◌, String, ◌≡◌, ◌≢◌, refl, sym, ap, ◌∙◌, inl, inr, true,
  false, Option, none, some, List, [], ◌∷◌, ◌++◌, arith, eq_iff, leb, eqb, ◌==◌, Bool-cases, length,
  All, All-append,
}
use daryxx_boule_protocol.Python.{
  ok, raise_if, >>=-eq-ok, Dict, contains, distinct, insert, keys, text_le, sorted, length-sorted,
  All-sorted,
}
use daryxx_boule_protocol.Model.{Case, Ballot, validate_ballot}
use mathlib.Core.Path.{subst}
use daryxx_boule_protocol.Moderation.Aggregate.{
  unpack_pair, agent_pair, share_of, ballot_causal_share_bps, at, median_int, Tally, record_share,
  tally, Decision, inconclusive_reason, allocation_a, conclude, aggregate_ballots,
}

abbrev pub AtMost : ℕ → ℕ → Type 0
AtMost m n = n ≤ m

div-le : (n d q : ℕ) → n < q * d + d → n / d ≤ q
div-le n d q h = grind arith

rounded-le : (a b : ℕ) → 0 < a + b → (10000 * a + (a + b) / 2) / (a + b) ≤ 10000
rounded-le a b h = div-le (10000 * a + (a + b) / 2) (a + b) 10000 (omega arith)

share_of-le : (sums : ℕ × ℕ) {s : ℕ} → share_of sums ≡ some s → s ≤ 10000
unfolding share_of
share_of-le (a, b) h = elim (Bool-cases (eqb (a + b) 0)) [
  | inl none_scored ↦ ground arith
  | inr scored ↦ ground (arith, rounded-le a b (ground arith))
]

at-le : (m : ℕ) (xs : List ℕ) (i : ℕ) → All (AtMost m) xs → at xs i ≤ m
at-le m [] i h = omega arith
at-le m (x ∷ xs) zero h = h.0
at-le m (x ∷ xs) (suc i) h = at-le m xs i h.1

-- The median of values of at most `m` is at most `m`.
pub median_int-le : (m : ℕ) (xs : List ℕ) → All (AtMost m) xs → median_int xs ≤ m
unfolding median_int
median_int-le m xs h =
    let s = sorted leb xs in
    ground (
      arith,
      at-le m s (length s / 2) (All-sorted (AtMost m) leb xs h),
      at-le m s (length s / 2 - 1) (All-sorted (AtMost m) leb xs h),
    )

ballot_causal_share_bps-le :
    (ballot : Ballot) (case : Case) {s : ℕ}
    → ballot_causal_share_bps ballot case ≡ ok (some s)
    → s ≤ 10000
unfolding ballot_causal_share_bps
ballot_causal_share_bps-le ballot case h = grind (arith, share_of-le)

allocation_bounds :
    (floor median_share : ℕ)
    → floor ≤ 4999
    → median_share ≤ 10000
    → (floor ≤ allocation_a floor median_share) × (allocation_a floor median_share + floor ≤ 10000)
unfolding allocation_a
allocation_bounds f m hf hm =
    let p : (10000 - 2 * f) * m ≤ (10000 - 2 * f) * 10000 = grind arith in omega arith

pub record IsBounded (t : Tally) : Type 0 where
  pub shares : All (AtMost 10000) t.shares

record_share-IsBounded :
    (ballot : Ballot) (share : Option ℕ) (t : Tally)
    → ((s : ℕ) → share ≡ some s → s ≤ 10000)
    → IsBounded t
    → IsBounded (record_share ballot share t)
unfolding record_share
record_share-IsBounded ballot none t le h = h
record_share-IsBounded ballot (some s) t le h = record {
  shares = All-append (AtMost 10000) t.shares (s ∷ []) h.shares (le s refl, tt);
}

-- Every share that the loop over the ballots records is at most 10000 basis points.
tally-IsBounded :
    (case : Case) (root : Option String) (ids : List String) (ballots : List Ballot)
    (seen : List String) (t : Tally) {t' : Tally}
    → IsBounded t
    → tally case root ids ballots seen t ≡ ok t'
    → IsBounded t'
unfolding tally
tally-IsBounded case root ids [] seen t {t' = u} h e = subst IsBounded (cc) h
tally-IsBounded case root ids (raw ∷ ballots) seen t {t'} h e =
    let (ballot, e1, e2) = >>=-eq-ok (validate_ballot raw.raw case root raw.reviewer_id ids) _ e in
    let (u, e3, e4) =
      >>=-eq-ok (raise_if (contains ballot.reviewer_id seen) "duplicate reviewer ballot") _ e2 in
    let (share, e5, e6) = >>=-eq-ok (ballot_causal_share_bps ballot case) _ e4 in
    tally-IsBounded case root ids ballots (seen ++ ballot.reviewer_id ∷ [])
      (record_share ballot share t)
      (record_share-IsBounded ballot share t
        (λ s p. ballot_causal_share_bps-le ballot case (e5 ∙ ap ok p)) h)
      e6

-- What a decision promises: nothing is allocated, or each of the two agents of the case, in the
-- order of their names, gets a share of at least the floor, and the shares sum to the whole.
pub data IsFair (case : Case) : Option (Dict ℕ) → Type 0 where
  nothing : IsFair case none
  shared :
      (a b : String) (x y : ℕ)
      → sorted text_le (keys case.agents) ≡ a ∷ b ∷ []
      → a ≢ b
      → case.collaboration_floor_bps ≤ x
      → case.collaboration_floor_bps ≤ y
      → x + y ≡ 10000
      → IsFair case (some ((a, x) ∷ (b, y) ∷ []))

unpack_pair_lem : (l : List String) {a b : String} → unpack_pair l ≡ ok (a, b) → l ≡ a ∷ b ∷ []
unfolding unpack_pair
unpack_pair_lem (x ∷ y ∷ []) h = cc
unpack_pair_lem [] h = cc
unpack_pair_lem (x ∷ []) h = cc
unpack_pair_lem (x ∷ y ∷ z ∷ l) h = cc

sorted_pair_ne :
    (ks : List String) {a b : String}
    → distinct ks ≡ true
    → sorted text_le ks ≡ a ∷ b ∷ []
    → (b == a) ≡ false
unfolding distinct contains sorted
sorted_pair_ne (x ∷ y ∷ []) {a} {b} d e = ground (arith, eq_iff x y, eq_iff a b, eq_iff b a)
sorted_pair_ne [] d e = cc
sorted_pair_ne (x ∷ []) d e = cc
sorted_pair_ne (x ∷ y ∷ z ∷ l) d e =
    absurd (omega (arith, length-sorted text_le (x ∷ y ∷ z ∷ l), ap length e))

agent_pair_ne :
    (case : Case) {a b : String}
    → distinct (keys case.agents) ≡ true
    → agent_pair case ≡ ok (a, b)
    → (b == a) ≡ false
unfolding agent_pair
agent_pair_ne case d e =
    sorted_pair_ne (keys case.agents) d (unpack_pair_lem (sorted text_le (keys case.agents)) e)

agent_pair_lem :
    (case : Case) {a b : String}
    → agent_pair case ≡ ok (a, b)
    → sorted text_le (keys case.agents) ≡ a ∷ b ∷ []
unfolding agent_pair
agent_pair_lem case e = unpack_pair_lem (sorted text_le (keys case.agents)) e

conclude-IsFair :
    (case : Case) (root : Option String) (n : ℕ) (t : Tally) (reason : Option String) {d : Decision}
    → case.collaboration_floor_bps ≤ 4999
    → distinct (keys case.agents) ≡ true
    → IsBounded t
    → conclude case root n t reason ≡ ok d
    → IsFair case d.allocation_bps
unfolding conclude
conclude-IsFair case root n t (some reason) {d} hf u h e =
    let none_given : d.allocation_bps ≡ none = ground arith in rw none_given IsFair.nothing
conclude-IsFair case root n t none {d} hf u h e =
    let floor = case.collaboration_floor_bps in
    let m = median_int t.shares in
    let x = allocation_a floor m in
    let ((a, b), pair, rest) = >>=-eq-ok (agent_pair case) _ e in
    let ne = agent_pair_ne case u pair in
    let (low, high) = allocation_bounds floor m hf (median_int-le 10000 t.shares h.shares) in
    let given : d.allocation_bps ≡ some ((a, x) ∷ (b, 10000 - x) ∷ []) =
      unfold insert in ground (arith, ne) in
    let names = agent_pair_lem case pair in
    let apart : a ≢ b = λ same. cc (ne, (eq_iff b a).1 (sym same)) in
    rw given (IsFair.shared a b x (10000 - x) names apart low (omega arith) (omega arith))

-- If the floor is at most 4999 basis points and the agents of the case are distinct, whatever
-- `aggregate_ballots` returns allocates nothing, or gives the two agents of the case shares of at
-- least the floor each that sum to 10000.
pub aggregate_ballots-IsFair :
    (case : Case) (root : Option String) (ballots : List Ballot) (ids : List String) {d : Decision}
    → case.collaboration_floor_bps ≤ 4999
    → distinct (keys case.agents) ≡ true
    → aggregate_ballots case root ballots ids ≡ ok d
    → IsFair case d.allocation_bps
unfolding aggregate_ballots
aggregate_ballots-IsFair case root ballots ids hf u e =
    let start : Tally = record { shares = []; confidences = [] } in
    let (t, counted, rest) = >>=-eq-ok (tally case root ids ballots [] start) _ e in
    conclude-IsFair case root (length ballots) t
      (inconclusive_reason case.review_policy (length ballots) t.shares) hf u
      (tally-IsBounded case root ids ballots [] start (record { shares = tt }) counted) rest
