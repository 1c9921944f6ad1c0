-- ===== src/Moderation/Quorum.antt =====
-- When `aggregate_ballots` decides: the quorum, the number of decided ballots and the dispersion.
use mathlib.Core.Path.{subst}
use mathlib.Core.List.{append-nil, append_assoc}
use daryxx_boule_protocol.Prelude.{
  ℕ, ◌+◌, ◌≤◌, String, ◌≡◌, refl, sym, ap, ◌∙◌, ◌↔◌, inl, inr, Option, none, some, List, [], ◌∷◌,
  ◌++◌, arith, eq_iff, leb, leb→le, Bool-cases, Option-cases, All, length,
}
use daryxx_boule_protocol.Python.{ok, ok_injective, raise_if, contains, >>=-eq-ok}
use daryxx_boule_protocol.Model.{Policy, Case, Ballot, validate_ballot}
use daryxx_boule_protocol.Moderation.Aggregate.{
  agent_pair, ballot_causal_share_bps, record_share, tally, Tally, Decision, inconclusive_reason,
  maximum, minimum, spread, conclude, aggregate_ballots,
}

-- The shares that the ballots score, in their order: of each ballot that validates, the share of the
-- first agent, if it gives one.
pub data Scores (case : Case) (root : Option String) (ids : List String)
    : List Ballot → List ℕ → Type 0 where
  no_ballots : Scores case root ids [] []
  scored :
      (raw ballot : Ballot) (share : ℕ) (ballots : List Ballot) (shares : List ℕ)
      → validate_ballot raw.raw case root raw.reviewer_id ids ≡ ok ballot
      → ballot_causal_share_bps ballot case ≡ ok (some share)
      → Scores case root ids ballots shares
      → Scores case root ids (raw ∷ ballots) (share ∷ shares)
  unscored :
      (raw ballot : Ballot) (ballots : List Ballot) (shares : List ℕ)
      → validate_ballot raw.raw case root raw.reviewer_id ids ≡ ok ballot
      → ballot_causal_share_bps ballot case ≡ ok none
      → Scores case root ids ballots shares
      → Scores case root ids (raw ∷ ballots) shares

-- No two of the shares are more than `m` apart.
abbrev pub Close : ℕ → List ℕ → Type 0
Close m shares = All (λ x. All (λ y. x ≤ y + m) shares) shares

abbrev pub Decides : Policy → ℕ → List ℕ → Type 0
Decides policy ballots shares =
    (policy.quorum ≤ ballots) × (2 ≤ length shares) × Close policy.max_dispersion_bps shares

-- What a decision says of the ballots.
pub record IsVerdict (case : Case) (root : Option String) (ids : List String)
    (ballots : List Ballot) (d : Decision) : Type 0 where
  pub shares : List ℕ
  pub scores : Scores case root ids ballots shares
  pub reveals : d.reveals ≡ length ballots
  pub decided_ballots : d.decided_ballots ≡ length shares
  pub status : (d.status ≡ "decided") ↔ Decides case.review_policy (length ballots) shares

All-map : {P Q : ℕ → Type 0} (xs : List ℕ) → ((x : ℕ) → P x → Q x) → All P xs → All Q xs
All-map [] f h = tt
All-map (x ∷ xs) f h = (f x h.0, All-map xs f h.1)

All-every : {P : ℕ → Type 0} (xs : List ℕ) → ((x : ℕ) → P x) → All P xs
All-every [] f = tt
All-every (x ∷ xs) f = (f x, All-every xs f)

maximum-le : (xs : List ℕ) → All (λ x. x ≤ maximum xs) xs
unfolding maximum
maximum-le [] = tt
maximum-le (x ∷ xs) = (ground arith, All-map xs (λ y h. ground (arith, h)) (maximum-le xs))

minimum-le : (xs : List ℕ) → All (λ x. minimum xs ≤ x) xs
unfolding minimum
minimum-le [] = tt
minimum-le (x ∷ []) = (omega arith, tt)
minimum-le (x ∷ y ∷ xs) =
    (ground arith, All-map (y ∷ xs) (λ z h. ground (arith, h)) (minimum-le (y ∷ xs)))

-- The largest and the smallest share are among the shares.
All-maximum : (P : ℕ → Type 0) (x : ℕ) (xs : List ℕ) → All P (x ∷ xs) → P (maximum (x ∷ xs))
unfolding maximum
All-maximum P x [] h = elim (Bool-cases (leb x 0)) [
  | inl zero_share ↦ rw zero_share (subst P (omega (arith, leb→le x 0 zero_share)) h.0)
  | inr positive ↦ rw positive h.0
]
All-maximum P x (y ∷ xs) h = elim (Bool-cases (leb x (maximum (y ∷ xs)))) [
  | inl behind ↦ rw behind (All-maximum P y xs h.1)
  | inr first ↦ rw first h.0
]

All-minimum : (P : ℕ → Type 0) (x : ℕ) (xs : List ℕ) → All P (x ∷ xs) → P (minimum (x ∷ xs))
unfolding minimum
All-minimum P x [] h = h.0
All-minimum P x (y ∷ xs) h = elim (Bool-cases (leb x (minimum (y ∷ xs)))) [
  | inl first ↦ rw first h.0
  | inr behind ↦ rw behind (All-minimum P y xs h.1)
]

spread-Close : (m : ℕ) (shares : List ℕ) → spread shares ≤ m → Close m shares
unfolding spread
spread-Close m shares h =
    All-map shares
      (λ x below. All-map shares (λ y above. omega (arith, h, below, above)) (minimum-le shares))
      (maximum-le shares)

Close-spread : (m : ℕ) (shares : List ℕ) → 2 ≤ length shares → Close m shares → spread shares ≤ m
unfolding spread
Close-spread m [] two h = absurd (omega (arith, two))
Close-spread m (x ∷ xs) two h =
    let top = All-maximum (λ z. All (λ y. z ≤ y + m) (x ∷ xs)) x xs h in
    let both = All-minimum (λ y. maximum (x ∷ xs) ≤ y + m) x xs top in omega (arith, both)

tally-Scores :
    (case : Case) (root : Option String) (ids : List String) (ballots : List Ballot)
    (seen : List String) (t : Tally) {t' : Tally}
    → tally case root ids ballots seen t ≡ ok t'
    → (shares : List ℕ) × (t'.shares ≡ t.shares ++ shares) × Scores case root ids ballots shares
unfolding tally record_share
tally-Scores case root ids [] seen t {t'} e = (
  [],
  ap (λ (u : Tally). u.shares) (sym (ok_injective e)) ∙ sym (append-nil t.shares),
  Scores.no_ballots,
)
tally-Scores case root ids (raw ∷ ballots) seen t {t'} e =
    let (ballot, valid, e1) =
      >>=-eq-ok (validate_ballot raw.raw case root raw.reviewer_id ids) _ e in
    let (u, _, e2) =
      >>=-eq-ok (raise_if (contains ballot.reviewer_id seen) "duplicate reviewer ballot") _ e1 in
    let (share, shared, e3) = >>=-eq-ok (ballot_causal_share_bps ballot case) _ e2 in
    let (shares, gathered, scores) =
      tally-Scores case root ids ballots (seen ++ ballot.reviewer_id ∷ [])
        (record_share ballot share t) e3 in
    elim (Option-cases share) [
      | inl no_share ↦ (
        shares,
        rw no_share at gathered,
        Scores.unscored raw ballot ballots shares valid (shared ∙ ap ok no_share) scores,
      )
      | inr (s, given) ↦ (
        s ∷ shares,
        (rw given at gathered) ∙ append_assoc t.shares (s ∷ []) shares,
        Scores.scored raw ballot s ballots shares valid (shared ∙ ap ok given) scores,
      )
    ]

-- What `conclude` reports of the ballots, and that it decides exactly when it has no reason not to.
record Reports (d : Decision) (n : ℕ) (t : Tally) (reason : Option String) : Type 0 where
  reveals : d.reveals ≡ n
  counted : d.decided_ballots ≡ length t.shares
  status : (d.status ≡ "decided") ↔ (reason ≡ none)

conclude-Reports :
    (case : Case) (root : Option String) (n : ℕ) (t : Tally) (reason : Option String) {d : Decision}
    → conclude case root n t reason ≡ ok d
    → Reports d n t reason
unfolding conclude
conclude-Reports case root n t (some reason) {d} e = record {
  reveals = ground arith;
  counted = ground arith;
  status =
      let not_decided : d.status ≡ "inconclusive" = ground arith in
      ((λ p. cc ((eq_iff "decided" "inconclusive").1 (sym p ∙ not_decided))), λ p. cc);
}
conclude-Reports case root n t none {d} e =
    let (pair, p, rest) = >>=-eq-ok (agent_pair case) _ e in
    record {
      reveals = ground arith;
      counted = ground arith;
      status = ((λ q. refl), λ q. ground arith);
    }

no_reason :
    (policy : Policy) (n : ℕ) (shares : List ℕ)
    → (inconclusive_reason policy n shares ≡ none)
      ↔ ((policy.quorum ≤ n) × (2 ≤ length shares) × (spread shares ≤ policy.max_dispersion_bps))
unfolding inconclusive_reason
no_reason policy n shares = ((λ e. (ground arith, ground arith, ground arith)), λ h. ground arith)

conclude-IsVerdict :
    (case : Case) (root : Option String) (ids : List String) (ballots : List Ballot) (t : Tally)
    {d : Decision}
    → Scores case root ids ballots t.shares
    → conclude case root
        (length ballots)
        t
        (inconclusive_reason case.review_policy (length ballots) t.shares)
      ≡ ok d
    → IsVerdict case root ids ballots d
conclude-IsVerdict case root ids ballots t {d} scores e =
    let policy = case.review_policy in
    let n = length ballots in
    let m = policy.max_dispersion_bps in
    let r = conclude-Reports case root n t (inconclusive_reason policy n t.shares) e in
    record {
      shares = t.shares;
      scores = scores;
      reveals = r.reveals;
      decided_ballots = r.counted;
      status = (
        (λ p.
            let (q, two, close) = (no_reason policy n t.shares).0 (r.status.0 p) in
            (q, two, spread-Close m t.shares close)),
        λ (q, two, close).
            r.status.1
              ((no_reason policy n t.shares).1 (q, two, Close-spread m t.shares two close)),
      );
    }

-- Whatever `aggregate_ballots` returns reports the number of the ballots and the number of the shares
-- that they score, and it has the status "decided" exactly if the ballots are at least as many as the
-- quorum, at least two of them score a share, and no two shares are further apart than the policy's
-- maximum.
pub aggregate_ballots-IsVerdict :
    (case : Case) (root : Option String) (ballots : List Ballot) (ids : List String) {d : Decision}
    → aggregate_ballots case root ballots ids ≡ ok d
    → IsVerdict case root ids ballots d
unfolding aggregate_ballots
aggregate_ballots-IsVerdict case root ballots ids {d} e =
    let start : Tally = record { shares = []; confidences = [] } in
    let (t, counted, rest) = >>=-eq-ok (tally case root ids ballots [] start) _ e in
    let (shares, gathered, scores) = tally-Scores case root ids ballots [] start counted in
    conclude-IsVerdict case root ids ballots t
      (subst (Scores case root ids ballots) (sym gathered) scores) rest
