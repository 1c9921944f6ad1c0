-- ===== src/Workspace/Search.antt =====
-- The searches of `_research_resume` of src/boule/workspace.py among the candidates.
use mathlib.Core.Path.{subst}
use Prim.{absurd}
use daryxx_boule_protocol.Prelude.{
  ◌≤◌, ◌≡◌, refl, sym, ap, ◌∙◌, inl, inr, Bool, true, false, List, [], ◌∷◌, arith, Bool-cases, All,
}
use daryxx_boule_protocol.Python.{ok, err, Result-cases, ok_injective, Dict, values, AllValues}
use daryxx_boule_protocol.Workspace.State.{CandidateStatus, same_status, Candidate}
use daryxx_boule_protocol.Workspace.Status.{any_status, is_returned, first_with, last_with}
use daryxx_boule_protocol.Workspace.Counting.{count_if, is_approved}
use daryxx_boule_protocol.Workspace.Candidates.{IsCoherent, same_status_lem}

pub all_values : (d : Dict Candidate) → AllValues IsCoherent d → All IsCoherent (values d)
unfolding values
all_values [] h = tt
all_values ((k, c) ∷ d) h = (h.0, all_values d h.1)

-- Some candidate passes the test.
pub some_status :
    (status : CandidateStatus) (cs : List Candidate)
    → any_status status cs ≡ true
    → 1 ≤ count_if (same_status status) cs
unfolding any_status count_if
some_status status [] h = cc
some_status status (c ∷ cs) h = elim (Bool-cases (same_status status c.status)) [
  | inl same ↦ rw same (omega arith)
  | inr other ↦
      let other' : same_status c.status status ≡ false = ground arith in
      let rest = some_status status cs (rw other' at h) in omega arith
]

-- The candidate that a search gives.
pub record Finds (test : CandidateStatus → Bool) (c : Candidate) : Type 0 where
  pub passes : test c.status ≡ true
  pub coherent : IsCoherent c

module _ (test : CandidateStatus → Bool) where
  pub first_with-Finds :
      (cs : List Candidate)
      → All IsCoherent cs
      → 1 ≤ count_if test cs
      → (c : Candidate) × (first_with test cs ≡ ok c) × Finds test c
  unfolding first_with count_if
  first_with-Finds [] h n = absurd (omega arith)
  first_with-Finds (c ∷ cs) h n = elim (Bool-cases (test c.status)) [
    | inl hit ↦ rw hit (c, refl, record { passes = hit; coherent = h.0 })
    | inr miss ↦
        rw miss (first_with-Finds cs h.1 (let m : 1 ≤ count_if test cs = ground arith in m))
  ]

  last_with-passes :
      (cs : List Candidate) {c : Candidate}
      → All IsCoherent cs
      → last_with test cs ≡ ok c
      → Finds test c
  unfolding last_with
  last_with-passes [] h p = cc
  last_with-passes (b ∷ cs) {c} h p = elim (Result-cases (last_with test cs)) [
    | inl (d, later) ↦
        let is : d ≡ c = ground arith in
        last_with-passes cs h.1 (later ∙ ap (λ (x : Candidate). ok x) is)
    | inr (x, none_later) ↦
        let here = rw none_later at p in
        elim (Bool-cases (test b.status)) [
          | inl hit ↦
              let is : b ≡ c = ok_injective (rw hit at here) in
              subst (Finds test) is (record { passes = hit; coherent = h.0 })
          | inr miss ↦ absurd (cc (rw miss at here))
        ]
  ]

  pub last_with-Finds :
      (cs : List Candidate)
      → All IsCoherent cs
      → 1 ≤ count_if test cs
      → (c : Candidate) × (last_with test cs ≡ ok c) × Finds test c
  unfolding last_with count_if
  last_with-Finds [] h n = absurd (omega arith)
  last_with-Finds (c ∷ cs) h n = elim (Result-cases (last_with test cs)) [
    | inl (d, later) ↦ rw later (d, refl, last_with-passes cs h.1 later)
    | inr (x, none_later) ↦ elim (Bool-cases (test c.status)) [
      | inl hit ↦ rw none_later (rw hit (c, refl, record { passes = hit; coherent = h.0 }))
      | inr miss ↦
          let more : 1 ≤ count_if test cs = ground arith in
          let (d, later, _) = last_with-Finds cs h.1 more in
          let clash : ok d ≡ err x = sym later ∙ none_later in cc
    ]
  ]

-- Tests that agree count the same.
pub count_if-same :
    (f g : CandidateStatus → Bool)
    → ((st : CandidateStatus) → f st ≡ g st)
    → (cs : List Candidate) → count_if f cs ≡ count_if g cs
unfolding count_if
count_if-same f g h [] = refl
count_if-same f g h (c ∷ cs) = let rest = count_if-same f g h cs in rw (h c.status) (omega arith)

pub approved_same :
    (st : CandidateStatus) → is_approved st ≡ same_status CandidateStatus.approved st
approved_same st = ground arith

-- A candidate that was returned passes the test of the returned ones.
pub count_returned :
    (status : CandidateStatus)
    → is_returned status ≡ true
    → (cs : List Candidate) → any_status status cs ≡ true
    → 1 ≤ count_if is_returned cs
unfolding any_status count_if
count_returned status r [] h = cc
count_returned status r (c ∷ cs) h = elim (Bool-cases (same_status c.status status)) [
  | inl same ↦ let is = same_status_lem c.status status same in rw is (rw r (omega arith))
  | inr other ↦ let rest = count_returned status r cs (rw other at h) in omega arith
]
