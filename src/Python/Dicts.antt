-- ===== src/Python/Dicts.antt =====
-- Python's `dict` with string keys, in insertion order; a set of strings is a list.
use mathlib.Core.Path.{subst}
use daryxx_boule_protocol.Prelude.{
  and_both, not_both, same_texts, sym, ◌∙◌, String, ◌≡◌, refl, Bool, true, false, not, ◌&&◌, ◌||◌,
  Option, none, some, List, [], ◌∷◌, arith, eq_iff, ◌==◌, Bool-cases, inl, inr, if◌then◌else◌,
}

abbrev pub Dict {ℓ} : Type ℓ → Type ℓ
Dict V = List (String × V)

-- `x in xs` for a list or a set of strings
unfoldable pub contains : String → List String → Bool
contains k [] = false
contains k (j ∷ xs) = k == j || contains k xs

-- `len(xs) == len(set(xs))`
unfoldable pub distinct : List String → Bool
distinct [] = true
distinct (x ∷ xs) = not (contains x xs) && distinct xs

-- `a <= b` and `a == b` for sets
unfoldable pub subset : List String → List String → Bool
subset [] ys = true
subset (x ∷ xs) ys = contains x ys && subset xs ys

unfoldable pub same_set : List String → List String → Bool
same_set xs ys = subset xs ys && subset ys xs

module _ {ℓ} {V : Type ℓ} where
  -- `d.get(k)`
  unfoldable pub lookup : String → Dict V → Option V
  lookup key [] = none
  lookup key ((other, value) ∷ rest) = if key == other then some value else lookup key rest

  -- `k in d`
  abbrev pub has_key : String → Dict V → Bool
  has_key k d = elim (lookup k d) [ none ↦ false | some _ ↦ true ]

  -- `d[k] = v`
  unfoldable pub insert : String → V → Dict V → Dict V
  insert key value [] = (key, value) ∷ []
  insert key value (entry ∷ rest) =
      if key == entry.0 then (key, value) ∷ rest else entry ∷ insert key value rest

  unfoldable pub keys : Dict V → List String
  keys [] = []
  keys ((k, v) ∷ d) = k ∷ keys d

  unfoldable pub values : Dict V → List V
  values [] = []
  values ((k, v) ∷ d) = v ∷ values d

  pub lookup-insert :
      (k j : String) (v : V) (d : Dict V)
      → lookup j (insert k v d) ≡ (if j == k then some v else lookup j d)
  unfolding lookup insert
  lookup-insert k j v [] = refl
  lookup-insert k j v (e ∷ d) =
      ground (arith, eq_iff k j, eq_iff j k, eq_iff k e.0, eq_iff j e.0, lookup-insert k j v d)

  -- Every value of the dict has the property.
  abbrev pub AllValues {κ} : (V → Type κ) → Dict V → Type κ
  AllValues P [] = Unit
  AllValues P ((k, v) ∷ d) = P v × AllValues P d

  pub AllValues-insert {κ} :
      (P : V → Type κ) (k : String) (v : V) (d : Dict V)
      → P v
      → AllValues P d
      → AllValues P (insert k v d)
  unfolding insert
  AllValues-insert P k v [] p h = (p, tt)
  AllValues-insert P k v (e ∷ d) p h = elim (Bool-cases (k == e.0)) [
    | inl same ↦ rw same (p, h.1)
    | inr other ↦ rw other (h.0, AllValues-insert P k v d p h.1)
  ]

  pub AllValues-lookup {κ} :
      (P : V → Type κ) (k : String) (d : Dict V) {v : V} → AllValues P d → lookup k d ≡ some v → P v
  unfolding lookup
  AllValues-lookup P k [] h e = cc
  AllValues-lookup P k ((j, w) ∷ d) {v} h e = elim (Bool-cases (k == j)) [
    | inl same ↦ let found : w ≡ v = ground arith in subst P found h.0
    | inr other ↦ AllValues-lookup P k d h.1 (rw other at e)
  ]

-- What is not in a set is in none of its subsets.
pub contains-subset :
    (k : String) (xs ys : List String)
    → subset xs ys ≡ true
    → contains k ys ≡ false
    → contains k xs ≡ false
unfolding subset contains
contains-subset k [] ys h n = refl
contains-subset k (x ∷ xs) ys h n = elim (Bool-cases (k == x)) [
  | inl same ↦
      let there : contains k ys ≡ true =
        subst (λ j. contains j ys ≡ true) (sym (same_texts k x same)) (and_both h).0 in
      absurd (not_both there n)
  | inr other ↦ rw other (contains-subset k xs ys (and_both h).1 n)
]

pub contains-same_set :
    (k : String) (xs ys : List String) → same_set xs ys ≡ true → contains k xs ≡ contains k ys
unfolding same_set
contains-same_set k xs ys h =
    let (there, back) = and_both h in
    elim (Bool-cases (contains k ys)) [
      | inr away ↦ contains-subset k xs ys there away ∙ sym away
      | inl held ↦ elim (Bool-cases (contains k xs)) [
        | inl both ↦ both ∙ sym held
        | inr away ↦ absurd (not_both held (contains-subset k ys xs back away))
      ]
    ]
