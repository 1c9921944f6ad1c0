-- ===== src/Python/Sorting.antt =====
-- Python's `sorted`: a stable sort, here by insertion.
use daryxx_boule_protocol.Prelude.{
  suc, true, false, ◌≡◌, refl, Bool, List, [], ◌∷◌, arith, length, All, Bool-cases, inl, inr,
  if◌then◌else◌,
}

module _ {ℓ} {A : Type ℓ} where
  -- The order is by `le`; an equal element stays behind those that stood before it.
  unfoldable pub insert_sorted : (A → A → Bool) → A → List A → List A
  insert_sorted le x [] = x ∷ []
  insert_sorted le x (y ∷ ys) = if le x y then x ∷ y ∷ ys else y ∷ insert_sorted le x ys

  unfoldable pub sorted : (A → A → Bool) → List A → List A
  unfolding insert_sorted
  sorted le [] = []
  sorted le (x ∷ xs) = insert_sorted le x (sorted le xs)

  length-insert_sorted :
      (le : A → A → Bool) (x : A) (ys : List A) → length (insert_sorted le x ys) ≡ suc (length ys)
  unfolding insert_sorted
  length-insert_sorted le x [] = refl
  length-insert_sorted le x (y ∷ ys) = ground (arith, length-insert_sorted le x ys)

  pub length-sorted : (le : A → A → Bool) (xs : List A) → length (sorted le xs) ≡ length xs
  unfolding sorted
  length-sorted le [] = refl
  length-sorted le (x ∷ xs) =
      ground (arith, length-insert_sorted le x (sorted le xs), length-sorted le xs)

  All-insert_sorted {κ} :
      (P : A → Type κ) (le : A → A → Bool) (x : A) (ys : List A)
      → P x
      → All P ys
      → All P (insert_sorted le x ys)
  unfolding insert_sorted
  All-insert_sorted P le x [] p h = (p, tt)
  All-insert_sorted P le x (y ∷ ys) p h = elim (Bool-cases (le x y)) [
    | inl before ↦ rw before (p, h)
    | inr behind ↦ rw behind (h.0, All-insert_sorted P le x ys p h.1)
  ]

  -- What holds of every element holds of every element of the sorted list.
  pub All-sorted {κ} :
      (P : A → Type κ) (le : A → A → Bool) (xs : List A) → All P xs → All P (sorted le xs)
  unfolding sorted
  All-sorted P le [] h = tt
  All-sorted P le (x ∷ xs) h = All-insert_sorted P le x (sorted le xs) h.0 (All-sorted P le xs h.1)

module _ {ℓ} {A : Type ℓ} (le : A → A → Bool) where
  -- Each element is followed by one that is not before it.
  abbrev pub IsAscending : List A → Type 0
  IsAscending [] = Unit
  IsAscending (x ∷ []) = Unit
  IsAscending (x ∷ y ∷ ys) = (le x y ≡ true) × IsAscending (y ∷ ys)

module _ {ℓ} {A : Type ℓ} (le : A → A → Bool)
    (total : (x y : A) → le x y ≡ false → le y x ≡ true) where
  insert_sorted-IsAscending :
      (x : A) (ys : List A) → IsAscending le ys → IsAscending le (insert_sorted le x ys)
  unfolding insert_sorted
  insert_sorted-IsAscending x [] h = tt
  insert_sorted-IsAscending x (y ∷ []) h = elim (Bool-cases (le x y)) [
    | inl before ↦ rw before (before, tt)
    | inr behind ↦ rw behind (total x y behind, tt)
  ]
  insert_sorted-IsAscending x (y ∷ z ∷ zs) h =
      let ih = insert_sorted-IsAscending x (z ∷ zs) h.1 in
      elim (Bool-cases (le x y)) [
        | inl before ↦ rw before (before, h)
        | inr behind ↦ rw behind (elim (Bool-cases (le x z)) [
          | inl first ↦ rw first (total x y behind, (first, h.1))
          | inr later ↦ rw later (h.0, rw later at ih)
        ])
      ]

  -- Sorting by a total order gives an ascending list.
  pub sorted-IsAscending : (xs : List A) → IsAscending le (sorted le xs)
  unfolding sorted
  sorted-IsAscending [] = tt
  sorted-IsAscending (x ∷ xs) = insert_sorted-IsAscending x (sorted le xs) (sorted-IsAscending xs)
