-- ===== src/Workspace/Clerk/Naming.antt =====
-- The names of the event files of src/boule/workspace.py: sorted as texts they are in the order of the
-- events, as `_events` relies on.
use Prim.Native.String.{count}
use text.Mathlib.TextLemmas.{length-append as count-append}
use daryxx_boule_protocol.Prelude.{
  ℕ, zero, suc, ◌+◌, ◌-◌, ◌*◌, ◌/◌, ◌%◌, ◌<◌, String, ◌≡◌, refl, sym, ap, ◌∙◌, inl, inr, true,
  false, List, [], ◌∷◌, ◌++◌, arith, ltb, ltb→lt, ltb→le, Bool-cases,
}
use daryxx_boule_protocol.Python.{codes, text_length, codes_le, text_le, ◌+s◌}
use daryxx_boule_protocol.Workspace.Clerk.Format.{digit, digits, decimal, zeros, padded, file_name}
use daryxx_boule_protocol.Workspace.Clerk.Formatting.{
  codes-append, count-digit, power, div_below, count-decimal,
}

codes-digit : (n : ℕ) → n < 10 → codes (digit n) ≡ (48 + n) ∷ []
unfolding digit
codes-digit zero h = refl
codes-digit (suc zero) h = refl
codes-digit (suc (suc zero)) h = refl
codes-digit (suc (suc (suc zero))) h = refl
codes-digit (suc (suc (suc (suc zero)))) h = refl
codes-digit (suc (suc (suc (suc (suc zero))))) h = refl
codes-digit (suc (suc (suc (suc (suc (suc zero)))))) h = refl
codes-digit (suc (suc (suc (suc (suc (suc (suc zero))))))) h = refl
codes-digit (suc (suc (suc (suc (suc (suc (suc (suc zero)))))))) h = refl
codes-digit (suc (suc (suc (suc (suc (suc (suc (suc (suc zero))))))))) h = refl
codes-digit (suc (suc (suc (suc (suc (suc (suc (suc (suc (suc n)))))))))) h = absurd (omega arith)

-- the last digits of n, as many as k says, in front of what follows
fixed : ℕ → ℕ → List ℕ → List ℕ
fixed zero n rest = rest
fixed (suc k) n rest = fixed k (n / 10) ((48 + n % 10) ∷ rest)

zeros_commute : (j : ℕ) (xs : List ℕ) → codes (zeros j) ++ 48 ∷ xs ≡ 48 ∷ (codes (zeros j) ++ xs)
unfolding zeros
zeros_commute zero xs = refl
zeros_commute (suc j) xs = rw (codes-append "0" (zeros j)) (ap (λ ys. 48 ∷ ys) (zeros_commute j xs))

fixed-zero : (j : ℕ) (xs : List ℕ) → fixed j 0 xs ≡ codes (zeros j) ++ xs
unfolding fixed zeros
fixed-zero zero xs = refl
fixed-zero (suc j) xs =
    fixed-zero j (48 ∷ xs)
    ∙ zeros_commute j xs
    ∙ sym (ap (λ ys. ys ++ xs) (codes-append "0" (zeros j)))

one_digit : (n : ℕ) (rest : String) → n < 10 → codes (digit n +s rest) ≡ (48 + n) ∷ codes rest
one_digit n rest h = codes-append (digit n) rest ∙ ap (λ xs. xs ++ codes rest) (codes-digit n h)

-- a number of one digit, with zeros in front
codes-one_digit :
    (n k j : ℕ) (rest : String)
    → n < 10
    → j + count (digit n +s rest) ≡ k + 1 + count rest
    → codes (zeros j) ++ codes (digit n +s rest) ≡ fixed (suc k) n (codes rest)
unfolding fixed
codes-one_digit n k j rest small filled =
    let padding : j ≡ k = omega (arith, filled, count-append (digit n) rest, count-digit n) in
    let quotient : n / 10 ≡ 0 = omega arith in
    let last : n % 10 ≡ n = omega arith in
    rw (one_digit n rest small, padding, quotient, last)
      (sym (fixed-zero k ((48 + n) ∷ codes rest)))

codes-digits :
    (fuel n k j : ℕ) (rest : String)
    → n < fuel
    → n < power k
    → j + count (digits fuel n rest) ≡ k + 1 + count rest
    → codes (zeros j) ++ codes (digits fuel n rest) ≡ fixed (suc k) n (codes rest)
unfolding digits power fixed
codes-digits zero n k j rest enough h filled = absurd (omega arith)
codes-digits (suc fuel) n zero j rest enough h filled =
    let small : ltb n 10 ≡ true = ground arith in
    rw small (codes-one_digit n zero j rest h (rw (digits, small) at filled))
codes-digits (suc fuel) n (suc k) j rest enough h filled = elim (Bool-cases (ltb n 10)) [
  | inl small ↦
      rw small (codes-one_digit n (suc k) j rest (ltb→lt n 10 small) (rw (digits, small) at filled))
  | inr large ↦
      let last = digit (n % 10) in
      let fewer : n / 10 < fuel = omega (arith, ltb→le n 10 large) in
      let left : j + count (digits fuel (n / 10) (last +s rest)) ≡ k + 1 + count (last +s rest) =
        omega (arith, rw (digits, large) at filled, count-append last rest, count-digit (n % 10)) in
      let digits_of =
        codes-digits fuel (n / 10) k j (last +s rest) fewer (div_below n (power k) h) left in
      rw large
        (digits_of ∙ ap (λ xs. fixed (suc k) (n / 10) xs) (one_digit (n % 10) rest (omega arith)))
]

codes-padded : (n : ℕ) → n < 100000000 → codes (padded n) ≡ fixed 8 n []
unfolding padded decimal text_length power
codes-padded n h =
    let few = count-decimal n h in
    codes-append (zeros (8 - count (decimal n))) (decimal n)
    ∙ codes-digits (suc n) n 7 (8 - count (decimal n)) "" (omega arith) h (omega (arith, few))

-- what stands in front of both decides nothing
codes_le-same : (x : ℕ) (xs ys : List ℕ) → codes_le (x ∷ xs) (x ∷ ys) ≡ codes_le xs ys
unfolding codes_le
codes_le-same x xs ys = let at_most : ltb x x ≡ false = ground arith in rw at_most refl

-- Before is: not after, whatever follows.
IsBefore : List ℕ → List ℕ → Type 0
IsBefore xs ys = (codes_le xs ys ≡ true) × (codes_le ys xs ≡ false)

fixed-same : (k n : ℕ) (xs ys : List ℕ) → IsBefore xs ys → IsBefore (fixed k n xs) (fixed k n ys)
unfolding fixed IsBefore
fixed-same zero n xs ys h = h
fixed-same (suc k) n xs ys h =
    fixed-same k (n / 10) _ _
      (codes_le-same (48 + n % 10) xs ys ∙ h.0, codes_le-same (48 + n % 10) ys xs ∙ h.1)

IsBefore-digit : (x y : ℕ) (xs ys : List ℕ) → x < y → IsBefore (x ∷ xs) (y ∷ ys)
unfolding IsBefore codes_le
IsBefore-digit x y xs ys h =
    let less : ltb x y ≡ true = ground arith in
    let more : ltb y x ≡ false = ground arith in (rw less refl, rw (more, less) refl)

-- below the first number with more than k digits, as `power`, and 1 for none
bound : ℕ → ℕ
bound zero = 1
bound (suc k) = 10 * bound k

fixed-IsBefore :
    (k m n : ℕ) (xs ys : List ℕ) → m < n → n < bound k → IsBefore (fixed k m xs) (fixed k n ys)
unfolding fixed bound
fixed-IsBefore zero m n xs ys less h = absurd (omega arith)
fixed-IsBefore (suc k) m n xs ys less h = elim (Bool-cases (ltb (m / 10) (n / 10))) [
  | inl smaller ↦
      fixed-IsBefore k (m / 10) (n / 10) _ _ (ltb→lt (m / 10) (n / 10) smaller)
        (div_below n (bound k) h)
  | inr not_smaller ↦
      let same : m / 10 ≡ n / 10 = omega (arith, ltb→le (m / 10) (n / 10) not_smaller) in
      let last : 48 + m % 10 < 48 + n % 10 = omega (arith, same) in
      rw same (fixed-same k (n / 10) _ _ (IsBefore-digit _ _ xs ys last))
]

fixed-append : (k n : ℕ) (xs ys : List ℕ) → fixed k n xs ++ ys ≡ fixed k n (xs ++ ys)
unfolding fixed
fixed-append zero n xs ys = refl
fixed-append (suc k) n xs ys = fixed-append k (n / 10) ((48 + n % 10) ∷ xs) ys

codes-file_name :
    (n : ℕ) (event_id : String)
    → n < 100000000
    → codes (file_name n event_id) ≡ fixed 8 n (codes ("-" +s (event_id +s ".json")))
unfolding file_name
codes-file_name n event_id h =
    let rest = codes ("-" +s (event_id +s ".json")) in
    codes-append (padded n) ("-" +s (event_id +s ".json"))
    ∙ ap (λ xs. xs ++ rest) (codes-padded n h)
    ∙ fixed-append 8 n [] rest

-- Of the files of two events among the first hundred million, the one of the earlier event comes first
-- in the order of the names as texts, and not the other way round, whatever the ids of the events are.
pub text_le-file_name :
    (m n : ℕ) (first second : String)
    → m < n
    → n < 100000000
    → (text_le (file_name m first) (file_name n second) ≡ true)
      × (text_le (file_name n second) (file_name m first) ≡ false)
unfolding text_le IsBefore bound
text_le-file_name m n first second less h =
    rw (codes-file_name m first (omega arith), codes-file_name n second h)
      (fixed-IsBefore 8 m n _ _ less h)
