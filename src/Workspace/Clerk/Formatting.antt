-- ===== src/Workspace/Clerk/Formatting.antt =====
-- The ids that src/boule/workspace.py formats for its events pass the check on ids, and digests with
-- their prefix pass the check on digests.
use daryxx_boule_protocol.Prelude.{
  ℕ, zero, suc, ◌+◌, ◌-◌, ◌*◌, ◌/◌, ◌%◌, ◌≤◌, ◌<◌, String, ◌≡◌, refl, sym, ap, ◌∙◌, inl, inr, Bool,
  true, false, ◌&&◌, List, [], ◌∷◌, ◌++◌, arith, ltb, Bool-cases, length, all,
}
use daryxx_boule_protocol.Python.{
  is_sha256, ok, Value, codes, is_hex, is_blank, text_length, is_hex_text, ◌+s◌,
}
use daryxx_boule_protocol.Model.{text_field}
use Prim.Native.Char.{code}
use Prim.Native.String.{count}
use Prim.Native.String.append
use Prim.Native.String.count
use text.Mathlib.TextLemmas.{length-append as count-append}
use daryxx_boule_protocol.Remote.{sha256_digest}
use daryxx_boule_protocol.Workspace.Fields.{checked_text}
use daryxx_boule_protocol.Workspace.Clerk.Format.{
  digit, digits, decimal, zeros, padded, prefix, event_id_of,
}

pub codes-append : (s t : String) → codes (s +s t) ≡ codes s ++ codes t
codes-append String.[] t = ap codes (append.nil t)
codes-append (String.◌∷◌ c s) t =
    ap codes (append.cons c s t) ∙ ap (◌∷◌ (code c)) (codes-append s t)

pub all-append :
    {A : Type 0} (p : A → Bool) (xs ys : List A) → all p (xs ++ ys) ≡ (all p xs && all p ys)
all-append p [] ys = refl
all-append p (x ∷ xs) ys = elim (Bool-cases (p x)) [
  | inl holds ↦ rw holds (all-append p xs ys)
  | inr fails ↦ rw fails refl
]

and_false : (b : Bool) → (b && false) ≡ false
and_false true = refl
and_false false = refl

pub count-digit : (n : ℕ) → count (digit n) ≡ 1
unfolding digit
count-digit zero = refl
count-digit (suc zero) = refl
count-digit (suc (suc zero)) = refl
count-digit (suc (suc (suc zero))) = refl
count-digit (suc (suc (suc (suc zero)))) = refl
count-digit (suc (suc (suc (suc (suc zero))))) = refl
count-digit (suc (suc (suc (suc (suc (suc zero)))))) = refl
count-digit (suc (suc (suc (suc (suc (suc (suc zero))))))) = refl
count-digit (suc (suc (suc (suc (suc (suc (suc (suc zero)))))))) = refl
count-digit _ = refl

-- the first number with more than k + 1 digits
unfoldable pub power : ℕ → ℕ
power zero = 10
power (suc k) = 10 * power k

pub div_below : (n m : ℕ) → n < 10 * m → n / 10 < m
div_below n m h = omega arith

pub count-digits :
    (fuel n k : ℕ) (rest : String) → n < power k → count (digits fuel n rest) ≤ k + 1 + count rest
unfolding digits power
count-digits zero n k rest h = omega arith
count-digits (suc fuel) n zero rest h =
    let small : ltb n 10 ≡ true = ground arith in
    rw small (omega (arith, count-append (digit n) rest, count-digit n))
count-digits (suc fuel) n (suc k) rest h =
    let fewer = count-digits fuel (n / 10) k (digit (n % 10) +s rest) (div_below n (power k) h) in
    elim (Bool-cases (ltb n 10)) [
      | inl small ↦ rw small (omega (arith, count-append (digit n) rest, count-digit n))
      | inr large ↦
          rw large (omega (arith, fewer, count-append (digit (n % 10)) rest, count-digit (n % 10)))
    ]

pub count-decimal : (n : ℕ) → n < 100000000 → count (decimal n) ≤ 8
unfolding decimal power
count-decimal n h = omega (arith, count-digits (suc n) n 7 "" h)

count-zeros : (n : ℕ) → count (zeros n) ≡ n
unfolding zeros
count-zeros zero = refl
count-zeros (suc n) = omega (arith, count-append "0" (zeros n), count-zeros n)

count-padded : (n : ℕ) → n < 100000000 → count (padded n) ≡ 8
unfolding padded text_length
count-padded n h = omega (
  arith,
  count-append (zeros (8 - count (decimal n))) (decimal n),
  count-zeros (8 - count (decimal n)),
  count-decimal n h,
)

count-prefix : (n : ℕ) (s : String) → count (prefix n s) ≤ n
unfolding prefix
count-prefix n String.[] = omega arith
count-prefix zero (String.◌∷◌ c s) = omega arith
count-prefix (suc n) (String.◌∷◌ c s) = omega (arith, count.cons c (prefix n s), count-prefix n s)

is_blank-append : (s t : String) → is_blank (s +s t) ≡ (is_blank s && is_blank t)
unfolding is_blank
is_blank-append s t = rw (codes-append s t) (all-append _ (codes s) (codes t))

is_blank-dash : is_blank "-" ≡ false
unfolding is_blank
is_blank-dash = refl

-- The dash is no blank.
pub is_blank-event_id_of : (seq : ℕ) (digest : String) → is_blank (event_id_of seq digest) ≡ false
unfolding event_id_of
is_blank-event_id_of seq digest =
    rw
      (
        is_blank-append (padded seq) ("-" +s prefix 16 digest),
        is_blank-append "-" (prefix 16 digest),
        is_blank-dash,
      )
      (and_false (is_blank (padded seq)))

count-event_id_of :
    (seq : ℕ) (digest : String) → seq < 100000000 → count (event_id_of seq digest) ≤ 25
unfolding event_id_of
count-event_id_of seq digest h = omega (
  arith,
  count-append (padded seq) ("-" +s prefix 16 digest),
  count-append "-" (prefix 16 digest),
  count-padded seq h,
  count-prefix 16 digest,
)

-- The id of one of the first hundred million events is accepted.
pub checked_text-event_id_of :
    (seq : ℕ) (digest : String)
    → seq < 100000000
    → checked_text (Value.text (event_id_of seq digest)) "event_id" 128
      ≡ ok (event_id_of seq digest)
unfolding checked_text text_field text_length
checked_text-event_id_of seq digest h =
    let short : ltb 128 (count (event_id_of seq digest)) ≡ false =
      ground (arith, count-event_id_of seq digest h) in
    rw (is_blank-event_id_of seq digest, short) refl

length-codes : (s : String) → length (codes s) ≡ count s
length-codes String.[] = refl
length-codes (String.◌∷◌ c s) = ap suc (length-codes s) ∙ sym (count.cons c s)

is_sha256-codes :
    (cs : List ℕ) → length cs ≡ 64 → all is_hex cs ≡ true → is_sha256 (codes "sha256:" ++ cs) ≡ true
unfolding is_sha256
is_sha256-codes cs n h = rw (n, h) refl

hex_digits : (s : String) → is_hex_text 64 s ≡ true → (count s ≡ 64) × (all is_hex (codes s) ≡ true)
unfolding is_hex_text
hex_digits s h = ground arith

-- `sha256:` in front of a hex digest is a digest.
pub sha256_digest-append :
    (hex name : String)
    → is_hex_text 64 hex ≡ true
    → sha256_digest (Value.text ("sha256:" +s hex)) name ≡ ok ("sha256:" +s hex)
unfolding sha256_digest
sha256_digest-append hex name h =
    let (n, digits) = hex_digits hex h in
    rw (codes-append "sha256:" hex, is_sha256-codes (codes hex) (length-codes hex ∙ n) digits) refl
