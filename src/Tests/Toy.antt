-- ===== src/Tests/Toy.antt =====
-- A platform for src/boule/crypto.py: a number is as many letters "b" and a letter "a", every digest is
-- the same, and every signature is accepted.
use Prim.Native.Char.{code}
use Prim.Native.String.{count}
use Prim.Native.String.append
use daryxx_boule_protocol.Prelude.{
  ℕ, zero, suc, ◌+◌, String, ◌≡◌, refl, ap, ◌∙◌, true, some, List, [], ◌∷◌, arith, eqb,
  if◌then◌else◌,
}
use daryxx_boule_protocol.Python.{ok, ◌+s◌}
use daryxx_boule_protocol.Crypto.{rstrip_padding, padding, encode, decode, Platform, IsSound}

-- n times "b", then "a", in front of the text
unfoldable pub unary : ℕ → String → String
unary zero rest = String.◌∷◌ "a" rest
unary (suc n) rest = String.◌∷◌ "b" (unary n rest)

unfoldable pub write : List ℕ → String
unfolding unary
write [] = ""
write (n ∷ ns) = unary n (write ns)

-- the reader, with the number so far; it stops at the padding
unfoldable pub read : ℕ → String → List ℕ
read n String.[] = []
read n (String.◌∷◌ c s) =
    if eqb (code c) b'=' then [] else if eqb (code c) b'b' then read (n + 1) s else n ∷ read 0 s

unfoldable pub copies : ℕ → List ℕ
copies zero = []
copies (suc n) = 0 ∷ copies n

abbrev pub zeros : String
zeros = "0000000000000000000000000000000000000000000000000000000000000000"

abbrev pub toy : Platform
toy = record {
  json_dumps = λ v. "";
  sha256_hexdigest = λ s. zeros;
  urlsafe_b64encode = write;
  b64decode = λ s. some (read 0 s);
  public_bytes = λ key. count key ∷ copies 31;
  sign = λ key message. copies 64;
  verify = λ key signature message. true;
  fromisoformat = λ s. some (record { instant = count s; aware = true });
  isoformat = λ n. "";
}

stripped_unary :
    (n : ℕ) (rest : String)
    → rstrip_padding rest ≡ rest
    → rstrip_padding (unary n rest) ≡ unary n rest
unfolding rstrip_padding unary
stripped_unary zero String.[] h = refl
stripped_unary zero (String.◌∷◌ c r) h = rw h refl
stripped_unary (suc zero) rest h = rw (stripped_unary zero rest h) refl
stripped_unary (suc (suc n)) rest h = rw (stripped_unary (suc n) rest h) refl

stripped_write : (ns : List ℕ) → rstrip_padding (write ns) ≡ write ns
unfolding rstrip_padding write
stripped_write [] = refl
stripped_write (n ∷ ns) = stripped_unary n (write ns) (stripped_write ns)

read-unary : (m n : ℕ) (rest t : String) → read m (unary n rest +s t) ≡ (m + n) ∷ read 0 (rest +s t)
unfolding read unary
read-unary m zero rest t =
    rw (append.cons "a" rest t) (ap (λ k. k ∷ read 0 (rest +s t)) (omega arith))
read-unary m (suc n) rest t =
    rw (append.cons "b" (unary n rest) t)
      (read-unary (m + 1) n rest t ∙ ap (λ k. k ∷ read 0 (rest +s t)) (omega arith))

read-padding : (k : ℕ) → read 0 (padding k) ≡ []
unfolding read padding
read-padding zero = refl
read-padding (suc k) = rw (append.cons "=" "" (padding k)) refl

read-write : (ns : List ℕ) (k : ℕ) → read 0 (write ns +s padding k) ≡ ns
unfolding write
read-write [] k = rw (append.nil (padding k)) (read-padding k)
read-write (n ∷ ns) k =
    read-unary 0 n (write ns) (padding k)
    ∙ ap (λ r. (0 + n) ∷ r) (read-write ns k)
    ∙ ap (λ j. j ∷ ns) (omega arith)

pub toy-IsSound : IsSound toy
unfolding encode decode copies
toy-IsSound = record {
  decode-encode = λ raw. rw (stripped_write raw) (ap (λ r. ok r) (read-write raw _));
  length-public_bytes = λ key. refl;
  length-sign = λ key message. refl;
  verify-sign = λ key message. refl;
}
