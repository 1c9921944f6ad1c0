-- ===== src/Python/Texts.antt =====
-- Python's `str` as far as the program uses it. The library's `String` is a list of code points.
use Prim.Native.Char.{code}
use Prim.Native.String.{len, count, slice, ◌++◌ as text_append}
use text.Mathlib.Text.{starts_with}
use text.Mathlib.TextPositions.{len-append, slice-append_right, starts_with-append}
use daryxx_boule_protocol.Prelude.{
  length, take, drop, ◌+◌, ℕ, String, ◌≡◌, Bool, true, false, ◌&&◌, ◌||◌, List, [], ◌∷◌, all, ltb,
  leb, eqb, if◌then◌else◌,
}

abbrev pub codes : String → List ℕ
codes String.[] = []
codes (String.◌∷◌ c s) = code c ∷ codes s

-- `str.isspace` of one character, which is what `strip` removes
abbrev is_space : ℕ → Bool
is_space c =
    (leb 9 c && leb c 13)
    || (leb 28 c && leb c 32)
    || eqb c 133
    || eqb c 160
    || eqb c 5760
    || (leb 8192 c && leb c 8202)
    || eqb c 8232
    || eqb c 8233
    || eqb c 8239
    || eqb c 8287
    || eqb c 12288

-- `not value.strip()`
unfoldable pub is_blank : String → Bool
is_blank s = all is_space (codes s)

-- `len(value)`
unfoldable pub text_length : String → ℕ
text_length s = count s

abbrev pub is_digit : ℕ → Bool
is_digit c = leb b'0' c && leb c b'9'

abbrev pub is_lower : ℕ → Bool
is_lower c = leb b'a' c && leb c b'z'

abbrev pub is_hex : ℕ → Bool
is_hex c = is_digit c || (leb b'a' c && leb c b'f')

-- `re.compile(r"^[0-9a-f]{n}$").fullmatch`
unfoldable pub is_hex_text : ℕ → String → Bool
is_hex_text n s = eqb (count s) n && all is_hex (codes s)

infixr 65 ◌+s◌
abbrev pub ◌+s◌ : String → String → String
s +s t = text_append s t

unfoldable pub startswith : String → String → Bool
startswith s prefix = starts_with s prefix

-- `s.removeprefix(prefix)`, after `startswith`
unfoldable pub removeprefix : String → String → String
removeprefix s prefix = slice s (len prefix) (len s)

pub startswith-append : (s t : String) → startswith (s +s t) s ≡ true
unfolding startswith
startswith-append s t = starts_with-append s t

pub removeprefix-append : (s t : String) → removeprefix (s +s t) s ≡ t
unfolding removeprefix
removeprefix-append s t = rw len-append (slice-append_right s t)

-- Python compares texts by their code points, from the left.
unfoldable pub codes_le : List ℕ → List ℕ → Bool
codes_le [] ys = true
codes_le (x ∷ xs) [] = false
codes_le (x ∷ xs) (y ∷ ys) = if ltb x y then true else if ltb y x then false else codes_le xs ys

unfoldable pub text_le : String → String → Bool
unfolding codes_le
text_le s t = codes_le (codes s) (codes t)

-- `value.startswith("sha256:")` of 71 characters, and 64 lowercase hex digits behind the prefix
unfoldable pub is_sha256 : List ℕ → Bool
is_sha256 cs = eqb (length cs) 71 && eqb_all (take 7 cs) (codes "sha256:") && all is_hex (drop 7 cs)
  where
    eqb_all : List ℕ → List ℕ → Bool
    eqb_all [] [] = true
    eqb_all (x ∷ xs) (y ∷ ys) = eqb x y && eqb_all xs ys
    eqb_all _ _ = false

-- the text of a `uuid.UUID`: lowercase hex digits in groups of 8, 4, 4, 4 and 12
unfoldable pub is_uuid_at : ℕ → List ℕ → Bool
is_uuid_at i [] = eqb i 36
is_uuid_at i (c ∷ cs) =
    (if eqb i 8 || eqb i 13 || eqb i 18 || eqb i 23 then eqb c b'-' else is_hex c)
    && is_uuid_at (i + 1) cs

-- `value.endswith("Z")`
unfoldable pub ends_with_z : List ℕ → Bool
ends_with_z [] = false
ends_with_z (c ∷ []) = eqb c b'Z'
ends_with_z (c ∷ d ∷ cs) = ends_with_z (d ∷ cs)
