-- ===== src/Tests/Clocked.antt =====
-- The platform of the other tests with a clock: a time is written as its number of letters "b" and a
-- "Z". An object is written as its kind, and there are two digests.
use Prim.Native.Char.{code}
use Prim.Native.String.{count}
use daryxx_boule_protocol.Prelude.{
  ℕ, zero, suc, String, ◌≡◌, refl, ap, true, none, some, inl, inr, ltb, Bool-cases, eqb,
  if◌then◌else◌,
}
use daryxx_boule_protocol.Python.{
  members-of_members, ok, err, Dict, Value, lookup, members, object, ends_with_z, codes,
  is_hex_text,
}
use daryxx_boule_protocol.Crypto.{Platform, IsSound, encode, decode}
use daryxx_boule_protocol.Model.{as_text, replace_z}
use daryxx_boule_protocol.Workspace.{begins, replace_offset, stamp, IsStandard}
use daryxx_boule_protocol.Tests.Toy.{toy, toy-IsSound, zeros, copies}

unfoldable pub ticks : ℕ → String
ticks zero = "Z"
ticks (suc n) = String.◌∷◌ "b" (ticks n)

-- the letters "b" at the beginning
unfoldable pub ticked : String → ℕ
ticked String.[] = 0
ticked (String.◌∷◌ c s) = let rest = ticked s in if eqb (code c) b'b' then suc rest else 0

abbrev pub ones : String
ones = "1111111111111111111111111111111111111111111111111111111111111111"

unfoldable pub written : Value → String
written (Value.obj ms) = elim (lookup "kind" (members ms)) [
  | some v ↦ elim (as_text v) [ ok kind ↦ kind | err e ↦ "" ]
  | none ↦ ""
]
written _ = ""

unfoldable pub two_digests : String → String
two_digests s = if ltb (count s) 15 then ones else zeros

two_digests-is_hex : (s : String) → is_hex_text 64 (two_digests s) ≡ true
unfolding two_digests is_hex_text
two_digests-is_hex s = elim (Bool-cases (ltb (count s) 15)) [
  | inl short ↦ rw short refl
  | inr long ↦ rw long refl
]

written-lookup :
    (d e : Dict Value)
    → ((k : String) → lookup k d ≡ lookup k e)
    → written (object d) ≡ written (object e)
unfolding written
written-lookup d e same = rw (written, members-of_members d, members-of_members e, same "kind") refl

abbrev pub clocked : Platform
clocked = record toy {
  json_dumps = written;
  sha256_hexdigest = two_digests;
  isoformat = ticks;
  fromisoformat = λ s. some (record { instant = ticked s; aware = true });
}

pub clocked-IsSound : IsSound clocked
unfolding encode decode copies
clocked-IsSound = record {
  decode-encode = toy-IsSound.decode-encode;
  length-public_bytes = toy-IsSound.length-public_bytes;
  length-sign = toy-IsSound.length-sign;
  verify-sign = toy-IsSound.verify-sign;
}

kept : (n : ℕ) → replace_offset 0 (ticks n) ≡ ticks n
unfolding replace_offset begins ticks
kept zero = refl
kept (suc n) = ap (String.◌∷◌ "b") (kept n)

ends_with_z-ticks : (n : ℕ) → ends_with_z (codes (ticks n)) ≡ true
unfolding ends_with_z ticks
ends_with_z-ticks zero = refl
ends_with_z-ticks (suc zero) = refl
ends_with_z-ticks (suc (suc n)) = ends_with_z-ticks (suc n)

ticked-replace_z : (n : ℕ) → ticked (replace_z (ticks n)) ≡ n
unfolding ticked replace_z ticks
ticked-replace_z zero = refl
ticked-replace_z (suc n) = ap suc (ticked-replace_z n)

pub clocked-IsStandard : IsStandard clocked
unfolding stamp
clocked-IsStandard = record {
  hexdigest-is_hex = two_digests-is_hex;
  json_dumps-lookup = written-lookup;
  ends_with_z-stamp = λ now. rw (kept now) (ends_with_z-ticks now);
  fromisoformat-stamp = λ now. rw (kept now, ticked-replace_z now) refl;
}
