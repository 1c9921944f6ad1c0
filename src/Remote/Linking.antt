-- ===== src/Remote/Linking.antt =====
-- The two loops on chain links in src/boule/remote_protocol.py: what the builder writes, the
-- verifier reads.
use mathlib.Core.Path.{subst}
use daryxx_boule_protocol.Prelude.{
  ℕ, suc, ◌+◌, String, ◌≡◌, refl, ap, ◌∙◌, true, not, Option, some, List, [], ◌∷◌, arith, length,
}
use daryxx_boule_protocol.Python.{
  ok, raise_if, >>=-eq-ok, ok_injective, contains, subset, same_set, lookup, keys, ℤ, Value, items,
  members, number_of, same_number, is_optional_text_refl, array, of_members, is_hex_text,
}
use daryxx_boule_protocol.Ledger.{get_of, has_fields}
use daryxx_boule_protocol.Remote.Checks.{present_hash}
use daryxx_boule_protocol.Remote.Chains.{
  link_fields, verify_link, plus, distance, is_int, link_value, continues, build_links,
  verify_links,
}
use daryxx_boule_protocol.Remote.Signed.{member_of-object}

pub items-array : (vs : List Value) → items (array vs) ≡ vs
unfolding items array
items-array [] = refl
items-array (v ∷ vs) = ap (◌∷◌ v) (items-array vs)

pub distance-plus : (z : ℤ) (k : ℕ) → distance z (plus z k) ≡ some k
unfolding distance plus
distance-plus (ℤ.pos n) k = ground arith
distance-plus (ℤ.negsuc n) k = ground arith

pub same_number_refl : (z : ℤ) → same_number z z ≡ true
unfolding same_number
same_number_refl (ℤ.pos n) = ground arith
same_number_refl (ℤ.negsuc n) = ground arith

pub is_int_refl : (z : ℤ) → is_int (Value.int z) z ≡ true
unfolding is_int number_of
is_int_refl z = same_number_refl z

-- An accepted hash is the text itself.
pub present_hash_accepts :
    (v : Value) (name : String) {hash : String}
    → present_hash v name ≡ ok hash
    → (v ≡ Value.text hash) × (is_hex_text 64 hash ≡ true)
unfolding present_hash
present_hash_accepts (Value.text s) name h = ground arith
present_hash_accepts Value.null name h = cc
present_hash_accepts _ name h = cc

pub present_hash_text :
    (hash name : String)
    → is_hex_text 64 hash ≡ true
    → present_hash (Value.text hash) name ≡ ok hash
unfolding present_hash
present_hash_text hash name h = rw h refl

has_fields-link_value :
    (z : ℤ) (prev : Option String) (hash : String)
    → has_fields (link_value z prev hash) link_fields ≡ true
unfolding has_fields members of_members keys same_set subset contains
has_fields-link_value z prev hash = refl

verify_link_value :
    (from z : ℤ) (offset : ℕ) (prev : Option String) (hash : String) (links : List Value)
    → plus from offset ≡ z
    → is_hex_text 64 hash ≡ true
    → verify_links from offset prev (link_value z prev hash ∷ links)
      ≡ verify_links from (offset + 1) (some hash) links
unfolding verify_links verify_link lookup
verify_link_value from z offset prev hash links e h =
    rw
      (
        has_fields-link_value z prev hash,
        member_of-object "seq" _ refl,
        member_of-object "prev_event_hash" _ refl,
        member_of-object "event_hash" _ refl,
        e,
        is_int_refl z,
        is_optional_text_refl prev,
        present_hash_text hash "case chain proof event hash" h,
      )
      refl

-- The verifier follows the links that the builder wrote to the same head.
pub verify_links-build_links :
    (from : ℤ) (offset : ℕ) (prev : Option String) (events : List Value) {links : List Value}
    {head : Option String}
    → build_links from offset prev events ≡ ok (links, head)
    → (verify_links from offset prev links ≡ ok head) × (length links ≡ length events)
unfolding build_links
verify_links-build_links from offset prev [] h =
    let same = ok_injective h in (unfold verify_links in ground arith, ground arith)
verify_links-build_links from offset prev (event ∷ events) h =
    let (_, _, h1) = >>=-eq-ok (raise_if (not (continues event (plus from offset) prev)) _) _ h in
    let (v, got, h2) = >>=-eq-ok (get_of event "event_hash") _ h1 in
    let (hash, present, h3) = >>=-eq-ok (present_hash v "chain proof event hash") _ h2 in
    let ((links, head), rest, h4) =
      >>=-eq-ok (build_links from (offset + 1) (some hash) events) _ h3 in
    let ih = verify_links-build_links from (offset + 1) (some hash) events rest in
    let step =
      verify_link_value from (plus from offset) offset prev hash links refl
        (present_hash_accepts v _ present).1 in
    let same = ok_injective h4 in
    subst
      (λ (o : List Value × Option String).
        (verify_links from offset prev o.0 ≡ ok o.1) × (length o.0 ≡ length (event ∷ events)))
      same (step ∙ ih.0, ap suc ih.1)
