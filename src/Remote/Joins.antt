-- ===== src/Remote/Joins.antt =====
-- Chain proofs of src/boule/remote_protocol.py in sequence.
use mathlib.Core.Path.{subst}
use daryxx_boule_protocol.Prelude.{
  ℕ, suc, ◌+◌, String, ◌≡◌, refl, sym, ap, ◌∙◌, inl, inr, true, Option, some, List, [], ◌∷◌, ◌++◌,
  arith, length, length-append,
}
use daryxx_boule_protocol.Python.{
  is_optional_text_lem, ok, ◌>>=◌, >>=-eq-ok, Result-cases, ok_injective, ℤ, Value,
  is_optional_text, optional_text,
}
use daryxx_boule_protocol.Crypto.{Platform}
use daryxx_boule_protocol.Ledger.{member_of}
use daryxx_boule_protocol.Remote.Chains.{
  plus, distance, verify_link, verify_links, as_list, verify_chain_proof,
}
use daryxx_boule_protocol.Remote.Runs.{IsRun, verify_links-IsRun}
use daryxx_boule_protocol.Remote.Extended.{verify_chain_proof-Extends}

plus-plus : (z : ℤ) (a b : ℕ) → plus (plus z a) b ≡ plus z (a + b)
unfolding plus
plus-plus (ℤ.pos n) a b = ground arith
plus-plus (ℤ.negsuc n) a b = ground arith

plus-distance : (m n : ℤ) {k : ℕ} → distance m n ≡ some k → plus m k ≡ n
unfolding plus distance
plus-distance (ℤ.pos m) (ℤ.pos n) h = ground arith
plus-distance (ℤ.pos m) (ℤ.negsuc n) h = cc
plus-distance (ℤ.negsuc m) (ℤ.pos n) h = ground arith
plus-distance (ℤ.negsuc m) (ℤ.negsuc n) h = ground arith

distance-add :
    (f m t : ℤ) {a b : ℕ}
    → distance f m ≡ some a
    → distance m t ≡ some b
    → distance f t ≡ some (a + b)
unfolding distance
distance-add (ℤ.pos f) (ℤ.pos m) (ℤ.pos t) h k = ground arith
distance-add (ℤ.pos f) (ℤ.pos m) (ℤ.negsuc t) h k = cc
distance-add (ℤ.pos f) (ℤ.negsuc m) t h k = cc
distance-add (ℤ.negsuc f) (ℤ.pos m) (ℤ.pos t) h k = ground arith
distance-add (ℤ.negsuc f) (ℤ.pos m) (ℤ.negsuc t) h k = cc
distance-add (ℤ.negsuc f) (ℤ.negsuc m) (ℤ.pos t) h k = ground arith
distance-add (ℤ.negsuc f) (ℤ.negsuc m) (ℤ.negsuc t) h k = ground arith

-- Counting from a later position is the same as counting further.
verify_links_from :
    (from : ℤ) (a b : ℕ) (head : Option String) (links : List Value)
    → verify_links (plus from a) b head links ≡ verify_links from (a + b) head links
unfolding verify_links
verify_links_from from a b head [] = refl
verify_links_from from a b head (link ∷ links) =
    elim (Result-cases (verify_link (plus from (a + b)) head link)) [
      | inl (hash, accepted) ↦
          let moved : a + (b + 1) ≡ a + b + 1 = omega arith in
          let rest =
            verify_links_from from a (b + 1) (some hash) links
            ∙ ap (λ n. verify_links from n (some hash) links) moved in
          rw (plus-plus from a b, accepted) rest
      | inr (e, refused) ↦ rw (plus-plus from a b, refused) refl
    ]

verify_links-append :
    (from : ℤ) (offset : ℕ) (head : Option String) (xs ys : List Value) {middle out : Option String}
    → verify_links from offset head xs ≡ ok middle
    → verify_links from (offset + length xs) middle ys ≡ ok out
    → verify_links from offset head (xs ++ ys) ≡ ok out
unfolding verify_links
verify_links-append from offset head [] ys {middle} {out} p q =
    let same = ok_injective p in
    let none_more : offset + 0 ≡ offset = omega arith in
    subst (λ h. verify_links from offset h ys ≡ ok out) (sym same)
      (subst (λ n. verify_links from n middle ys ≡ ok out) none_more q)
verify_links-append from offset head (x ∷ xs) ys {middle} {out} p q =
    let (hash, accepted, rest) = >>=-eq-ok (verify_link (plus from offset) head x) _ p in
    let moved : offset + suc (length xs) ≡ offset + 1 + length xs = omega arith in
    let more =
      verify_links-append from (offset + 1) (some hash) xs ys rest
        (subst (λ n. verify_links from n middle ys ≡ ok out) moved q) in
    rw accepted more

-- What two proofs show together.
pub record IsJoined (first second : Value) (from to : ℤ) (head : Option String) : Type 0 where
  pub xs : List Value
  pub ys : List Value
  pub out : Option String
  pub to_head : Value
  pub carried :
      ((member_of first "links" >>= as_list) ≡ ok xs)
      × ((member_of second "links" >>= as_list) ≡ ok ys)
  pub ranged : distance from to ≡ some (length (xs ++ ys))
  pub ends : (member_of second "to_head" ≡ ok to_head) × (is_optional_text to_head out ≡ true)
  pub run : IsRun from 0 head (xs ++ ys) out

-- If a client accepts a chain proof, and then one that starts where the first ends, the links of
-- both are one run of hashes from the head it started with to the `to_head` of the second, with a
-- link for each position from the first count to the last.
pub verify_chain_proof-IsJoined :
    (sys : Platform) (first second : Value) (problem_id key : String) (from middle to : ℤ)
    (head reached : Option String) {a b : Value}
    → verify_chain_proof sys first problem_id key (Value.int from) head (Value.int middle) ≡ ok a
    → member_of first "to_head" ≡ ok (optional_text reached)
    → verify_chain_proof sys second problem_id key (Value.int middle) reached (Value.int to) ≡ ok b
    → IsJoined first second from to head
verify_chain_proof-IsJoined sys first second problem_id key from middle to head reached p m q =
    let u = verify_chain_proof-Extends sys first problem_id key from middle head p in
    let w = verify_chain_proof-Extends sys second problem_id key middle to reached q in
    let given = ok_injective (sym u.ends.0 ∙ m) in
    let same : u.out ≡ reached =
      is_optional_text_lem reached u.out
        (subst (λ v. is_optional_text v u.out ≡ true) given u.ends.1) in
    let at : plus from (length u.links) ≡ middle =
      ap (plus from) u.bounded.1 ∙ plus-distance from middle u.ranged in
    let zero_plus : length u.links + 0 ≡ 0 + length u.links = omega arith in
    let followed : verify_links from (0 + length u.links) reached w.links ≡ ok w.out =
      sym (
        verify_links_from from (length u.links) 0 reached w.links
        ∙ ap (λ n. verify_links from n reached w.links) zero_plus)
      ∙ subst (λ z. verify_links z 0 reached w.links ≡ ok w.out) (sym at) w.followed in
    let counted : length (u.links ++ w.links) ≡ u.count + w.count =
      omega (arith, length-append u.links w.links, u.bounded.1, w.bounded.1) in
    let joined =
      verify_links-append from 0 head u.links w.links
        (subst (λ o. verify_links from 0 head u.links ≡ ok o) same u.followed) followed in
    record {
      xs = u.links;
      ys = w.links;
      out = w.out;
      to_head = w.to_head;
      carried = (u.carried, w.carried);
      ranged = distance-add from middle to u.ranged w.ranged ∙ ap some (sym counted);
      ends = w.ends;
      run = verify_links-IsRun from 0 head (u.links ++ w.links) joined;
    }
