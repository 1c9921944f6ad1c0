-- ===== src/Remote/Extended.antt =====
-- What an accepted chain proof of src/boule/remote_protocol.py shows: its links are one run of
-- hashes from the head that the client holds.
use mathlib.Core.Path.{subst}
use daryxx_boule_protocol.Prelude.{
  not_true, ℕ, ◌≤◌, String, ◌≡◌, refl, sym, ap, ◌∙◌, inl, inr, Bool, true, not, ◌&&◌, Option, some,
  List, arith, leb, eqb, Option-cases, length,
}
use daryxx_boule_protocol.Python.{
  raise_unless-eq-ok, ok, ◌>>=◌, raise_if, >>=-eq-ok, ok_injective, ℤ, Value, items, is_text,
  same_value, is_optional_text, optional_text,
}
use daryxx_boule_protocol.Crypto.{Platform, verify_object}
use daryxx_boule_protocol.Ledger.{member_of, has_fields}
use daryxx_boule_protocol.Remote.Checks.{event_hash, int_of}
use daryxx_boule_protocol.Remote.Chains.{
  chain_proof_schema, chain_proof_fields, max_chain_proof_links, distance, verify_links, has_range,
  as_list, as_int, matches_request, chain_proof_unsigned, verify_chain_proof,
}
use daryxx_boule_protocol.Remote.Runs.{IsRun, verify_links-IsRun}

-- What a client learns from an accepted proof.
pub record Extends (sys : Platform) (proof : Value) (key : String) (from to : ℤ)
    (head : Option String) : Type 0 where
  pub links : List Value
  pub out : Option String
  pub count : ℕ
  pub body : Value
  pub signature : Value
  pub to_head : Value
  pub carried : (member_of proof "links" >>= as_list) ≡ ok links
  pub ranged : distance from to ≡ some count
  pub bounded : (count ≤ max_chain_proof_links) × (length links ≡ count)
  pub followed : verify_links from 0 head links ≡ ok out
  pub run : IsRun from 0 head links out
  pub ends : (member_of proof "to_head" ≡ ok to_head) × (is_optional_text to_head out ≡ true)
  pub covered : chain_proof_unsigned proof ≡ ok body
  pub authentic :
      (member_of proof "signature" ≡ ok signature)
      × (verify_object sys (Value.text key) body signature ≡ ok tt)

last_true : (a b c d e f g : Bool) → (a && b && c && d && e && f && g) ≡ true → g ≡ true
last_true a b c d e f g h = ground arith

requested_range :
    (proof : Value) (problem_id key : String) (from to : ℤ) (head : Option String)
    → matches_request proof problem_id key (Value.int from) head (Value.int to) ≡ ok true
    → (links : Value) × (member_of proof "links" ≡ ok links)
      × (has_range (Value.int from) (Value.int to) links ≡ true)
unfolding matches_request
requested_range proof problem_id key from to head h =
    let (schema, _, h1) = >>=-eq-ok (member_of proof "schema") _ h in
    let (problem, _, h2) = >>=-eq-ok (member_of proof "problem_id") _ h1 in
    let (clerk, _, h3) = >>=-eq-ok (member_of proof "clerk_key") _ h2 in
    let (first, _, h4) = >>=-eq-ok (member_of proof "from_count") _ h3 in
    let (before, _, h5) = >>=-eq-ok (member_of proof "from_head") _ h4 in
    let (last, _, h6) = >>=-eq-ok (member_of proof "to_count") _ h5 in
    let (links, links_of, h7) = >>=-eq-ok (member_of proof "links") _ h6 in
    (
      links,
      links_of,
      last_true (is_text schema chain_proof_schema) (is_text problem problem_id) (is_text clerk key)
          (same_value first (Value.int from)) (is_optional_text before head)
          (same_value last (Value.int to)) (has_range (Value.int from) (Value.int to) links)
          (ok_injective h7),
    )

both_true : (a b : Bool) → (a && b) ≡ true → (a ≡ true) × (b ≡ true)
both_true a b h = ground arith

range_bounded :
    (from to : ℤ) (v : Value)
    → has_range (Value.int from) (Value.int to) v ≡ true
    → (k : ℕ) × (links : List Value) × (as_list v ≡ ok links)
      × (distance from to ≡ some k)
      × (k ≤ max_chain_proof_links)
      × (length links ≡ k)
unfolding has_range as_list
range_bounded from to (Value.arr vs) h = elim (Option-cases (distance from to)) [
  | inl none_at ↦ absurd (not_true (rw (has_range, none_at) at h))
  | inr (k, at) ↦
      let tested =
        both_true (leb k max_chain_proof_links) (eqb (length (items vs)) k)
          (rw (has_range, at) at h) in
      (k, items vs, refl, at, ground arith, ground arith)
]
range_bounded from to Value.null h = cc
range_bounded from to _ h = cc

-- An accepted chain proof carries the clerk's signature and one contiguous run of at most 256
-- hashes: it starts at the head that the client holds, it ends at the proof's `to_head`, it has as
-- many links as the requested range has positions, and each link names its position, the hash
-- before it and its own.
pub verify_chain_proof-Extends :
    (sys : Platform) (proof : Value) (problem_id key : String) (from to : ℤ) (head : Option String)
    {out : Value}
    → verify_chain_proof sys proof problem_id key (Value.int from) head (Value.int to) ≡ ok out
    → Extends sys proof key from to head
unfolding verify_chain_proof as_int int_of
verify_chain_proof-Extends sys proof problem_id key from to head h =
    let (_, _, h1) = >>=-eq-ok (raise_if (not (has_fields proof chain_proof_fields)) _) _ h in
    let (requested, matched, h2) =
      >>=-eq-ok (matches_request proof problem_id key (Value.int from) head (Value.int to)) _ h1 in
    let (_, tested, h3) =
      >>=-eq-ok (raise_if (not requested) "case chain proof does not match the requested range") _
        h2 in
    let (start, _, h4) =
      >>=-eq-ok (event_hash (optional_text head) "case chain proof start head") _ h3 in
    let (v, links_of, h5) = >>=-eq-ok (member_of proof "links") _ h4 in
    let (links, listed, h6) = >>=-eq-ok (as_list v) _ h5 in
    let (out, followed, h7) = >>=-eq-ok (verify_links from 0 head links) _ h6 in
    let (to_head, to_head_of, h8) = >>=-eq-ok (member_of proof "to_head") _ h7 in
    let (_, ended, h9) =
      >>=-eq-ok
        (raise_if (not (is_optional_text to_head out)) "case chain proof end head is invalid") _
        h8 in
    let (body, covered, h10) = >>=-eq-ok (chain_proof_unsigned proof) _ h9 in
    let (signature, signature_of, h11) = >>=-eq-ok (member_of proof "signature") _ h10 in
    let (_, authentic, _) = >>=-eq-ok (verify_object sys (Value.text key) body signature) _ h11 in
    let (v2, links_of2, ranged) = requested_range proof problem_id key from to head (
      subst (λ b. matches_request proof problem_id key (Value.int from) head (Value.int to) ≡ ok b)
        (raise_unless-eq-ok requested "case chain proof does not match the requested range" tested)
        matched) in
    let same : v2 ≡ v = ok_injective (sym links_of2 ∙ links_of) in
    let (count, links2, listed2, at, most, counted) =
      range_bounded from to v
        (subst (λ w. has_range (Value.int from) (Value.int to) w ≡ true) same ranged) in
    let same_links : links2 ≡ links = ok_injective (sym listed2 ∙ listed) in
    record {
      links = links;
      out = out;
      count = count;
      body = body;
      signature = signature;
      to_head = to_head;
      carried = ap (λ r. r >>= as_list) links_of ∙ listed;
      ranged = at;
      bounded = (most, subst (λ l. length l ≡ count) same_links counted);
      followed = followed;
      run = verify_links-IsRun from 0 head links followed;
      ends = (
        to_head_of,
        raise_unless-eq-ok (is_optional_text to_head out) "case chain proof end head is invalid"
            ended,
      );
      covered = covered;
      authentic = (signature_of, authentic);
    }
