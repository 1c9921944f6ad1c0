-- ===== src/Remote/Proofs.antt =====
-- Chain proofs of src/boule/remote_protocol.py: what the clerk builds, a client accepts.
use mathlib.Core.Path.{subst}
use daryxx_boule_protocol.Prelude.{
  ℕ, ◌+◌, ◌≤◌, String, ◌≡◌, refl, true, Option, some, List, arith, ltb, length,
}
use daryxx_boule_protocol.Python.{
  ok, raise_if, >>=-eq-ok, ok_injective, raise_if-eq-ok, Dict, contains, subset, same_set, lookup,
  keys, ℤ, Value, members, list, number_of, is_text_refl, is_optional_text_refl, same_value,
  both_numbers, optional_text, of_members,
}
use daryxx_boule_protocol.Crypto.{Platform, public_key_text, IsSound, verify_object-sign_object}
use daryxx_boule_protocol.Ledger.{member_of, has_fields}
use daryxx_boule_protocol.Remote.Checks.{event_hash, int_of, signed}
use daryxx_boule_protocol.Remote.Chains.{
  chain_proof_schema, chain_proof_domain, chain_proof_fields, chain_proof_unsigned,
  max_chain_proof_links, plus, build_links, verify_links, has_range, as_list, as_int,
  is_valid_start, chain_proof_of, build_chain_proof, matches_request, verify_chain_proof,
}
use daryxx_boule_protocol.Remote.Signed.{member_of-signed, signature-signed, unsigned_of-signed}
use daryxx_boule_protocol.Remote.Linking.{
  items-array, distance-plus, same_number_refl, verify_links-build_links,
}

same_int : (z : ℤ) → same_value (Value.int z) (Value.int z) ≡ true
unfolding same_value number_of both_numbers
same_int z = same_number_refl z

has_range-plus :
    (from : ℤ) (links : List Value)
    → length links ≤ max_chain_proof_links
    → has_range (Value.int from) (Value.int (plus from (length links))) (list links) ≡ true
unfolding has_range
has_range-plus from links h =
    rw (has_range, distance-plus from (length links), items-array links) (ground arith)

event_hash_named :
    (v : Value) (name other : String) {out : Option String}
    → event_hash v name ≡ ok out
    → event_hash v other ≡ ok out
unfolding event_hash
event_hash_named (Value.text s) name other h = ground arith
event_hash_named Value.null name other h = h
event_hash_named _ name other h = cc

module _ (sys : Platform) (sound : IsSound sys) (problem_id key : String) where
  module _ (from : ℤ) (head out : Option String) (links : List Value) where
    abbrev body : Dict Value
    body = chain_proof_of problem_id (public_key_text sys key) from head links out

    abbrev proof : Value
    proof = signed sys chain_proof_domain key body

    member_of-proof : (k : String) {v : Value} → lookup k body ≡ some v → member_of proof k ≡ ok v
    member_of-proof k h = member_of-signed sys chain_proof_domain key body k h

    has_fields-proof : has_fields proof chain_proof_fields ≡ true
    unfolding has_fields signed chain_proof_of members of_members keys same_set subset contains
    has_fields-proof = refl

    matches_request-proof :
        length links ≤ max_chain_proof_links
        → matches_request proof problem_id
            (public_key_text sys key)
            (Value.int from)
            head
            (Value.int (plus from (length links)))
          ≡ ok true
    unfolding matches_request chain_proof_of lookup
    matches_request-proof h =
        rw
          (
            member_of-proof "schema" refl,
            member_of-proof "problem_id" refl,
            member_of-proof "clerk_key" refl,
            member_of-proof "from_count" refl,
            member_of-proof "from_head" refl,
            member_of-proof "to_count" refl,
            member_of-proof "links" refl,
            is_text_refl chain_proof_schema,
            is_text_refl problem_id,
            is_text_refl (public_key_text sys key),
            same_int from,
            same_int (plus from (length links)),
            is_optional_text_refl head,
            has_range-plus from links h,
          )
          refl

    verify_chain_proof-proof :
        length links ≤ max_chain_proof_links
        → {start : Option String}
        → event_hash (optional_text head) "case chain proof start head" ≡ ok start
        → verify_links from 0 head links ≡ ok out
        → verify_chain_proof sys proof problem_id
            (public_key_text sys key)
            (Value.int from)
            head
            (Value.int (plus from (length links)))
          ≡ ok proof
    unfolding verify_chain_proof chain_proof_unsigned as_int int_of as_list chain_proof_of lookup
    verify_chain_proof-proof h start followed =
        rw
          (
            has_fields-proof,
            matches_request-proof h,
            start,
            member_of-proof "links" refl,
            items-array links,
            followed,
            member_of-proof "to_head" refl,
            is_optional_text_refl out,
            unsigned_of-signed sys chain_proof_domain key body,
            signature-signed sys chain_proof_domain key body refl,
            verify_object-sign_object sys sound key _,
          )
          refl

  -- If the crypto functions keep their promises, every chain proof that the clerk builds for the
  -- events from a position on is accepted by a client that asks for this range under the clerk's key.
  pub verify_chain_proof-build_chain_proof :
      (n : ℕ) (head : Option String) (events : List Value) {proof : Value}
      → build_chain_proof sys problem_id (Value.int (ℤ.pos n)) head events key ≡ ok proof
      → verify_chain_proof sys proof problem_id
          (public_key_text sys key)
          (Value.int (ℤ.pos n))
          head
          (Value.int (ℤ.pos (n + length events)))
        ≡ ok proof
  unfolding build_chain_proof is_valid_start as_int int_of plus
  verify_chain_proof-build_chain_proof n head events {proof} h =
      let (u, allowed, h1) =
        >>=-eq-ok
          (raise_if (ltb max_chain_proof_links (length events)) "chain proof range is invalid") _
          h in
      let (start, hashed, h2) =
        >>=-eq-ok (event_hash (optional_text head) "chain proof start head") _ h1 in
      let ((links, out), built, h3) = >>=-eq-ok (build_links (ℤ.pos n) 0 head events) _ h2 in
      let (followed, same_length) = verify_links-build_links (ℤ.pos n) 0 head events built in
      let few : length links ≤ max_chain_proof_links =
        rw same_length (ground (arith, raise_if-eq-ok _ _ allowed)) in
      let checked = event_hash_named (optional_text head) _ "case chain proof start head" hashed in
      let accepted = verify_chain_proof-proof (ℤ.pos n) head out links few checked followed in
      subst
        (λ (p : Value).
          verify_chain_proof sys p problem_id (public_key_text sys key) (Value.int (ℤ.pos n)) head
            (Value.int (ℤ.pos (n + length events)))
          ≡ ok p)
        (ok_injective h3)
        (subst
          (λ (m : ℕ).
            verify_chain_proof sys
              (signed sys chain_proof_domain key (body (ℤ.pos n) head out links)) problem_id
              (public_key_text sys key) (Value.int (ℤ.pos n)) head (Value.int (ℤ.pos (n + m)))
            ≡ ok (signed sys chain_proof_domain key (body (ℤ.pos n) head out links)))
          same_length accepted)
