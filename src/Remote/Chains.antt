-- ===== src/Remote/Chains.antt =====
-- Chain proofs of src/boule/remote_protocol.py: a signed run of hash links without the events.
use daryxx_boule_protocol.Prelude.{
  ℕ, suc, ◌+◌, ◌-◌, String, Bool, true, false, not, ◌&&◌, ◌||◌, Option, none, some, List, [], ◌∷◌,
  ltb, leb, eqb, if◌then◌else◌, length,
}
use daryxx_boule_protocol.Python.{
  crash, Result, ok, err, ◌>>=◌, ◌>>◌, raise_if, or_crash, lookup, ℤ, Dict, Value, items, members,
  object, list, is_text, number_of, same_number, same_value, is_optional_text, optional_text,
}
use daryxx_boule_protocol.Crypto.{Platform, public_key_text, verify_object}
use daryxx_boule_protocol.Ledger.{member_of, get_of, has_fields, clerk_key}
use daryxx_boule_protocol.Remote.Checks.{event_hash, present_hash, int_of, unsigned_of, signed}

abbrev pub chain_proof_schema : String
chain_proof_schema = "boule-workspace-chain-proof/0.6"

abbrev pub chain_proof_domain : String
chain_proof_domain = "boule-workspace-chain-proof-v0.6"

abbrev pub chain_proof_fields : List String
chain_proof_fields =
    "schema" ∷ "problem_id" ∷ "clerk_key" ∷ "from_count" ∷ "from_head" ∷ "to_count" ∷ "to_head"
    ∷ "links" ∷ "signature" ∷ []

abbrev pub link_fields : List String
link_fields = "seq" ∷ "prev_event_hash" ∷ "event_hash" ∷ []

-- `MAX_CHAIN_PROOF_LINKS`
abbrev pub max_chain_proof_links : ℕ
max_chain_proof_links = 256

-- `_chain_proof_unsigned`
unfoldable pub chain_proof_unsigned : Value → Result Value
chain_proof_unsigned proof = unsigned_of chain_proof_domain proof

-- `n + offset`
unfoldable pub plus : ℤ → ℕ → ℤ
plus (ℤ.pos n) offset = ℤ.pos (n + offset)
plus (ℤ.negsuc n) offset = if ltb n offset then ℤ.pos (offset - suc n) else ℤ.negsuc (n - offset)

-- `to - from`, when `from <= to`
unfoldable pub distance : ℤ → ℤ → Option ℕ
distance (ℤ.pos m) (ℤ.pos n) = if leb m n then some (n - m) else none
distance (ℤ.pos m) (ℤ.negsuc n) = none
distance (ℤ.negsuc m) (ℤ.pos n) = some (n + suc m)
distance (ℤ.negsuc m) (ℤ.negsuc n) = if leb n m then some (m - n) else none

-- `v == n`
unfoldable pub is_int : Value → ℤ → Bool
is_int v n = elim (number_of v) [ some m ↦ same_number m n | none ↦ false ]

-- one link, as the builder writes it
abbrev pub link_value : ℤ → Option String → String → Value
link_value seq prev hash = object (
    ("seq", Value.int seq)
    ∷ ("prev_event_hash", optional_text prev)
    ∷ ("event_hash", Value.text hash)
    ∷ [])

-- `isinstance(event, dict)` and the two comparisons
unfoldable pub continues : Value → ℤ → Option String → Bool
continues (Value.obj ms) seq previous =
    elim (lookup "seq" (members ms)) [ some v ↦ is_int v seq | none ↦ false ]
    && is_optional_text
        (elim (lookup "prev_event_hash" (members ms)) [ some v ↦ v | none ↦ Value.null ]) previous
continues _ seq previous = false

-- the loop of `build_chain_proof`: the links, and the hash of the last one
unfoldable pub build_links :
    ℤ → ℕ → Option String → List Value → Result (List Value × Option String)
build_links from_count offset previous [] = ok ([], previous)
build_links from_count offset previous (event ∷ events) = do
  raise_if (not (continues event (plus from_count offset) previous))
      "chain proof events are not a contiguous suffix"
  hash ← present_hash (← get_of event "event_hash") "chain proof event hash"
  rest ← build_links from_count (offset + 1) (some hash) events
  ok (link_value (plus from_count offset) previous hash ∷ rest.0, rest.1)

-- the body of the loop of `verify_chain_proof`: the hash of the link
unfoldable pub verify_link : ℤ → Option String → Value → Result String
verify_link expected previous link = do
  raise_if (not (has_fields link link_fields)) "case chain proof link is invalid"
  seq ← member_of link "seq"
  prev ← member_of link "prev_event_hash"
  raise_if (not (is_int seq expected && is_optional_text prev previous))
      "case chain proof link is invalid"
  present_hash (← member_of link "event_hash") "case chain proof event hash"

-- the loop of `verify_chain_proof`: the hash of the last link
unfoldable pub verify_links : ℤ → ℕ → Option String → List Value → Result (Option String)
verify_links from_count offset previous [] = ok previous
verify_links from_count offset previous (link ∷ links) = do
  hash ← verify_link (plus from_count offset) previous link
  verify_links from_count (offset + 1) (some hash) links

-- the tests on `links`: a list of `to_count - from_count` items, at most 256
unfoldable pub has_range : Value → Value → Value → Bool
has_range (Value.int m) (Value.int n) (Value.arr links) = elim (distance m n) [
  | some k ↦ leb k max_chain_proof_links && eqb (length (items links)) k
  | none ↦ false
]
has_range _ _ _ = false

-- a list that was checked to be one
unfoldable pub as_list : Value → Result (List Value)
as_list (Value.arr vs) = ok (items vs)
as_list _ = err crash

unfoldable pub as_int : Value → Result ℤ
as_int v = or_crash (int_of v)

unfoldable pub is_valid_start : Value → Bool
is_valid_start (Value.int (ℤ.pos n)) = true
is_valid_start _ = false

-- `proof` of `build_chain_proof`
unfoldable pub chain_proof_of :
    String → String → ℤ → Option String → List Value → Option String → Dict Value
chain_proof_of problem_id clerk_key from start_head links head =
    ("schema", Value.text chain_proof_schema)
    ∷ ("problem_id", Value.text problem_id)
    ∷ ("clerk_key", Value.text clerk_key)
    ∷ ("from_count", Value.int from)
    ∷ ("from_head", optional_text start_head)
    ∷ ("to_count", Value.int (plus from (length links)))
    ∷ ("to_head", optional_text head)
    ∷ ("links", list links)
    ∷ []

-- the first `if` after the one on the fields
unfoldable pub matches_request :
    Value → String → String → Value → Option String → Value → Result Bool
unfolding has_range
matches_request proof problem_id clerk_key from_count from_head to_count = do
  schema ← member_of proof "schema"
  problem ← member_of proof "problem_id"
  clerk ← member_of proof "clerk_key"
  first ← member_of proof "from_count"
  head ← member_of proof "from_head"
  last ← member_of proof "to_count"
  links ← member_of proof "links"
  ok (
      is_text schema chain_proof_schema
      && is_text problem problem_id
      && is_text clerk clerk_key
      && same_value first from_count
      && is_optional_text head from_head
      && same_value last to_count
      && has_range from_count to_count links)

module _ (sys : Platform) where
  unfoldable pub build_chain_proof :
      String → Value → Option String → List Value → String → Result Value
  unfolding as_int chain_proof_of
  build_chain_proof problem_id from_count start_head events clerk_private_key = do
    raise_if (not (is_valid_start from_count) || ltb max_chain_proof_links (length events))
        "chain proof range is invalid"
    from ← as_int from_count
    event_hash (optional_text start_head) "chain proof start head"
    (links, head) ← build_links from 0 start_head events
    ok (
        signed sys chain_proof_domain clerk_private_key (
          chain_proof_of problem_id (public_key_text sys clerk_private_key) from start_head links
            head))

  unfoldable pub verify_chain_proof :
      Value → String → String → Value → Option String → Value → Result Value
  unfolding as_int as_list
  verify_chain_proof proof problem_id clerk_key from_count from_head to_count = do
    raise_if (not (has_fields proof chain_proof_fields)) "case chain proof has invalid fields"
    requested ← matches_request proof problem_id clerk_key from_count from_head to_count
    raise_if (not requested) "case chain proof does not match the requested range"
    event_hash (optional_text from_head) "case chain proof start head"
    from ← as_int from_count
    links ← as_list (← member_of proof "links")
    previous ← verify_links from 0 from_head links
    to_head ← member_of proof "to_head"
    raise_if (not (is_optional_text to_head previous)) "case chain proof end head is invalid"
    body ← chain_proof_unsigned proof
    signature ← member_of proof "signature"
    verify_object sys (Value.text clerk_key) body signature
    ok proof
