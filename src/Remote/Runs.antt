-- ===== src/Remote/Runs.antt =====
-- The links that the loop of `verify_chain_proof` (src/boule/remote_protocol.py) follows are one run
-- of hashes.
use mathlib.Core.Path.{subst}
use daryxx_boule_protocol.Prelude.{
  ℕ, zero, suc, ◌+◌, String, ◌≡◌, refl, sym, ap, ◌∙◌, true, not, ◌&&◌, Option, none, some, List, [],
  ◌∷◌, arith, length, get_elem?,
}
use daryxx_boule_protocol.Python.{
  raise_unless_both, ok, raise_if, >>=-eq-ok, ok_injective, ℤ, Value, is_optional_text, is_hex_text,
}
use daryxx_boule_protocol.Ledger.{member_of, has_fields}
use daryxx_boule_protocol.Remote.Chains.{link_fields, plus, is_int, verify_link, verify_links}
use daryxx_boule_protocol.Remote.Linking.{present_hash_accepts}

-- the hash before position `i` of a run that starts behind `head`
unfoldable pub hash_before : Option String → List String → ℕ → Option String
hash_before head [] i = head
hash_before head (hash ∷ hashes) zero = head
hash_before head (hash ∷ hashes) (suc i) = hash_before (some hash) hashes i

-- The link at position `i` of a run: its number, the hash before it, and its own.
pub record IsLinkAt (from : ℤ) (offset : ℕ) (head : Option String) (hashes : List String) (i : ℕ)
    (link : Value) : Type 0 where
  pub hash : String
  pub seq : Value
  pub prev : Value
  pub placed : get_elem? hashes i ≡ some hash
  pub hashed : member_of link "event_hash" ≡ ok (Value.text hash)
  pub is_hash : is_hex_text 64 hash ≡ true
  pub numbered : (member_of link "seq" ≡ ok seq) × (is_int seq (plus from (offset + i)) ≡ true)
  pub linked :
      (member_of link "prev_event_hash" ≡ ok prev)
      × (is_optional_text prev (hash_before head hashes i) ≡ true)

pub record IsRun (from : ℤ) (offset : ℕ) (head : Option String) (links : List Value)
    (out : Option String) : Type 0 where
  pub hashes : List String
  pub counted : length hashes ≡ length links
  pub reached : out ≡ hash_before head hashes (length hashes)
  pub each :
      (i : ℕ) (link : Value)
      → get_elem? links i ≡ some link
      → IsLinkAt from offset head hashes i link

some_injective : {A : Type 0} {a b : A} → some a ≡ some b → a ≡ b
some_injective h = cc

not-none : {A : Type 0} {a : A} → ¬ (none ≡ some a)
not-none h = cc

n_plus_zero : (n : ℕ) → n + 0 ≡ n
n_plus_zero n = omega arith

later_link :
    {from : ℤ} {offset : ℕ} {head : Option String} {hash : String} {hashes : List String} {i : ℕ}
    {link : Value}
    → IsLinkAt from (offset + 1) (some hash) hashes i link
    → IsLinkAt from offset head (hash ∷ hashes) (suc i) link
unfolding hash_before
later_link {from} {offset} {head} {hash} {hashes} {i} later =
    let moved : offset + 1 + i ≡ offset + suc i = omega arith in
    record {
      hash = later.hash;
      seq = later.seq;
      prev = later.prev;
      placed = later.placed;
      hashed = later.hashed;
      is_hash = later.is_hash;
      numbered = (
        later.numbered.0,
        subst (λ n. is_int later.seq (plus from n) ≡ true) moved later.numbered.1,
      );
      linked = later.linked;
    }

each_link :
    {from : ℤ} {offset : ℕ} {head : Option String} {hash : String} {hashes : List String}
    {first : Value} (links : List Value)
    → ((i : ℕ) (link : Value)
        → get_elem? links i ≡ some link
        → IsLinkAt from (offset + 1) (some hash) hashes i link)
    → IsLinkAt from offset head (hash ∷ hashes) 0 first
    → (i : ℕ) (link : Value) → get_elem? (first ∷ links) i ≡ some link
    → IsLinkAt from offset head (hash ∷ hashes) i link
each_link links later now zero link e =
    let same : _ ≡ link = some_injective e in subst (IsLinkAt _ _ _ _ 0) same now
each_link links later now (suc i) link e = later_link (later i link e)

pub verify_links-IsRun :
    (from : ℤ) (offset : ℕ) (head : Option String) (links : List Value) {out : Option String}
    → verify_links from offset head links ≡ ok out
    → IsRun from offset head links out
unfolding verify_links verify_link hash_before
verify_links-IsRun from offset head [] h = record {
  hashes = [];
  counted = refl;
  reached = sym (ok_injective h);
  each = λ i link e. absurd (not-none e);
}
verify_links-IsRun from offset head (link ∷ links) {out} h =
    let (hash, accepted, h6) = >>=-eq-ok (verify_link (plus from offset) head link) _ h in
    let (_, _, h1) =
      >>=-eq-ok (raise_if (not (has_fields link link_fields)) "case chain proof link is invalid") _
        accepted in
    let (seq, seq_of, h2) = >>=-eq-ok (member_of link "seq") _ h1 in
    let (prev, prev_of, h3) = >>=-eq-ok (member_of link "prev_event_hash") _ h2 in
    let (u, tested, h4) =
      >>=-eq-ok
        (raise_if (not (is_int seq (plus from offset) && is_optional_text prev head))
          "case chain proof link is invalid")
        _ h3 in
    let (v, hash_of, h5) = >>=-eq-ok (member_of link "event_hash") _ h4 in
    let rest = verify_links-IsRun from (offset + 1) (some hash) links h6 in
    let (form, is_hash) = present_hash_accepts v "case chain proof event hash" h5 in
    let (numbered, linked) =
      raise_unless_both (is_int seq (plus from offset)) (is_optional_text prev head)
        "case chain proof link is invalid" tested in
    record {
      hashes = hash ∷ rest.hashes;
      counted = ap suc rest.counted;
      reached = rest.reached;
      each = each_link links rest.each (record {
        hash = hash;
        seq = seq;
        prev = prev;
        placed = refl;
        hashed = hash_of ∙ ap ok form;
        is_hash = is_hash;
        numbered = (seq_of, rw (n_plus_zero offset) numbered);
        linked = (prev_of, linked);
      });
    }
