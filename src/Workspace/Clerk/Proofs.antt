-- ===== src/Workspace/Clerk/Proofs.antt =====
-- `remote_chain_proof` of src/boule/workspace.py: every range of an accepted log has a proof that
-- the client accepts.
use mathlib.Core.Path.{subst}
use daryxx_boule_protocol.Prelude.{
  ℕ, zero, suc, ◌+◌, ◌-◌, ◌≤◌, String, ◌≡◌, refl, ap, ◌∙◌, inl, inr, true, false, ◌||◌, Option,
  none, List, [], ◌∷◌, arith, eq_refl, ltb, ◌==◌, length, take, drop,
}
use daryxx_boule_protocol.Python.{Error, ok, err, Result-cases, ℤ, Value, optional_text}
use daryxx_boule_protocol.Crypto.{Platform, public_key_text, IsSound}
use daryxx_boule_protocol.Remote.{
  build_links, build_chain_proof, event_hash, max_chain_proof_links, verify_chain_proof, as_int,
  int_of, is_valid_start,
}
use daryxx_boule_protocol.Remote.Proofs.{verify_chain_proof-build_chain_proof}
use daryxx_boule_protocol.Workspace.State.{Config}
use daryxx_boule_protocol.Workspace.Clerk.Format.{IsStandard}
use daryxx_boule_protocol.Workspace.Clerk.Entries.{Logged, walk_start}
use daryxx_boule_protocol.Workspace.Clerk.Append.{remote_chain_proof}
use daryxx_boule_protocol.Workspace.Clerk.Load.{logged_before, hash_of, load_events}
use daryxx_boule_protocol.Workspace.Clerk.Extending.{read_events-length}
use daryxx_boule_protocol.Workspace.Clerk.Loaded.{load_events-IsLoaded}
use daryxx_boule_protocol.Workspace.Clerk.Proving.{
  head_at, head_at-logged_before, build_links-read_events, read_events-IsReached,
}

length-slice :
    {A : Type 0} (m n : ℕ) (xs : List A) → m + n ≤ length xs → length (take n (drop m xs)) ≡ n
length-slice zero zero xs h = refl
length-slice zero (suc n) [] h = omega arith
length-slice zero (suc n) (x ∷ xs) h = ap suc (length-slice zero n xs (omega arith))
length-slice (suc m) n [] h = omega arith
length-slice (suc m) n (x ∷ xs) h = length-slice m n xs (omega arith)

pub head_at_start :
    (events : List Logged) (m : ℕ)
    → m ≤ length events
    → head_at none events m ≡ hash_of (logged_before m events)
unfolding head_at logged_before hash_of
head_at_start events zero h = refl
head_at_start events (suc m) h = head_at-logged_before none events m (omega arith)

not-err : {A : Type 0} {a : A} {e : Error} → ¬ (ok a ≡ err e)
not-err h = cc

pub no_hash : event_hash Value.null "chain proof start head" ≡ ok none
unfolding event_hash
no_hash = refl

module _ (sys : Platform) (config : Config) where
  build_chain_proof_lem :
      (n : ℕ) (head : Option String) (events : List Value) (key : String)
      {out : List Value × Option String}
      → length events ≤ max_chain_proof_links
      → event_hash (optional_text head) "chain proof start head" ≡ ok head
      → build_links (ℤ.pos n) 0 head events ≡ ok out
      → (proof : Value) × (build_chain_proof sys config.problem_id
            (Value.int (ℤ.pos n))
            head
            events
            key
          ≡ ok proof)
  unfolding build_chain_proof is_valid_start as_int int_of
  build_chain_proof_lem n head events key few hashed built =
      let small : ltb max_chain_proof_links (length events) ≡ false = ground arith in
      elim (Result-cases
        (build_chain_proof sys config.problem_id (Value.int (ℤ.pos n)) head events key)) [
          | inl found ↦ found
          | inr (e, failed) ↦ absurd (not-err (rw (small, hashed, built) at failed))
        ]

  remote_chain_proof_lem :
      (files receipts : List Value) (key : String) (events : List Logged) (from to : ℕ)
      → load_events sys config files receipts ≡ ok events
      → public_key_text sys key ≡ config.maintainer_key
      → from ≤ to
      → to ≤ length events
      → to ≤ from + max_chain_proof_links
      → remote_chain_proof sys config from to key files receipts
        ≡ build_chain_proof sys config.problem_id
            (Value.int (ℤ.pos from))
            (hash_of (logged_before from events))
            (take (to - from) (drop from files))
            key
  unfolding remote_chain_proof
  remote_chain_proof_lem files receipts key events from to h k a b c =
      let right_key : (public_key_text sys key == config.maintainer_key) ≡ true =
        rw k (eq_refl config.maintainer_key) in
      let in_range : (ltb to from || ltb max_chain_proof_links (to - from)) ≡ false =
        ground arith in
      let there : ltb (length events) to ≡ false = ground arith in
      rw (right_key, in_range, h, there) refl

  -- Of a log that is accepted, the clerk builds a chain proof for every range of at most 256 events,
  -- and a client that asks for this range, from the head in front of it, accepts the proof, if
  -- the libraries keep their promises.
  pub remote_chain_proof-Returns :
      (sound : IsSound sys) (standard : IsStandard sys) (files receipts : List Value) (key : String)
      (events : List Logged) (from to : ℕ)
      → load_events sys config files receipts ≡ ok events
      → public_key_text sys key ≡ config.maintainer_key
      → from ≤ to
      → to ≤ length events
      → to ≤ from + max_chain_proof_links
      → (proof : Value) × (remote_chain_proof sys config from to key files receipts ≡ ok proof)
        × (verify_chain_proof sys proof config.problem_id config.maintainer_key
              (Value.int (ℤ.pos from))
              (hash_of (logged_before from events))
              (Value.int (ℤ.pos to))
            ≡ ok proof)
  remote_chain_proof-Returns sound standard files receipts key events from to h k a b c =
      let (end, checked) = load_events-IsLoaded sys config files receipts h in
      let read = checked.read in
      let counted = read_events-length sys config walk_start files read in
      let below : from ≤ length events = omega arith in
      let start =
        read_events-IsReached sys standard config from walk_start files read below no_hash in
      let head = hash_of (logged_before from events) in
      let headed : start.at.previous ≡ head = start.headed ∙ head_at_start events from below in
      let (out, built) =
        build_links-read_events sys standard config from 0 (to - from) start.at (drop from files)
          start.read (omega (arith, start.counted)) in
      let suffix = take (to - from) (drop from files) in
      let sized : length suffix ≡ to - from =
        length-slice from (to - from) files (omega (arith, counted)) in
      let few : length suffix ≤ max_chain_proof_links = rw sized (omega arith) in
      let (proof, proved) =
        build_chain_proof_lem from head suffix key few
          (subst (λ p. event_hash (optional_text p) "chain proof start head" ≡ ok p) headed
            start.hashed)
          (subst (λ p. build_links (ℤ.pos from) 0 p suffix ≡ ok out) headed built) in
      let accepted =
        verify_chain_proof-build_chain_proof sys sound config.problem_id key from head suffix
          proved in
      let ends : from + length suffix ≡ to = omega (arith, sized) in
      (
        proof,
        remote_chain_proof_lem files receipts key events from to h k a b c ∙ proved,
        subst
            (λ n.
              verify_chain_proof sys proof config.problem_id config.maintainer_key
                (Value.int (ℤ.pos from)) head (Value.int (ℤ.pos n))
              ≡ ok proof)
            ends
            (subst
              (λ c.
                verify_chain_proof sys proof config.problem_id c (Value.int (ℤ.pos from)) head
                  (Value.int (ℤ.pos (from + length suffix)))
                ≡ ok proof)
              k accepted),
      )
