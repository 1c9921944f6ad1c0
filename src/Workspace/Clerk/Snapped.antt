-- ===== src/Workspace/Clerk/Snapped.antt =====
-- The snapshot that the clerk of src/boule/workspace.py signs for a log that `_events` accepts.
use mathlib.Core.Path.{subst}
use daryxx_boule_protocol.Prelude.{
  ℕ, String, ◌≡◌, refl, ◌∙◌, Option, none, some, List, [], ◌∷◌, arith, length, get_elem?, last?,
}
use daryxx_boule_protocol.Python.{Members, ok, Value, optional_text}
use daryxx_boule_protocol.Crypto.{Platform, digest_object, public_key_text, IsSound}
use daryxx_boule_protocol.Ledger.{get_of}
use daryxx_boule_protocol.Remote.{prefixed_digest, event_hash, build_snapshot, verify_snapshot}
use daryxx_boule_protocol.Remote.Snapped.{verify_snapshot_lem}
use daryxx_boule_protocol.Workspace.State.{Config}
use daryxx_boule_protocol.Workspace.Clerk.Format.{IsStandard, stamp}
use daryxx_boule_protocol.Workspace.Clerk.Entries.{Logged, walk_start}
use daryxx_boule_protocol.Workspace.Clerk.Load.{logged_before, hash_of, load_events}
use daryxx_boule_protocol.Workspace.Clerk.Formatting.{sha256_digest-append}
use daryxx_boule_protocol.Workspace.Clerk.Loaded.{load_events-IsLoaded}
use daryxx_boule_protocol.Workspace.Clerk.Admitting.{checked_utc_time-stamp, digest-is_hex}
use daryxx_boule_protocol.Workspace.Clerk.Proving.{read_events-IsReached}
use daryxx_boule_protocol.Workspace.Clerk.Proofs.{head_at_start, no_hash}

get_elem?-last :
    (l : Logged) (events : List Logged)
    → get_elem? (l ∷ events) (length events) ≡ last? (l ∷ events)
get_elem?-last l [] = refl
get_elem?-last l (m ∷ events) = get_elem?-last m events

before_end : (events : List Logged) → logged_before (length events) events ≡ last? events
unfolding logged_before
before_end [] = refl
before_end (l ∷ events) = get_elem?-last l events

-- The name is for the message alone.
event_hash-named :
    (head : Option String) (name other : String)
    → event_hash (optional_text head) name ≡ ok head
    → event_hash (optional_text head) other ≡ ok head
unfolding event_hash
event_hash-named none name other h = refl
event_hash-named (some s) name other h = ground (arith, h)

module _ (sys : Platform) (config : Config) (standard : IsStandard sys) where
  head_hashed :
      (files receipts : List Value) (events : List Logged)
      → load_events sys config files receipts ≡ ok events
      → event_hash (optional_text (hash_of (last? events))) "snapshot.head_event_hash"
        ≡ ok (hash_of (last? events))
  head_hashed files receipts events h =
      let (end, checked) = load_events-IsLoaded sys config files receipts h in
      let n = length events in
      let reached =
        read_events-IsReached sys standard config n walk_start files checked.read (omega arith)
          no_hash in
      let headed = reached.headed ∙ head_at_start events n (omega arith) in
      let at_end =
        subst (λ p. event_hash (optional_text p) "chain proof start head" ≡ ok p) headed
          reached.hashed in
      event_hash-named (hash_of (last? events)) "chain proof start head" "snapshot.head_event_hash"
        (subst
          (λ o. event_hash (optional_text (hash_of o)) "chain proof start head" ≡ ok (hash_of o))
          (before_end events) at_end)

  -- If the libraries keep their promises, then of a log that `_events` accepts, at any time, the
  -- snapshot that the clerk builds with the number of the events and the hash of the last one is
  -- accepted by a client under the clerk's key, for every state that names the problem.
  pub verify_snapshot-build_snapshot :
      (sound : IsSound sys) (files receipts : List Value) (events : List Logged) (now : ℕ)
      (ms : Members) (key : String)
      → load_events sys config files receipts ≡ ok events
      → public_key_text sys key ≡ config.maintainer_key
      → get_of (Value.obj ms) "problem_id" ≡ ok (Value.text config.problem_id)
      → verify_snapshot sys
          (build_snapshot sys config.problem_id
            (stamp sys now)
            (length events)
            (hash_of (last? events))
            (Value.obj ms)
            key)
          (Value.obj ms)
          config.problem_id
          config.maintainer_key
        ≡ ok (
            build_snapshot sys config.problem_id
              (stamp sys now)
              (length events)
              (hash_of (last? events))
              (Value.obj ms)
              key)
  unfolding prefixed_digest digest_object
  verify_snapshot-build_snapshot sound files receipts events now ms key h k named =
      let at = stamp sys now in
      let head = hash_of (last? events) in
      let snapshot =
        build_snapshot sys config.problem_id at (length events) head (Value.obj ms) key in
      subst (λ c. verify_snapshot sys snapshot (Value.obj ms) config.problem_id c ≡ ok snapshot) k
        (verify_snapshot_lem sys sound config.problem_id at (length events) head ms key named
          (checked_utc_time-stamp sys sound standard config key now "snapshot.at")
          (head_hashed files receipts events h)
          (sha256_digest-append (digest_object sys (Value.obj ms)) "snapshot.state_digest"
            (digest-is_hex sys sound standard config key (Value.obj ms))))
