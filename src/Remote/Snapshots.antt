-- ===== src/Remote/Snapshots.antt =====
-- Snapshots of src/boule/remote_protocol.py: what the clerk signs for a state and its log position.
use daryxx_boule_protocol.Prelude.{
  ℕ, String, Bool, true, false, not, ◌||◌, Option, none, some, List, [], ◌∷◌,
}
use daryxx_boule_protocol.Python.{
  Dict, Result, ok, ◌>>=◌, ◌>>◌, raise_if, ℤ, Value, is_text, optional_text,
}
use daryxx_boule_protocol.Crypto.{Platform, public_key_text, verify_object}
use daryxx_boule_protocol.Ledger.{member_of, get_of, is_object, has_fields, clerk_key}
use daryxx_boule_protocol.Remote.Checks.{
  event_hash, sha256_digest, prefixed_digest, natural, unsigned_of, signed, checked_utc_time,
}

abbrev pub snapshot_schema : String
snapshot_schema = "boule-workspace-clerk-snapshot/0.5"

abbrev pub snapshot_domain : String
snapshot_domain = "boule-workspace-clerk-snapshot-v0.5"

abbrev pub snapshot_fields : List String
snapshot_fields =
    "schema" ∷ "problem_id" ∷ "clerk_key" ∷ "at" ∷ "event_count" ∷ "head_event_hash"
    ∷ "state_digest" ∷ "signature" ∷ []

unfoldable pub snapshot_unsigned : Value → Result Value
snapshot_unsigned snapshot = unsigned_of snapshot_domain snapshot

-- an `int` of 0 or more
unfoldable pub is_count : Value → Bool
is_count v = elim (natural v) [ some n ↦ true | none ↦ false ]

-- `snapshot` of `build_snapshot`
unfoldable pub snapshot_of : String → String → String → ℕ → Option String → String → Dict Value
snapshot_of problem_id clerk_key at event_count head_event_hash state_digest =
    ("schema", Value.text snapshot_schema)
    ∷ ("problem_id", Value.text problem_id)
    ∷ ("clerk_key", Value.text clerk_key)
    ∷ ("at", Value.text at)
    ∷ ("event_count", Value.int (ℤ.pos event_count))
    ∷ ("head_event_hash", optional_text head_event_hash)
    ∷ ("state_digest", Value.text state_digest)
    ∷ []

module _ (sys : Platform) where
  unfoldable pub build_snapshot : String → String → ℕ → Option String → Value → String → Value
  unfolding snapshot_of
  build_snapshot problem_id at event_count head_event_hash state clerk_private_key =
      signed sys snapshot_domain clerk_private_key (
        snapshot_of problem_id (public_key_text sys clerk_private_key) at event_count
          head_event_hash (prefixed_digest sys state))

  unfoldable pub verify_snapshot : Value → Value → String → String → Result Value
  verify_snapshot snapshot state problem_id clerk_key = do
    raise_if (not (has_fields snapshot snapshot_fields) || not (is_object state))
        "remote clerk snapshot has invalid fields"
    schema ← member_of snapshot "schema"
    raise_if (not (is_text schema snapshot_schema)) "remote clerk snapshot schema is unsupported"
    problem ← member_of snapshot "problem_id"
    clerk ← member_of snapshot "clerk_key"
    raise_if (not (is_text problem problem_id) || not (is_text clerk clerk_key))
        "remote clerk snapshot targets another problem or clerk"
    target ← get_of state "problem_id"
    raise_if (not (is_text target problem_id))
        "remote clerk snapshot state belongs to another problem"
    event_count ← member_of snapshot "event_count"
    raise_if (not (is_count event_count)) "remote clerk snapshot event count is invalid"
    at ← member_of snapshot "at"
    checked_utc_time sys at "snapshot.at"
    head ← member_of snapshot "head_event_hash"
    event_hash head "snapshot.head_event_hash"
    digest ← member_of snapshot "state_digest"
    sha256_digest digest "snapshot.state_digest"
    raise_if (not (is_text digest (prefixed_digest sys state)))
        "remote clerk snapshot state digest mismatch"
    body ← snapshot_unsigned snapshot
    signature ← member_of snapshot "signature"
    verify_object sys (Value.text clerk_key) body signature
    ok snapshot
