-- ===== src/Remote/Snapped.antt =====
-- Snapshots of src/boule/remote_protocol.py: what the clerk signs, a client accepts.
use daryxx_boule_protocol.Prelude.{ℕ, String, ◌≡◌, refl, true, Option, some}
use daryxx_boule_protocol.Python.{
  Members, ok, Dict, contains, subset, same_set, lookup, keys, Value, members, is_text_refl,
  optional_text, of_members,
}
use daryxx_boule_protocol.Crypto.{
  Platform, public_key_text, sign_object, IsSound, verify_object-sign_object,
}
use daryxx_boule_protocol.Ledger.{member_of, get_of, is_object, has_fields}
use daryxx_boule_protocol.Remote.Checks.{
  event_hash, sha256_digest, prefixed_digest, natural, unsigned, signed, checked_utc_time,
}
use daryxx_boule_protocol.Remote.Snapshots.{
  snapshot_schema, snapshot_domain, snapshot_fields, snapshot_unsigned, is_count, snapshot_of,
  build_snapshot, verify_snapshot,
}
use daryxx_boule_protocol.Remote.Signed.{member_of-signed, signature-signed, unsigned_of-signed}

module _ (sys : Platform) (sound : IsSound sys) (problem_id at : String) (event_count : ℕ)
    (head : Option String) (ms : Members) (key : String) where
  abbrev state : Value
  state = Value.obj ms

  abbrev body : Dict Value
  body =
      snapshot_of problem_id (public_key_text sys key) at event_count head
        (prefixed_digest sys state)

  abbrev snapshot : Value
  snapshot = build_snapshot sys problem_id at event_count head state key

  member_of-snapshot :
      (k : String) {v : Value} → lookup k body ≡ some v → member_of snapshot k ≡ ok v
  unfolding build_snapshot
  member_of-snapshot k h = member_of-signed sys snapshot_domain key body k h

  has_fields-snapshot : has_fields snapshot snapshot_fields ≡ true
  unfolding has_fields signed build_snapshot snapshot_of members of_members keys same_set subset
      contains
  has_fields-snapshot = refl

  covered :
      (snapshot_unsigned snapshot ≡ ok (unsigned snapshot_domain body))
      × (member_of snapshot "signature"
          ≡ ok (Value.text (sign_object sys key (unsigned snapshot_domain body))))
  unfolding build_snapshot snapshot_unsigned snapshot_of lookup
  covered = (
    unsigned_of-signed sys snapshot_domain key body,
    signature-signed sys snapshot_domain key body refl,
  )

  -- Every check passes, if the state names the problem, and the time, the head and the digest are well
  -- formed.
  pub verify_snapshot_lem :
      get_of state "problem_id" ≡ ok (Value.text problem_id)
      → checked_utc_time sys (Value.text at) "snapshot.at" ≡ ok at
      → event_hash (optional_text head) "snapshot.head_event_hash" ≡ ok head
      → sha256_digest (Value.text (prefixed_digest sys state)) "snapshot.state_digest"
        ≡ ok (prefixed_digest sys state)
      → verify_snapshot sys snapshot state problem_id (public_key_text sys key) ≡ ok snapshot
  unfolding verify_snapshot is_count natural is_object snapshot_of lookup
  verify_snapshot_lem named timed hashed digested =
      rw
        (
          has_fields-snapshot,
          member_of-snapshot "schema" refl,
          is_text_refl snapshot_schema,
          member_of-snapshot "problem_id" refl,
          member_of-snapshot "clerk_key" refl,
          is_text_refl problem_id,
          is_text_refl (public_key_text sys key),
          named,
          is_text_refl problem_id,
          member_of-snapshot "event_count" refl,
          member_of-snapshot "at" refl,
          timed,
          member_of-snapshot "head_event_hash" refl,
          hashed,
          member_of-snapshot "state_digest" refl,
          digested,
          is_text_refl (prefixed_digest sys state),
          covered.0,
          covered.1,
          verify_object-sign_object sys sound key _,
        )
        refl
