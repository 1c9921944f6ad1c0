-- ===== src/Workspace/Clerk/Admitting.antt =====
-- `_events` of src/boule/workspace.py accepts the event that `append_envelope` builds.
use mathlib.Core.Path.{subst}
use daryxx_boule_protocol.Prelude.{
  ℕ, String, ◌≡◌, refl, inl, inr, true, false, not, Option, none, some, List, [], ◌∷◌, ◌++◌, arith,
  eq_iff, eq_refl, ◌==◌, Bool-cases,
}
use daryxx_boule_protocol.Python.{
  ok, contains, ℤ, Value, number_of, same_number, same_value, both_numbers, optional_text, is_blank,
  is_hex_text,
}
use daryxx_boule_protocol.Crypto.{Platform, digest_object, IsSound}
use daryxx_boule_protocol.Ledger.{is_named}
use daryxx_boule_protocol.Remote.{
  canonical_uuid, event_hash, present_hash, envelope_digest, prefixed_digest, checked_utc_time,
}
use daryxx_boule_protocol.Remote.Agreed.{Envelope, IsAdmitted}
use daryxx_boule_protocol.Remote.Receipted.{IsOrdered}
use daryxx_boule_protocol.Workspace.Fields.{utc_time}
use daryxx_boule_protocol.Workspace.State.{Config}
use daryxx_boule_protocol.Workspace.Log.{participant_events}
use daryxx_boule_protocol.Workspace.Clerk.Format.{stamp, event_id_of, IsStandard}
use daryxx_boule_protocol.Workspace.Clerk.Formatting.{is_blank-event_id_of, sha256_digest-append}
use daryxx_boule_protocol.Workspace.Clerk.Ordering.{new_ordered}

pub contains-append :
    (k : String) (xs ys : List String) → contains k xs ≡ true → contains k (xs ++ ys) ≡ true
unfolding contains
contains-append k [] ys h = cc
contains-append k (x ∷ xs) ys h = elim (Bool-cases (k == x)) [
  | inl same ↦ rw same refl
  | inr other ↦ rw other (contains-append k xs ys (rw other at h))
]

pub same_value_optional :
    (o : Option String) → same_value (optional_text o) (optional_text o) ≡ true
unfolding same_value
same_value_optional none = refl
same_value_optional (some s) = eq_refl s

pub same_value_number : (n : ℕ) → same_value (Value.int (ℤ.pos n)) (Value.int (ℤ.pos n)) ≡ true
unfolding same_value both_numbers number_of same_number
same_value_number n = ground arith

not-blank : ¬ (is_blank "" ≡ false)
unfolding is_blank
not-blank h = cc

named_text : (s : String) → is_blank s ≡ false → not (s == "") ≡ true
unfolding is_blank
named_text s h = elim (Bool-cases (s == "")) [
  | inl same ↦
      let empty : s ≡ "" = ground (arith, eq_iff s "") in
      absurd (not-blank (subst (λ t. is_blank t ≡ false) empty h))
  | inr other ↦ rw other refl
]

is_named-event_id_of :
    (seq : ℕ) (digest : String) → is_named (Value.text (event_id_of seq digest)) ≡ true
unfolding is_named
is_named-event_id_of seq digest =
    named_text (event_id_of seq digest) (is_blank-event_id_of seq digest)

uuid_named :
    (w : Value) {s : String}
    → canonical_uuid w "request_id" ≡ ok s
    → canonical_uuid w "receipt.request_id" ≡ ok s
unfolding canonical_uuid
uuid_named (Value.text t) h = ground arith
uuid_named Value.null h = cc
uuid_named _ h = cc

hash_named :
    (w : Value) {o : Option String}
    → event_hash w "base_event_hash" ≡ ok o
    → event_hash w "receipt.prev_event_hash" ≡ ok o
unfolding event_hash
hash_named (Value.text t) h = ground arith
hash_named Value.null h = h
hash_named _ h = cc

present :
    (s : String) → is_hex_text 64 s ≡ true → present_hash (Value.text s) "receipt.event_hash" ≡ ok s
unfolding present_hash
present s h = rw h refl

module _ (sys : Platform) (sound : IsSound sys) (standard : IsStandard sys) (config : Config)
    (key : String) where
  pub utc_time-stamp : (now : ℕ) → utc_time sys (Value.text (stamp sys now)) ≡ ok now
  unfolding utc_time
  utc_time-stamp now = rw (standard.ends_with_z-stamp now, standard.fromisoformat-stamp now) refl

  pub checked_utc_time-stamp :
      (now : ℕ) (name : String)
      → checked_utc_time sys (Value.text (stamp sys now)) name ≡ ok (stamp sys now)
  unfolding checked_utc_time
  checked_utc_time-stamp now name =
      rw (standard.ends_with_z-stamp now, standard.fromisoformat-stamp now) refl

  pub digest-is_hex : (v : Value) → is_hex_text 64 (digest_object sys v) ≡ true
  unfolding digest_object
  digest-is_hex v = standard.hexdigest-is_hex _

  pub new_ordered-IsOrdered :
      (envelope : Value) (v : Envelope) (seq now : ℕ)
      → IsAdmitted sys config.problem_id participant_events v
      → IsOrdered sys envelope
          (new_ordered sys config key v seq now v.base (digest_object sys envelope))
  unfolding envelope_digest prefixed_digest
  new_ordered-IsOrdered envelope v seq now a = record {
    is_uuid = uuid_named (Value.text v.request_id) a.is_uuid;
    binds = refl;
    is_digest = sha256_digest-append _ "receipt.envelope_digest" (digest-is_hex envelope);
    named = is_named-event_id_of seq _;
    timed = checked_utc_time-stamp now "receipt.received_at";
    is_hash = hash_named (optional_text v.base) a.is_hash;
    is_present = present _ (digest-is_hex _);
  }
