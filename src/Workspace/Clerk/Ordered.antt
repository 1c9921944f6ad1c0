-- ===== src/Workspace/Clerk/Ordered.antt =====
-- The first loop of `_events` (src/boule/workspace.py) accepts the event that `append_envelope` builds.
use mathlib.Core.Path.{subst}
use daryxx_boule_protocol.Prelude.{ℕ, ◌+◌, ◌<◌, String, ◌≡◌, refl, true, false, some, ◌∷◌, arith}
use daryxx_boule_protocol.Python.{
  same_value_text, ok, contains, Value, members, is_text_refl, is_optional_text_refl, ◌+s◌,
}
use daryxx_boule_protocol.Crypto.{Platform, digest_object, public_key_text, IsSound}
use daryxx_boule_protocol.Model.{as_text, in_set}
use daryxx_boule_protocol.Ledger.{is_object, moved_back}
use daryxx_boule_protocol.Remote.{
  is_one_of, envelope_digest, prefixed_digest, verify_receipt, natural,
}
use daryxx_boule_protocol.Remote.Agreed.{Envelope, IsAdmitted}
use daryxx_boule_protocol.Remote.Admitted.{IsSigned, verify_envelope-accepts}
use daryxx_boule_protocol.Remote.Building.{envelope_value, envelope_value-Holds}
use daryxx_boule_protocol.Remote.Receipted.{
  Ordered, Carries, receipt_value-Carries, verify_receipt-receipt_value,
}
use daryxx_boule_protocol.Workspace.State.{Config}
use daryxx_boule_protocol.Workspace.Log.{participant_events}
use daryxx_boule_protocol.Workspace.Clerk.Format.{event_id_of, IsStandard}
use daryxx_boule_protocol.Workspace.Clerk.Formatting.{checked_text-event_id_of}
use daryxx_boule_protocol.Workspace.Clerk.Entries.{
  event_schema, Logged, Walk, is_at, as_dict, check_place, check_shape, logged_of,
}
use daryxx_boule_protocol.Workspace.Clerk.Contents.{
  envelope_of, check_remote, check_ordered, verify_remote, verify_contents, read_event,
}
use daryxx_boule_protocol.Workspace.Clerk.Ordering.{
  new_hash, new_ordered, new_receipt, new_event, new_event-Carries, HasRest, new_event-HasRest,
  envelope_of-new_event,
}
use daryxx_boule_protocol.Workspace.Clerk.Admitting.{
  contains-append, same_value_optional, same_value_number, utc_time-stamp, new_ordered-IsOrdered,
}

-- What the state of the loop in front of the event has to satisfy.
pub record IsNext (walk : Walk) (v : Envelope) (now : ℕ) : Type 0 where
  pub headed : walk.previous ≡ v.base
  pub unseen : contains v.request_id walk.request_ids ≡ false
  pub in_time : moved_back walk.last now ≡ false
  pub few : walk.seq < 100000000

module _ (sys : Platform) (sound : IsSound sys) (standard : IsStandard sys) (config : Config)
    (key : String) (right_key : public_key_text sys key ≡ config.maintainer_key) (v : Envelope)
    (admitted : IsAdmitted sys config.problem_id participant_events v)
    (signed : IsSigned sys config.problem_id config.maintainer_key v) (actor : String)
    (is_actor : v.actor ≡ Value.text actor) (now : ℕ) (walk : Walk) (next : IsNext walk v now) where
  abbrev rebuilt : Value
  rebuilt = envelope_value config.problem_id config.maintainer_key v

  abbrev digest : String
  digest = digest_object sys rebuilt

  abbrev ordering : Ordered
  ordering = new_ordered sys config key v walk.seq now v.base digest

  abbrev receipt : Value
  receipt = new_receipt sys config key v walk.seq now v.base digest

  receipt_accepted :
      verify_receipt sys receipt config.problem_id config.maintainer_key
        (some v.request_id)
        (some rebuilt)
      ≡ ok receipt
  receipt_accepted =
      subst
        (λ k.
          verify_receipt sys receipt config.problem_id k (some v.request_id) (some rebuilt)
          ≡ ok receipt)
        right_key
        (verify_receipt-receipt_value sys config.problem_id key ordering sound rebuilt
          (new_ordered-IsOrdered sys sound standard config key rebuilt v walk.seq now admitted))

  abbrev pub logged : Logged
  logged = record {
    event = record {
      event_id = event_id_of walk.seq digest;
      received_at = now;
      kind = v.kind;
      actor = actor;
      payload = members v.payload;
      remote = true;
    };
    hash = new_hash sys config key v walk.seq now v.base digest;
  }

  abbrev pub after : Walk
  after = record {
    seq = walk.seq + 1;
    previous = some logged.hash;
    last = some now;
    request_ids = v.request_id ∷ walk.request_ids;
  }

  module _ (event : Value) (carried : Carries event ordering)
      (rest : HasRest sys config key v walk.seq now v.base digest event)
      (envelope_at : envelope_of sys config event ≡ ok rebuilt) where
    place : check_place walk event ≡ ok tt
    unfolding check_place is_at natural is_one_of
    place =
        rw
          (
            rest.is_remote,
            rest.not_legacy,
            carried.seq_of,
            carried.prev_of,
            rest.kind_of,
            next.headed,
            is_optional_text_refl v.base,
            contains-append v.kind participant_events _ admitted.is_kind,
          )
          (ground arith)

    shape : check_shape sys event ≡ ok (now, event_id_of walk.seq digest)
    unfolding check_shape is_object
    shape =
        rw
          (
            carried.time_of,
            utc_time-stamp sys sound standard config key now,
            carried.id_of,
            checked_text-event_id_of walk.seq digest next.few,
            rest.payload_of,
          )
          refl

    remote : check_remote sys config walk.request_ids event ≡ ok v.request_id
    unfolding check_remote is_one_of in_set as_text
    remote =
        rw
          (
            rest.kind_of,
            admitted.is_kind,
            rest.base_of,
            carried.prev_of,
            same_value_optional v.base,
            carried.request_of,
            next.unseen,
            envelope_at,
            verify_envelope-accepts sys rebuilt config.problem_id config.maintainer_key
                participant_events v
                (envelope_value-Holds config.problem_id config.maintainer_key v) admitted signed,
          )
          refl

    abbrev copied : Carries receipt ordering
    copied = receipt_value-Carries sys config.problem_id key ordering

    ordered : check_ordered sys config walk.seq v.request_id event ≡ ok tt
    unfolding check_ordered envelope_digest prefixed_digest
    ordered =
        rw
          (
            envelope_at,
            carried.digest_of,
            is_text_refl ("sha256:" +s digest),
            carried.id_of,
            is_text_refl (event_id_of walk.seq digest),
            rest.core_at,
            carried.hash_of,
            is_text_refl (new_hash sys config key v walk.seq now v.base digest),
            rest.receipt_of,
            receipt_accepted,
            copied.seq_of,
            carried.seq_of,
            same_value_number ordering.seq,
            copied.id_of,
            same_value_text ordering.event_id,
            copied.time_of,
            carried.time_of,
            same_value_text ordering.received_at,
            copied.prev_of,
            carried.prev_of,
            same_value_optional ordering.prev,
            copied.hash_of,
            same_value_text ordering.hash,
            copied.digest_of,
            same_value_text ordering.digest,
          )
          refl

    pub read_event-ordered : read_event sys config walk event ≡ ok (after, logged)
    unfolding read_event verify_contents verify_remote logged_of as_text as_dict
    read_event-ordered =
        rw
          (
            place,
            shape,
            rest.not_legacy,
            rest.schema_of,
            is_text_refl event_schema,
            remote,
            ordered,
            next.in_time,
            carried.hash_of,
            rest.kind_of,
            rest.actor_of,
            is_actor,
            rest.payload_of,
          )
          refl

  -- The loop goes on behind the new event.
  pub read_event-new_event :
      read_event sys config walk (new_event sys config key v walk.seq now v.base digest)
      ≡ ok (after, logged)
  read_event-new_event =
      read_event-ordered (new_event sys config key v walk.seq now v.base digest)
        (new_event-Carries sys config key v walk.seq now v.base digest)
        (new_event-HasRest sys config key v walk.seq now v.base digest)
        (envelope_of-new_event sys config key v walk.seq now v.base digest)
