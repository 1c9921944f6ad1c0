-- ===== src/Workspace/Clerk/Ordering.antt =====
-- The event that `append_envelope` of src/boule/workspace.py builds, member by member.
use daryxx_boule_protocol.Prelude.{ℕ, String, ◌≡◌, refl, true, false, Option, [], ◌∷◌, ◌++◌}
use daryxx_boule_protocol.Python.{
  ok, Dict, contains, subset, same_set, lookup, keys, Value, members, object, optional_text,
  of_members, ◌+s◌,
}
use daryxx_boule_protocol.Crypto.{Platform, digest_object}
use daryxx_boule_protocol.Model.{required}
use daryxx_boule_protocol.Ledger.{member_of, has_fields}
use daryxx_boule_protocol.Remote.{select, envelope_digest, prefixed_digest}
use daryxx_boule_protocol.Remote.Agreed.{Envelope, Holds}
use daryxx_boule_protocol.Remote.Building.{envelope_value}
use daryxx_boule_protocol.Remote.Receipted.{Ordered, Carries, receipt_value}
use daryxx_boule_protocol.Workspace.State.{Config}
use daryxx_boule_protocol.Workspace.Clerk.Format.{stamp, event_id_of}
use daryxx_boule_protocol.Workspace.Clerk.Entries.{
  event_schema, core_fields, legacy_event_fields, remote_event_fields,
}
use daryxx_boule_protocol.Workspace.Clerk.Contents.{envelope_of}
use daryxx_boule_protocol.Workspace.Clerk.Append.{core_of, ordered_event}

module _ (sys : Platform) (config : Config) (key : String) where
  -- the parts of the event for an envelope with the digest d
  module _ (v : Envelope) (seq now : ℕ) (head : Option String) (d : String) where
    abbrev pub new_core : Dict Value
    new_core =
        core_of seq (event_id_of seq d) (stamp sys now) (Value.text v.kind) v.actor
          (Value.obj v.payload) head (Value.text v.request_id) (optional_text v.base)
          ("sha256:" +s d) v.signature

    abbrev pub new_hash : String
    new_hash = digest_object sys (object new_core)

    abbrev pub new_fields : Dict Value
    new_fields = new_core ++ ("event_hash", Value.text new_hash) ∷ []

    abbrev pub new_ordered : Ordered
    new_ordered = record {
      request_id = v.request_id;
      digest = "sha256:" +s d;
      seq = seq;
      event_id = event_id_of seq d;
      received_at = stamp sys now;
      prev = head;
      hash = new_hash;
    }

    abbrev pub new_receipt : Value
    new_receipt = receipt_value sys config.problem_id key new_ordered

    abbrev pub new_event : Value
    new_event = object (new_fields ++ ("clerk_receipt", new_receipt) ∷ [])

    pub new_fields-Carries : Carries (object new_fields) new_ordered
    unfolding member_of required lookup members of_members core_of
    new_fields-Carries = record {
      request_of = refl;
      digest_of = refl;
      seq_of = refl;
      id_of = refl;
      time_of = refl;
      prev_of = refl;
      hash_of = refl;
    }

    pub new_event-Carries : Carries new_event new_ordered
    unfolding member_of required lookup members of_members core_of
    new_event-Carries = record {
      request_of = refl;
      digest_of = refl;
      seq_of = refl;
      id_of = refl;
      time_of = refl;
      prev_of = refl;
      hash_of = refl;
    }

    -- the members that the receipt does not have
    pub record HasRest (e : Value) : Type 0 where
      pub schema_of : member_of e "schema" ≡ ok (Value.text event_schema)
      pub kind_of : member_of e "kind" ≡ ok (Value.text v.kind)
      pub actor_of : member_of e "actor" ≡ ok v.actor
      pub payload_of : member_of e "payload" ≡ ok (Value.obj v.payload)
      pub base_of : member_of e "base_event_hash" ≡ ok (optional_text v.base)
      pub signature_of : member_of e "envelope_signature" ≡ ok v.signature
      pub receipt_of : member_of e "clerk_receipt" ≡ ok new_receipt
      pub core_at : select e core_fields ≡ ok new_core
      pub is_remote : has_fields e remote_event_fields ≡ true
      pub not_legacy : has_fields e legacy_event_fields ≡ false

    pub new_event-HasRest : HasRest new_event
    unfolding member_of required lookup members of_members core_of select has_fields keys same_set
        subset contains
    new_event-HasRest = record {
      schema_of = refl;
      kind_of = refl;
      actor_of = refl;
      payload_of = refl;
      base_of = refl;
      signature_of = refl;
      receipt_of = refl;
      core_at = refl;
      is_remote = refl;
      not_legacy = refl;
    }

    pub envelope_of-new_event :
        envelope_of sys config new_event
        ≡ ok (envelope_value config.problem_id config.maintainer_key v)
    unfolding envelope_of
    envelope_of-new_event =
        let c = new_event-Carries in
        let r = new_event-HasRest in
        rw (c.request_of, r.base_of, r.kind_of, r.actor_of, r.payload_of, r.signature_of) refl

  pub ordered_event-Holds :
      (envelope : Value) (v : Envelope) (seq now : ℕ) (head : Option String)
      → Holds envelope config.problem_id config.maintainer_key v
      → ordered_event sys config seq (stamp sys now) head envelope
        ≡ ok (new_fields v seq now head (digest_object sys envelope))
  unfolding ordered_event envelope_digest prefixed_digest
  ordered_event-Holds envelope v seq now head h =
      rw (h.kind_of, h.actor_of, h.payload_of, h.request_of, h.base_of, h.signature_of) refl
