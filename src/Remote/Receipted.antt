-- ===== src/Remote/Receipted.antt =====
-- Receipts of src/boule/remote_protocol.py: what the clerk signs, the participant accepts.
use daryxx_boule_protocol.Prelude.{ℕ, ◌+◌, String, ◌≡◌, refl, true, Option, some, arith}
use daryxx_boule_protocol.Python.{
  ok, contains, subset, same_set, lookup, keys, ℤ, Value, members, is_text, is_text_refl,
  optional_text, of_members,
}
use daryxx_boule_protocol.Crypto.{Platform, public_key_text, IsSound, verify_object-sign_object}
use daryxx_boule_protocol.Ledger.{member_of, is_named, has_fields}
use daryxx_boule_protocol.Remote.Checks.{
  canonical_uuid, event_hash, present_hash, sha256_digest, natural, signed, checked_utc_time,
}
use daryxx_boule_protocol.Remote.Envelopes.{envelope_digest}
use daryxx_boule_protocol.Remote.Receipts.{
  receipt_schema, receipt_domain, receipt_fields, receipt_unsigned, sequence, is_sequence,
  receipt_of, build_receipt, expects_request, expects_envelope, verify_receipt,
}
use daryxx_boule_protocol.Remote.Signed.{member_of-signed, signature-signed, unsigned_of-signed}

-- The values that a receipt takes from its event.
pub record Ordered : Type 0 where
  pub request_id : String
  pub digest : String
  pub seq : ℕ
  pub event_id : String
  pub received_at : String
  pub prev : Option String
  pub hash : String

pub record Carries (event : Value) (v : Ordered) : Type 0 where
  pub request_of : member_of event "request_id" ≡ ok (Value.text v.request_id)
  pub digest_of : member_of event "envelope_digest" ≡ ok (Value.text v.digest)
  pub seq_of : member_of event "seq" ≡ ok (Value.int (ℤ.pos v.seq))
  pub id_of : member_of event "event_id" ≡ ok (Value.text v.event_id)
  pub time_of : member_of event "received_at" ≡ ok (Value.text v.received_at)
  pub prev_of : member_of event "prev_event_hash" ≡ ok (optional_text v.prev)
  pub hash_of : member_of event "event_hash" ≡ ok (Value.text v.hash)

-- What holds of them, where the event orders an envelope.
pub record IsOrdered (sys : Platform) (envelope : Value) (v : Ordered) : Type 0 where
  pub is_uuid : canonical_uuid (Value.text v.request_id) "receipt.request_id" ≡ ok v.request_id
  pub binds : v.digest ≡ envelope_digest sys envelope
  pub is_digest : sha256_digest (Value.text v.digest) "receipt.envelope_digest" ≡ ok v.digest
  pub named : is_named (Value.text v.event_id) ≡ true
  pub timed :
      checked_utc_time sys (Value.text v.received_at) "receipt.received_at" ≡ ok v.received_at
  pub is_hash : event_hash (optional_text v.prev) "receipt.prev_event_hash" ≡ ok v.prev
  pub is_present : present_hash (Value.text v.hash) "receipt.event_hash" ≡ ok v.hash

sequence_next : (n : ℕ) → is_sequence (Value.int (ℤ.pos n)) (Value.int (ℤ.pos (n + 1))) ≡ true
unfolding is_sequence natural
sequence_next n = ground arith

module _ (sys : Platform) (problem_id key : String) where
  abbrev pub receipt_value : Ordered → Value
  receipt_value v = signed sys receipt_domain key (
      receipt_of problem_id (public_key_text sys key) v.seq (Value.text v.request_id)
        (Value.text v.digest) (Value.text v.event_id) (Value.text v.received_at)
        (optional_text v.prev) (Value.text v.hash))

  pub build_receipt-Carries :
      (event : Value) (v : Ordered)
      → Carries event v
      → build_receipt sys event problem_id key ≡ ok (receipt_value v)
  unfolding build_receipt sequence natural
  build_receipt-Carries event v c =
      rw (c.request_of, c.digest_of, c.seq_of, c.id_of, c.time_of, c.prev_of, c.hash_of) refl

  module _ (v : Ordered) where
    member_of-receipt :
        (k : String) {w : Value}
        → lookup k (
            receipt_of problem_id
              (public_key_text sys key)
              v.seq
              (Value.text v.request_id)
              (Value.text v.digest)
              (Value.text v.event_id)
              (Value.text v.received_at)
              (optional_text v.prev)
              (Value.text v.hash))
          ≡ some w
        → member_of (receipt_value v) k ≡ ok w
    member_of-receipt k h = member_of-signed sys receipt_domain key _ k h

    -- A receipt has the values of its event.
    pub receipt_value-Carries : Carries (receipt_value v) v
    unfolding receipt_of lookup
    receipt_value-Carries = record {
      request_of = member_of-receipt "request_id" refl;
      digest_of = member_of-receipt "envelope_digest" refl;
      seq_of = member_of-receipt "seq" refl;
      id_of = member_of-receipt "event_id" refl;
      time_of = member_of-receipt "received_at" refl;
      prev_of = member_of-receipt "prev_event_hash" refl;
      hash_of = member_of-receipt "event_hash" refl;
    }

    has_fields-receipt : has_fields (receipt_value v) receipt_fields ≡ true
    unfolding has_fields signed receipt_of members of_members keys same_set subset contains
    has_fields-receipt = refl

    -- The participant accepts the receipt, under the clerk's key, for the request and the envelope.
    pub verify_receipt-receipt_value :
        (sound : IsSound sys) (envelope : Value)
        → IsOrdered sys envelope v
        → verify_receipt sys
            (receipt_value v)
            problem_id
            (public_key_text sys key)
            (some v.request_id)
            (some envelope)
          ≡ ok (receipt_value v)
    unfolding verify_receipt receipt_unsigned expects_request expects_envelope receipt_of lookup
    verify_receipt-receipt_value sound envelope o =
        let c = receipt_value-Carries in
        rw
          (
            has_fields-receipt,
            member_of-receipt "schema" refl,
            is_text_refl receipt_schema,
            c.request_of,
            o.is_uuid,
            is_text_refl v.request_id,
            member_of-receipt "problem_id" refl,
            member_of-receipt "clerk_key" refl,
            is_text_refl problem_id,
            is_text_refl (public_key_text sys key),
            c.digest_of,
            bound envelope o.binds,
            c.seq_of,
            member_of-receipt "event_count" refl,
            sequence_next v.seq,
            c.prev_of,
            o.is_hash,
            c.hash_of,
            o.is_present,
            c.id_of,
            o.named,
            c.time_of,
            o.timed,
            o.is_digest,
            unsigned_of-signed sys receipt_domain key _,
            signature-signed sys receipt_domain key _ refl,
            verify_object-sign_object sys sound key _,
          )
          refl
      where
        bound :
            (envelope : Value)
            → v.digest ≡ envelope_digest sys envelope
            → is_text (Value.text v.digest) (envelope_digest sys envelope) ≡ true
        bound envelope same = rw same (is_text_refl (envelope_digest sys envelope))
