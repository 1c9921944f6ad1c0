-- ===== src/Remote/Receipts.antt =====
-- Receipts of src/boule/remote_protocol.py: what the clerk signs for an event that it has ordered.
use daryxx_boule_protocol.Prelude.{
  ℕ, ◌+◌, String, Bool, true, false, not, ◌||◌, Option, none, some, List, [], ◌∷◌, eqb,
}
use daryxx_boule_protocol.Python.{
  Dict, Result, ok, ◌>>=◌, ◌>>◌, raise_if, or_crash, ℤ, Value, is_text,
}
use daryxx_boule_protocol.Crypto.{Platform, public_key_text, verify_object}
use daryxx_boule_protocol.Ledger.{member_of, has_fields, is_named, clerk_key}
use daryxx_boule_protocol.Remote.Checks.{
  canonical_uuid, event_hash, present_hash, sha256_digest, natural, unsigned_of, signed,
  checked_utc_time,
}
use daryxx_boule_protocol.Remote.Envelopes.{envelope_digest}

abbrev pub receipt_schema : String
receipt_schema = "boule-workspace-clerk-receipt/0.5"

abbrev pub receipt_domain : String
receipt_domain = "boule-workspace-clerk-receipt-v0.5"

abbrev pub receipt_fields : List String
receipt_fields =
    "schema" ∷ "request_id" ∷ "problem_id" ∷ "clerk_key" ∷ "envelope_digest" ∷ "seq" ∷ "event_id"
    ∷ "received_at" ∷ "prev_event_hash" ∷ "event_hash" ∷ "event_count" ∷ "signature" ∷ []

unfoldable pub receipt_unsigned : Value → Result Value
receipt_unsigned receipt = unsigned_of receipt_domain receipt

-- `event["seq"]`, which is an `int` wherever a receipt is built
unfoldable pub sequence : Value → Result ℕ
sequence v = or_crash (natural v)

-- `event_count != seq + 1` and the checks around it
unfoldable pub is_sequence : Value → Value → Bool
is_sequence seq event_count = elim (natural seq) [
  | none ↦ false
  | some n ↦ elim (natural event_count) [ some m ↦ eqb m (n + 1) | none ↦ false ]
]

-- `receipt` of `build_receipt`
unfoldable pub receipt_of :
    String → String → ℕ → Value → Value → Value → Value → Value → Value → Dict Value
receipt_of problem_id clerk_key seq request_id digest event_id received_at prev hash =
    ("schema", Value.text receipt_schema)
    ∷ ("request_id", request_id)
    ∷ ("problem_id", Value.text problem_id)
    ∷ ("clerk_key", Value.text clerk_key)
    ∷ ("envelope_digest", digest)
    ∷ ("seq", Value.int (ℤ.pos seq))
    ∷ ("event_id", event_id)
    ∷ ("received_at", received_at)
    ∷ ("prev_event_hash", prev)
    ∷ ("event_hash", hash)
    ∷ ("event_count", Value.int (ℤ.pos (seq + 1)))
    ∷ []

module _ (sys : Platform) where
  unfoldable pub build_receipt : Value → String → String → Result Value
  unfolding receipt_of
  build_receipt event problem_id clerk_private_key = do
    request_id ← member_of event "request_id"
    envelope ← member_of event "envelope_digest"
    seq ← sequence (← member_of event "seq")
    event_id ← member_of event "event_id"
    received_at ← member_of event "received_at"
    prev ← member_of event "prev_event_hash"
    hash ← member_of event "event_hash"
    let clerk_key = public_key_text sys clerk_private_key
    ok (
        signed sys receipt_domain clerk_private_key
          (receipt_of problem_id clerk_key seq request_id envelope event_id received_at prev hash))

  -- the values of a receipt that the caller expects, where it names them
  unfoldable pub expects_request : Value → Option String → Bool
  expects_request request none = true
  expects_request request (some expected) = is_text request expected

  unfoldable pub expects_envelope : Value → Option Value → Bool
  expects_envelope digest none = true
  expects_envelope digest (some envelope) = is_text digest (envelope_digest sys envelope)

  unfoldable pub verify_receipt :
      Value → String → String → Option String → Option Value → Result Value
  verify_receipt receipt problem_id clerk_key request_id envelope = do
    raise_if (not (has_fields receipt receipt_fields)) "remote clerk receipt has invalid fields"
    schema ← member_of receipt "schema"
    raise_if (not (is_text schema receipt_schema)) "remote clerk receipt schema is unsupported"
    request ← member_of receipt "request_id"
    canonical_uuid request "receipt.request_id"
    raise_if (not (expects_request request request_id)) "remote clerk receipt request id mismatch"
    problem ← member_of receipt "problem_id"
    clerk ← member_of receipt "clerk_key"
    raise_if (not (is_text problem problem_id) || not (is_text clerk clerk_key))
        "remote clerk receipt targets another problem or clerk"
    digest ← member_of receipt "envelope_digest"
    raise_if (not (expects_envelope digest envelope))
        "remote clerk receipt does not bind the signed envelope"
    seq ← member_of receipt "seq"
    event_count ← member_of receipt "event_count"
    raise_if (not (is_sequence seq event_count)) "remote clerk receipt sequence is invalid"
    prev ← member_of receipt "prev_event_hash"
    event_hash prev "receipt.prev_event_hash"
    hash ← member_of receipt "event_hash"
    present_hash hash "receipt.event_hash"
    event_id ← member_of receipt "event_id"
    raise_if (not (is_named event_id)) "remote clerk receipt event id is invalid"
    received_at ← member_of receipt "received_at"
    checked_utc_time sys received_at "receipt.received_at"
    sha256_digest digest "receipt.envelope_digest"
    body ← receipt_unsigned receipt
    signature ← member_of receipt "signature"
    verify_object sys (Value.text clerk_key) body signature
    ok receipt
