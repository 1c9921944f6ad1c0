-- ===== src/Ledger/Verify.antt =====
-- `Ledger.verify` of src/boule/ledger.py.
use daryxx_boule_protocol.Prelude.{ℕ, ◌+◌, String, not, Option, none, some, List, [], ◌∷◌}
use daryxx_boule_protocol.Python.{
  protocol, Result, ok, err, ◌>>=◌, ◌>>◌, raise_if, Value, object, is_text, is_number, same_value,
  is_optional_text,
}
use daryxx_boule_protocol.Crypto.{Platform, digest_object, verify_object}
use daryxx_boule_protocol.Model.{parse_time}
use daryxx_boule_protocol.Ledger.Events.{
  entry_fields, entry_body, receipt_body, member_of, get_of, has_fields, verify_event,
}
use daryxx_boule_protocol.Ledger.Chain.{moved_back}

-- where the loop of `verify` stands: `expected_seq`, `previous`, `previous_received_at`
pub record Cursor : Type 0 where
  pub expected_seq : ℕ
  pub previous : Option String
  pub previous_received_at : Option ℕ

abbrev pub genesis : Cursor
genesis = record { expected_seq = 0; previous = none; previous_received_at = none }

module _ (sys : Platform) where
  -- one round of the loop
  unfoldable pub verify_entry : Value → Cursor → Value → Result Cursor
  verify_entry clerk cursor entry = do
    raise_if (not (has_fields entry entry_fields)) "ledger entry {expected_seq} has invalid fields"
    seq ← member_of entry "seq"
    raise_if (not (is_number seq cursor.expected_seq)) "ledger sequence mismatch at {expected_seq}"
    received ← member_of entry "received_at"
    received_at ← parse_time sys received "entry[{expected_seq}].received_at"
    raise_if (moved_back cursor.previous_received_at received_at)
        "ledger receipt time moved backwards at {expected_seq}"
    prev_hash ← member_of entry "prev_hash"
    raise_if (not (is_optional_text prev_hash cursor.previous))
        "ledger previous hash mismatch at {expected_seq}"
    event ← member_of entry "event"
    verify_event sys event
    let expected_hash = digest_object sys (object (entry_body seq received prev_hash event))
    entry_hash ← member_of entry "entry_hash"
    raise_if (not (is_text entry_hash expected_hash)) "ledger entry hash mismatch at {expected_seq}"
    signature ← member_of entry "clerk_signature"
    verify_object sys clerk (receipt_body expected_hash) signature
    ok (record {
      expected_seq = cursor.expected_seq + 1;
      previous = some expected_hash;
      previous_received_at = some received_at;
    })

  unfoldable pub verify_entries : Value → Cursor → List Value → Result Cursor
  verify_entries clerk cursor [] = ok cursor
  verify_entries clerk cursor (entry ∷ entries) = do
    next ← verify_entry clerk cursor entry
    verify_entries clerk next entries

  -- the tests of the first entry, which give the clerk's key
  unfoldable pub verify_genesis : Value → Result Value
  verify_genesis first = do
    raise_if (not (has_fields first entry_fields)) "genesis entry has invalid fields"
    event ← member_of first "event"
    kind ← get_of event "kind"
    raise_if (not (is_text kind "case_opened")) "first event must open the case"
    payload ← get_of event "payload"
    raise_if (not (has_fields payload ("clerk_key" ∷ "case" ∷ "reviewers" ∷ [])))
        "case_opened payload has invalid fields"
    clerk ← member_of payload "clerk_key"
    actor ← get_of event "actor"
    raise_if (not (same_value actor clerk)) "genesis event must be signed by the clerk"
    ok clerk

  -- `Ledger.verify`; the source returns nothing, this gives where the loop ended
  unfoldable pub verify : List Value → Result Cursor
  verify [] = err (protocol "ledger is empty")
  verify (first ∷ entries) = do
    clerk ← verify_genesis first
    verify_entries clerk genesis (first ∷ entries)
