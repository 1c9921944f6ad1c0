-- ===== src/Ledger/Chain.antt =====
-- `create`, `append` and `_rollback_last` of `Ledger` (src/boule/ledger.py). The ledger is the
-- list of its entries.
use daryxx_boule_protocol.Prelude.{
  ℕ, String, Bool, false, not, Option, none, some, List, [], ◌∷◌, ◌++◌, ltb, length, last?,
}
use daryxx_boule_protocol.Python.{
  protocol, Result, ok, err, ◌>>=◌, ◌>>◌, raise_if, ℤ, Value, object, is_text,
}
use daryxx_boule_protocol.Crypto.{Platform, digest_object, public_key_text, sign_object}
use daryxx_boule_protocol.Model.{parse_time}
use daryxx_boule_protocol.Ledger.Events.{entry_body, receipt_body, member_of, signed_event}

abbrev pub moved_back : Option ℕ → ℕ → Bool
moved_back none received = false
moved_back (some previous) received = ltb received previous

module _ (sys : Platform) where
  -- `Ledger.clerk_key`
  unfoldable pub clerk_key : List Value → Result Value
  clerk_key [] = err (protocol "empty ledger has no clerk")
  clerk_key (first ∷ entries) = do
    event ← member_of first "event"
    payload ← member_of event "payload"
    member_of payload "clerk_key"

  -- the time and the hash of the last entry, as `_append_event` reads them
  unfoldable pub last_received : List Value → Result (Option ℕ)
  last_received entries = elim (last? entries) [
    | none ↦ ok none
    | some entry ↦ do
      received_at ← member_of entry "received_at"
      received ← parse_time sys received_at "previous entry.received_at"
      ok (some received)
  ]

  unfoldable pub last_hash : List Value → Result Value
  last_hash entries = elim (last? entries) [
    | none ↦ ok Value.null
    | some entry ↦ member_of entry "entry_hash"
  ]

  -- the entry that `_append_event` builds
  unfoldable pub sealed_entry : ℕ → String → Value → Value → String → Value
  unfolding entry_body
  sealed_entry seq received_at prev_hash event clerk_private_key =
      let body = entry_body (Value.int (ℤ.pos seq)) (Value.text received_at) prev_hash event in
      let entry_hash = digest_object sys (object body) in
      object (
        body
        ++ ("entry_hash", Value.text entry_hash)
          ∷ (
            "clerk_signature",
            Value.text (sign_object sys clerk_private_key (receipt_body entry_hash)),
          )
          ∷ [])

  -- `_append_event`: the entries with the new one behind them, and the new one
  unfoldable pub append_event : List Value → Value → String → String → Result (List Value × Value)
  unfolding last_received last_hash
  append_event entries event clerk_private_key received_at = do
    received ← parse_time sys (Value.text received_at) "entry.received_at"
    previous ← last_received entries
    raise_if (moved_back previous received) "ledger receipt times must be monotonic"
    prev_hash ← last_hash entries
    let entry = sealed_entry (length entries) received_at prev_hash event clerk_private_key
    ok (entries ++ entry ∷ [], entry)

  -- `Ledger.create`
  unfoldable pub create : Value → Value → String → String → Result (List Value)
  create case reviewers clerk_private_key received_at = do
    let clerk = Value.text (public_key_text sys clerk_private_key)
    event ←
        signed_event sys "case_opened"
          (object (("clerk_key", clerk) ∷ ("case", case) ∷ ("reviewers", reviewers) ∷ []))
          clerk_private_key
    (entries, entry) ← append_event [] event clerk_private_key received_at
    ok entries

  -- `Ledger.append`
  unfoldable pub append :
      List Value → String → Value → String → String → String → Result (List Value × Value)
  append entries kind payload actor_private_key clerk_private_key received_at = do
    clerk ← clerk_key entries
    raise_if (not (is_text clerk (public_key_text sys clerk_private_key))) "wrong clerk key"
    event ← signed_event sys kind payload actor_private_key
    append_event entries event clerk_private_key received_at

-- `_rollback_last`
unfoldable pub rollback_last : List Value → List Value
rollback_last [] = []
rollback_last (x ∷ []) = []
rollback_last (x ∷ y ∷ xs) = x ∷ rollback_last (y ∷ xs)
