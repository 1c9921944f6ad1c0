-- ===== src/Workspace/Clerk/Load.antt =====
-- `_verify_receipt`, `_guard_receipts` and `_events` of src/boule/workspace.py. The directory of events
-- is the list of what its files hold, in order, and that of the receipts likewise.
use daryxx_boule_protocol.Prelude.{
  ℕ, zero, suc, String, Bool, true, false, not, ◌&&◌, Option, none, some, List, [], ◌∷◌, ◌++◌, ltb,
  length, get_elem?, all,
}
use daryxx_boule_protocol.Python.{
  is_sha256, codes, protocol, Result, ok, err, ◌>>=◌, ◌>>◌, raise_if, ℤ, Value, object,
  is_optional_text, codes, ◌+s◌,
}
use daryxx_boule_protocol.Crypto.{Platform, verify_object}
use daryxx_boule_protocol.Ledger.{member_of, is_object, has_fields}
use daryxx_boule_protocol.Remote.{select, natural}
use daryxx_boule_protocol.Workspace.Fields.{utc_time}
use daryxx_boule_protocol.Workspace.State.{Config, Event}
use daryxx_boule_protocol.Workspace.Log.{validate_events}
use daryxx_boule_protocol.Workspace.Clerk.Format.{decimal}
use daryxx_boule_protocol.Workspace.Clerk.Entries.{Logged, walk_start}
use daryxx_boule_protocol.Workspace.Clerk.Contents.{read_events}

-- `f"{value}"` of a value of which 64 hex digits are wanted: only a text and a number have them
unfoldable pub formatted : Value → String
formatted (Value.text s) = s
formatted (Value.int (ℤ.pos n)) = decimal n
formatted _ = ""

abbrev pub unsigned_receipt_fields : List String
unsigned_receipt_fields = "at" ∷ "head_event_hash" ∷ "event_count" ∷ "status_digest" ∷ []

unfoldable pub is_null : Value → Bool
is_null Value.null = true
is_null _ = false

-- the event before a position
unfoldable pub logged_before : ℕ → List Logged → Option Logged
logged_before zero events = none
logged_before (suc n) events = get_elem? events n

unfoldable pub hash_of : Option Logged → Option String
hash_of none = none
hash_of (some l) = some l.hash

unfoldable pub events_of : List Logged → List Event
events_of [] = []
events_of (l ∷ events) = l.event ∷ events_of events

module _ (sys : Platform) (config : Config) where
  -- `_verify_receipt`: the time, the count and the head
  unfoldable pub verify_maintainer_receipt : Value → Result (ℕ × ℕ × Value)
  unfolding is_null formatted
  verify_maintainer_receipt r = do
    raise_if (not (has_fields r (unsigned_receipt_fields ++ "signature" ∷ [])))
        "maintainer receipt has invalid fields"
    at ← utc_time sys (← member_of r "at")
    event_count ← member_of r "event_count"
    count ← elim (natural event_count) [
      | some n ↦ ok n
      | none ↦ err (protocol "maintainer receipt event count is invalid")
    ]
    head ← member_of r "head_event_hash"
    raise_if (not (is_null head) && not (is_sha256 (codes ("sha256:" +s formatted head))))
        "maintainer head event hash must be a lowercase sha256 digest"
    status ← member_of r "status_digest"
    raise_if (not (is_sha256 (codes ("sha256:" +s formatted status))))
        "maintainer status digest must be a lowercase sha256 digest"
    fields ← select r unsigned_receipt_fields
    signature ← member_of r "signature"
    verify_object sys (Value.text config.maintainer_key) (object fields) signature
    ok (at, count, head)

  -- one receipt of `_guard_receipts`
  unfoldable pub guard_receipt : List Logged → Value → Result (Unit {0})
  unfolding hash_of logged_before
  guard_receipt events r = do
    (at, count, head) ← verify_maintainer_receipt r
    raise_if (ltb (length events) count) "event log was truncated after a maintainer receipt"
    raise_if (not (is_optional_text head (hash_of (logged_before count events))))
        "maintainer receipt does not match its exact event prefix"
    raise_if
        (elim (logged_before count events) [ some l ↦ ltb at l.event.received_at | none ↦ false ])
        "maintainer receipt predates its event prefix"

  -- `_guard_receipts`, over the receipts that the paths hold
  unfoldable pub guard_receipts : List Logged → List Value → Result (Unit {0})
  unfolding guard_receipt
  guard_receipts events [] = ok tt
  guard_receipts events (r ∷ receipts) = guard_receipt events r >> guard_receipts events receipts

  -- `_events`, over the values that the event files and the receipts hold
  unfoldable pub load_events : List Value → List Value → Result (List Logged)
  unfolding events_of
  load_events files receipts = do
    raise_if (not (all is_object files)) "invalid event object {p.name}"
    (walk, events) ← read_events sys config walk_start files
    validated ← validate_events sys config [] (events_of events)
    guard_receipts events receipts
    ok events
