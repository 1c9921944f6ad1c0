-- ===== src/Ledger/Events.antt =====
-- Signed events, and the parts of a ledger entry (src/boule/ledger.py).
use daryxx_boule_protocol.Prelude.{String, Bool, true, false, not, none, some, List, [], ◌∷◌, ◌==◌}
use daryxx_boule_protocol.Python.{
  crash, Result, ok, err, ◌>>=◌, ◌>>◌, raise_if, Dict, same_set, lookup, keys, Value, members,
  object,
}
use daryxx_boule_protocol.Crypto.{Platform, public_key_text, sign_object, verify_object}
use daryxx_boule_protocol.Model.{required}

abbrev pub event_fields : List String
event_fields = "kind" ∷ "actor" ∷ "payload" ∷ "signature" ∷ []

abbrev pub entry_fields : List String
entry_fields = "seq" ∷ "received_at" ∷ "prev_hash" ∷ "event" ∷ "entry_hash" ∷ "clerk_signature" ∷ []

-- `_event_body`
unfoldable pub event_body : Value → Value → Value → Value
event_body kind actor payload = object (
    ("domain", Value.text "boule-event-v1")
    ∷ ("kind", kind)
    ∷ ("actor", actor)
    ∷ ("payload", payload)
    ∷ [])

-- `_entry_body`
unfoldable pub entry_body : Value → Value → Value → Value → Dict Value
entry_body seq received_at prev_hash event =
    ("seq", seq) ∷ ("received_at", received_at) ∷ ("prev_hash", prev_hash) ∷ ("event", event) ∷ []

abbrev pub receipt_body : String → Value
receipt_body entry_hash =
    object
      (("domain", Value.text "boule-clerk-receipt-v1") ∷ ("entry_hash", Value.text entry_hash) ∷ [])

-- `value["key"]` and `value.get("key")` of what should be an object
unfoldable pub member_of : Value → String → Result Value
member_of (Value.obj ms) key = required (members ms) key
member_of _ key = err crash

unfoldable pub get_of : Value → String → Result Value
get_of (Value.obj ms) key = elim (lookup key (members ms)) [ some v ↦ ok v | none ↦ ok Value.null ]
get_of _ key = err crash

unfoldable pub is_object : Value → Bool
is_object (Value.obj _) = true
is_object _ = false

-- `isinstance(value, dict) and set(value) == fields`
unfoldable pub has_fields : Value → List String → Bool
has_fields (Value.obj ms) fields = same_set (keys (members ms)) fields
has_fields _ fields = false

-- a non-empty `str`
unfoldable pub is_named : Value → Bool
is_named (Value.text s) = not (s == "")
is_named _ = false

module _ (sys : Platform) where
  unfoldable pub signed_event : String → Value → String → Result Value
  unfolding event_body
  signed_event kind payload private_key = do
    raise_if (kind == "") "event kind must be non-empty text"
    raise_if (not (is_object payload)) "event payload must be an object"
    let actor = Value.text (public_key_text sys private_key)
    let body = event_body (Value.text kind) actor payload
    ok (
        object (
          ("kind", Value.text kind)
          ∷ ("actor", actor)
          ∷ ("payload", payload)
          ∷ ("signature", Value.text (sign_object sys private_key body))
          ∷ []))

  unfoldable pub verify_event : Value → Result (Unit {0})
  unfolding event_body
  verify_event event = do
    raise_if (not (has_fields event event_fields)) "signed event has invalid fields"
    kind ← member_of event "kind"
    raise_if (not (is_named kind)) "event kind must be non-empty text"
    payload ← member_of event "payload"
    raise_if (not (is_object payload)) "event payload must be an object"
    actor ← member_of event "actor"
    signature ← member_of event "signature"
    verify_object sys actor (event_body kind actor payload) signature
