-- ===== src/Workspace/Clerk/Fetching.antt =====
-- `remote_receipt` of src/boule/workspace.py, for a request that `append_envelope` has ordered.
use daryxx_boule_protocol.Prelude.{
  ℕ, ◌<◌, String, ◌≡◌, refl, sym, ◌∙◌, true, some, List, eq_refl, ◌==◌, length, find?,
}
use daryxx_boule_protocol.Python.{text_injective, ok, ok_injective, Value}
use daryxx_boule_protocol.Crypto.{Platform, public_key_text, IsSound}
use daryxx_boule_protocol.Ledger.{member_of}
use daryxx_boule_protocol.Remote.{verify_receipt}
use daryxx_boule_protocol.Workspace.State.{Config}
use daryxx_boule_protocol.Workspace.Clerk.Format.{IsStandard}
use daryxx_boule_protocol.Workspace.Clerk.Entries.{Logged}
use daryxx_boule_protocol.Workspace.Clerk.Append.{
  answers, Appended, append_envelope, remote_receipt,
}
use daryxx_boule_protocol.Workspace.Clerk.Load.{load_events}
use daryxx_boule_protocol.Workspace.Clerk.Opened.{append_envelope-IsOpened}
use daryxx_boule_protocol.Workspace.Clerk.Keeping.{append_envelope-IsKept}

module _ (sys : Platform) (config : Config) where
  remote_receipt-found :
      (request_id key : String) (files receipts : List Value) (events : List Logged)
      (event receipt : Value)
      → public_key_text sys key ≡ config.maintainer_key
      → load_events sys config files receipts ≡ ok events
      → find? (answers request_id) files ≡ some event
      → member_of event "clerk_receipt" ≡ ok receipt
      → remote_receipt sys config request_id key files receipts ≡ ok (some receipt)
  unfolding remote_receipt
  remote_receipt-found request_id key files receipts events event receipt right_key loaded found
        there =
      let right : (public_key_text sys key == config.maintainer_key) ≡ true =
        rw right_key (eq_refl config.maintainer_key) in
      rw (right, loaded, found, there) refl

  -- If the libraries keep their promises, then after `append_envelope` has ordered a new envelope,
  -- `remote_receipt` gives for its request id the receipt that was returned, and the participant
  -- accepts it for the envelope and under the clerk's key.
  pub remote_receipt-append_envelope :
      (sound : IsSound sys) (standard : IsStandard sys) (envelope : Value) (key : String)
      (observed : ℕ) (files receipts : List Value) (request_id : String) {a : Appended}
      → append_envelope sys config
          (some envelope)
          key
          (record { instant = observed; aware = true })
          files
          receipts
        ≡ ok a
      → a.created ≡ true
      → length files < 100000000
      → member_of envelope "request_id" ≡ ok (Value.text request_id)
      → (remote_receipt sys config request_id key a.events receipts ≡ ok (some a.receipt))
        × (verify_receipt sys a.receipt config.problem_id config.maintainer_key
              (some request_id)
              (some envelope)
            ≡ ok a.receipt)
  remote_receipt-append_envelope sound standard envelope key observed files receipts request_id {a}
        h created few named =
      let k =
        append_envelope-IsKept sys config sound standard envelope key observed files receipts h
          created few in
      let o =
        append_envelope-IsOpened sys config envelope key
          (record { instant = observed; aware = true }) files receipts h in
      let same : request_id ≡ k.request_id =
        text_injective (ok_injective (sym named ∙ k.request_of)) in
      rw same (
        remote_receipt-found k.request_id key a.events receipts k.events a.event a.receipt
            o.right_key k.loaded k.found k.receipt_of,
        k.accepted,
      )
