-- ===== src/Workspace/Clerk/Repeated.antt =====
-- `append_envelope` of src/boule/workspace.py on a request that the log has.
use mathlib.Core.Path.{subst}
use daryxx_boule_protocol.Prelude.{
  Bool, Bool-cases, inl, inr, [], ◌∷◌, ◌++◌, ℕ, ◌<◌, String, ◌≡◌, refl, sym, ap, ◌∙◌, true, false,
  Option, none, some, List, eq_refl, ◌==◌, length, find?,
}
use daryxx_boule_protocol.Python.{
  text_injective, request_conflict, ok, err, ok_injective, Value, is_text, is_text_refl,
}
use daryxx_boule_protocol.Crypto.{Platform, public_key_text, IsSound}
use daryxx_boule_protocol.Model.{as_text}
use daryxx_boule_protocol.Ledger.{member_of}
use daryxx_boule_protocol.Remote.{envelope_digest, verify_envelope}
use daryxx_boule_protocol.Workspace.State.{Config}
use daryxx_boule_protocol.Workspace.Log.{participant_events}
use daryxx_boule_protocol.Workspace.Clerk.Format.{IsStandard}
use daryxx_boule_protocol.Workspace.Clerk.Entries.{Logged}
use daryxx_boule_protocol.Workspace.Clerk.Append.{
  answers, unless, Appended, answer_again, order_envelope, append_envelope,
}
use daryxx_boule_protocol.Workspace.Clerk.Load.{load_events}
use daryxx_boule_protocol.Workspace.Clerk.Opened.{append_envelope-IsOpened}
use daryxx_boule_protocol.Workspace.Clerk.Keeping.{append_envelope-IsKept}

module _ (sys : Platform) (config : Config) where
  -- A verified envelope on an accepted log, and the event of the log that answers its request, if
  -- there is one.
  record IsRepeated (envelope : Value) (key : String) (files receipts : List Value)
      (previous : Option Value) : Type 0 where
    pub right_key : public_key_text sys key ≡ config.maintainer_key
    pub out : Value
    pub verified :
        verify_envelope sys envelope config.problem_id config.maintainer_key participant_events
        ≡ ok out
    pub events : List Logged
    pub loaded : load_events sys config files receipts ≡ ok events
    pub request_id : String
    pub request_of : member_of envelope "request_id" ≡ ok (Value.text request_id)
    pub found : find? (answers request_id) files ≡ previous

  answer_again-receipt :
      (envelope : Value) (files : List Value) (previous receipt : Value)
      → member_of previous "envelope_digest" ≡ ok (Value.text (envelope_digest sys envelope))
      → member_of previous "clerk_receipt" ≡ ok receipt
      → answer_again sys config envelope files previous
        ≡ ok (record { created = false; event = previous; receipt = receipt; events = files })
  unfolding answer_again unless
  answer_again-receipt envelope files previous receipt d r =
      rw (d, is_text_refl (envelope_digest sys envelope), r) refl

  append_envelope-IsRepeated :
      (envelope : Value) (key : String) (observed : ℕ) (files receipts : List Value)
      (found : Option Value)
      → IsRepeated envelope key files receipts found
      → (events : List Logged) × (load_events sys config files receipts ≡ ok events)
        × (append_envelope sys config
              (some envelope)
              key
              (record { instant = observed; aware = true })
              files
              receipts
            ≡ elim found [
              | some e ↦ answer_again sys config envelope files e
              | none ↦ order_envelope sys config key observed envelope files events
            ])
  unfolding append_envelope as_text
  append_envelope-IsRepeated envelope key observed files receipts found r =
      let right : (public_key_text sys key == config.maintainer_key) ≡ true =
        rw r.right_key (eq_refl config.maintainer_key) in
      (
        r.events,
        r.loaded,
        rw (right, r.verified, r.loaded, r.request_of)
            (ap
              (λ (o : Option Value). elim o [
                | some e ↦ answer_again sys config envelope files e
                | none ↦ order_envelope sys config key observed envelope files r.events
              ])
              r.found),
      )

  find?-extended :
      (p : Value → Bool) (xs ys : List Value) {y : Value}
      → find? p xs ≡ some y
      → find? p (xs ++ ys) ≡ some y
  find?-extended p [] ys h = cc
  find?-extended p (x ∷ xs) ys h = elim (Bool-cases (p x)) [
    | inl found ↦ rw found (rw (find?, found) at h)
    | inr other ↦ rw other (find?-extended p xs ys (rw (find?, other) at h))
  ]

  -- the call that ordered the envelope
  abbrev pub HasOrdered : Value → String → ℕ → List Value → List Value → Appended → Type 0
  HasOrdered envelope key observed files receipts a =
      append_envelope sys config (some envelope) key (record { instant = observed; aware = true })
        files receipts
      ≡ ok a

  -- On a log that has grown since an envelope was ordered, a verified envelope with its request id is
  -- answered from its event.
  append_envelope-reused :
      (sound : IsSound sys) (standard : IsStandard sys) (envelope other : Value) (key : String)
      (observed later : ℕ) (files receipts more later_receipts : List Value) (events : List Logged)
      (request_id : String) {out : Value} {a : Appended}
      → HasOrdered envelope key observed files receipts a
      → a.created ≡ true
      → length files < 100000000
      → load_events sys config (a.events ++ more) later_receipts ≡ ok events
      → member_of envelope "request_id" ≡ ok (Value.text request_id)
      → member_of other "request_id" ≡ ok (Value.text request_id)
      → verify_envelope sys other config.problem_id config.maintainer_key participant_events
        ≡ ok out
      → append_envelope sys config
          (some other)
          key
          (record { instant = later; aware = true })
          (a.events ++ more)
          later_receipts
        ≡ answer_again sys config other (a.events ++ more) a.event
  append_envelope-reused sound standard envelope other key observed later files receipts more
        later_receipts events request_id {out} {a} h created few loaded named other_named verified =
      let k =
        append_envelope-IsKept sys config sound standard envelope key observed files receipts h
          created few in
      let o =
        append_envelope-IsOpened sys config envelope key
          (record { instant = observed; aware = true }) files receipts h in
      let same : k.request_id ≡ request_id =
        text_injective (ok_injective (sym k.request_of ∙ named)) in
      let found = find?-extended (answers k.request_id) a.events more k.found in
      let (_, _, answered) =
        append_envelope-IsRepeated other key later (a.events ++ more) later_receipts (some a.event)
          (record {
            right_key = o.right_key;
            out = out;
            verified = verified;
            events = events;
            loaded = loaded;
            request_id = request_id;
            request_of = other_named;
            found = subst (λ r. find? (answers r) (a.events ++ more) ≡ some a.event) same found;
          }) in
      answered

  -- If the libraries keep their promises, then once an envelope was ordered on a log of fewer than a
  -- hundred million events, every envelope with its request id that verifies and has another digest is
  -- refused with a conflict, at any later time, on every accepted log that begins with the one that the
  -- first call left.
  pub append_envelope-conflict :
      (sound : IsSound sys) (standard : IsStandard sys) (envelope other : Value) (key : String)
      (observed later : ℕ) (files receipts more later_receipts : List Value) (events : List Logged)
      (request_id : String) {out : Value} {a : Appended}
      → HasOrdered envelope key observed files receipts a
      → a.created ≡ true
      → length files < 100000000
      → load_events sys config (a.events ++ more) later_receipts ≡ ok events
      → member_of envelope "request_id" ≡ ok (Value.text request_id)
      → member_of other "request_id" ≡ ok (Value.text request_id)
      → verify_envelope sys other config.problem_id config.maintainer_key participant_events
        ≡ ok out
      → (envelope_digest sys envelope == envelope_digest sys other) ≡ false
      → append_envelope sys config
          (some other)
          key
          (record { instant = later; aware = true })
          (a.events ++ more)
          later_receipts
        ≡ err (request_conflict "remote request id was reused with another envelope")
  unfolding answer_again unless is_text
  append_envelope-conflict sound standard envelope other key observed later files receipts more
        later_receipts events request_id h created few loaded named other_named verified differ =
      let k =
        append_envelope-IsKept sys config sound standard envelope key observed files receipts h
          created few in
      append_envelope-reused sound standard envelope other key observed later files receipts more
        later_receipts events request_id h created few loaded named other_named verified
      ∙ (rw (k.digest_of, differ) refl)

  -- If the libraries keep their promises, an envelope that was ordered on a log of fewer than a hundred
  -- million events can be sent again at any later time, on every accepted log that begins with the one
  -- that the first call left, whatever events follow there: `append_envelope` then changes nothing, and
  -- returns the event and the receipt of the first time.
  pub append_envelope-again :
      (sound : IsSound sys) (standard : IsStandard sys) (envelope : Value) (key : String)
      (observed later : ℕ) (files receipts more later_receipts : List Value) (events : List Logged)
      {a : Appended}
      → HasOrdered envelope key observed files receipts a
      → a.created ≡ true
      → length files < 100000000
      → load_events sys config (a.events ++ more) later_receipts ≡ ok events
      → append_envelope sys config
          (some envelope)
          key
          (record { instant = later; aware = true })
          (a.events ++ more)
          later_receipts
        ≡ ok (record {
          created = false;
          event = a.event;
          receipt = a.receipt;
          events = a.events ++ more;
        })
  append_envelope-again sound standard envelope key observed later files receipts more
        later_receipts events {a} h created few loaded =
      let k =
        append_envelope-IsKept sys config sound standard envelope key observed files receipts h
          created few in
      let o =
        append_envelope-IsOpened sys config envelope key
          (record { instant = observed; aware = true }) files receipts h in
      append_envelope-reused sound standard envelope envelope key observed later files receipts more
        later_receipts events k.request_id h created few loaded k.request_of k.request_of o.verified
      ∙ answer_again-receipt envelope (a.events ++ more) a.event a.receipt k.digest_of k.receipt_of
