-- ===== src/Workspace/Clerk/Opened.antt =====
-- What `append_envelope` of src/boule/workspace.py has checked and built when it returns.
use mathlib.Core.Path.{subst}
use daryxx_boule_protocol.Prelude.{
  ℕ, String, ◌≡◌, refl, sym, ◌∙◌, Bool, true, false, not, Option, none, some, List, [], ◌∷◌, ◌++◌,
  arith, ◌==◌, length, find?, last?,
}
use daryxx_boule_protocol.Python.{
  Error, stale_head, ok, raise_if, >>=-eq-ok, ok_injective, raise_unless_same, Value, members,
  object, is_optional_text, optional_text,
}
use daryxx_boule_protocol.Crypto.{Moment, Platform, digest_object, public_key_text, load_public_key}
use daryxx_boule_protocol.Model.{as_text}
use daryxx_boule_protocol.Ledger.{member_of, moved_back}
use daryxx_boule_protocol.Remote.{verify_envelope}
use daryxx_boule_protocol.Remote.Agreed.{Envelope, Holds, IsAdmitted}
use daryxx_boule_protocol.Remote.Admitted.{IsSigned, verify_envelope-Holds}
use daryxx_boule_protocol.Remote.Receipted.{build_receipt-Carries}
use daryxx_boule_protocol.Workspace.State.{Config, State}
use daryxx_boule_protocol.Workspace.Expiry.{state_from}
use daryxx_boule_protocol.Workspace.Authorize.{authorize}
use daryxx_boule_protocol.Workspace.Log.{participant_events}
use daryxx_boule_protocol.Workspace.Clerk.Entries.{Logged, as_dict}
use daryxx_boule_protocol.Workspace.Clerk.Append.{
  answers, not_before, unless, Appended, answer_again, authorize_envelope, order_envelope,
  append_envelope,
}
use daryxx_boule_protocol.Workspace.Clerk.Load.{hash_of, events_of, load_events}
use daryxx_boule_protocol.Workspace.Clerk.Ordering.{
  new_ordered, new_fields, new_receipt, new_event, new_fields-Carries, ordered_event-Holds,
}

pub in_time :
    (observed : ℕ) (last : Option Logged) (at : Option ℕ)
    → at ≡ elim last [ some l ↦ some l.event.received_at | none ↦ none ]
    → moved_back at (not_before observed last) ≡ false
unfolding not_before
in_time observed none at e = rw e refl
in_time observed (some l) at e = ground arith

pub unless-eq-ok : (b : Bool) (e : Error) {u : Unit {0}} → unless b e ≡ ok u → b ≡ true
unfolding unless
unless-eq-ok true e h = refl
unless-eq-ok false e h = cc

pub load_public_key-text :
    (sys : Platform) (v : Value) {raw : List ℕ}
    → load_public_key sys v ≡ ok raw
    → (s : String) × (v ≡ Value.text s)
unfolding load_public_key
load_public_key-text sys (Value.text s) h = (s, refl)
load_public_key-text sys Value.null h = cc
load_public_key-text sys _ h = cc

module _ (sys : Platform) (config : Config) where
  pub authorize_envelope-eq-ok :
      (events : List Logged) (envelope : Value) (v : Envelope) (actor : String) (now : ℕ)
      → Holds envelope config.problem_id config.maintainer_key v
      → v.actor ≡ Value.text actor
      → authorize_envelope sys config events envelope now ≡ ok tt
      → (s : State) × (state_from config (events_of events) now ≡ ok s)
        × (authorize sys config v.kind (members v.payload) actor s now true ≡ ok tt)
  unfolding authorize_envelope as_text as_dict
  authorize_envelope-eq-ok events envelope v actor now h a p =
      let (s, projected, p1) = >>=-eq-ok (state_from config (events_of events) now) _ p in
      (s, projected, rw (h.kind_of, h.payload_of, h.actor_of, a) at p1)

  -- What `append_envelope` has done for a new request.
  pub order_envelope-eq-ok :
      (key : String) (observed : ℕ) (envelope : Value) (v : Envelope) (files : List Value)
      (events : List Logged) {a : Appended}
      → Holds envelope config.problem_id config.maintainer_key v
      → order_envelope sys config key observed envelope files events ≡ ok a
      → let now = not_before observed (last? events) in
        let head = hash_of (last? events) in
        let d = digest_object sys envelope in
        (is_optional_text (optional_text v.base) head ≡ true)
        × (authorize_envelope sys config events envelope now ≡ ok tt)
        × (a ≡ record {
          created = true;
          event = new_event sys config key v (length events) now head d;
          receipt = new_receipt sys config key v (length events) now head d;
          events = files ++ new_event sys config key v (length events) now head d ∷ [];
        })
  unfolding order_envelope
  order_envelope-eq-ok key observed envelope v files events {a} h p =
      let now = not_before observed (last? events) in
      let head = hash_of (last? events) in
      let d = digest_object sys envelope in
      let (base, base_of, p1) = >>=-eq-ok (member_of envelope "base_event_hash") _ p in
      let (_, based, p2) =
        >>=-eq-ok (unless (is_optional_text base head) (stale_head head (length events))) _ p1 in
      let (_, authorized, p3) =
        >>=-eq-ok (authorize_envelope sys config events envelope now) _ p2 in
      let result = ok_injective (
        rw
          (
            ordered_event-Holds sys config key envelope v (length events) now head h,
            build_receipt-Carries sys config.problem_id key
                (object (new_fields sys config key v (length events) now head d))
                (new_ordered sys config key v (length events) now head d)
                (new_fields-Carries sys config key v (length events) now head d),
          )
          at p3) in
      (
        subst (λ w. is_optional_text w head ≡ true) (ok_injective (sym base_of ∙ h.base_of))
            (unless-eq-ok _ _ based),
        authorized,
        sym result,
      )

  -- What `append_envelope` has checked before it looks for the request.
  pub record IsOpened (envelope : Value) (key : String) (observed : Moment)
      (files receipts : List Value) (a : Appended) : Type 0 where
    pub right_key : public_key_text sys key ≡ config.maintainer_key
    pub out : Value
    pub verified :
        verify_envelope sys envelope config.problem_id config.maintainer_key participant_events
        ≡ ok out
    pub values : Envelope
    pub holds : Holds envelope config.problem_id config.maintainer_key values
    pub admitted : IsAdmitted sys config.problem_id participant_events values
    pub signed : IsSigned sys config.problem_id config.maintainer_key values
    pub events : List Logged
    pub loaded : load_events sys config files receipts ≡ ok events
    pub answered :
        elim (find? (answers values.request_id) files) [
          | some previous ↦ answer_again sys config envelope files previous
          | none ↦ order_envelope sys config key observed.instant envelope files events
        ]
        ≡ ok a

  pub append_envelope-IsOpened :
      (envelope : Value) (key : String) (observed : Moment) (files receipts : List Value)
      {a : Appended}
      → append_envelope sys config (some envelope) key observed files receipts ≡ ok a
      → IsOpened envelope key observed files receipts a
  unfolding append_envelope as_text
  append_envelope-IsOpened envelope key observed files receipts {a} h =
      let (_, right, h1) =
        >>=-eq-ok
          (raise_if (not (public_key_text sys key == config.maintainer_key)) "wrong maintainer key")
          _ h in
      let (out, verified, h2) =
        >>=-eq-ok
          (verify_envelope sys envelope config.problem_id config.maintainer_key participant_events)
          _ h1 in
      let (_, _, h3) =
        >>=-eq-ok
          (raise_if (not observed.aware) "workspace clock must return a timezone-aware datetime") _
          h2 in
      let (events, loaded, h4) = >>=-eq-ok (load_events sys config files receipts) _ h3 in
      let (v, holds, admitted, signed) =
        verify_envelope-Holds sys envelope config.problem_id config.maintainer_key
          participant_events verified in
      record {
        right_key = raise_unless_same _ _ "wrong maintainer key" right;
        out = out;
        verified = verified;
        values = v;
        holds = holds;
        admitted = admitted;
        signed = signed;
        events = events;
        loaded = loaded;
        answered = rw holds.request_of at h4;
      }
