-- ===== src/Workspace/Clerk/Answers.antt =====
-- The event that `append_envelope` of src/boule/workspace.py makes of a new envelope, as an answer that
-- is kept.
use mathlib.Core.Path.{subst}
use daryxx_boule_protocol.Prelude.{
  ℕ, String, ◌≡◌, refl, sym, ap, ◌∙◌, inl, inr, Bool, true, Option, none, some, List, [], ◌∷◌, ◌++◌,
  Bool-cases, find?,
}
use daryxx_boule_protocol.Python.{ok, Value, members, ◌+s◌}
use daryxx_boule_protocol.Crypto.{Platform, digest_object, public_key_text, IsSound}
use daryxx_boule_protocol.Ledger.{member_of, is_object}
use daryxx_boule_protocol.Remote.{envelope_digest, prefixed_digest, verify_receipt}
use daryxx_boule_protocol.Remote.Agreed.{Envelope, Holds, IsAdmitted}
use daryxx_boule_protocol.Remote.Admitted.{IsSigned}
use daryxx_boule_protocol.Remote.Building.{envelope_value}
use daryxx_boule_protocol.Remote.Receipted.{verify_receipt-receipt_value}
use daryxx_boule_protocol.Workspace.State.{Config, State}
use daryxx_boule_protocol.Workspace.Expiry.{state_from}
use daryxx_boule_protocol.Workspace.Authorize.{authorize}
use daryxx_boule_protocol.Workspace.Log.{participant_events, authorize_event}
use daryxx_boule_protocol.Workspace.Clerk.Format.{IsStandard}
use daryxx_boule_protocol.Workspace.Clerk.Entries.{Logged, Walk}
use daryxx_boule_protocol.Workspace.Clerk.Append.{answers, Appended}
use daryxx_boule_protocol.Workspace.Clerk.Load.{events_of, load_events}
use daryxx_boule_protocol.Workspace.Clerk.Requests.{answers_members}
use daryxx_boule_protocol.Workspace.Clerk.Ordering.{
  new_ordered, new_receipt, new_event, new_event-Carries, new_event-HasRest,
}
use daryxx_boule_protocol.Workspace.Clerk.Admitting.{new_ordered-IsOrdered}
use daryxx_boule_protocol.Workspace.Clerk.Ordered.{IsNext, logged, after, read_event-new_event}
use daryxx_boule_protocol.Workspace.Clerk.Loaded.{IsLoaded, IsLoaded-load_events, IsLoaded-append}

-- The answer to an envelope that was ordered.
pub record IsKept (sys : Platform) (config : Config) (receipts files : List Value)
    (envelope : Value) (a : Appended) : Type 0 where
  pub request_id : String
  pub events : List Logged
  pub request_of : member_of envelope "request_id" ≡ ok (Value.text request_id)
  pub extended : a.events ≡ files ++ a.event ∷ []
  pub loaded : load_events sys config a.events receipts ≡ ok events
  pub receipt_of : member_of a.event "clerk_receipt" ≡ ok a.receipt
  pub digest_of :
      member_of a.event "envelope_digest" ≡ ok (Value.text (envelope_digest sys envelope))
  pub accepted :
      verify_receipt sys a.receipt config.problem_id config.maintainer_key
        (some request_id)
        (some envelope)
      ≡ ok a.receipt
  pub found : find? (answers request_id) a.events ≡ some a.event

some-none : {A : Type 0} {x : A} → ¬ (some x ≡ none)
some-none h = cc

find?-append :
    {A : Type 0} (p : A → Bool) (xs : List A) (y : A)
    → find? p xs ≡ none
    → p y ≡ true
    → find? p (xs ++ y ∷ []) ≡ some y
find?-append p [] y h t = rw t refl
find?-append p (x ∷ xs) y h t = elim (Bool-cases (p x)) [
  | inl there ↦ absurd (some-none (rw (find?, there) at h))
  | inr away ↦ rw (find?, away) (find?-append p xs y (rw (find?, away) at h) t)
]

module _ (sys : Platform) (config : Config) where
  abbrev pub answer : String → List Value → Envelope → ℕ → ℕ → Option String → String → Appended
  answer key files v n now head d = record {
    created = true;
    event = new_event sys config key v n now head d;
    receipt = new_receipt sys config key v n now head d;
    events = files ++ new_event sys config key v n now head d ∷ [];
  }

  abbrev pub rebuilt : Envelope → Value
  rebuilt v = envelope_value config.problem_id config.maintainer_key v

  module _ (sound : IsSound sys) (standard : IsStandard sys) (envelope : Value) (key : String)
      (files receipts : List Value) where
    new_receipt_accepted :
        (right_key : public_key_text sys key ≡ config.maintainer_key) (v : Envelope) (n now : ℕ)
        (d : String)
        → IsAdmitted sys config.problem_id participant_events v
        → digest_object sys envelope ≡ d
        → verify_receipt sys
            (new_receipt sys config key v n now v.base d)
            config.problem_id
            config.maintainer_key
            (some v.request_id)
            (some envelope)
          ≡ ok (new_receipt sys config key v n now v.base d)
    new_receipt_accepted right_key v n now d admitted same =
        subst
          (λ x.
            verify_receipt sys (new_receipt sys config key v n now v.base x) config.problem_id
              config.maintainer_key (some v.request_id) (some envelope)
            ≡ ok (new_receipt sys config key v n now v.base x))
          same
          (subst
            (λ k.
              verify_receipt sys
                (new_receipt sys config key v n now v.base (digest_object sys envelope))
                config.problem_id k (some v.request_id) (some envelope)
              ≡ ok (new_receipt sys config key v n now v.base (digest_object sys envelope)))
            right_key
            (verify_receipt-receipt_value sys config.problem_id key
              (new_ordered sys config key v n now v.base (digest_object sys envelope)) sound
              envelope
              (new_ordered-IsOrdered sys sound standard config key envelope v n now admitted)))

    pub new_event-IsKept :
        (right_key : public_key_text sys key ≡ config.maintainer_key) (v : Envelope)
        (holds : Holds envelope config.problem_id config.maintainer_key v)
        (admitted : IsAdmitted sys config.problem_id participant_events v)
        (signed : IsSigned sys config.problem_id config.maintainer_key v) (actor : String)
        (is_actor : v.actor ≡ Value.text actor) (now : ℕ) (events : List Logged) (end : Walk)
        (s : State)
        → IsLoaded sys config files receipts end events
        → IsNext end v now
        → find? (answers v.request_id) files ≡ none
        → state_from config (events_of events) now ≡ ok s
        → authorize sys config v.kind (members v.payload) actor s now true ≡ ok tt
        → digest_object sys envelope ≡ digest_object sys (rebuilt v)
        → IsKept sys config receipts files envelope
            (answer key files v end.seq now v.base (digest_object sys (rebuilt v)))
    unfolding authorize_event is_object envelope_digest prefixed_digest
    new_event-IsKept right_key v holds admitted signed actor is_actor now events end s loaded
          is_next new projected allowed same =
        let d = digest_object sys (rebuilt v) in
        let event = new_event sys config key v end.seq now v.base d in
        let l =
          logged sys sound standard config key right_key v admitted signed actor is_actor now end
            is_next in
        let next =
          after sys sound standard config key right_key v admitted signed actor is_actor now end
            is_next in
        let read =
          read_event-new_event sys sound standard config key right_key v admitted signed actor
            is_actor now end is_next in
        let authorized : authorize_event sys config s l.event ≡ ok tt =
          rw admitted.is_kind allowed in
        let longer =
          IsLoaded-append sys config files receipts end next events event l s loaded refl read
            projected authorized in
        let rest = new_event-HasRest sys config key v end.seq now v.base d in
        let carried = new_event-Carries sys config key v end.seq now v.base d in
        record {
          request_id = v.request_id;
          events = events ++ l ∷ [];
          request_of = holds.request_of;
          extended = refl;
          loaded =
              IsLoaded-load_events sys config (files ++ event ∷ []) receipts next (events ++ l ∷ [])
                longer;
          receipt_of = rest.receipt_of;
          digest_of = carried.digest_of ∙ ap (λ x. ok (Value.text ("sha256:" +s x))) (sym same);
          accepted = new_receipt_accepted right_key v end.seq now d admitted same;
          found =
              find?-append (answers v.request_id) files event new
                (answers_members v.request_id event rest.schema_of carried.request_of);
        }
