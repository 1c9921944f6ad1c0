-- ===== src/Workspace/Clerk/Kept.antt =====
-- The second loop of `_events` and `_guard_receipts` (src/boule/workspace.py) over a log with one
-- more event.
use mathlib.Core.Path.{subst}
use daryxx_boule_protocol.Prelude.{
  ℕ, zero, suc, ◌≤◌, ◌<◌, ◌≡◌, refl, sym, ap, ◌∙◌, false, List, [], ◌∷◌, ◌++◌, arith, ltb, length,
  get_elem?, length-append,
}
use daryxx_boule_protocol.Python.{ok, raise_if, >>=-eq-ok, ok_injective, raise_if-eq-ok, Value}
use daryxx_boule_protocol.Crypto.{Platform}
use daryxx_boule_protocol.Workspace.State.{Config, Event}
use daryxx_boule_protocol.Workspace.Expiry.{state_from}
use daryxx_boule_protocol.Workspace.Log.{authorize_event, validate_event, validate_events}
use daryxx_boule_protocol.Workspace.Clerk.Entries.{Logged}
use daryxx_boule_protocol.Workspace.Clerk.Load.{
  logged_before, events_of, verify_maintainer_receipt, guard_receipt, guard_receipts,
}

pub events_of-append :
    (events : List Logged) (l : Logged)
    → events_of (events ++ l ∷ []) ≡ events_of events ++ l.event ∷ []
unfolding events_of
events_of-append [] l = refl
events_of-append (m ∷ events) l = ap (◌∷◌ m.event) (events_of-append events l)

append_assoc_one :
    {A : Type 0} (xs : List A) (y : A) (zs : List A) → (xs ++ y ∷ []) ++ zs ≡ xs ++ y ∷ zs
append_assoc_one [] y zs = refl
append_assoc_one (x ∷ xs) y zs = ap (◌∷◌ x) (append_assoc_one xs y zs)

append_nil : {A : Type 0} (xs : List A) → xs ++ [] ≡ xs
append_nil [] = refl
append_nil (x ∷ xs) = ap (◌∷◌ x) (append_nil xs)

none_below : (n : ℕ) → ¬ (n < length {A = Logged} [])
none_below n h = omega arith

get_before :
    (n : ℕ) (events : List Logged) (l : Logged)
    → n < length events
    → get_elem? (events ++ l ∷ []) n ≡ get_elem? events n
get_before n [] l h = absurd (none_below n h)
get_before zero (m ∷ events) l h = refl
get_before (suc n) (m ∷ events) l h = get_before n events l (omega arith)

logged_before-append :
    (n : ℕ) (events : List Logged) (l : Logged)
    → n ≤ length events
    → logged_before n (events ++ l ∷ []) ≡ logged_before n events
unfolding logged_before
logged_before-append zero events l h = refl
logged_before-append (suc n) events l h = get_before n events l (omega arith)

module _ (sys : Platform) (config : Config) where
  validate_event_lem :
      (validated : List Event) (e : Event) {out : List Event}
      → validate_event sys config validated e ≡ ok out
      → out ≡ validated ++ e ∷ []
  unfolding validate_event
  validate_event_lem validated e h =
      let (s, _, h1) = >>=-eq-ok (state_from config validated e.received_at) _ h in
      let (_, _, h2) = >>=-eq-ok (authorize_event sys config s e) _ h1 in sym (ok_injective h2)

  pub validate_events_lem :
      (validated events : List Event) {out : List Event}
      → validate_events sys config validated events ≡ ok out
      → out ≡ validated ++ events
  unfolding validate_events
  validate_events_lem validated [] h = sym (ok_injective h) ∙ sym (append_nil validated)
  validate_events_lem validated (e ∷ events) h =
      let (next, one, more) = >>=-eq-ok (validate_event sys config validated e) _ h in
      validate_events_lem next events more
      ∙ ap (λ v. v ++ events) (validate_event_lem validated e one)
      ∙ append_assoc_one validated e events

  pub validate_events-append :
      (validated events : List Event) (e : Event) {middle out : List Event}
      → validate_events sys config validated events ≡ ok middle
      → validate_event sys config middle e ≡ ok out
      → validate_events sys config validated (events ++ e ∷ []) ≡ ok out
  unfolding validate_events
  validate_events-append validated [] e {middle} {out} h one =
      let same = ok_injective h in
      rw (subst (λ v. validate_event sys config v e ≡ ok out) (sym same) one) refl
  validate_events-append validated (f ∷ events) e h one =
      let (next, first, more) = >>=-eq-ok (validate_event sys config validated f) _ h in
      rw first (validate_events-append next events e more one)

  guard_receipt-append :
      (events : List Logged) (l : Logged) (r : Value)
      → guard_receipt sys config events r ≡ ok tt
      → guard_receipt sys config (events ++ l ∷ []) r ≡ ok tt
  unfolding guard_receipt
  guard_receipt-append events l r h =
      let ((at, count, head), verified, h1) =
        >>=-eq-ok (verify_maintainer_receipt sys config r) _ h in
      let (_, there, h2) =
        >>=-eq-ok
          (raise_if (ltb (length events) count)
            "event log was truncated after a maintainer receipt")
          _ h1 in
      let few : count ≤ length events = ground (arith, raise_if-eq-ok _ _ there) in
      let longer : ltb (length (events ++ l ∷ [])) count ≡ false =
        ground (arith, few, length-append events (l ∷ [])) in
      rw (verified, longer, logged_before-append count events l few) h2

  pub guard_receipts-append :
      (events : List Logged) (l : Logged) (receipts : List Value)
      → guard_receipts sys config events receipts ≡ ok tt
      → guard_receipts sys config (events ++ l ∷ []) receipts ≡ ok tt
  unfolding guard_receipts
  guard_receipts-append events l [] h = refl
  guard_receipts-append events l (r ∷ receipts) h =
      let (_, one, more) = >>=-eq-ok (guard_receipt sys config events r) _ h in
      rw (guard_receipt-append events l r one) (guard_receipts-append events l receipts more)
