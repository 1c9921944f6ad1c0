-- ===== src/Workspace/Clerk/Loaded.antt =====
-- `_events` of src/boule/workspace.py as a whole, over a log with one more event.
use mathlib.Core.Path.{subst}
use daryxx_boule_protocol.Prelude.{◌≡◌, refl, sym, ap, ◌∙◌, true, not, List, [], ◌∷◌, ◌++◌, all}
use daryxx_boule_protocol.Python.{raise_unless-eq-ok, ok, raise_if, >>=-eq-ok, ok_injective, Value}
use daryxx_boule_protocol.Crypto.{Platform}
use daryxx_boule_protocol.Ledger.{is_object}
use daryxx_boule_protocol.Workspace.State.{Config, State}
use daryxx_boule_protocol.Workspace.Expiry.{state_from}
use daryxx_boule_protocol.Workspace.Log.{authorize_event, validate_event, validate_events}
use daryxx_boule_protocol.Workspace.Clerk.Entries.{Logged, Walk, walk_start}
use daryxx_boule_protocol.Workspace.Clerk.Contents.{read_event, read_events}
use daryxx_boule_protocol.Workspace.Clerk.Load.{events_of, guard_receipts, load_events}
use daryxx_boule_protocol.Workspace.Clerk.Extending.{read_events-append}
use daryxx_boule_protocol.Workspace.Clerk.Formatting.{all-append}
use daryxx_boule_protocol.Workspace.Clerk.Kept.{
  events_of-append, validate_events_lem, validate_events-append, guard_receipts-append,
}

module _ (sys : Platform) (config : Config) where
  -- What `_events` has checked of a log.
  pub record IsLoaded (files receipts : List Value) (end : Walk) (events : List Logged)
      : Type 0 where
    pub objects : all is_object files ≡ true
    pub read : read_events sys config walk_start files ≡ ok (end, events)
    pub validated : validate_events sys config [] (events_of events) ≡ ok (events_of events)
    pub guarded : guard_receipts sys config events receipts ≡ ok tt

  pub load_events-IsLoaded :
      (files receipts : List Value) {events : List Logged}
      → load_events sys config files receipts ≡ ok events
      → (end : Walk) × IsLoaded files receipts end events
  unfolding load_events
  load_events-IsLoaded files receipts {events} h =
      let (_, objects, h1) =
        >>=-eq-ok (raise_if (not (all is_object files)) "invalid event object {p.name}") _ h in
      let ((end, found), read, h2) = >>=-eq-ok (read_events sys config walk_start files) _ h1 in
      let (out, validated, h3) = >>=-eq-ok (validate_events sys config [] (events_of found)) _ h2 in
      let (_, guarded, h4) = >>=-eq-ok (guard_receipts sys config found receipts) _ h3 in
      (
        end,
        subst (λ es. IsLoaded files receipts end es) (ok_injective h4)
            (record {
              objects = raise_unless-eq-ok _ "invalid event object {p.name}" objects;
              read = read;
              validated =
                  validated ∙ ap ok (validate_events_lem sys config [] (events_of found) validated);
              guarded = guarded;
            }),
      )

  pub IsLoaded-load_events :
      (files receipts : List Value) (end : Walk) (events : List Logged)
      → IsLoaded files receipts end events
      → load_events sys config files receipts ≡ ok events
  unfolding load_events
  IsLoaded-load_events files receipts end events l =
      rw (l.objects, l.read, l.validated, l.guarded) refl

  -- An event that the first loop and the authorization accept extends the log.
  pub IsLoaded-append :
      (files receipts : List Value) (end next : Walk) (events : List Logged) (e : Value)
      (l : Logged) (s : State)
      → IsLoaded files receipts end events
      → is_object e ≡ true
      → read_event sys config end e ≡ ok (next, l)
      → state_from config (events_of events) l.event.received_at ≡ ok s
      → authorize_event sys config s l.event ≡ ok tt
      → IsLoaded (files ++ e ∷ []) receipts next (events ++ l ∷ [])
  unfolding validate_event
  IsLoaded-append files receipts end next events e l s loaded o r projected authorized =
      let one : validate_event sys config (events_of events) l.event
          ≡ ok (events_of events ++ l.event ∷ []) =
        rw (projected, authorized) refl in
      record {
        objects = all-append is_object files (e ∷ []) ∙ (rw (loaded.objects, o) refl);
        read = read_events-append sys config walk_start files e loaded.read r;
        validated =
            subst (λ es. validate_events sys config [] es ≡ ok es) (sym (events_of-append events l))
              (validate_events-append sys config [] (events_of events) l.event loaded.validated
                one);
        guarded = guard_receipts-append sys config events l receipts loaded.guarded;
      }
