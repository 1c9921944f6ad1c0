-- ===== src/Workspace/Clerk/Extending.antt =====
-- The first loop of `_events` (src/boule/workspace.py) over a log with one more event.
use mathlib.Core.Path.{subst}
use daryxx_boule_protocol.Prelude.{
  suc, ◌+◌, ◌≡◌, refl, sym, ap, ◌∙◌, none, some, List, [], ◌∷◌, ◌++◌, arith, length, last?,
}
use daryxx_boule_protocol.Python.{ok, Value}
use daryxx_boule_protocol.Crypto.{Platform}
use daryxx_boule_protocol.Workspace.State.{Config}
use daryxx_boule_protocol.Workspace.Clerk.Entries.{Logged, Walk}
use daryxx_boule_protocol.Workspace.Clerk.Contents.{read_event, read_events}
use daryxx_boule_protocol.Workspace.Clerk.Reads.{
  IsRead, read_event-IsRead, read_events-nil, read_events-cons,
}

module _ (sys : Platform) (config : Config) where
  pub read_events-append :
      (walk : Walk) (files : List Value) (e : Value) {end next : Walk} {events : List Logged}
      {l : Logged}
      → read_events sys config walk files ≡ ok (end, events)
      → read_event sys config end e ≡ ok (next, l)
      → read_events sys config walk (files ++ e ∷ []) ≡ ok (next, events ++ l ∷ [])
  unfolding read_events
  read_events-append walk [] e {end} {next} {events} {l} h r =
      let (same, none_read) = read_events-nil sys config walk h in
      subst (λ es. read_events sys config walk (e ∷ []) ≡ ok (next, es ++ l ∷ [])) (sym none_read)
        (rw (subst (λ w. read_event sys config w e ≡ ok (next, l)) (sym same) r) refl)
  read_events-append walk (f ∷ files) e {end} {next} {events} {l} h r =
      let (after, m, rest, form, read, more) = read_events-cons sys config walk f files h in
      subst (λ es. read_events sys config walk (f ∷ files ++ e ∷ []) ≡ ok (next, es ++ l ∷ []))
        (sym form) (rw (read, read_events-append after files e more r) refl)

  -- Where the walk ends: behind the last event.
  pub record IsEnd (walk end : Walk) (events : List Logged) : Type 0 where
    pub counted : end.seq ≡ walk.seq + length events
    pub headed : end.previous ≡ elim (last? events) [ some l ↦ some l.hash | none ↦ walk.previous ]
    pub timed :
        end.last ≡ elim (last? events) [ some l ↦ some l.event.received_at | none ↦ walk.last ]

  last_there : (l : Logged) (rest : List Logged) → (m : Logged) × (last? (l ∷ rest) ≡ some m)
  last_there l [] = (l, refl)
  last_there l (m ∷ rest) = last_there m rest

  IsEnd-later :
      (walk after end : Walk) (f : Value) (m : Logged) (rest : List Logged)
      → IsRead sys walk f after m
      → IsEnd after end rest
      → IsEnd walk end (m ∷ rest)
  IsEnd-later walk after end f m [] r ih = record {
    counted = omega (arith, ih.counted, r.advanced.0);
    headed = ih.headed ∙ r.advanced.1;
    timed = ih.timed ∙ r.advanced.2;
  }
  IsEnd-later walk after end f m (n ∷ rest) r ih =
      let (last, at) = last_there n rest in
      record {
        counted = omega (arith, ih.counted, r.advanced.0);
        headed = rw at (rw at at ih.headed);
        timed = rw at (rw at at ih.timed);
      }

  pub read_events-IsEnd :
      (walk : Walk) (files : List Value) {end : Walk} {events : List Logged}
      → read_events sys config walk files ≡ ok (end, events)
      → IsEnd walk end events
  read_events-IsEnd walk [] {end} {events} h =
      let (same, none_read) = read_events-nil sys config walk h in
      subst (λ es. IsEnd walk end es) (sym none_read)
        (subst (λ w. IsEnd walk w []) same
          (record { counted = omega arith; headed = refl; timed = refl }))
  read_events-IsEnd walk (f ∷ files) {end} {events} h =
      let (after, m, rest, form, read, more) = read_events-cons sys config walk f files h in
      let r = read_event-IsRead sys config walk f read in
      let ih = read_events-IsEnd after files more in
      subst (λ es. IsEnd walk end es) (sym form) (IsEnd-later walk after end f m rest r ih)

  pub read_events-length :
      (walk : Walk) (files : List Value) {end : Walk} {events : List Logged}
      → read_events sys config walk files ≡ ok (end, events)
      → length events ≡ length files
  read_events-length walk [] {end} {events} h = ap length (read_events-nil sys config walk h).1
  read_events-length walk (e ∷ files) {end} {events} h =
      let (next, l, rest, form, read, more) = read_events-cons sys config walk e files h in
      ap length form ∙ ap suc (read_events-length next files more)
