-- ===== src/Workspace/Accepted.antt =====
-- Logs that the loop of `_events` of src/boule/workspace.py accepts: what holds of the empty state and
-- is kept by every authorized event holds of what the log projects to.
use mathlib.Core.Path.{subst}
use daryxx_boule_protocol.Prelude.{◌≡◌, refl, sym, ◌∙◌, inl, inr, List, [], ◌∷◌, ◌++◌}
use daryxx_boule_protocol.Python.{Result, ok, err, ◌>>=◌, >>=-eq-ok, Result-cases, ok_injective}
use daryxx_boule_protocol.Crypto.{Platform}
use daryxx_boule_protocol.Workspace.State.{Config, Event, State, empty}
use daryxx_boule_protocol.Workspace.Project.{project_event, project_all}
use daryxx_boule_protocol.Workspace.Expiry.{aged, expire_claims, state_from}
use daryxx_boule_protocol.Workspace.Log.{authorize_event, validate_event, validate_events}
use daryxx_boule_protocol.Workspace.Rule.{Rule}
use daryxx_boule_protocol.Workspace.Kinds.{event_rule}

>>=-ok : (m : Result State) → (m >>= λ t. ok t) ≡ m
>>=-ok (ok t) = refl
>>=-ok (err e) = refl

pub project_all-append_one :
    (config : Config) (s : State) (events : List Event) (e : Event)
    → project_all config s (events ++ e ∷ [])
      ≡ (project_all config s events >>= λ t. project_event config t e)
unfolding project_all
project_all-append_one config s [] e = >>=-ok (project_event config s e)
project_all-append_one config s (d ∷ events) e = elim (Result-cases (project_event config s d)) [
  | inl (t, is) ↦ rw is (project_all-append_one config t events e)
  | inr (x, is) ↦ rw is refl
]

pub record Keeps (sys : Platform) (config : Config) (I : State → Type 0) : Type 0 where
  pub start : I empty
  pub step :
      (s seen : State) (e : Event)
      → I s
      → expire_claims config e.received_at s ≡ ok seen
      → Rule sys config seen s I e

module _ (sys : Platform) (config : Config) where
  pub one_more-Holds :
      (I : State → Type 0)
      → Keeps sys config I
      → (validated : List Event) (e : Event) {next : List Event} {t : State}
      → ((s : State) → project_all config empty validated ≡ ok s → I s)
      → validate_event sys config validated e ≡ ok next
      → project_all config empty next ≡ ok t
      → I t
  unfolding validate_event state_from
  one_more-Holds I k validated e {next} {t} h v p =
      let (seen, projected, v1) = >>=-eq-ok (state_from config validated e.received_at) _ v in
      let (s, before, aged) = >>=-eq-ok (project_all config empty validated) _ projected in
      let (u, allowed, v2) = >>=-eq-ok (authorize_event sys config seen e) _ v1 in
      let p1 : project_all config empty (validated ++ e ∷ []) ≡ ok t =
        subst (λ (es : List Event). project_all config empty es ≡ ok t) (sym (ok_injective v2)) p in
      let p2 = sym (project_all-append_one config empty validated e) ∙ p1 in
      let p3 : project_event config s e ≡ ok t = rw before at p2 in
      event_rule sys config seen s I e (k.step s seen e (h s before) aged) allowed p3

  pub accepted-Holds :
      (I : State → Type 0)
      → Keeps sys config I
      → (validated events : List Event) {out : List Event} {t : State}
      → ((s : State) → project_all config empty validated ≡ ok s → I s)
      → validate_events sys config validated events ≡ ok out
      → project_all config empty out ≡ ok t
      → I t
  unfolding validate_events
  accepted-Holds I k validated [] {out} {t} h v p =
      h t (subst (λ (es : List Event). project_all config empty es ≡ ok t) (sym (ok_injective v)) p)
  accepted-Holds I k validated (e ∷ events) {out} {t} h v p =
      let (next, first, rest) = >>=-eq-ok (validate_event sys config validated e) _ v in
      accepted-Holds I k next events (λ s q. one_more-Holds I k validated e h first q) rest p

  -- The log that is accepted from its start.
  pub log-Holds :
      (I : State → Type 0)
      → Keeps sys config I
      → (events : List Event) {out : List Event} {t : State}
      → validate_events sys config [] events ≡ ok out
      → project_all config empty out ≡ ok t
      → I t
  unfolding project_all
  log-Holds I k events v p =
      accepted-Holds I k [] events (λ s q. subst I (ok_injective q) k.start) v p
