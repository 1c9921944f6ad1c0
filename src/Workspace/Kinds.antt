-- ===== src/Workspace/Kinds.antt =====
-- From what each kind of event of the log of src/boule/workspace.py shows to the event: the kind is
-- found as `_authorize` and `_state_from` find it.
use mathlib.Core.Path.{subst}
use Prim.{absurd}
use daryxx_boule_protocol.Prelude.{
  String, ◌≡◌, sym, ◌⊎◌, inl, inr, true, not, ◌||◌, arith, eq_iff, ◌==◌, Bool-cases,
}
use daryxx_boule_protocol.Python.{Result, ok, raise_if, >>=-eq-ok, contains, is_text}
use daryxx_boule_protocol.Crypto.{Platform}
use daryxx_boule_protocol.Workspace.State.{Config, Event, State}
use daryxx_boule_protocol.Workspace.Fields.{get_or_none}
use daryxx_boule_protocol.Workspace.Project.{project_kind, project_event}
use daryxx_boule_protocol.Workspace.Claims.{active_session, owned_claim}
use daryxx_boule_protocol.Workspace.Authorize.{
  authorize_on_claim, authorize_in_session, authorize, authorize_maintainer,
}
use daryxx_boule_protocol.Workspace.Log.{participant_events, authorize_event}
use daryxx_boule_protocol.Workspace.Rule.{Owned, Rule, Shows, of_Rule}

abbrev in_problem : Config → Event → Result (Unit {0})
in_problem config e =
    raise_if (not (is_text (get_or_none e.payload "problem_id") config.problem_id))
      "event belongs to another problem"

abbrev by_maintainer : Config → Event → Result (Unit {0})
by_maintainer config e =
    raise_if (not (e.actor == config.maintainer_key))
      "submission observations require the maintainer key"

module _ (sys : Platform) (config : Config) (seen s : State) (Q : Result State → Type 0) (e : Event)
    (r : Shows sys config seen s Q e) where
  -- An event whose kind is known.
  of_kind :
      (kind : String)
      → e.kind ≡ kind
      → Q (project_kind config s kind e)
      → Q (project_event config s e)
  unfolding project_event
  of_kind kind k q = subst (λ j. Q (project_kind config s j e)) (sym k) q

  on_session_started :
      e.kind ≡ "session_started"
      → authorize_event sys config seen e ≡ ok tt
      → Q (project_event config s e)
  unfolding authorize_event authorize contains authorize_in_session authorize_on_claim
      authorize_maintainer project_kind
  on_session_started k a =
      let (u, _, a1) = >>=-eq-ok (in_problem config e) _ (rw k at a) in
      of_kind "session_started" k (r.session_started a1)

  on_work_claimed :
      e.kind ≡ "work_claimed"
      → authorize_event sys config seen e ≡ ok tt
      → Q (project_event config s e)
  unfolding authorize_event authorize contains authorize_in_session authorize_on_claim
      authorize_maintainer project_kind
  on_work_claimed k a =
      let (u, _, a1) = >>=-eq-ok (in_problem config e) _ (rw k at a) in
      let (session, is_session, a2) =
        >>=-eq-ok (active_session sys config e.payload e.actor seen e.received_at) _ a1 in
      of_kind "work_claimed" k (r.work_claimed session is_session a2)

  on_claim_heartbeat :
      e.kind ≡ "claim_heartbeat"
      → authorize_event sys config seen e ≡ ok tt
      → Q (project_event config s e)
  unfolding authorize_event authorize contains authorize_in_session authorize_on_claim
      authorize_maintainer project_kind
  on_claim_heartbeat k a =
      let (u, _, a1) = >>=-eq-ok (in_problem config e) _ (rw k at a) in
      let (session, is_session, a2) =
        >>=-eq-ok (active_session sys config e.payload e.actor seen e.received_at) _ a1 in
      let (claim, is_claim, a3) = >>=-eq-ok (owned_claim e.payload session seen) _ a2 in
      let owned : Owned sys config seen e session claim = record {
        is_session = is_session;
        is_claim = is_claim;
      } in
      of_kind "claim_heartbeat" k (r.claim_heartbeat session claim owned a3)

  on_checkpoint_published :
      e.kind ≡ "checkpoint_published"
      → authorize_event sys config seen e ≡ ok tt
      → Q (project_event config s e)
  unfolding authorize_event authorize contains authorize_in_session authorize_on_claim
      authorize_maintainer project_kind
  on_checkpoint_published k a = of_kind "checkpoint_published" k (r.checkpoint_published)

  on_message_posted :
      e.kind ≡ "message_posted"
      → authorize_event sys config seen e ≡ ok tt
      → Q (project_event config s e)
  unfolding authorize_event authorize contains authorize_in_session authorize_on_claim
      authorize_maintainer project_kind
  on_message_posted k a = of_kind "message_posted" k (r.message_posted)

  on_claim_released :
      e.kind ≡ "claim_released"
      → authorize_event sys config seen e ≡ ok tt
      → Q (project_event config s e)
  unfolding authorize_event authorize contains authorize_in_session authorize_on_claim
      authorize_maintainer project_kind
  on_claim_released k a =
      let (u, _, a1) = >>=-eq-ok (in_problem config e) _ (rw k at a) in
      let (session, is_session, a2) =
        >>=-eq-ok (active_session sys config e.payload e.actor seen e.received_at) _ a1 in
      let (claim, is_claim, a3) = >>=-eq-ok (owned_claim e.payload session seen) _ a2 in
      let owned : Owned sys config seen e session claim = record {
        is_session = is_session;
        is_claim = is_claim;
      } in
      of_kind "claim_released" k (r.claim_released session claim owned)

  on_handoff_published :
      e.kind ≡ "handoff_published"
      → authorize_event sys config seen e ≡ ok tt
      → Q (project_event config s e)
  unfolding authorize_event authorize contains authorize_in_session authorize_on_claim
      authorize_maintainer project_kind
  on_handoff_published k a =
      let (u, _, a1) = >>=-eq-ok (in_problem config e) _ (rw k at a) in
      let (session, is_session, a2) =
        >>=-eq-ok (active_session sys config e.payload e.actor seen e.received_at) _ a1 in
      let (claim, is_claim, a3) = >>=-eq-ok (owned_claim e.payload session seen) _ a2 in
      let owned : Owned sys config seen e session claim = record {
        is_session = is_session;
        is_claim = is_claim;
      } in
      of_kind "handoff_published" k (r.handoff_published session claim owned a3)

  on_submission_candidate_published :
      e.kind ≡ "submission_candidate_published"
      → authorize_event sys config seen e ≡ ok tt
      → Q (project_event config s e)
  unfolding authorize_event authorize contains authorize_in_session authorize_on_claim
      authorize_maintainer project_kind
  on_submission_candidate_published k a =
      let (u, _, a1) = >>=-eq-ok (in_problem config e) _ (rw k at a) in
      let (session, is_session, a2) =
        >>=-eq-ok (active_session sys config e.payload e.actor seen e.received_at) _ a1 in
      of_kind "submission_candidate_published" k (r.submission_candidate_published a2)

  on_external_submission_receipted :
      e.kind ≡ "external_submission_receipted"
      → authorize_event sys config seen e ≡ ok tt
      → Q (project_event config s e)
  unfolding authorize_event authorize contains authorize_in_session authorize_on_claim
      authorize_maintainer project_kind
  on_external_submission_receipted k a =
      let (u, _, a1) = >>=-eq-ok (by_maintainer config e) _ (rw k at a) in
      let (u1, _, a2) = >>=-eq-ok (in_problem config e) _ a1 in
      of_kind "external_submission_receipted" k (r.external_submission_receipted a2)

  on_candidate_feedback_recorded :
      e.kind ≡ "candidate_feedback_recorded"
      → authorize_event sys config seen e ≡ ok tt
      → Q (project_event config s e)
  unfolding authorize_event authorize contains authorize_in_session authorize_on_claim
      authorize_maintainer project_kind
  on_candidate_feedback_recorded k a =
      let (u, _, a1) = >>=-eq-ok (by_maintainer config e) _ (rw k at a) in
      let (u1, _, a2) = >>=-eq-ok (in_problem config e) _ a1 in
      of_kind "candidate_feedback_recorded" k (r.candidate_feedback_recorded a2)

  on_case_resolution_recorded :
      e.kind ≡ "case_resolution_recorded"
      → authorize_event sys config seen e ≡ ok tt
      → Q (project_event config s e)
  unfolding authorize_event authorize contains authorize_in_session authorize_on_claim
      authorize_maintainer project_kind
  on_case_resolution_recorded k a =
      let (u, _, a1) = >>=-eq-ok (by_maintainer config e) _ (rw k at a) in
      let (u1, _, a2) = >>=-eq-ok (in_problem config e) _ a1 in
      of_kind "case_resolution_recorded" k (r.case_resolution_recorded a2)

  -- A kind that is not known is not authorized.
  is_known :
      authorize_event sys config seen e ≡ ok tt
      → (contains e.kind participant_events ≡ true)
        ⊎ ((e.kind == "external_submission_receipted")
              || (e.kind == "candidate_feedback_recorded")
              || (e.kind == "case_resolution_recorded")
            ≡ true)
  unfolding authorize_event authorize_maintainer
  is_known a = ground arith

  -- What is shown of each kind of event holds of an authorized event.
  pub event_shown : authorize_event sys config seen e ≡ ok tt → Q (project_event config s e)
  unfolding contains
  event_shown a = elim (is_known a) [
    | inl known ↦ elim (Bool-cases (e.kind == "session_started")) [
      | inl y ↦ on_session_started ((eq_iff e.kind "session_started").0 y) a
      | inr n8 ↦ elim (Bool-cases (e.kind == "work_claimed")) [
        | inl y ↦ on_work_claimed ((eq_iff e.kind "work_claimed").0 y) a
        | inr n7 ↦ elim (Bool-cases (e.kind == "claim_heartbeat")) [
          | inl y ↦ on_claim_heartbeat ((eq_iff e.kind "claim_heartbeat").0 y) a
          | inr n6 ↦ elim (Bool-cases (e.kind == "checkpoint_published")) [
            | inl y ↦ on_checkpoint_published ((eq_iff e.kind "checkpoint_published").0 y) a
            | inr n5 ↦ elim (Bool-cases (e.kind == "message_posted")) [
              | inl y ↦ on_message_posted ((eq_iff e.kind "message_posted").0 y) a
              | inr n4 ↦ elim (Bool-cases (e.kind == "claim_released")) [
                | inl y ↦ on_claim_released ((eq_iff e.kind "claim_released").0 y) a
                | inr n3 ↦ elim (Bool-cases (e.kind == "handoff_published")) [
                  | inl y ↦ on_handoff_published ((eq_iff e.kind "handoff_published").0 y) a
                  | inr n2 ↦ elim (Bool-cases (e.kind == "submission_candidate_published")) [
                    | inl y ↦
                        on_submission_candidate_published
                          ((eq_iff e.kind "submission_candidate_published").0 y) a
                    | inr n1 ↦ absurd (ground arith)
                  ]
                ]
              ]
            ]
          ]
        ]
      ]
    ]
    | inr known ↦ elim (Bool-cases (e.kind == "external_submission_receipted")) [
      | inl y ↦
          on_external_submission_receipted ((eq_iff e.kind "external_submission_receipted").0 y) a
      | inr n3 ↦ elim (Bool-cases (e.kind == "candidate_feedback_recorded")) [
        | inl y ↦
            on_candidate_feedback_recorded ((eq_iff e.kind "candidate_feedback_recorded").0 y) a
        | inr n2 ↦ elim (Bool-cases (e.kind == "case_resolution_recorded")) [
          | inl y ↦ on_case_resolution_recorded ((eq_iff e.kind "case_resolution_recorded").0 y) a
          | inr n1 ↦ absurd (ground arith)
        ]
      ]
    ]
  ]

pub event_rule :
    (sys : Platform) (config : Config) (seen s : State) (P : State → Type 0) (e : Event) {t : State}
    → Rule sys config seen s P e
    → authorize_event sys config seen e ≡ ok tt
    → project_event config s e ≡ ok t
    → P t
event_rule sys config seen s P e {t} r a p =
    event_shown sys config seen s (λ q. (t : State) → q ≡ ok t → P t) e
      (of_Rule sys config seen s P e r) a t p
