-- ===== src/Workspace/Rule.antt =====
-- To prove something of one more event of the log of src/boule/workspace.py, kind by kind: the event
-- was authorized in the state `seen`, and the projection takes it from the state `s`.
use mathlib.Core.Path.{subst}
use daryxx_boule_protocol.Prelude.{◌≡◌, [], ◌∷◌, ◌++◌}
use daryxx_boule_protocol.Python.{Result, ok_injective, ok}
use daryxx_boule_protocol.Crypto.{Platform}
use daryxx_boule_protocol.Workspace.State.{Config, Event, Session, ClaimStatus, Claim, State}
use daryxx_boule_protocol.Workspace.Project.{
  observed, session_started, work_claimed, claim_heartbeat, close_claim, handoff_published,
  submission_candidate_published, external_submission_receipted, candidate_feedback_recorded,
}
use daryxx_boule_protocol.Workspace.Claims.{
  authorize_session, active_session, authorize_claim, owned_claim, authorize_heartbeat,
}
use daryxx_boule_protocol.Workspace.Publish.{authorize_handoff, authorize_candidate}
use daryxx_boule_protocol.Workspace.Maintain.{
  authorize_receipt, authorize_feedback, authorize_resolution,
}

-- The session of the event's actor and its open claim.
pub record Owned (sys : Platform) (config : Config) (seen : State) (e : Event) (session : Session)
    (claim : Claim) : Type 0 where
  pub is_session : active_session sys config e.payload e.actor seen e.received_at ≡ ok session
  pub is_claim : owned_claim e.payload session seen ≡ ok claim

-- What is shown of the projection of the event, for each kind, from what was authorized.
pub record Shows (sys : Platform) (config : Config) (seen s : State) (Q : Result State → Type 0)
    (e : Event) : Type 0 where
  pub session_started :
      authorize_session sys config e.payload e.actor seen e.received_at e.remote ≡ ok tt
      → Q (session_started s e)
  pub work_claimed :
      (session : Session)
      → active_session sys config e.payload e.actor seen e.received_at ≡ ok session
      → authorize_claim e.payload session seen ≡ ok tt
      → Q (work_claimed config s e)
  pub claim_heartbeat :
      (session : Session) (claim : Claim)
      → Owned sys config seen e session claim
      → authorize_heartbeat config e.payload claim e.received_at ≡ ok tt
      → Q (claim_heartbeat config s e)
  pub checkpoint_published : Q (ok (record s { checkpoints = s.checkpoints ++ observed e ∷ [] }))
  pub message_posted : Q (ok (record s { messages = s.messages ++ observed e ∷ [] }))
  pub claim_released :
      (session : Session) (claim : Claim)
      → Owned sys config seen e session claim
      → Q (close_claim s e ClaimStatus.released)
  pub handoff_published :
      (session : Session) (claim : Claim)
      → Owned sys config seen e session claim
      → authorize_handoff e.payload seen ≡ ok tt
      → Q (handoff_published s e)
  pub submission_candidate_published :
      authorize_candidate config e.payload seen ≡ ok tt → Q (submission_candidate_published s e)
  pub external_submission_receipted :
      authorize_receipt sys config e.payload seen e.received_at ≡ ok tt
      → Q (external_submission_receipted s e)
  pub candidate_feedback_recorded :
      authorize_feedback config e.payload seen ≡ ok tt → Q (candidate_feedback_recorded s e)
  pub case_resolution_recorded :
      authorize_resolution config e.payload seen ≡ ok tt
      → Q (ok (record s { resolutions = s.resolutions ++ observed e ∷ [] }))

-- The same of the state that the event gives, if it gives one.
pub record Rule (sys : Platform) (config : Config) (seen s : State) (P : State → Type 0) (e : Event)
    : Type 0 where
  pub session_started :
      {t : State}
      → authorize_session sys config e.payload e.actor seen e.received_at e.remote ≡ ok tt
      → session_started s e ≡ ok t
      → P t
  pub work_claimed :
      (session : Session) {t : State}
      → active_session sys config e.payload e.actor seen e.received_at ≡ ok session
      → authorize_claim e.payload session seen ≡ ok tt
      → work_claimed config s e ≡ ok t
      → P t
  pub claim_heartbeat :
      (session : Session) (claim : Claim) {t : State}
      → Owned sys config seen e session claim
      → authorize_heartbeat config e.payload claim e.received_at ≡ ok tt
      → claim_heartbeat config s e ≡ ok t
      → P t
  pub checkpoint_published : P (record s { checkpoints = s.checkpoints ++ observed e ∷ [] })
  pub message_posted : P (record s { messages = s.messages ++ observed e ∷ [] })
  pub claim_released :
      (session : Session) (claim : Claim) {t : State}
      → Owned sys config seen e session claim
      → close_claim s e ClaimStatus.released ≡ ok t
      → P t
  pub handoff_published :
      (session : Session) (claim : Claim) {t : State}
      → Owned sys config seen e session claim
      → authorize_handoff e.payload seen ≡ ok tt
      → handoff_published s e ≡ ok t
      → P t
  pub submission_candidate_published :
      {t : State}
      → authorize_candidate config e.payload seen ≡ ok tt
      → submission_candidate_published s e ≡ ok t
      → P t
  pub external_submission_receipted :
      {t : State}
      → authorize_receipt sys config e.payload seen e.received_at ≡ ok tt
      → external_submission_receipted s e ≡ ok t
      → P t
  pub candidate_feedback_recorded :
      {t : State}
      → authorize_feedback config e.payload seen ≡ ok tt
      → candidate_feedback_recorded s e ≡ ok t
      → P t
  pub case_resolution_recorded :
      authorize_resolution config e.payload seen ≡ ok tt
      → P (record s { resolutions = s.resolutions ++ observed e ∷ [] })

pub of_Rule :
    (sys : Platform) (config : Config) (seen s : State) (P : State → Type 0) (e : Event)
    → Rule sys config seen s P e
    → Shows sys config seen s (λ r. (t : State) → r ≡ ok t → P t) e
of_Rule sys config seen s P e r = record {
  session_started = λ a t p. r.session_started a p;
  work_claimed = λ session is a t p. r.work_claimed session is a p;
  claim_heartbeat = λ session claim owned a t p. r.claim_heartbeat session claim owned a p;
  checkpoint_published = λ t p. subst P (ok_injective p) r.checkpoint_published;
  message_posted = λ t p. subst P (ok_injective p) r.message_posted;
  claim_released = λ session claim owned t p. r.claim_released session claim owned p;
  handoff_published = λ session claim owned a t p. r.handoff_published session claim owned a p;
  submission_candidate_published = λ a t p. r.submission_candidate_published a p;
  external_submission_receipted = λ a t p. r.external_submission_receipted a p;
  candidate_feedback_recorded = λ a t p. r.candidate_feedback_recorded a p;
  case_resolution_recorded = λ a t p. subst P (ok_injective p) (r.case_resolution_recorded a);
}
