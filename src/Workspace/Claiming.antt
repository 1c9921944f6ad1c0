-- ===== src/Workspace/Claiming.antt =====
-- What the steps of src/boule/workspace.py do to the claims, and what of it was authorized.
use daryxx_boule_protocol.Prelude.{
  ℕ, ◌<◌, String, ◌≡◌, sym, ap, inl, inr, Option, none, some, [], ◌∷◌, arith, ◌==◌, Bool-cases,
}
use daryxx_boule_protocol.Python.{
  ok, or_crash, >>=-eq-ok, ok_injective, or_crash-eq-ok, Dict, lookup, insert, Value,
}
use daryxx_boule_protocol.Model.{required, as_text}
use daryxx_boule_protocol.Workspace.State.{Config, Event, Session, ClaimStatus, Claim, State}
use daryxx_boule_protocol.Workspace.Fields.{get_or_none}
use daryxx_boule_protocol.Workspace.Project.{
  key_of, session_started, set_active_claim, new_claim, work_claimed, renewed, claim_heartbeat,
  close_claim, handoff_published, submission_candidate_published, external_submission_receipted,
  candidate_feedback_recorded,
}
use daryxx_boule_protocol.Workspace.Expiry.{aged, age_claims}
use daryxx_boule_protocol.Workspace.Claims.{get_value, owned_claim, authorize_heartbeat}

pub lookup-age_claims :
    (config : Config) (now : ℕ) (k : String) (d : Dict Claim) {c : Claim}
    → lookup k (age_claims config now d) ≡ some c
    → (b : Claim) × (lookup k d ≡ some b) × (aged config now b ≡ c)
unfolding lookup age_claims
lookup-age_claims config now k [] h = cc
lookup-age_claims config now k ((j, b) ∷ d) {c} h = elim (Bool-cases (k == j)) [
  | inl same ↦ (b, ground (arith, same), ground (arith, same, h))
  | inr other ↦
      let (b1, found, is) = lookup-age_claims config now k d (rw other at h) in
      (b1, ground (arith, other, found), is)
]

-- A claim is bound to a session by this step, or taken from it: the claims do not change.
pub set_active_claim-claims :
    (s : State) (session_id : String) (claim : Option String) {t : State}
    → set_active_claim s session_id claim ≡ ok t
    → t.claims ≡ s.claims
unfolding set_active_claim
set_active_claim-claims s session_id claim p = ground arith

module _ (config : Config) (s : State) (e : Event) where
  pub work_claimed-claims :
      {t : State}
      → work_claimed config s e ≡ ok t
      → (claim_id session_id : String) × (c : Claim) × (new_claim config claim_id session_id e
          ≡ ok c)
        × (t.claims ≡ insert claim_id c s.claims)
  unfolding work_claimed
  work_claimed-claims p =
      let (claim_id, _, p1) = >>=-eq-ok (key_of e.payload "claim_id") _ p in
      let (session_id, _, p2) = >>=-eq-ok (key_of e.payload "session_id") _ p1 in
      let (c, is_new, p3) = >>=-eq-ok (new_claim config claim_id session_id e) _ p2 in
      (claim_id, session_id, c, is_new, set_active_claim-claims _ session_id (some claim_id) p3)

  pub heartbeat-claims :
      {t : State}
      → claim_heartbeat config s e ≡ ok t
      → (claim_id : String) × (c next : Claim) × (key_of e.payload "claim_id" ≡ ok claim_id)
        × (lookup claim_id s.claims ≡ some c)
        × (renewed config e.received_at c ≡ ok next)
        × (t.claims ≡ insert claim_id next s.claims)
  unfolding claim_heartbeat
  heartbeat-claims {t} p =
      let (claim_id, named, p1) = >>=-eq-ok (key_of e.payload "claim_id") _ p in
      let (c, found, p2) = >>=-eq-ok (or_crash (lookup claim_id s.claims)) _ p1 in
      let (next, is_next, p3) = >>=-eq-ok (renewed config e.received_at c) _ p2 in
      (
        claim_id,
        c,
        next,
        named,
        or_crash-eq-ok (lookup claim_id s.claims) found,
        is_next,
        ap (λ (q : State). q.claims) (sym (ok_injective p3)),
      )

  pub close_claim-claims :
      (status : ClaimStatus) {t : State}
      → close_claim s e status ≡ ok t
      → (claim_id : String) × (c : Claim) × (lookup claim_id s.claims ≡ some c)
        × (t.claims ≡ insert claim_id (record c { status = status }) s.claims)
  unfolding close_claim
  close_claim-claims status p =
      let (claim_id, _, p1) = >>=-eq-ok (key_of e.payload "claim_id") _ p in
      let (c, found, p2) = >>=-eq-ok (or_crash (lookup claim_id s.claims)) _ p1 in
      let (session_id, _, p3) = >>=-eq-ok (key_of e.payload "session_id") _ p2 in
      (
        claim_id,
        c,
        or_crash-eq-ok (lookup claim_id s.claims) found,
        set_active_claim-claims _ session_id none p3,
      )

-- The claim that the event owns is the one under its claim id.
pub owned_claim-found :
    (p : Dict Value) (session : Session) (seen : State) (claim_id : String) {claim : Claim}
    → key_of p "claim_id" ≡ ok claim_id
    → owned_claim p session seen ≡ ok claim
    → lookup claim_id seen.claims ≡ some claim
unfolding owned_claim key_of required as_text get_or_none get_value
owned_claim-found p session seen claim_id named owned = ground arith

-- A heartbeat is authorized below the renewals' limit and before the absolute deadline.
pub authorize_heartbeat-room :
    (config : Config) (p : Dict Value) (claim : Claim) (now : ℕ)
    → authorize_heartbeat config p claim now ≡ ok tt
    → (claim.renewals < config.max_renewals) × (now < claim.absolute_deadline)
unfolding authorize_heartbeat
authorize_heartbeat-room config p claim now a = ground arith

-- Time does not change a claim's lease.
pub aged-lease :
    (config : Config) (now : ℕ) (c : Claim)
    → ((aged config now c).renewals ≡ c.renewals)
      × ((aged config now c).absolute_deadline ≡ c.absolute_deadline)
unfolding aged
aged-lease config now c = ground arith

module _ (config : Config) (s : State) (e : Event) where
  pub session_started-claims : {t : State} → session_started s e ≡ ok t → t.claims ≡ s.claims
  unfolding session_started
  session_started-claims p = ground arith

  pub candidate-claims :
      {t : State} → submission_candidate_published s e ≡ ok t → t.claims ≡ s.claims
  unfolding submission_candidate_published
  candidate-claims p = ground arith

  pub receipt-claims : {t : State} → external_submission_receipted s e ≡ ok t → t.claims ≡ s.claims
  unfolding external_submission_receipted
  receipt-claims p = ground arith

  pub feedback-claims : {t : State} → candidate_feedback_recorded s e ≡ ok t → t.claims ≡ s.claims
  unfolding candidate_feedback_recorded
  feedback-claims p = ground arith

  pub handoff-claims :
      {t : State}
      → handoff_published s e ≡ ok t
      → (m : State) × (close_claim s e ClaimStatus.completed ≡ ok m) × (t.claims ≡ m.claims)
  unfolding handoff_published
  handoff-claims p =
      let (m, closed, p1) = >>=-eq-ok (close_claim s e ClaimStatus.completed) _ p in
      let (handoff_id, _, p2) = >>=-eq-ok (key_of e.payload "handoff_id") _ p1 in
      (m, closed, ap (λ (q : State). q.claims) (sym (ok_injective p2)))
