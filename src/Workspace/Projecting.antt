-- ===== src/Workspace/Projecting.antt =====
-- What `_state_from` of src/boule/workspace.py reads of an authorized event is there, kind by kind.
use mathlib.Core.Path.{subst}
use daryxx_boule_protocol.Prelude.{
  ◌+◌, ◌≤◌, ℕ, String, ◌≡◌, refl, sym, ap, true, not, ◌||◌, Option, none, some, List, ◌∷◌,
}
use daryxx_boule_protocol.Python.{
  ok, raise_if, >>=-eq-ok, ok_injective, Dict, contains, subset, lookup, has_key, keys, Value,
  is_text, same_value,
}
use daryxx_boule_protocol.Crypto.{Platform, load_public_key}
use daryxx_boule_protocol.Model.{required, as_text}
use daryxx_boule_protocol.Workspace.State.{Config, Event, Session, ClaimStatus, Claim, State}
use daryxx_boule_protocol.Workspace.Fields.{seconds, max_instant, plus_seconds-ok, check_texts}
use daryxx_boule_protocol.Workspace.Project.{
  key_of, session_started, set_active_claim, new_claim, renewed, work_claimed, claim_heartbeat,
  close_claim, handoff_published, submission_candidate_published, external_submission_receipted,
  candidate_feedback_recorded,
}
use daryxx_boule_protocol.Workspace.Expiry.{age_claims, drop_all_expired, expire_claims}
use daryxx_boule_protocol.Workspace.Status.{problem_status, is_solved}
use daryxx_boule_protocol.Workspace.Claims.{
  check_label, exact_fields, has_value, session_fields, authorize_session, active_session,
  authorize_claim, owned_claim,
}
use daryxx_boule_protocol.Workspace.Publish.{authorize_handoff, authorize_candidate}
use daryxx_boule_protocol.Workspace.Maintain.{authorize_receipt, authorize_feedback}
use daryxx_boule_protocol.Workspace.Rule.{Owned, Shows}
use daryxx_boule_protocol.Workspace.Linked.{IsLinked}
use daryxx_boule_protocol.Workspace.Ageing.{expire_claims-Keeps, has_key-found}
use daryxx_boule_protocol.Workspace.Claiming.{lookup-age_claims}
use daryxx_boule_protocol.Workspace.Untouched.{expire_claims-Untouched, candidate_allowed}
use daryxx_boule_protocol.Workspace.Allowed.{feedback_allowed, receipt_allowed}
use daryxx_boule_protocol.Workspace.Reading.{
  Returns, checked-key_of, active_session-lem, owned_claim-lem,
}
use daryxx_boule_protocol.Workspace.Verdicts.{
  with_feedback-Returns, bound_candidate-key, receipt-key,
}

key_of-required :
    (p : Dict Value) (name : String) {t : String} → key_of p name ≡ ok t → Returns (required p name)
unfolding key_of
key_of-required p name h = let (v, is, _) = >>=-eq-ok (required p name) _ h in (v, is)

loaded_text :
    (sys : Platform) (v : Value) {raw : List ℕ}
    → load_public_key sys v ≡ ok raw
    → Returns (as_text v)
unfolding load_public_key as_text
loaded_text sys (Value.text t) h = (t, refl)
loaded_text sys _ h = cc

loaded-key_of :
    (sys : Platform) (p : Dict Value) (name : String) {v : Value} {raw : List ℕ}
    → required p name ≡ ok v
    → load_public_key sys v ≡ ok raw
    → Returns (key_of p name)
unfolding key_of
loaded-key_of sys p name {v} there loaded = rw there (loaded_text sys v loaded)

-- The fields that the start of a session reads are enough.
fields-session_started :
    (s : State) (e : Event) {id key : String} {participant limit : Value}
    → key_of e.payload "session_id" ≡ ok id
    → key_of e.payload "session_key" ≡ ok key
    → required e.payload "participant_id" ≡ ok participant
    → required e.payload "not_after" ≡ ok limit
    → Returns (session_started s e)
unfolding session_started
fields-session_started s e a b c d = rw a (rw b (rw c (rw d (_, refl))))

set_active_claim-Returns :
    (s : State) (k : String) (claim : Option String)
    → has_key k s.sessions ≡ true
    → Returns (set_active_claim s k claim)
unfolding set_active_claim
set_active_claim-Returns s k claim there =
    let (x, found) = has_key-found k s.sessions there in rw found (_, refl)

-- The leases that an event may start end before the dates do.
pub record InRange (config : Config) (e : Event) : Type 0 where
  pub lease : e.received_at + seconds config.lease_seconds ≤ max_instant
  pub absolute : e.received_at + seconds config.absolute_lease_seconds ≤ max_instant

new_claim-Returns :
    (config : Config) (claim_id session_id : String) (e : Event)
    → InRange config e
    → Returns (new_claim config claim_id session_id e)
unfolding new_claim
new_claim-Returns config claim_id session_id e fits =
    rw
      (
        plus_seconds-ok e.received_at config.absolute_lease_seconds fits.absolute,
        plus_seconds-ok e.received_at config.lease_seconds fits.lease,
      )
      (_, refl)

renewed-Returns :
    (config : Config) (e : Event) (c : Claim)
    → InRange config e
    → Returns (renewed config e.received_at c)
unfolding renewed
renewed-Returns config e c fits =
    rw (plus_seconds-ok e.received_at config.lease_seconds fits.lease) (_, refl)

module _ (sys : Platform) (config : Config) (s seen : State) (e : Event) (h : IsLinked s)
    (ages : expire_claims config e.received_at s ≡ ok seen) (fits : InRange config e) where
  session-there :
      {x : Session}
      → active_session sys config e.payload e.actor seen e.received_at ≡ ok x
      → (key_of e.payload "session_id" ≡ ok x.session_id) × (has_key x.session_id s.sessions ≡ true)
  session-there {x} a =
      let (id, at, named) = active_session-lem sys config e.payload e.actor seen e.received_at a in
      let k = expire_claims-Keeps config e.received_at s h ages in
      let there : has_key id seen.sessions ≡ true = rw (has_key, at) refl in
      (named, subst (λ q. has_key q s.sessions ≡ true) (sym (k.named id x at)) (k.back id there))

  claim-there :
      (session : Session) {claim : Claim}
      → owned_claim e.payload session seen ≡ ok claim
      → (k : String) × (key_of e.payload "claim_id" ≡ ok k)
        × (b : Claim) × (lookup k s.claims ≡ some b)
  unfolding expire_claims
  claim-there session a =
      let (k, named, at) = owned_claim-lem e.payload session seen a in
      let (d, _, is_seen) =
        >>=-eq-ok (drop_all_expired config e.received_at s.claims s.sessions) _ ages in
      let aged_claims : seen.claims ≡ age_claims config e.received_at s.claims =
        ap (λ (q : State). q.claims) (sym (ok_injective is_seen)) in
      let (b, found, _) =
        lookup-age_claims config e.received_at k s.claims (rw aged_claims at at) in
      (k, named, b, found)

  work_claimed-Returns :
      (x : Session)
      → active_session sys config e.payload e.actor seen e.received_at ≡ ok x
      → authorize_claim e.payload x seen ≡ ok tt
      → Returns (work_claimed config s e)
  unfolding work_claimed authorize_claim contains
  work_claimed-Returns x is a =
      let (named, there) = session-there is in
      let (u, _, a1) = >>=-eq-ok (exact_fields e.payload _ _) _ a in
      let (u1, _, a2) = >>=-eq-ok (raise_if (is_solved (problem_status seen)) _) _ a1 in
      let (u2, texts_there, a3) = >>=-eq-ok (check_texts e.payload _ 1000) _ a2 in
      let (k, is_k) = checked-key_of e.payload "claim_id" _ 1000 texts_there refl in
      let (c, is_new) = new_claim-Returns config k x.session_id e fits in
      rw is_k (rw named (rw is_new (set_active_claim-Returns _ x.session_id (some k) there)))

  claim_heartbeat-Returns :
      (x : Session) (claim : Claim)
      → Owned sys config seen e x claim
      → Returns (claim_heartbeat config s e)
  unfolding claim_heartbeat
  claim_heartbeat-Returns x claim owned =
      let (k, named, b, found) = claim-there x owned.is_claim in
      let (next, is_next) = renewed-Returns config e b fits in
      rw named (rw found (rw is_next (_, refl)))

  close_claim-Returns :
      (x : Session) (claim : Claim) (status : ClaimStatus)
      → Owned sys config seen e x claim
      → Returns (close_claim s e status)
  unfolding close_claim
  close_claim-Returns x claim status owned =
      let (k, named, b, found) = claim-there x owned.is_claim in
      let (id_named, there) = session-there owned.is_session in
      rw named (rw found (rw id_named (set_active_claim-Returns _ x.session_id none there)))

  handoff_published-Returns :
      (x : Session) (claim : Claim)
      → Owned sys config seen e x claim
      → authorize_handoff e.payload seen ≡ ok tt
      → Returns (handoff_published s e)
  unfolding handoff_published authorize_handoff
  handoff_published-Returns x claim owned a =
      let (m, closed) = close_claim-Returns x claim ClaimStatus.completed owned in
      let (u, _, a1) = >>=-eq-ok (exact_fields e.payload _ _) _ a in
      let (u1, _, a2) = >>=-eq-ok (check_texts e.payload _ 2000) _ a1 in
      let (k, named, a3) = >>=-eq-ok (key_of e.payload "handoff_id") _ a2 in
      rw closed (rw named (_, refl))

  candidate-Returns :
      authorize_candidate config e.payload seen ≡ ok tt
      → Returns (submission_candidate_published s e)
  unfolding submission_candidate_published
  candidate-Returns a =
      let (k, named, _) = candidate_allowed config e.payload seen a in rw named (_, refl)

  receipt-Returns :
      authorize_receipt sys config e.payload seen e.received_at ≡ ok tt
      → Returns (external_submission_receipted s e)
  unfolding external_submission_receipted
  receipt-Returns a =
      let (c, id, bound, _, _, _) = receipt_allowed sys config e.payload seen e.received_at a in
      let (k, named, at) = bound_candidate-key config e.payload seen bound in
      let same = (expire_claims-Untouched config e.received_at s ages).candidates in
      let found : lookup k s.candidates ≡ some c = subst (λ d. lookup k d ≡ some c) same at in
      let (text, is_id) = receipt-key sys config e.payload seen e.received_at a in
      rw named (rw found (rw is_id (_, refl)))

  feedback-Returns :
      authorize_feedback config e.payload seen ≡ ok tt → Returns (candidate_feedback_recorded s e)
  unfolding candidate_feedback_recorded
  feedback-Returns a =
      let (c, stage, decision, bound, at_stage, is, checked) =
        feedback_allowed config e.payload seen a in
      let (k, named, at) = bound_candidate-key config e.payload seen bound in
      let same = (expire_claims-Untouched config e.received_at s ages).candidates in
      let found : lookup k s.candidates ≡ some c = subst (λ d. lookup k d ≡ some c) same at in
      let (d, next) = with_feedback-Returns c e stage decision is checked in
      rw named (rw found (rw at_stage (rw next (_, refl))))

  session_started-Returns :
      authorize_session sys config e.payload e.actor seen e.received_at e.remote ≡ ok tt
      → Returns (session_started s e)
  unfolding authorize_session contains
  session_started-Returns a =
      let (u, _, a1) =
        >>=-eq-ok
          (raise_if
            (not (subset (keys e.payload) ("label" ∷ session_fields))
              || not (subset session_fields (keys e.payload)))
            _)
          _ a in
      let (u1, texts_there, a2) = >>=-eq-ok (check_texts e.payload _ 128) _ a1 in
      let (controller, _, a3) = >>=-eq-ok (required e.payload "controller_key") _ a2 in
      let (key, key_there, a4) = >>=-eq-ok (required e.payload "session_key") _ a3 in
      let (u2, _, a5) =
        >>=-eq-ok (raise_if (not (is_text controller e.actor) || same_value key controller) _) _
          a4 in
      let (u3, _, a6) = >>=-eq-ok (check_label e.payload) _ a5 in
      let (raw, _, a7) = >>=-eq-ok (load_public_key sys controller) _ a6 in
      let (raw1, loaded, a8) = >>=-eq-ok (load_public_key sys key) _ a7 in
      let (digest, _, a9) = >>=-eq-ok (required e.payload "policy_digest") _ a8 in
      let (u4, _, a10) = >>=-eq-ok (raise_if (not (is_text digest config.policy_digest)) _) _ a9 in
      let (id, _, a11) = >>=-eq-ok (required e.payload "session_id") _ a10 in
      let (u5, _, a12) =
        >>=-eq-ok (raise_if (has_value id seen.sessions || has_value key seen.session_keys) _) _
          a11 in
      let (limit, limit_there, a13) = >>=-eq-ok (required e.payload "not_after") _ a12 in
      let (session_id, is_id) = checked-key_of e.payload "session_id" _ 128 texts_there refl in
      let (participant, is_participant) =
        key_of-required e.payload "participant_id"
          (checked-key_of e.payload "participant_id" _ 128 texts_there refl).1 in
      let (key_text, is_key) = loaded-key_of sys e.payload "session_key" key_there loaded in
      fields-session_started s e is_id is_key is_participant limit_there

  pub Shows-values : Shows sys config seen s Returns e
  Shows-values = record {
    session_started = session_started-Returns;
    work_claimed = work_claimed-Returns;
    claim_heartbeat = λ x claim owned a. claim_heartbeat-Returns x claim owned;
    checkpoint_published = (_, refl);
    message_posted = (_, refl);
    claim_released = λ x claim owned. close_claim-Returns x claim ClaimStatus.released owned;
    handoff_published = handoff_published-Returns;
    submission_candidate_published = candidate-Returns;
    external_submission_receipted = receipt-Returns;
    candidate_feedback_recorded = feedback-Returns;
    case_resolution_recorded = λ a. (_, refl);
  }
