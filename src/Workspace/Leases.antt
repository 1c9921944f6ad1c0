-- ===== src/Workspace/Leases.antt =====
-- The leases of the claims of src/boule/workspace.py.
use mathlib.Core.Path.{subst}
use daryxx_boule_protocol.Prelude.{
  ℕ, ◌+◌, ◌≤◌, ◌<◌, String, ◌≡◌, sym, ap, ◌∙◌, true, List, [], ◌∷◌, arith,
}
use daryxx_boule_protocol.Python.{
  ok, >>=-eq-ok, ok_injective, Dict, insert, AllValues, AllValues-insert, AllValues-lookup,
}
use daryxx_boule_protocol.Crypto.{Platform}
use daryxx_boule_protocol.Workspace.State.{
  Config, Event, Session, ClaimStatus, is_active, Claim, State, empty,
}
use daryxx_boule_protocol.Workspace.Fields.{plus_seconds, plus_seconds-eq-ok, seconds}
use daryxx_boule_protocol.Workspace.Project.{
  claim_of, new_claim, work_claimed, renewed_until, renewed, claim_heartbeat, close_claim,
  project_all,
}
use daryxx_boule_protocol.Workspace.Expiry.{
  aged, age_claims, drop_all_expired, expire_claims, state_from,
}
use daryxx_boule_protocol.Workspace.Claims.{authorize_heartbeat}
use daryxx_boule_protocol.Workspace.Log.{validate_events}
use daryxx_boule_protocol.Workspace.Rule.{Owned}
use daryxx_boule_protocol.Workspace.Accepted.{Keeps, log-Holds}
use daryxx_boule_protocol.Workspace.Claiming.{
  lookup-age_claims, work_claimed-claims, heartbeat-claims, close_claim-claims, owned_claim-found,
  authorize_heartbeat-room, aged-lease, session_started-claims, candidate-claims, receipt-claims,
  feedback-claims, handoff-claims,
}

-- The claim's lease is bounded: no more renewals than the configuration has, and no deadline and
-- no activity behind the absolute deadline, which the claim has had from its start.
pub record IsBounded (config : Config) (c : Claim) : Type 0 where
  pub renewals_le : c.renewals ≤ config.max_renewals
  pub deadline_le : c.deadline ≤ c.absolute_deadline
  pub activity_le : c.last_activity ≤ c.absolute_deadline
  pub absolute : c.absolute_deadline ≡ c.opened_at + seconds config.absolute_lease_seconds

abbrev pub AllBounded : Config → State → Type 0
AllBounded config s = AllValues (IsBounded config) s.claims

new_claim-IsBounded :
    (config : Config) (claim_id session_id : String) (e : Event) {c : Claim}
    → new_claim config claim_id session_id e ≡ ok c
    → IsBounded config c
unfolding new_claim claim_of
new_claim-IsBounded config claim_id session_id e p =
    let (absolute, is_absolute, p1) =
      >>=-eq-ok (plus_seconds e.received_at config.absolute_lease_seconds) _ p in
    let (limit, _, p2) = >>=-eq-ok (plus_seconds e.received_at config.lease_seconds) _ p1 in
    let at = plus_seconds-eq-ok e.received_at config.absolute_lease_seconds is_absolute in
    subst (IsBounded config) (ok_injective p2) (record {
      renewals_le = omega arith;
      deadline_le = omega arith;
      activity_le = omega (arith, at);
      absolute = at;
    })

renewed-IsBounded :
    (config : Config) (at : ℕ) (c : Claim) {next : Claim}
    → c.renewals < config.max_renewals
    → at < c.absolute_deadline
    → IsBounded config c
    → renewed config at c ≡ ok next
    → IsBounded config next
unfolding renewed renewed_until
renewed-IsBounded config at c more before h p =
    let (limit, _, p1) = >>=-eq-ok (plus_seconds at config.lease_seconds) _ p in
    subst (IsBounded config) (ok_injective p1) (record {
      renewals_le = omega (arith, more);
      deadline_le = omega arith;
      activity_le = omega (arith, before);
      absolute = h.absolute;
    })

module _ (config : Config) (s : State) (e : Event) (h : AllBounded config s) where
  same_claims : (t : State) → t.claims ≡ s.claims → AllBounded config t
  same_claims t same = subst (AllValues (IsBounded config)) (sym same) h

  one_claim :
      (t : State) (k : String) (c : Claim)
      → IsBounded config c
      → t.claims ≡ insert k c s.claims
      → AllBounded config t
  one_claim t k c b same =
      subst (AllValues (IsBounded config)) (sym same)
        (AllValues-insert (IsBounded config) k c s.claims b h)

  close_claim-AllBounded :
      (status : ClaimStatus) {t : State} → close_claim s e status ≡ ok t → AllBounded config t
  close_claim-AllBounded status {t} p =
      let (claim_id, c, found, same) = close_claim-claims config s e status p in
      let b : IsBounded config c = AllValues-lookup (IsBounded config) claim_id s.claims h found in
      one_claim t claim_id (record c { status = status })
        (record {
          renewals_le = b.renewals_le;
          deadline_le = b.deadline_le;
          activity_le = b.activity_le;
          absolute = b.absolute;
        })
        same

  work_claimed-AllBounded : {t : State} → work_claimed config s e ≡ ok t → AllBounded config t
  work_claimed-AllBounded {t} p =
      let (claim_id, session_id, c, is_new, same) = work_claimed-claims config s e p in
      one_claim t claim_id c (new_claim-IsBounded config claim_id session_id e is_new) same

  heartbeat-AllBounded :
      (sys : Platform) (seen : State) (session : Session) (claim : Claim) {t : State}
      → expire_claims config e.received_at s ≡ ok seen
      → Owned sys config seen e session claim
      → authorize_heartbeat config e.payload claim e.received_at ≡ ok tt
      → claim_heartbeat config s e ≡ ok t
      → AllBounded config t
  unfolding expire_claims
  heartbeat-AllBounded sys seen session claim {t} ages owned allowed p =
      let (claim_id, c, next, named, found, is_next, same) = heartbeat-claims config s e p in
      let in_seen = owned_claim-found e.payload session seen claim_id named owned.is_claim in
      let (sessions, _, is_seen) =
        >>=-eq-ok (drop_all_expired config e.received_at s.claims s.sessions) _ ages in
      let aged_claims : seen.claims ≡ age_claims config e.received_at s.claims =
        ap (λ (q : State). q.claims) (sym (ok_injective is_seen)) in
      let (b, found_b, is_aged) =
        lookup-age_claims config e.received_at claim_id s.claims (rw aged_claims at in_seen) in
      let is_b : b ≡ c = cc in
      let (renewals, absolute) = aged-lease config e.received_at c in
      let is_claim : aged config e.received_at c ≡ claim = rw is_b at is_aged in
      let (more, before) = authorize_heartbeat-room config e.payload claim e.received_at allowed in
      let more_c : c.renewals < config.max_renewals =
        subst (λ n. n < config.max_renewals)
          (ap (λ (q : Claim). q.renewals) (sym is_claim) ∙ renewals) more in
      let before_c : e.received_at < c.absolute_deadline =
        subst (λ n. e.received_at < n)
          (ap (λ (q : Claim). q.absolute_deadline) (sym is_claim) ∙ absolute) before in
      one_claim t claim_id next
        (renewed-IsBounded config e.received_at c more_c before_c
          (AllValues-lookup (IsBounded config) claim_id s.claims h found) is_next)
        same

-- The leases stay bounded, whatever is authorized.
keeps_bounds : (sys : Platform) (config : Config) → Keeps sys config (AllBounded config)
keeps_bounds sys config = record {
  start = tt;
  step = λ s seen e h ages. record {
    session_started = λ {t} a p. same_claims config s e h t (session_started-claims config s e p);
    work_claimed = λ session a1 a2 p. work_claimed-AllBounded config s e h p;
    claim_heartbeat = λ session claim owned a p.
        heartbeat-AllBounded config s e h sys seen session claim ages owned a p;
    checkpoint_published = h;
    message_posted = h;
    claim_released =
        λ session claim owned p. close_claim-AllBounded config s e h ClaimStatus.released p;
    handoff_published = λ session claim {t} owned a p.
        let (m, closed, same) = handoff-claims config s e p in
        subst (AllValues (IsBounded config)) (sym same)
          (close_claim-AllBounded config s e h ClaimStatus.completed closed);
    submission_candidate_published =
        λ {t} a p. same_claims config s e h t (candidate-claims config s e p);
    external_submission_receipted =
        λ {t} a p. same_claims config s e h t (receipt-claims config s e p);
    candidate_feedback_recorded =
        λ {t} a p. same_claims config s e h t (feedback-claims config s e p);
    case_resolution_recorded = λ a. h;
  };
}

-- At `now`, the claim's lease is bounded, and if the claim is active, its deadline is still to come.
pub record IsLeased (config : Config) (now : ℕ) (c : Claim) : Type 0 where
  pub bounded : IsBounded config c
  pub in_time : is_active c.status ≡ true → now < c.deadline

aged-IsLeased :
    (config : Config) (now : ℕ) (c : Claim)
    → IsBounded config c
    → IsLeased config now (aged config now c)
unfolding aged
aged-IsLeased config now c b = ground arith

age_claims-IsLeased :
    (config : Config) (now : ℕ) (d : Dict Claim)
    → AllValues (IsBounded config) d
    → AllValues (IsLeased config now) (age_claims config now d)
unfolding age_claims
age_claims-IsLeased config now [] h = tt
age_claims-IsLeased config now ((k, c) ∷ d) h =
    (aged-IsLeased config now c h.0, age_claims-IsLeased config now d h.1)

-- In the state that an accepted log projects to at any time, every claim has been renewed at most
-- `max_renewals` times, its deadline and its last activity are not behind its absolute deadline,
-- that is `absolute_lease_seconds` after its opening, and an active claim's deadline is to come.
pub state_from-IsLeased :
    (sys : Platform) (config : Config) (events : List Event) (now : ℕ) {out : List Event}
    {s : State}
    → validate_events sys config [] events ≡ ok out
    → state_from config out now ≡ ok s
    → AllValues (IsLeased config now) s.claims
unfolding state_from expire_claims
state_from-IsLeased sys config events now {out} {s} accepted projected =
    let (t, before, ages) = >>=-eq-ok (project_all config empty out) _ projected in
    let bounded =
      log-Holds sys config (AllBounded config) (keeps_bounds sys config) events accepted before in
    let (sessions, _, is_s) = >>=-eq-ok (drop_all_expired config now t.claims t.sessions) _ ages in
    subst (AllValues (IsLeased config now)) (ap (λ (q : State). q.claims) (ok_injective is_s))
      (age_claims-IsLeased config now t.claims bounded)
