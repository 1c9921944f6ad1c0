-- ===== src/Workspace/Untouched.antt =====
-- What the steps on sessions and claims of src/boule/workspace.py leave as it was: the candidates and
-- the resolutions.
use mathlib.Core.Path.{subst}
use daryxx_boule_protocol.Prelude.{
  ℕ, String, ◌≡◌, refl, inl, inr, false, Option, none, some, arith, Option-cases,
}
use daryxx_boule_protocol.Python.{
  ok, raise_if, or_crash, >>=-eq-ok, ok_injective, raise_if-eq-ok, Dict, lookup, has_key, Value,
}
use daryxx_boule_protocol.Workspace.State.{Config, Event, ClaimStatus, Candidate, State}
use daryxx_boule_protocol.Workspace.Fields.{check_texts}
use daryxx_boule_protocol.Workspace.Project.{
  key_of, session_started, set_active_claim, new_claim, work_claimed, renewed, claim_heartbeat,
  close_claim, handoff_published,
}
use daryxx_boule_protocol.Workspace.Expiry.{drop_all_expired, expire_claims}
use daryxx_boule_protocol.Workspace.Status.{problem_status, is_solved}
use daryxx_boule_protocol.Workspace.Publish.{authorize_candidate}
use daryxx_boule_protocol.Workspace.Claims.{exact_fields}

pub record Untouched (s t : State) : Type 0 where
  pub candidates : t.candidates ≡ s.candidates
  pub resolutions : t.resolutions ≡ s.resolutions

untouched : (s : State) {t u : State} → Untouched s u → ok u ≡ ok t → Untouched s t
untouched s h p = subst (Untouched s) (ok_injective p) h

set_active_claim-Untouched :
    (s : State) (session_id : String) (claim : Option String) {t : State}
    → set_active_claim s session_id claim ≡ ok t
    → Untouched s t
unfolding set_active_claim
set_active_claim-Untouched s session_id claim p =
    let (session, _, p1) = >>=-eq-ok (or_crash (lookup session_id s.sessions)) _ p in
    untouched s (record { candidates = refl; resolutions = refl }) p1

pub expire_claims-Untouched :
    (config : Config) (now : ℕ) (s : State) {t : State}
    → expire_claims config now s ≡ ok t
    → Untouched s t
unfolding expire_claims
expire_claims-Untouched config now s p =
    let (sessions, _, p1) = >>=-eq-ok (drop_all_expired config now s.claims s.sessions) _ p in
    untouched s (record { candidates = refl; resolutions = refl }) p1

module _ (config : Config) (s : State) (e : Event) where
  pub session_started-Untouched : {t : State} → session_started s e ≡ ok t → Untouched s t
  unfolding session_started
  session_started-Untouched p = ground arith

  pub work_claimed-Untouched : {t : State} → work_claimed config s e ≡ ok t → Untouched s t
  unfolding work_claimed
  work_claimed-Untouched p =
      let (claim_id, _, p1) = >>=-eq-ok (key_of e.payload "claim_id") _ p in
      let (session_id, _, p2) = >>=-eq-ok (key_of e.payload "session_id") _ p1 in
      let (c, _, p3) = >>=-eq-ok (new_claim config claim_id session_id e) _ p2 in
      let u = set_active_claim-Untouched _ session_id (some claim_id) p3 in
      record { candidates = u.candidates; resolutions = u.resolutions }

  pub claim_heartbeat-Untouched : {t : State} → claim_heartbeat config s e ≡ ok t → Untouched s t
  unfolding claim_heartbeat renewed
  claim_heartbeat-Untouched p = ground arith

  pub close_claim-Untouched :
      (status : ClaimStatus) {t : State} → close_claim s e status ≡ ok t → Untouched s t
  unfolding close_claim
  close_claim-Untouched status p =
      let (claim_id, _, p1) = >>=-eq-ok (key_of e.payload "claim_id") _ p in
      let (c, found, p2) = >>=-eq-ok (or_crash (lookup claim_id s.claims)) _ p1 in
      let (session_id, _, p3) = >>=-eq-ok (key_of e.payload "session_id") _ p2 in
      let u = set_active_claim-Untouched _ session_id none p3 in
      record { candidates = u.candidates; resolutions = u.resolutions }

  pub handoff_published-Untouched : {t : State} → handoff_published s e ≡ ok t → Untouched s t
  unfolding handoff_published
  handoff_published-Untouched p =
      let (m, closed, p1) = >>=-eq-ok (close_claim s e ClaimStatus.completed) _ p in
      let (handoff_id, _, p2) = >>=-eq-ok (key_of e.payload "handoff_id") _ p1 in
      let u = close_claim-Untouched ClaimStatus.completed closed in
      untouched s (record { candidates = u.candidates; resolutions = u.resolutions }) p2

-- A candidate is authorized under an id that is not taken.
pub candidate_allowed :
    (config : Config) (p : Dict Value) (seen : State)
    → authorize_candidate config p seen ≡ ok tt
    → (k : String) × (key_of p "candidate_id" ≡ ok k) × (lookup k seen.candidates ≡ none)
unfolding authorize_candidate
candidate_allowed config p seen a =
    let (u1, _, a1) = >>=-eq-ok (exact_fields p _ _) _ a in
    let (u2, _, a2) = >>=-eq-ok (raise_if (is_solved (problem_status seen)) _) _ a1 in
    let (u3, _, a3) = >>=-eq-ok (check_texts p _ 128) _ a2 in
    let (k, named, a4) = >>=-eq-ok (key_of p "candidate_id") _ a3 in
    let (u4, new, a5) = >>=-eq-ok (raise_if (has_key k seen.candidates) _) _ a4 in
    (k, named, not_there seen.candidates k (raise_if-eq-ok (has_key k seen.candidates) _ new))
  where
    not_there : (d : Dict Candidate) (k : String) → has_key k d ≡ false → lookup k d ≡ none
    not_there d k h = elim (Option-cases (lookup k d)) [
      | inl n ↦ n
      | inr (c, found) ↦ ground (arith, found, h)
    ]
