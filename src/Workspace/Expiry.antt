-- ===== src/Workspace/Expiry.antt =====
-- The end of `_state_from` of src/boule/workspace.py: the leases that have run out, or gone stale, at
-- the time of the question.
use daryxx_boule_protocol.Prelude.{
  ℕ, ◌+◌, false, ◌&&◌, none, some, List, [], ◌∷◌, leb, ◌==◌, if◌then◌else◌,
}
use daryxx_boule_protocol.Python.{Result, ok, ◌>>=◌, or_crash, Dict, lookup, insert}
use daryxx_boule_protocol.Workspace.State.{
  Config, Event, Session, ClaimStatus, is_active, Claim, State, empty,
}
use daryxx_boule_protocol.Workspace.Fields.{seconds}
use daryxx_boule_protocol.Workspace.Project.{project_all}

-- what has become of a claim at `now`
unfoldable pub aged : Config → ℕ → Claim → Claim
aged config now c =
    if is_active c.status
    then if leb c.deadline now
      then record c { status = ClaimStatus.expired }
      else if leb (c.last_activity + seconds config.stale_seconds) now
      then record c { status = ClaimStatus.stale }
      else c
    else c

abbrev pub without_claim : Claim → Dict Session → Session → Result (Dict Session)
without_claim c sessions session = ok (
    if elim session.active_claim [ none ↦ false | some claim ↦ claim == c.claim_id ]
    then insert c.session_id (record session { active_claim = none }) sessions
    else sessions)

-- the expiry of one claim takes it from its session, if it is the session's active one
unfoldable pub drop_expired : Config → ℕ → Claim → Dict Session → Result (Dict Session)
drop_expired config now c sessions =
    if is_active c.status && leb c.deadline now
    then or_crash (lookup c.session_id sessions) >>= without_claim c sessions
    else ok sessions

unfoldable pub age_claims : Config → ℕ → Dict Claim → Dict Claim
age_claims config now [] = []
age_claims config now ((k, c) ∷ claims) = (k, aged config now c) ∷ age_claims config now claims

unfoldable pub drop_all_expired : Config → ℕ → Dict Claim → Dict Session → Result (Dict Session)
drop_all_expired config now [] sessions = ok sessions
drop_all_expired config now ((k, c) ∷ claims) sessions = do
  next ← drop_expired config now c sessions
  drop_all_expired config now claims next

-- the loop over the claims at the end of `_state_from`; the claims and the sessions that it changes
-- are apart, and a claim is changed in its own round only
unfoldable pub expire_claims : Config → ℕ → State → Result State
unfolding age_claims aged drop_all_expired drop_expired
expire_claims config now s = do
  sessions ← drop_all_expired config now s.claims s.sessions
  ok (record s { claims = age_claims config now s.claims; sessions = sessions })

-- `_state_from`
unfoldable pub state_from : Config → List Event → ℕ → Result State
state_from config events now = do s ← project_all config empty events; expire_claims config now s
