-- ===== src/Workspace/Claims.antt =====
-- The branches of `_authorize` of src/boule/workspace.py for a session, a message and a claim.
use daryxx_boule_protocol.Prelude.{
  ℕ, String, Bool, true, false, not, ◌||◌, Option, none, some, List, [], ◌∷◌, ltb, leb, ◌==◌,
}
use daryxx_boule_protocol.Python.{
  protocol, crash, Result, ok, err, ◌>>=◌, ◌>>◌, raise_if, or_crash, Dict, subset, same_set, lookup,
  has_key, keys, Value, is_text, same_value,
}
use daryxx_boule_protocol.Crypto.{Platform, load_public_key}
use daryxx_boule_protocol.Model.{required}
use daryxx_boule_protocol.Workspace.State.{Config, Session, is_open, Claim, State}
use daryxx_boule_protocol.Workspace.Fields.{
  get_or_none, checked_text, check_texts, checked_sha256, utc_time, plus_seconds, checked_evidence,
}
use daryxx_boule_protocol.Workspace.Status.{problem_status, is_solved}

abbrev pub identity : List String
identity = "problem_id" ∷ "participant_id" ∷ "session_id" ∷ []

-- `set(p) != req`
unfoldable pub exact_fields : Dict Value → List String → String → Result (Unit {0})
exact_fields p req message = raise_if (not (same_set (keys p) req)) message

-- `value in d`, after the value was checked to be a text
abbrev pub has_value {ℓ} : {V : Type ℓ} → Value → Dict V → Bool
has_value (Value.text k) d = has_key k d
has_value _ d = false

-- `d.get(value)`: a list or an object is not hashable
unfoldable pub get_value {ℓ} : {V : Type ℓ} → Value → Dict V → Result (Option V)
get_value (Value.text k) d = ok (lookup k d)
get_value (Value.arr _) d = err crash
get_value (Value.obj _) d = err crash
get_value _ d = ok none

-- 168 hours, in seconds
abbrev pub max_session_lifetime : ℕ
max_session_lifetime = 604800

abbrev pub session_fields : List String
session_fields =
    "controller_id" ∷ "controller_key" ∷ "session_key" ∷ "not_after" ∷ "policy_digest" ∷ identity

unfoldable pub check_label : Dict Value → Result (Unit {0})
check_label p = elim (lookup "label" p) [
  | none ↦ ok tt
  | some label ↦ do checked_text label "session.label" 128; ok tt
]

-- the last test of a session: `remote and not_after > now + MAX_SESSION_LIFETIME`
unfoldable pub check_lifetime : Bool → ℕ → ℕ → Result (Unit {0})
check_lifetime false now not_after = ok tt
check_lifetime true now not_after = do
  limit ← plus_seconds now max_session_lifetime
  raise_if (ltb limit not_after) "session lifetime exceeds 168 hours"

module _ (sys : Platform) (config : Config) where
  unfoldable pub authorize_session : Dict Value → String → State → ℕ → Bool → Result (Unit {0})
  unfolding check_label check_lifetime
  authorize_session p actor s now remote = do
    raise_if
        (not (subset (keys p) ("label" ∷ session_fields)) || not (subset session_fields (keys p)))
        "invalid session_started payload"
    check_texts p ("participant_id" ∷ "controller_id" ∷ "session_id" ∷ []) 128
    controller_key ← required p "controller_key"
    session_key ← required p "session_key"
    raise_if (not (is_text controller_key actor) || same_value session_key controller_key)
        "session needs its controller signature and an independent session key"
    check_label p
    load_public_key sys controller_key
    load_public_key sys session_key
    policy_digest ← required p "policy_digest"
    raise_if (not (is_text policy_digest config.policy_digest))
        "session did not assent to the frozen case policy"
    session_id ← required p "session_id"
    raise_if (has_value session_id s.sessions || has_value session_key s.session_keys)
        "duplicate session"
    limit ← required p "not_after"
    not_after ← utc_time sys limit
    raise_if (leb not_after now) "session already expired"
    check_lifetime remote now not_after

  -- the session of the actor, live and the one that the payload names
  unfoldable pub active_session : Dict Value → String → State → ℕ → Result Session
  active_session p actor s now = do
    session ← elim (lookup actor s.session_keys) [
      | none ↦ err (protocol "actor is not an active session")
      | some session_id ↦ or_crash (lookup session_id s.sessions)
    ]
    limit ← utc_time sys session.not_after
    raise_if (leb limit now) "actor is not an active session"
    raise_if
        (not (is_text (get_or_none p "session_id") session.session_id)
          || not (same_value (get_or_none p "participant_id") session.participant_id))
        "participant/session identity mismatch"
    ok session

-- the claim of a message: `None`, or a text and there
unfoldable pub check_claim_id : Value → State → Result (Unit {0})
check_claim_id Value.null s = ok tt
check_claim_id (Value.text k) s = raise_if (not (has_key k s.claims)) "message claim does not exist"
check_claim_id _ s = err (protocol "invalid message payload")

unfoldable pub authorize_message : Dict Value → State → Result (Unit {0})
unfolding check_claim_id
authorize_message p s = do
  exact_fields p ("claim_id" ∷ "topic" ∷ "body" ∷ identity) "invalid message payload"
  claim_id ← required p "claim_id"
  check_claim_id claim_id s
  check_texts p ("topic" ∷ []) 128
  check_texts p ("body" ∷ []) 1000
  ok tt

abbrev pub is_bool : Value → Bool
is_bool (Value.bool _) = true
is_bool _ = false

unfoldable pub authorize_claim : Dict Value → Session → State → Result (Unit {0})
authorize_claim p session s = do
  exact_fields p ("claim_id" ∷ "route" ∷ "success_gate" ∷ "falsifier" ∷ "parallel" ∷ identity)
      "invalid work_claimed payload"
  raise_if (is_solved (problem_status s)) "problem is not open for new work claims"
  check_texts p ("claim_id" ∷ "route" ∷ "success_gate" ∷ "falsifier" ∷ []) 1000
  raise_if (elim session.active_claim [ none ↦ false | some _ ↦ true ])
      "session already has an active claim"
  claim_id ← required p "claim_id"
  raise_if (has_value claim_id s.claims) "claim id is not unique"
  parallel ← required p "parallel"
  raise_if (not (is_bool parallel)) "parallel must be boolean"

-- the claim that the payload names, open and of the session
unfoldable pub owned_claim : Dict Value → Session → State → Result Claim
owned_claim p session s = do
  found ← get_value (get_or_none p "claim_id") s.claims
  claim ← elim found [ none ↦ err (protocol "event does not own the claim") | some c ↦ ok c ]
  raise_if (not (claim.session_id == session.session_id)) "event does not own the claim"
  raise_if (not (is_open claim.status)) "claim is no longer open"
  ok claim

unfoldable pub authorize_heartbeat : Config → Dict Value → Claim → ℕ → Result (Unit {0})
authorize_heartbeat config p claim now = do
  exact_fields p ("claim_id" ∷ "progress_digest" ∷ identity) "invalid claim_heartbeat payload"
  progress_digest ← required p "progress_digest"
  checked_sha256 progress_digest "progress_digest"
  raise_if (leb config.max_renewals claim.renewals || leb claim.absolute_deadline now)
      "claim cannot be renewed"
  ok tt

unfoldable pub authorize_checkpoint : Dict Value → Result (Unit {0})
authorize_checkpoint p = do
  exact_fields p ("claim_id" ∷ "summary" ∷ "next_action" ∷ "evidence" ∷ identity)
      "invalid checkpoint payload"
  check_texts p ("summary" ∷ "next_action" ∷ []) 500
  evidence ← required p "evidence"
  checked_evidence evidence
  ok tt

unfoldable pub authorize_release : Dict Value → Result (Unit {0})
authorize_release p = do
  exact_fields p ("claim_id" ∷ "reason" ∷ identity) "invalid release payload"
  check_texts p ("reason" ∷ []) 500
