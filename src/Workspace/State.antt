-- ===== src/Workspace/State.antt =====
-- The configuration and the state of src/boule/workspace.py. The source keeps a session under its
-- id and, the same object, under its key; here the key leads to the id.
use daryxx_boule_protocol.Prelude.{ℕ, String, Bool, true, false, Option, List, [], eqb}
use daryxx_boule_protocol.Python.{Dict, Value}

-- what `_validate` checks of `problem.json` and `.boule/config.json`
pub record Config : Type 0 where
  pub problem_id : String
  pub task_id : String
  pub task_commitment : String
  pub formal_repository_pin : String
  pub maintainer_key : String
  pub lease_seconds : ℕ
  pub absolute_lease_seconds : ℕ
  pub stale_seconds : ℕ
  pub max_renewals : ℕ
  pub policy_digest : String

-- an event of the log, as `_state_from` and `_authorize` read it
pub record Event : Type 0 where
  pub event_id : String
  pub received_at : ℕ
  pub kind : String
  pub actor : String
  pub payload : Dict Value
  -- `event.get("schema") == EVENT_SCHEMA`
  pub remote : Bool

pub record Session : Type 0 where
  pub session_id : String
  pub participant_id : Value
  pub not_after : Value
  pub payload : Dict Value
  pub active_claim : Option String

pub data ClaimStatus : Type 0 where
  active stale expired released completed : ClaimStatus

abbrev pub is_open : ClaimStatus → Bool
is_open ClaimStatus.active = true
is_open ClaimStatus.stale = true
is_open _ = false

abbrev pub is_active : ClaimStatus → Bool
is_active ClaimStatus.active = true
is_active _ = false

pub record Claim : Type 0 where
  pub claim_id : String
  pub session_id : String
  pub payload : Dict Value
  pub opened_at : ℕ
  pub last_activity : ℕ
  pub deadline : ℕ
  pub absolute_deadline : ℕ
  pub renewals : ℕ
  pub status : ClaimStatus

-- an event's payload with its id and time: checkpoints, messages, feedback, submissions, resolutions
pub record Observation : Type 0 where
  pub event_id : String
  pub received_at : ℕ
  pub payload : Dict Value

pub record Handoff : Type 0 where
  pub handoff_id : String
  pub observation : Observation

pub data CandidateStatus : Type 0 where
  candidate_ready verification_pending review_pending approved rejected partial_award :
      CandidateStatus

abbrev pub status_code : CandidateStatus → ℕ
status_code CandidateStatus.candidate_ready = 0
status_code CandidateStatus.verification_pending = 1
status_code CandidateStatus.review_pending = 2
status_code CandidateStatus.approved = 3
status_code CandidateStatus.rejected = 4
status_code CandidateStatus.partial_award = 5

abbrev pub same_status : CandidateStatus → CandidateStatus → Bool
same_status a b = eqb (status_code a) (status_code b)

pub record Candidate : Type 0 where
  pub candidate_id : String
  pub observation : Observation
  pub status : CandidateStatus
  pub submission : Option Observation
  pub verifier : Option Observation
  pub review : Option Observation
  pub reward : Option Observation
  pub feedback : List Observation

pub record State : Type 0 where
  pub sessions : Dict Session
  -- from a session's key to its id
  pub session_keys : Dict String
  pub claims : Dict Claim
  pub checkpoints : List Observation
  pub messages : List Observation
  pub handoffs : List Handoff
  pub handoff_ids : List String
  pub handoffs_by_id : Dict Handoff
  pub candidates : Dict Candidate
  pub submission_ids : Dict String
  pub feedback : List Observation
  pub resolutions : List Observation

abbrev pub empty : State
empty = record {
  sessions = [];
  session_keys = [];
  claims = [];
  checkpoints = [];
  messages = [];
  handoffs = [];
  handoff_ids = [];
  handoffs_by_id = [];
  candidates = [];
  submission_ids = [];
  feedback = [];
  resolutions = [];
}
