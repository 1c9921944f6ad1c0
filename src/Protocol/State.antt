-- ===== src/Protocol/State.antt =====
-- The fields of `ProtocolState` (src/boule/protocol.py) and what its handlers share.
use daryxx_boule_protocol.Prelude.{
  ℕ, String, Bool, false, ◌&&◌, Option, none, some, List, [], ◌∷◌, ltb, eqb, if◌then◌else◌,
}
use daryxx_boule_protocol.Python.{
  protocol, invalid, Result, ok, err, ◌>>=◌, raise_if, Dict, same_set, keys, Value, members, object,
  list, is_text, is_optional_text, text_le, sorted,
}
use daryxx_boule_protocol.Crypto.{Platform, digest_object}
use daryxx_boule_protocol.Model.{
  required, parse_time, Case, Reviewer, Contribution, Receipt, Ballot,
}
use daryxx_boule_protocol.Moderation.{Decision}
use daryxx_boule_protocol.Ledger.{member_of}

-- `self.phase`
pub data Phase : Type 0 where
  fresh active sealed reviewing provisional : Phase

abbrev pub phase_code : Phase → ℕ
phase_code Phase.fresh = 0
phase_code Phase.active = 1
phase_code Phase.sealed = 2
phase_code Phase.reviewing = 3
phase_code Phase.provisional = 4

abbrev pub same_phase : Phase → Phase → Bool
same_phase p q = eqb (phase_code p) (phase_code q)

-- an item of `self.contributions`
pub record Recorded : Type 0 where
  pub payload : Contribution
  pub entry_hash : Value

pub record State : Type 0 where
  pub case : Option Case
  pub clerk_key : Option Value
  pub roster : List Reviewer
  pub phase : Phase
  pub contributions : Dict Recorded
  pub technical_receipt : Option Receipt
  pub technical_entry_hash : Option Value
  pub evidence_root : Option String
  pub assigned_reviewers : List String
  pub review_commits : Dict String
  pub commits_closed : Bool
  pub ballots : Dict Ballot
  pub decision : Option Decision

-- `ProtocolState()`
abbrev pub initial : State
initial = record {
  case = none;
  clerk_key = none;
  roster = [];
  phase = Phase.fresh;
  contributions = [];
  technical_receipt = none;
  technical_entry_hash = none;
  evidence_root = none;
  assigned_reviewers = [];
  review_commits = [];
  commits_closed = false;
  ballots = [];
  decision = none;
}

-- what `apply` reads of an entry
pub record Entry : Type 0 where
  pub seq : Value
  pub kind : Value
  pub actor : Value
  pub payload : Value
  pub received_at : Value
  pub entry_hash : Value

unfoldable pub entry_of : Value → Result Entry
entry_of entry = do
  event ← member_of entry "event"
  kind ← member_of event "kind"
  actor ← member_of event "actor"
  payload ← member_of event "payload"
  received_at ← member_of entry "received_at"
  seq ← member_of entry "seq"
  entry_hash ← member_of entry "entry_hash"
  ok (record {
    seq = seq;
    kind = kind;
    actor = actor;
    payload = payload;
    received_at = received_at;
    entry_hash = entry_hash;
  })

-- `_exact_payload`
unfoldable pub exact_payload : Value → List String → String → Result (Dict Value)
exact_payload (Value.obj ms) fields name =
    if same_set (keys (members ms)) fields
    then ok (members ms)
    else err (invalid "{name} payload has invalid fields" name)
exact_payload _ fields name = err (invalid "{name} payload has invalid fields" name)

-- `_require_case`
unfoldable pub require_case : State → Result Case
require_case s = elim s.case [ some case ↦ ok case | none ↦ err (protocol "case is not open") ]

-- `_before_or_at`, with the deadline's instant
unfoldable pub not_after : Platform → Value → ℕ → Result (Unit {0})
not_after sys received_at deadline = do
  received ← parse_time sys received_at "entry.received_at"
  raise_if (ltb deadline received) "event arrived after the {deadline} deadline"

unfoldable pub contribution_ids : State → List String
contribution_ids s = keys s.contributions

-- the lines `{"contribution_id": ..., "entry_hash": ...}` of the evidence root
unfoldable pub contribution_entries : Dict Recorded → List Value
contribution_entries [] = []
contribution_entries ((contribution_id, r) ∷ contributions) =
    object (("contribution_id", Value.text contribution_id) ∷ ("entry_hash", r.entry_hash) ∷ [])
    ∷ contribution_entries contributions

abbrev item_le : String × Recorded → String × Recorded → Bool
item_le a b = text_le a.0 b.0

unfoldable pub expected_evidence_root : Platform → State → Result String
unfolding contribution_entries
expected_evidence_root sys s = do
  case ← require_case s
  technical ← elim s.technical_entry_hash [
    | some hash ↦ ok hash
    | none ↦ err (protocol "technical receipt is missing")
  ]
  ok (
      digest_object sys (
        object (
          ("domain", Value.text "boule-evidence-root-v1")
          ∷ ("case_id", Value.text case.case_id)
          ∷ ("contributions", list (contribution_entries (sorted item_le s.contributions)))
          ∷ ("technical_receipt_entry_hash", technical)
          ∷ [])))

-- the payload names this case, and this evidence
abbrev pub expect_case : Dict Value → Case → Result Bool
expect_case payload case = do value ← required payload "case_id"; ok (is_text value case.case_id)

abbrev pub expect_root : Dict Value → Case → State → Result Bool
expect_root payload case s = do
  here ← expect_case payload case
  value ← required payload "evidence_root"
  ok (here && is_optional_text value s.evidence_root)
