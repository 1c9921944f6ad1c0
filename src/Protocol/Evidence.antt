-- ===== src/Protocol/Evidence.antt =====
-- The events of `ProtocolState.apply` (src/boule/protocol.py) up to the sealing of the evidence.
use daryxx_boule_protocol.Prelude.{
  String, Bool, true, false, not, ◌||◌, Option, none, some, List, [], ◌∷◌, ◌==◌, if◌then◌else◌,
}
use daryxx_boule_protocol.Python.{
  protocol, Result, ok, err, ◌>>=◌, ◌>>◌, raise_if, or_crash, Dict, subset, same_set, lookup,
  has_key, insert, keys, Value, items, texts, is_text, is_number, same_value, text_le, sorted,
}
use daryxx_boule_protocol.Crypto.{Platform}
use daryxx_boule_protocol.Model.{
  required, Case, Reviewer, Receipt, validate_case, validate_reviewer, roster_digest,
  validate_contribution, validate_technical_receipt,
}
use daryxx_boule_protocol.Protocol.State.{
  Phase, same_phase, Recorded, State, exact_payload, not_after, contribution_ids,
  expected_evidence_root, Entry, expect_case,
}

-- `actor != key` where the key is a field that may be `None`
abbrev pub is_actor : Value → Option Value → Bool
is_actor actor none = false
is_actor actor (some key) = same_value actor key

unfoldable pub agents_of : Dict Recorded → List String
agents_of [] = []
agents_of ((k, r) ∷ contributions) = r.payload.agent_id ∷ agents_of contributions

module _ (sys : Platform) where
  unfoldable pub read_roster : List Value → Result (List Reviewer)
  read_roster [] = ok []
  read_roster (v ∷ vs) = do
    reviewer ← validate_reviewer sys v
    rest ← read_roster vs
    ok (reviewer ∷ rest)

  unfoldable pub case_opened : State → Entry → Result State
  unfolding read_roster
  case_opened s e = do
    raise_if (not (same_phase s.phase Phase.fresh) || not (is_number e.seq 0))
        "case may be opened exactly once at genesis"
    payload ← exact_payload e.payload ("clerk_key" ∷ "case" ∷ "reviewers" ∷ []) "case_opened"
    key ← required payload "clerk_key"
    raise_if (not (same_value e.actor key)) "case must be opened by its clerk"
    case ← validate_case sys (← required payload "case")
    reviewers ← required payload "reviewers"
    profiles ← elim reviewers [
      | Value.arr vs ↦ ok (items vs)
      | _ ↦ err (protocol "reviewer roster must be a list")
    ]
    roster ← read_roster profiles
    digest ← roster_digest sys roster
    raise_if (not (digest == case.review_policy.roster_digest))
        "reviewer roster does not match the frozen digest"
    ok (record s {
      case = some case;
      clerk_key = some e.actor;
      roster = roster;
      phase = Phase.active;
    })

  unfoldable pub contribution_added : State → Case → Entry → Result State
  contribution_added s case e = do
    raise_if (not (same_phase s.phase Phase.active)) "contributions are closed"
    not_after sys e.received_at case.deadlines.submission
    contribution ← validate_contribution e.payload case
    expected_actor ← or_crash (lookup contribution.agent_id case.agents)
    raise_if (not (is_text e.actor expected_actor)) "contribution signer does not match its agent"
    let contribution_id = contribution.contribution_id
    raise_if (has_key contribution_id s.contributions) "duplicate contribution ID"
    raise_if (not (subset contribution.depends_on (contribution_ids s)))
        "contribution has unknown dependencies: {sorted(missing)}"
    ok (record s {
      contributions =
          insert contribution_id (record { payload = contribution; entry_hash = e.entry_hash })
            s.contributions;
    })

  abbrev is_some : Option Receipt → Bool
  is_some none = false
  is_some (some r) = true

  unfoldable pub technical_receipt_recorded : State → Case → Entry → Result State
  technical_receipt_recorded s case e = do
    raise_if (not (same_phase s.phase Phase.active) || is_some s.technical_receipt)
        "technical receipt is duplicate or out of phase"
    not_after sys e.received_at case.deadlines.review_commit
    raise_if (not (is_text e.actor case.verifier_key))
        "technical receipt signer is not the frozen verifier"
    receipt ← validate_technical_receipt e.payload case
    ok (record s { technical_receipt = some receipt; technical_entry_hash = some e.entry_hash })

  -- `self.technical_receipt`, if its status is "pass"
  unfoldable pub passing_receipt : State → Result Receipt
  passing_receipt s = elim s.technical_receipt [
    | some receipt ↦
        if receipt.status == "pass"
        then ok receipt
        else err (protocol "evidence cannot be sealed without a passing technical receipt")
    | none ↦ err (protocol "evidence cannot be sealed without a passing technical receipt")
  ]

  abbrev root_is_set : Option String → Bool
  root_is_set none = false
  root_is_set (some r) = true

  unfoldable pub evidence_sealed : State → Case → Entry → Result State
  unfolding passing_receipt
  evidence_sealed s case e = do
    raise_if (not (same_phase s.phase Phase.active) || root_is_set s.evidence_root)
        "evidence is duplicate or out of phase"
    not_after sys e.received_at case.deadlines.review_commit
    raise_if (not (is_actor e.actor s.clerk_key)) "only the clerk can seal evidence"
    payload ←
        exact_payload e.payload
          ("case_id" ∷ "evidence_root" ∷ "contribution_ids" ∷ "technical_report_digest"
            ∷ "artifact_digest" ∷ [])
          "evidence_sealed"
    here ← expect_case payload case
    raise_if (not here) "evidence seal belongs to another case"
    receipt ← passing_receipt s
    raise_if (not (same_set (agents_of s.contributions) (keys case.agents)))
        "both agents need at least one admissible contribution"
    listed ← required payload "contribution_ids"
    raise_if (not (same_value listed (texts (sorted text_le (contribution_ids s)))))
        "evidence seal must list every contribution exactly once"
    report ← required payload "technical_report_digest"
    raise_if (not (is_text report receipt.report_digest))
        "evidence seal cites the wrong technical report"
    artifact ← required payload "artifact_digest"
    raise_if (not (is_text artifact receipt.artifact_digest))
        "evidence seal cites the wrong final artifact"
    expected_root ← expected_evidence_root sys s
    root ← required payload "evidence_root"
    raise_if (not (is_text root expected_root)) "evidence root does not match the signed transcript"
    ok (record s { evidence_root = some expected_root; phase = Phase.sealed })
