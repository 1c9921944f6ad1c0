-- ===== src/Workspace/Publish.antt =====
-- The branches of `_authorize` of src/boule/workspace.py for a handoff and for a solution candidate.
use daryxx_boule_protocol.Prelude.{
  String, Bool, true, false, not, ◌&&◌, ◌||◌, none, some, List, [], ◌∷◌, ◌++◌, ◌==◌, if◌then◌else◌,
}
use daryxx_boule_protocol.Python.{
  protocol, crash, Result, ok, err, ◌>>=◌, ◌>>◌, raise_if, Dict, contains, subset, lookup, has_key,
  values, Value, items, members, is_text, same_value,
}
use daryxx_boule_protocol.Model.{required}
use daryxx_boule_protocol.Workspace.State.{Config, Handoff, Candidate, State}
use daryxx_boule_protocol.Workspace.Fields.{
  get_or_none, checked_text, check_texts, checked_artifact, has_pair, checked_evidence,
  unique_texts,
}
use daryxx_boule_protocol.Workspace.Project.{key_of}
use daryxx_boule_protocol.Workspace.Status.{problem_status, is_solved}
use daryxx_boule_protocol.Workspace.Claims.{identity, exact_fields}

-- a text of the list, or the message
unfoldable pub text_among : Value → List String → String → Result String
text_among (Value.text s) names message = if contains s names then ok s else err (protocol message)
text_among _ names message = err (protocol message)

-- `for citation in citations: _text(citation, ...)`
unfoldable pub check_citations : List String → Result (Unit {0})
check_citations [] = ok tt
check_citations (c ∷ cs) = do
  checked_text (Value.text c) "handoff citation" 1000
  check_citations cs

abbrev pub handoff_fields : List String
handoff_fields =
    "claim_id" ∷ "handoff_id" ∷ "outcome" ∷ "summary" ∷ "next_action" ∷ "limitations" ∷ "reproduce"
    ∷ "evidence" ∷ "depends_on" ∷ "provenance" ∷ "citations" ∷ identity

abbrev pub is_empty {ℓ} : {A : Type ℓ} → List A → Bool
is_empty [] = true
is_empty (_ ∷ _) = false

unfoldable pub authorize_handoff : Dict Value → State → Result (Unit {0})
unfolding text_among check_citations
authorize_handoff p s = do
  exact_fields p handoff_fields "invalid handoff payload"
  check_texts p ("handoff_id" ∷ "summary" ∷ "next_action" ∷ "limitations" ∷ "reproduce" ∷ []) 2000
  handoff_id ← key_of p "handoff_id"
  raise_if (contains handoff_id s.handoff_ids) "handoff id is not unique"
  an_outcome ← required p "outcome"
  outcome ←
      text_among an_outcome ("ADVANCE" ∷ "NEGATIVE" ∷ "BLOCKED" ∷ "NO_SIGNAL" ∷ [])
        "invalid handoff outcome"
  references ← required p "evidence"
  evidence ← checked_evidence references
  origin ← required p "provenance"
  provenance ←
      text_among origin ("original" ∷ "adapted" ∷ "reproduction" ∷ "unknown" ∷ [])
        "invalid handoff provenance"
  cited ← required p "citations"
  citations ← unique_texts cited (some 32) "handoff citations are invalid"
  check_citations citations
  depends_on ← required p "depends_on"
  dependencies ← unique_texts depends_on none "handoff dependencies are invalid"
  raise_if (not (subset dependencies s.handoff_ids))
      "handoff dependency must refer to an earlier handoff"
  raise_if ((outcome == "ADVANCE" || outcome == "NEGATIVE") && is_empty evidence)
      "ADVANCE and NEGATIVE handoffs require evidence"
  raise_if (outcome == "BLOCKED" && is_empty evidence && is_empty dependencies)
      "BLOCKED handoff needs evidence or an earlier dependency"
  raise_if (provenance == "original" && is_empty evidence) "original provenance requires evidence"
  ok tt

-- `value["artifact"]["sha256"]`
unfoldable pub artifact_sha256 : Dict Value → Result Value
artifact_sha256 payload = do
  artifact ← required payload "artifact"
  elim artifact [ Value.obj ms ↦ required (members ms) "sha256" | _ ↦ err crash ]

-- `any(candidate["artifact"]["sha256"] == sha256 for candidate in candidates)`
unfoldable pub is_sealed : Value → List Candidate → Result Bool
unfolding artifact_sha256
is_sealed sha256 [] = ok false
is_sealed sha256 (c ∷ cs) = do
  sealed ← artifact_sha256 c.observation.payload
  elim (same_value sealed sha256) [ true ↦ ok true | false ↦ is_sealed sha256 cs ]

-- the loop over the handoff ids
unfoldable pub linked_handoffs : List String → State → Result (List Handoff)
linked_handoffs [] s = ok []
linked_handoffs (handoff_id ∷ handoff_ids) s = do
  handoff ← elim (lookup handoff_id s.handoffs_by_id) [
    | none ↦ err (protocol "candidate dependencies must be earlier ADVANCE handoffs")
    | some h ↦ ok h
  ]
  outcome ← required handoff.observation.payload "outcome"
  raise_if (not (is_text outcome "ADVANCE"))
      "candidate dependencies must be earlier ADVANCE handoffs"
  linked ← linked_handoffs handoff_ids s
  ok (handoff ∷ linked)

-- `(item["ref"], item["sha256"]) for item in items`
unfoldable pub item_pairs : List Value → Result (List (String × String))
item_pairs [] = ok []
item_pairs (Value.obj ms ∷ rest) = do
  ref ← key_of (members ms) "ref"
  sha256 ← key_of (members ms) "sha256"
  pairs ← item_pairs rest
  ok ((ref, sha256) ∷ pairs)
item_pairs (_ ∷ rest) = err crash

-- the evidence of the handoffs, one after the other
unfoldable pub linked_evidence : List Handoff → Result (List (String × String))
unfolding item_pairs
linked_evidence [] = ok []
linked_evidence (handoff ∷ linked) = do
  evidence ← required handoff.observation.payload "evidence"
  pairs ← elim evidence [ Value.arr vs ↦ item_pairs (items vs) | _ ↦ err crash ]
  rest ← linked_evidence linked
  ok (pairs ++ rest)

-- `_task_binding`
unfoldable pub task_binding : Config → Dict Value → Result (Unit {0})
task_binding config value =
    raise_if
      (not (
        is_text (get_or_none value "task_id") config.task_id
        && is_text (get_or_none value "task_commitment") config.task_commitment
        && is_text (get_or_none value "formal_repository_pin") config.formal_repository_pin))
      "event task identity does not match the pinned problem"

abbrev pub candidate_fields : List String
candidate_fields =
    "candidate_id" ∷ "handoff_ids" ∷ "task_id" ∷ "task_commitment" ∷ "formal_repository_pin"
    ∷ "artifact" ∷ "summary" ∷ "reproduce" ∷ "limitations" ∷ identity

unfoldable pub authorize_candidate : Config → Dict Value → State → Result (Unit {0})
unfolding is_sealed linked_handoffs linked_evidence task_binding
authorize_candidate config p s = do
  exact_fields p candidate_fields "invalid submission_candidate_published payload"
  raise_if (is_solved (problem_status s)) "problem state does not accept another solution candidate"
  check_texts p ("candidate_id" ∷ []) 128
  candidate_id ← key_of p "candidate_id"
  raise_if (has_key candidate_id s.candidates) "candidate id is not unique"
  task_binding config p
  an_artifact ← required p "artifact"
  artifact ← checked_artifact an_artifact "candidate artifact"
  sealed ← is_sealed (Value.text artifact.1) (values s.candidates)
  raise_if sealed "candidate artifact is already sealed"
  check_texts p ("summary" ∷ "reproduce" ∷ "limitations" ∷ []) 2000
  dependencies ← required p "handoff_ids"
  handoff_ids ←
      unique_texts dependencies (some 32) "candidate handoff_ids must be 1 to 32 unique ids"
  raise_if (is_empty handoff_ids) "candidate handoff_ids must be 1 to 32 unique ids"
  linked ← linked_handoffs handoff_ids s
  evidence ← linked_evidence linked
  raise_if (not (has_pair artifact evidence))
      "candidate artifact must be evidence in a linked handoff"
  ok tt
