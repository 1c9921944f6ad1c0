-- ===== src/Tests/Script.antt =====
-- The calls that take a case of src/boule/protocol.py from its opening to the decision.
use daryxx_boule_protocol.Prelude.{ℕ, String, List, [], ◌∷◌}
use daryxx_boule_protocol.Python.{Value, object, list, texts}
use daryxx_boule_protocol.Protocol.Atomic.{Method}
use daryxx_boule_protocol.Tests.Toy.{zeros}
use daryxx_boule_protocol.Tests.Cases.{text_of, number, key_text}

abbrev pub reviewer : String → String → Value
reviewer key controller = object (
    ("reviewer_id", key_text key)
    ∷ ("controller_id", text_of controller)
    ∷ ("status", text_of "active")
    ∷ ("calibration_passes", number 1)
    ∷ ("calibration_total", number 1)
    ∷ ("reveal_rate_bps", number 10000)
    ∷ ("conflicts", list [])
    ∷ [])

abbrev pub reviewers : Value
reviewers = list (reviewer "dddd" "three" ∷ reviewer "eeeee" "four" ∷ reviewer "ffffff" "five" ∷ [])

abbrev pub contribution : String → String → List String → Value
contribution id agent depends_on = object (
    ("case_id", text_of "case-1")
    ∷ ("contribution_id", text_of id)
    ∷ ("agent_id", text_of agent)
    ∷ ("kind", text_of "idea")
    ∷ ("summary", text_of "s")
    ∷ ("artifact_digest", text_of zeros)
    ∷ ("depends_on", texts depends_on)
    ∷ ("visibility", text_of "public")
    ∷ [])

abbrev pub receipt : Value
receipt = object (
    ("case_id", text_of "case-1")
    ∷ ("artifact_digest", text_of zeros)
    ∷ ("environment_digest", text_of zeros)
    ∷ ("report_digest", text_of zeros)
    ∷ ("status", text_of "pass")
    ∷ ("mode", text_of "lean")
    ∷ ("summary", text_of "s")
    ∷ [])

abbrev pub finding : Value
finding = object (("evidence_refs", texts ("c1" ∷ [])) ∷ ("note", text_of "n") ∷ [])

abbrev pub scores : ℕ → ℕ → Value
scores a b = object (("left", number a) ∷ ("right", number b) ∷ [])

abbrev pub ballot : String → Value
ballot key = object (
    ("case_id", text_of "case-1")
    ∷ ("evidence_root", text_of zeros)
    ∷ ("reviewer_id", key_text key)
    ∷ ("decision", text_of "decided")
    ∷ ("confidence_bps", number 9000)
    ∷ ("scores", object (("proof", scores 3 1) ∷ ("tests", scores 2 2) ∷ []))
    ∷ ("findings", object (("proof", finding) ∷ ("tests", finding) ∷ []))
    ∷ [])

abbrev pub methods : List Method
methods =
    Method.add_contribution (contribution "c1" "left" []) "a" "t"
    ∷ Method.add_contribution (contribution "c2" "right" ("c1" ∷ [])) "bb" "t"
    ∷ Method.finalize "t"
    ∷ Method.record_technical_receipt receipt "ccc" "t"
    ∷ Method.seal_evidence "t"
    ∷ Method.assign_reviewers zeros "t"
    ∷ Method.commit_review (ballot "dddd") zeros "dddd" "t2"
    ∷ Method.commit_review (ballot "eeeee") zeros "eeeee" "t2"
    ∷ Method.commit_review (ballot "ffffff") zeros "ffffff" "t2"
    ∷ Method.close_review_commits "t2"
    ∷ Method.reveal_review (ballot "dddd") zeros "dddd" "t03"
    ∷ Method.reveal_review (ballot "eeeee") zeros "eeeee" "t03"
    ∷ Method.reveal_review (ballot "ffffff") zeros "ffffff" "t03"
    ∷ Method.finalize "t03"
    ∷ []
