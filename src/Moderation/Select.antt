-- ===== src/Moderation/Select.antt =====
-- `seed_commitment`, `select_reviewers` and `ballot_commitment` of src/boule/moderation.py.
use daryxx_boule_protocol.Prelude.{
  ℕ, String, Bool, not, ◌&&◌, Option, none, some, List, [], ◌∷◌, ◌++◌, leb, eqb, ◌==◌,
  if◌then◌else◌, length,
}
use daryxx_boule_protocol.Python.{
  protocol, Result, ok, err, ◌>>=◌, ◌>>◌, raise_if, contains, values, Value, object, is_hex_text,
  text_le, sorted,
}
use daryxx_boule_protocol.Crypto.{Platform, digest_object}
use daryxx_boule_protocol.Model.{as_text, Case, Reviewer, validate_reviewer}

abbrev pub tagged : String → Value
tagged s = Value.text s

module _ (sys : Platform) where
  unfoldable pub seed_commitment : Value → Result String
  seed_commitment (Value.text seed) =
      if not (is_hex_text 64 seed)
      then err (protocol "review seed must be 32 bytes encoded as lowercase hex")
      else ok (
          digest_object sys
            (object (("domain", tagged "boule-review-seed-v1") ∷ ("seed", tagged seed) ∷ [])))
  seed_commitment _ = err (protocol "review seed must be 32 bytes encoded as lowercase hex")

-- the tests of `eligible`
unfoldable pub eligible : Case → Reviewer → Bool
eligible case profile =
    (profile.status == "active")
    && leb case.review_policy.min_calibration_total profile.calibration_total
    && leb case.review_policy.min_calibration_passes profile.calibration_passes
    && leb case.review_policy.min_reveal_rate_bps profile.reveal_rate_bps
    && not (contains case.case_id profile.conflicts)
    && not (contains profile.controller_id (values case.agent_controllers))

module _ (sys : Platform) where
  unfoldable pub assignment_score : Case → String → String → Reviewer → String
  assignment_score case seed evidence_root profile = digest_object sys (
      object (
        ("domain", tagged "boule-review-assignment-v1")
        ∷ ("seed", tagged seed)
        ∷ ("case_id", tagged case.case_id)
        ∷ ("evidence_root", tagged evidence_root)
        ∷ ("reviewer_id", tagged profile.reviewer_id)
        ∷ []))

  -- the loop over the roster, which validates each profile again
  unfoldable pub candidates :
      Case → String → String → List Reviewer → Result (List (String × Reviewer))
  unfolding eligible assignment_score
  candidates case seed evidence_root [] = ok []
  candidates case seed evidence_root (raw_profile ∷ roster) = do
    profile ← validate_reviewer sys raw_profile.raw
    rest ← candidates case seed evidence_root roster
    ok (
        if eligible case profile
        then (assignment_score case seed evidence_root profile, profile) ∷ rest
        else rest)

-- `sorted` by the score, then the reviewer's id
unfoldable pub candidate_le : String × Reviewer → String × Reviewer → Bool
candidate_le a b = if a.0 == b.0 then text_le a.1.reviewer_id b.1.reviewer_id else text_le a.0 b.0

-- `not isinstance(evidence_root, str) or HEX_64_RE.fullmatch(evidence_root) is None`
unfoldable pub root_text : Option String → Result String
root_text none = err (protocol "evidence root must be a SHA-256 digest")
root_text (some root) =
    if is_hex_text 64 root then ok root else err (protocol "evidence root must be a SHA-256 digest")

-- the loop over the sorted candidates, with what is selected so far; `none` when it runs out
unfoldable pub pick :
    ℕ → List (String × Reviewer) → List String → List String → Option (List String)
pick panel_size [] selected controllers = none
pick panel_size ((score, profile) ∷ sorted_candidates) selected controllers =
    let skip = pick panel_size sorted_candidates selected controllers in
    let more = selected ++ profile.reviewer_id ∷ [] in
    let go_on =
      pick panel_size sorted_candidates more (controllers ++ profile.controller_id ∷ []) in
    if contains profile.controller_id controllers
    then skip
    else if eqb (length more) panel_size
    then some more
    else go_on

module _ (sys : Platform) where
  unfoldable pub select_reviewers :
      Case → List Reviewer → Value → Option String → Result (List String)
  unfolding candidates candidate_le pick root_text
  select_reviewers case roster seed_value evidence_root = do
    commitment ← seed_commitment sys seed_value
    seed ← as_text seed_value
    raise_if (not (commitment == case.review_policy.seed_commitment))
        "review seed does not match the case commitment"
    root ← root_text evidence_root
    scored ← candidates sys case seed root roster
    elim (pick case.review_policy.panel_size (sorted candidate_le scored) [] []) [
      | some selected ↦ ok selected
      | none ↦ err (protocol "eligible independent reviewer pool cannot fill the frozen panel")
    ]

  -- the salt is checked before anything is hashed
  unfoldable pub ballot_commitment : Value → Value → Result String
  ballot_commitment ballot (Value.text salt) =
      if not (is_hex_text 64 salt)
      then err (protocol "ballot salt must be 32 bytes encoded as lowercase hex")
      else ok (
          digest_object sys (
            object (
              ("domain", tagged "boule-ballot-commit-v1")
              ∷ ("ballot", ballot)
              ∷ ("salt", tagged salt)
              ∷ [])))
  ballot_commitment ballot _ =
      err (protocol "ballot salt must be 32 bytes encoded as lowercase hex")
