-- ===== src/Tests/Panels.antt =====
-- A panel and its ballots, of src/boule/moderation.py.
use daryxx_boule_protocol.Protocol.{
  entry_of, exact_payload, require_case, not_after, contribution_ids, contribution_entries,
  expected_evidence_root, agents_of, read_roster, case_opened, contribution_added,
  technical_receipt_recorded, passing_receipt, evidence_sealed, one_of, reviewers_assigned,
  review_committed, review_commit_phase_closed, review_revealed, provisional_decision_recorded,
  apply_in_case, apply, apply_all, replay_ledger, new_session, open_session, settle, extend,
  append_entry, add_contribution, record_technical_receipt, seal_payload, seal_evidence,
  assignment_payload, assign_reviewers, commit_payload, commit_review, close_payload,
  close_review_commits, reveal_payload, reveal_review, decision_payload, finalize,
}
use daryxx_boule_protocol.Ledger.{
  event_body, entry_body, member_of, get_of, is_object, has_fields, is_named, signed_event,
  verify_event, clerk_key, last_received, last_hash, sealed_entry, append_event, create, append,
  rollback_last, verify_entry, verify_entries, verify_genesis, verify,
}
use daryxx_boule_protocol.Prelude.{String, ◌≡◌, refl, true, some, List, [], ◌∷◌, arith}
use daryxx_boule_protocol.Python.{
  ok, contains, distinct, subset, same_set, lookup, insert, keys, values, Value, items, members,
  texts, is_text, number_of, same_number, is_number, same_value, find_member, size, same_items,
  same_members, both_numbers, is_optional_text, array, of_members, is_blank, text_length,
  is_hex_text, startswith, removeprefix, text_le, sorted, insert_sorted, codes_le,
}
use daryxx_boule_protocol.Crypto.{
  canonical_bytes, digest_object, public_key_text, load_public_key, sign_object, verify_object,
  rstrip_padding, padding, encode, decode,
}
use daryxx_boule_protocol.Model.{
  required, as_text, mapping, exact_keys, text_field, integer_field, hex_digest, parse_time,
  replace_z, in_set, text_list, Reviewer, Ballot, validate_case, validate_reviewer, roster_digest,
  validate_contribution, validate_technical_receipt, validate_ballot, is_case_id, objective_texts,
  validate_objective, agent_keys, validate_agents, controller_texts, validate_controllers,
  criterion_weights, validate_criteria, validate_policy, same_times, distinct_times,
  validate_deadlines, validate_roster, agent_scores, evidence_refs, validate_finding,
  validate_scores, criterion_reviews,
}
use daryxx_boule_protocol.Moderation.{
  select_reviewers, ballot_commitment, aggregate_ballots, Decision, decision_value, seed_commitment,
  eligible, assignment_score, candidates, candidate_le, root_text, pick, unpack_pair, agent_pair,
  score, weighted, share_of, ballot_causal_share_bps, median_int, maximum, minimum, record_share,
  tally, optional_number, number_members, optional_members, when_any, spread, inconclusive_reason,
  allocation_a, conclude,
}
use daryxx_boule_protocol.Moderation.Allocation.{IsFair, aggregate_ballots-IsFair}
use daryxx_boule_protocol.Moderation.Quorum.{IsVerdict, aggregate_ballots-IsVerdict}
use daryxx_boule_protocol.Moderation.Panel.{IsPanel, select_reviewers-IsPanel}
use daryxx_boule_protocol.Tests.Toy.{toy, zeros, unary, write, read, copies}
use daryxx_boule_protocol.Tests.Cases.{text_of, the_case}
use daryxx_boule_protocol.Tests.Script.{reviewer, ballot}

abbrev scored : String → Ballot
scored key = record {
  reviewer_id = public_key_text toy key;
  decision = "decided";
  confidence_bps = 9000;
  scores =
      ("proof", ("left", 3) ∷ ("right", 1) ∷ []) ∷ ("tests", ("left", 2) ∷ ("right", 2) ∷ []) ∷ [];
  findings =
      ("proof", record { evidence_refs = "c1" ∷ []; note = "n" })
      ∷ ("tests", record { evidence_refs = "c1" ∷ []; note = "n" })
      ∷ [];
  raw = ballot key;
}

abbrev ballots : List Ballot
ballots = scored "dddd" ∷ scored "eeeee" ∷ scored "ffffff" ∷ []

abbrev decision :
    (d : Decision) × (aggregate_ballots the_case (some zeros) ballots ("c1" ∷ []) ≡ ok d)
unfolding entry_of exact_payload require_case not_after contribution_ids contribution_entries
    expected_evidence_root agents_of read_roster case_opened contribution_added
    technical_receipt_recorded passing_receipt evidence_sealed one_of reviewers_assigned
    review_committed review_commit_phase_closed review_revealed provisional_decision_recorded
    apply_in_case apply apply_all replay_ledger new_session open_session settle extend append_entry
    add_contribution record_technical_receipt seal_payload seal_evidence assignment_payload
    assign_reviewers commit_payload commit_review close_payload close_review_commits reveal_payload
    reveal_review decision_payload finalize event_body entry_body member_of get_of is_object
    has_fields is_named signed_event verify_event clerk_key last_received last_hash sealed_entry
    append_event create append rollback_last verify_entry verify_entries verify_genesis verify
    seed_commitment eligible assignment_score candidates candidate_le root_text pick
    select_reviewers ballot_commitment unpack_pair agent_pair score weighted share_of
    ballot_causal_share_bps median_int maximum minimum record_share tally optional_number
    number_members optional_members decision_value when_any spread inconclusive_reason allocation_a
    conclude aggregate_ballots required as_text mapping exact_keys text_field integer_field
    hex_digest replace_z parse_time in_set text_list is_case_id objective_texts validate_objective
    agent_keys validate_agents controller_texts validate_controllers criterion_weights
    validate_criteria validate_policy same_times distinct_times validate_deadlines validate_case
    validate_reviewer validate_roster roster_digest validate_contribution validate_technical_receipt
    agent_scores evidence_refs validate_finding validate_scores criterion_reviews validate_ballot
    rstrip_padding padding canonical_bytes digest_object encode decode public_key_text
    load_public_key sign_object verify_object contains distinct subset same_set lookup insert keys
    values items array members of_members texts is_text number_of same_number is_number
    is_optional_text both_numbers find_member size insert_sorted sorted is_blank text_length
    is_hex_text startswith removeprefix codes_le text_le unary write read copies same_value
    same_items same_members
decision = (_, refl)

abbrev two_agents : distinct (keys the_case.agents) ≡ true
unfolding distinct keys contains
two_agents = refl

aggregate_ballots-IsFair_example : IsFair the_case decision.0.allocation_bps
aggregate_ballots-IsFair_example =
    aggregate_ballots-IsFair the_case (some zeros) ballots ("c1" ∷ []) (omega arith) two_agents
      decision.1

aggregate_ballots-IsVerdict_example : IsVerdict the_case (some zeros) ("c1" ∷ []) ballots decision.0
aggregate_ballots-IsVerdict_example =
    aggregate_ballots-IsVerdict the_case (some zeros) ballots ("c1" ∷ []) decision.1

-- the first two have one controller, and the last one's controller is an agent's
abbrev roster : List Value
roster =
    reviewer "dddd" "three"
    ∷ reviewer "gg" "three"
    ∷ reviewer "eeeee" "four"
    ∷ reviewer "ffffff" "five"
    ∷ reviewer "h" "one"
    ∷ []

abbrev profiles : (rs : List Reviewer) × (validate_roster toy roster ≡ ok rs)
unfolding entry_of exact_payload require_case not_after contribution_ids contribution_entries
    expected_evidence_root agents_of read_roster case_opened contribution_added
    technical_receipt_recorded passing_receipt evidence_sealed one_of reviewers_assigned
    review_committed review_commit_phase_closed review_revealed provisional_decision_recorded
    apply_in_case apply apply_all replay_ledger new_session open_session settle extend append_entry
    add_contribution record_technical_receipt seal_payload seal_evidence assignment_payload
    assign_reviewers commit_payload commit_review close_payload close_review_commits reveal_payload
    reveal_review decision_payload finalize event_body entry_body member_of get_of is_object
    has_fields is_named signed_event verify_event clerk_key last_received last_hash sealed_entry
    append_event create append rollback_last verify_entry verify_entries verify_genesis verify
    seed_commitment eligible assignment_score candidates candidate_le root_text pick
    select_reviewers ballot_commitment unpack_pair agent_pair score weighted share_of
    ballot_causal_share_bps median_int maximum minimum record_share tally optional_number
    number_members optional_members decision_value when_any spread inconclusive_reason allocation_a
    conclude aggregate_ballots required as_text mapping exact_keys text_field integer_field
    hex_digest replace_z parse_time in_set text_list is_case_id objective_texts validate_objective
    agent_keys validate_agents controller_texts validate_controllers criterion_weights
    validate_criteria validate_policy same_times distinct_times validate_deadlines validate_case
    validate_reviewer validate_roster roster_digest validate_contribution validate_technical_receipt
    agent_scores evidence_refs validate_finding validate_scores criterion_reviews validate_ballot
    rstrip_padding padding canonical_bytes digest_object encode decode public_key_text
    load_public_key sign_object verify_object contains distinct subset same_set lookup insert keys
    values items array members of_members texts is_text number_of same_number is_number
    is_optional_text both_numbers find_member size insert_sorted sorted is_blank text_length
    is_hex_text startswith removeprefix codes_le text_le unary write read copies same_value
    same_items same_members
profiles = (_, refl)

abbrev panel :
    (selected : List String) × (select_reviewers toy the_case profiles.0
        (text_of zeros)
        (some zeros)
      ≡ ok selected)
unfolding entry_of exact_payload require_case not_after contribution_ids contribution_entries
    expected_evidence_root agents_of read_roster case_opened contribution_added
    technical_receipt_recorded passing_receipt evidence_sealed one_of reviewers_assigned
    review_committed review_commit_phase_closed review_revealed provisional_decision_recorded
    apply_in_case apply apply_all replay_ledger new_session open_session settle extend append_entry
    add_contribution record_technical_receipt seal_payload seal_evidence assignment_payload
    assign_reviewers commit_payload commit_review close_payload close_review_commits reveal_payload
    reveal_review decision_payload finalize event_body entry_body member_of get_of is_object
    has_fields is_named signed_event verify_event clerk_key last_received last_hash sealed_entry
    append_event create append rollback_last verify_entry verify_entries verify_genesis verify
    seed_commitment eligible assignment_score candidates candidate_le root_text pick
    select_reviewers ballot_commitment unpack_pair agent_pair score weighted share_of
    ballot_causal_share_bps median_int maximum minimum record_share tally optional_number
    number_members optional_members decision_value when_any spread inconclusive_reason allocation_a
    conclude aggregate_ballots required as_text mapping exact_keys text_field integer_field
    hex_digest replace_z parse_time in_set text_list is_case_id objective_texts validate_objective
    agent_keys validate_agents controller_texts validate_controllers criterion_weights
    validate_criteria validate_policy same_times distinct_times validate_deadlines validate_case
    validate_reviewer validate_roster roster_digest validate_contribution validate_technical_receipt
    agent_scores evidence_refs validate_finding validate_scores criterion_reviews validate_ballot
    rstrip_padding padding canonical_bytes digest_object encode decode public_key_text
    load_public_key sign_object verify_object contains distinct subset same_set lookup insert keys
    values items array members of_members texts is_text number_of same_number is_number
    is_optional_text both_numbers find_member size insert_sorted sorted is_blank text_length
    is_hex_text startswith removeprefix codes_le text_le unary write read copies same_value
    same_items same_members
panel = (_, refl)

select_reviewers-IsPanel_example : IsPanel toy the_case profiles.0 panel.0
select_reviewers-IsPanel_example =
    select_reviewers-IsPanel toy the_case profiles.0 (text_of zeros) (some zeros) panel.1
