-- ===== src/Tests/Runs.antt =====
-- A session of src/boule/protocol.py, from the opening of a case to the decision.
use daryxx_boule_protocol.Prelude.{String, ◌≡◌, refl, Option, none, some, List, [], ◌∷◌, take}
use daryxx_boule_protocol.Python.{
  Error, ok, err, contains, distinct, subset, same_set, lookup, insert, keys, values, Value, items,
  members, texts, is_text, number_of, same_number, is_number, same_value, find_member, size,
  same_items, same_members, both_numbers, is_optional_text, array, of_members, is_blank,
  text_length, is_hex_text, startswith, removeprefix, text_le, sorted, insert_sorted, codes_le,
}
use daryxx_boule_protocol.Crypto.{
  canonical_bytes, digest_object, public_key_text, load_public_key, sign_object, verify_object,
  rstrip_padding, padding, encode, decode,
}
use daryxx_boule_protocol.Model.{
  required, as_text, mapping, exact_keys, text_field, integer_field, hex_digest, parse_time,
  replace_z, in_set, text_list, validate_case, validate_reviewer, roster_digest,
  validate_contribution, validate_technical_receipt, validate_ballot, is_case_id, objective_texts,
  validate_objective, agent_keys, validate_agents, controller_texts, validate_controllers,
  criterion_weights, validate_criteria, validate_policy, same_times, distinct_times,
  validate_deadlines, validate_roster, agent_scores, evidence_refs, validate_finding,
  validate_scores, criterion_reviews,
}
use daryxx_boule_protocol.Moderation.{
  select_reviewers, ballot_commitment, aggregate_ballots, Decision, decision_value, seed_commitment,
  eligible, assignment_score, candidates, candidate_le, root_text, pick, unpack_pair, agent_pair,
  score, weighted, share_of, ballot_causal_share_bps, median_int, maximum, minimum, record_share,
  tally, optional_number, number_members, optional_members, when_any, spread, inconclusive_reason,
  allocation_a, conclude,
}
use daryxx_boule_protocol.Ledger.{
  event_body, entry_body, member_of, get_of, is_object, has_fields, is_named, signed_event,
  verify_event, clerk_key, create, append, rollback_last, Cursor, verify_entry, verify_entries,
  verify_genesis, verify, last_received, last_hash, sealed_entry, append_event,
}
use daryxx_boule_protocol.Protocol.{
  initial, entry_of, exact_payload, require_case, not_after, contribution_ids, contribution_entries,
  expected_evidence_root, agents_of, read_roster, case_opened, contribution_added,
  technical_receipt_recorded, passing_receipt, evidence_sealed, one_of, reviewers_assigned,
  review_committed, review_commit_phase_closed, review_revealed, provisional_decision_recorded,
  apply_in_case, apply, apply_all, replay_ledger, new_session, open_session, settle, extend,
  append_entry, add_contribution, record_technical_receipt, seal_payload, seal_evidence,
  assignment_payload, assign_reviewers, commit_payload, commit_review, close_payload,
  close_review_commits, reveal_payload, reveal_review, decision_payload, finalize,
}
use daryxx_boule_protocol.Protocol.Atomic.{Method, call, call_all}
use daryxx_boule_protocol.Tests.Toy.{toy, unary, write, read, copies}
use daryxx_boule_protocol.Tests.Cases.{case_value}
use daryxx_boule_protocol.Tests.Script.{reviewers, contribution, methods}

abbrev pub opened : (s : _) × (open_session toy case_value reviewers "k" "t" ≡ ok s)
unfolding entry_of exact_payload require_case not_after contribution_ids contribution_entries
    expected_evidence_root agents_of read_roster case_opened contribution_added
    technical_receipt_recorded passing_receipt evidence_sealed one_of reviewers_assigned
    review_committed review_commit_phase_closed review_revealed provisional_decision_recorded
    apply_in_case apply apply_all replay_ledger new_session open_session settle extend append_entry
    add_contribution record_technical_receipt seal_payload seal_evidence assignment_payload
    assign_reviewers commit_payload commit_review close_payload close_review_commits reveal_payload
    reveal_review decision_payload finalize event_body entry_body member_of get_of is_object
    has_fields is_named signed_event verify_event clerk_key last_received last_hash sealed_entry
    append_event create append rollback_last verify_entry verify_entries verify_genesis verify
    seed_commitment eligible assignment_score candidates candidate_le root_text pick
    select_reviewers ballot_commitment unpack_pair agent_pair score weighted share_of
    ballot_causal_share_bps median_int maximum minimum record_share tally optional_number
    number_members optional_members decision_value when_any spread inconclusive_reason allocation_a
    conclude aggregate_ballots required as_text mapping exact_keys text_field integer_field
    hex_digest replace_z parse_time in_set text_list is_case_id objective_texts validate_objective
    agent_keys validate_agents controller_texts validate_controllers criterion_weights
    validate_criteria validate_policy same_times distinct_times validate_deadlines validate_case
    validate_reviewer validate_roster roster_digest validate_contribution validate_technical_receipt
    agent_scores evidence_refs validate_finding validate_scores criterion_reviews validate_ballot
    rstrip_padding padding canonical_bytes digest_object encode decode public_key_text
    load_public_key sign_object verify_object contains distinct subset same_set lookup insert keys
    values items array members of_members texts is_text number_of same_number is_number
    is_optional_text both_numbers find_member size insert_sorted sorted is_blank text_length
    is_hex_text startswith removeprefix codes_le text_le unary write read copies same_value
    same_items same_members
opened = (_, refl)

-- the session after the first contribution
abbrev pub first_call : (s : _) × (call_all toy (take 1 methods) opened.0 ≡ s)
first_call = (call_all toy (take 1 methods) opened.0, refl)

abbrev pub first_entry : Value
first_entry = elim opened.0.ledger [ [] ↦ Value.null | e ∷ _ ↦ e ]

abbrev pub second : Value
second = contribution "c2" "right" ("c1" ∷ [])

-- What some single steps give: the ledger's creation, the first entry, the second contribution, a
-- ledger's verification, and a call that comes too early.
abbrev pub steps :
    (entries : List Value) × (create toy case_value reviewers "k" "t" ≡ ok entries)
    × (s : _) × (apply toy initial first_entry ≡ ok s)
    × (out : List Value × Value) × (append toy first_call.0.ledger "contribution_added" second "bb"
          "k" "t"
        ≡ ok out)
    × (next : _) × (apply toy first_call.0.state out.1 ≡ ok next)
    × (c : Cursor) × (verify toy first_call.0.ledger ≡ ok c)
    × (e : Error) × ((call toy (Method.finalize "t") opened.0).0 ≡ err e)
unfolding entry_of exact_payload require_case not_after contribution_ids contribution_entries
    expected_evidence_root agents_of read_roster case_opened contribution_added
    technical_receipt_recorded passing_receipt evidence_sealed one_of reviewers_assigned
    review_committed review_commit_phase_closed review_revealed provisional_decision_recorded
    apply_in_case apply apply_all replay_ledger new_session open_session settle extend append_entry
    add_contribution record_technical_receipt seal_payload seal_evidence assignment_payload
    assign_reviewers commit_payload commit_review close_payload close_review_commits reveal_payload
    reveal_review decision_payload finalize event_body entry_body member_of get_of is_object
    has_fields is_named signed_event verify_event clerk_key last_received last_hash sealed_entry
    append_event create append rollback_last verify_entry verify_entries verify_genesis verify
    seed_commitment eligible assignment_score candidates candidate_le root_text pick
    select_reviewers ballot_commitment unpack_pair agent_pair score weighted share_of
    ballot_causal_share_bps median_int maximum minimum record_share tally optional_number
    number_members optional_members decision_value when_any spread inconclusive_reason allocation_a
    conclude aggregate_ballots required as_text mapping exact_keys text_field integer_field
    hex_digest replace_z parse_time in_set text_list is_case_id objective_texts validate_objective
    agent_keys validate_agents controller_texts validate_controllers criterion_weights
    validate_criteria validate_policy same_times distinct_times validate_deadlines validate_case
    validate_reviewer validate_roster roster_digest validate_contribution validate_technical_receipt
    agent_scores evidence_refs validate_finding validate_scores criterion_reviews validate_ballot
    rstrip_padding padding canonical_bytes digest_object encode decode public_key_text
    load_public_key sign_object verify_object contains distinct subset same_set lookup insert keys
    values items array members of_members texts is_text number_of same_number is_number
    is_optional_text both_numbers find_member size insert_sorted sorted is_blank text_length
    is_hex_text startswith removeprefix codes_le text_le unary write read copies same_value
    same_items same_members call call_all
steps = (_, refl, _, refl, _, refl, _, refl, _, refl, _, refl)

abbrev status_of : Option Decision → String
status_of none = ""
status_of (some d) = d.status

-- The run comes to a decision.
run_decides : status_of (call_all toy methods opened.0).state.decision ≡ "decided"
unfolding entry_of exact_payload require_case not_after contribution_ids contribution_entries
    expected_evidence_root agents_of read_roster case_opened contribution_added
    technical_receipt_recorded passing_receipt evidence_sealed one_of reviewers_assigned
    review_committed review_commit_phase_closed review_revealed provisional_decision_recorded
    apply_in_case apply apply_all replay_ledger new_session open_session settle extend append_entry
    add_contribution record_technical_receipt seal_payload seal_evidence assignment_payload
    assign_reviewers commit_payload commit_review close_payload close_review_commits reveal_payload
    reveal_review decision_payload finalize event_body entry_body member_of get_of is_object
    has_fields is_named signed_event verify_event clerk_key last_received last_hash sealed_entry
    append_event create append rollback_last verify_entry verify_entries verify_genesis verify
    seed_commitment eligible assignment_score candidates candidate_le root_text pick
    select_reviewers ballot_commitment unpack_pair agent_pair score weighted share_of
    ballot_causal_share_bps median_int maximum minimum record_share tally optional_number
    number_members optional_members decision_value when_any spread inconclusive_reason allocation_a
    conclude aggregate_ballots required as_text mapping exact_keys text_field integer_field
    hex_digest replace_z parse_time in_set text_list is_case_id objective_texts validate_objective
    agent_keys validate_agents controller_texts validate_controllers criterion_weights
    validate_criteria validate_policy same_times distinct_times validate_deadlines validate_case
    validate_reviewer validate_roster roster_digest validate_contribution validate_technical_receipt
    agent_scores evidence_refs validate_finding validate_scores criterion_reviews validate_ballot
    rstrip_padding padding canonical_bytes digest_object encode decode public_key_text
    load_public_key sign_object verify_object contains distinct subset same_set lookup insert keys
    values items array members of_members texts is_text number_of same_number is_number
    is_optional_text both_numbers find_member size insert_sorted sorted is_blank text_length
    is_hex_text startswith removeprefix codes_le text_le unary write read copies same_value
    same_items same_members call call_all
run_decides = refl
