-- ===== src/Tests/Remotes.antt =====
-- Envelopes, receipts and chain proofs of a log of src/boule/workspace.py with one event.
use daryxx_boule_protocol.Prelude.{
  ◌++◌, ℕ, String, ◌≡◌, refl, true, false, Option, none, some, List, [], ◌∷◌, arith, last?, length,
  ◌==◌,
}
use daryxx_boule_protocol.Python.{
  ok, err, Value, Members, ℤ, object, optional_text, request_conflict,
}
use daryxx_boule_protocol.Python.{
  contains, distinct, subset, same_set, lookup, insert, keys, values, items, array, members,
  of_members, texts, is_text, number_of, same_number, is_number, is_optional_text, both_numbers,
  find_member, size, same_value, same_items, same_members, is_blank, text_length, is_hex_text,
  startswith, removeprefix, codes_le, text_le, is_sha256, is_uuid_at, ends_with_z,
}
use daryxx_boule_protocol.Crypto.{
  rstrip_padding, padding, canonical_bytes, digest_object, encode, decode, public_key_text,
  load_public_key, sign_object, verify_object,
}
use daryxx_boule_protocol.Model.{
  required, as_text, mapping, exact_keys, text_field, integer_field, hex_digest, replace_z,
  parse_time, in_set, text_list,
}
use daryxx_boule_protocol.Ledger.{
  event_body, entry_body, member_of, get_of, is_object, has_fields, is_named, signed_event,
  verify_event,
}
use daryxx_boule_protocol.Remote.{
  canonical_uuid, event_hash, present_hash, sha256_digest, prefixed_digest, int_of, natural,
  without_signature, unsigned, unsigned_of, signed, checked_utc_time, select, envelope_unsigned,
  as_authentication, is_one_of, check_envelope_target, check_envelope_event, build_envelope,
  check_envelope_signature, verify_envelope, envelope_digest, receipt_unsigned, sequence,
  is_sequence, receipt_of, build_receipt, expects_request, expects_envelope, verify_receipt,
  snapshot_unsigned, is_count, snapshot_of, build_snapshot, verify_snapshot, chain_proof_unsigned,
  plus, distance, is_int, continues, build_links, verify_link, verify_links, has_range, as_list,
  as_int, is_valid_start, chain_proof_of, matches_request, build_chain_proof, verify_chain_proof,
}
use daryxx_boule_protocol.Workspace.{
  file_name, get_or_none, checked_text, check_texts, checked_sha256, checked_uuid, utc_time,
  reference, checked_artifact, has_pair, evidence_items, checked_evidence, unique_texts, key_of,
  session_started, set_active_claim, plus_seconds, claim_of, new_claim, work_claimed, renewed_until,
  renewed, claim_heartbeat, close_claim, handoff_published, submission_candidate_published,
  external_submission_receipted, verifier_feedback, reviewed, review_feedback, with_feedback,
  candidate_feedback_recorded, project_kind, project_event, project_all, aged, drop_expired,
  age_claims, drop_all_expired, expire_claims, state_from, exact_fields, get_value, check_label,
  check_lifetime, authorize_session, active_session, check_claim_id, authorize_message,
  authorize_claim, owned_claim, authorize_heartbeat, authorize_checkpoint, authorize_release,
  authorize_on_claim, authorize_in_session, authorize, authorize_maintainer, authorize_event,
  validate_event, validate_events, begins, replace_offset, stamp, digit, digits, decimal, zeros,
  padded, prefix, event_id_of, is_at, as_dict, same_fields, check_place, check_shape, logged_of,
  verify_legacy, envelope_of, check_remote, check_ordered, verify_remote, verify_contents,
  read_event, read_events, formatted, is_null, answers, logged_before, hash_of, events_of,
  not_before, core_of, unless, verify_maintainer_receipt, guard_receipt, guard_receipts,
  load_events, ordered_event, answer_again, authorize_envelope, order_envelope, append_envelope,
  remote_receipt, remote_chain_proof,
}
use daryxx_boule_protocol.Tests.Toy.{unary, write, read, copies}
use daryxx_boule_protocol.Tests.Clocked.{ticks, ticked, written, two_digests}
use daryxx_boule_protocol.Workspace.{Config, Appended, Logged, participant_events}
use daryxx_boule_protocol.Workspace.Clerk.Answers.{IsKept}
use daryxx_boule_protocol.Workspace.Clerk.Keeping.{append_envelope-IsKept}
use daryxx_boule_protocol.Workspace.Clerk.Fetching.{remote_receipt-append_envelope}
use daryxx_boule_protocol.Workspace.Clerk.Naming.{text_le-file_name}
use daryxx_boule_protocol.Workspace.Clerk.Repeated.{append_envelope-again, append_envelope-conflict}
use daryxx_boule_protocol.Workspace.Clerk.Proofs.{remote_chain_proof-Returns}
use daryxx_boule_protocol.Remote.Proofs.{verify_chain_proof-build_chain_proof}
use daryxx_boule_protocol.Remote.Extended.{Extends, verify_chain_proof-Extends}
use daryxx_boule_protocol.Remote.Joins.{IsJoined, verify_chain_proof-IsJoined}
use daryxx_boule_protocol.Remote.Building.{verify_envelope-build_envelope}
use daryxx_boule_protocol.Workspace.Clerk.Snapped.{verify_snapshot-build_snapshot}
use daryxx_boule_protocol.Tests.Clocked.{clocked, clocked-IsSound, clocked-IsStandard}
use daryxx_boule_protocol.Tests.Cases.{text_of}

abbrev clerk : String
clerk = public_key_text clocked "k"

abbrev config : Config
config = record {
  problem_id = "p";
  task_id = "task";
  task_commitment = "commitment";
  formal_repository_pin = "pin";
  maintainer_key = clerk;
  lease_seconds = 60;
  absolute_lease_seconds = 600;
  stale_seconds = 30;
  max_renewals = 2;
  policy_digest = "policy";
}

abbrev request : String
request = "00000000-0000-0000-0000-000000000000"

abbrev payload : Members
payload = of_members (
    ("problem_id", text_of "p")
    ∷ ("participant_id", text_of "alice")
    ∷ ("controller_id", text_of "controller")
    ∷ ("controller_key", text_of (public_key_text clocked "a"))
    ∷ ("session_id", text_of "s1")
    ∷ ("session_key", text_of (public_key_text clocked "bb"))
    ∷ ("not_after", text_of "bbbbbbbbbZ")
    ∷ ("policy_digest", text_of "policy")
    ∷ [])

abbrev second_payload : Members
second_payload = of_members (
    ("problem_id", text_of "p")
    ∷ ("participant_id", text_of "bob")
    ∷ ("controller_id", text_of "controller")
    ∷ ("controller_key", text_of (public_key_text clocked "ccc"))
    ∷ ("session_id", text_of "s2")
    ∷ ("session_key", text_of (public_key_text clocked "dddd"))
    ∷ ("not_after", text_of "bbbbbbbbbZ")
    ∷ ("policy_digest", text_of "policy")
    ∷ [])

abbrev event_at : ℕ → Option String → String → Value
event_at seq prev hash = object (
    ("seq", Value.int (ℤ.pos seq))
    ∷ ("prev_event_hash", optional_text prev)
    ∷ ("event_hash", text_of hash)
    ∷ [])

abbrev hash_a : String
hash_a = "aaaaaaaaaaaaaaaaaaaaaaaaaaaaaaaaaaaaaaaaaaaaaaaaaaaaaaaaaaaaaaaa"

abbrev hash_b : String
hash_b = "bbbbbbbbbbbbbbbbbbbbbbbbbbbbbbbbbbbbbbbbbbbbbbbbbbbbbbbbbbbbbbbb"

abbrev state : Members
state = of_members (("problem_id", text_of "p") ∷ [])

abbrev other_request : String
other_request = "11111111-1111-1111-1111-111111111111"

-- an envelope and its answer, another one with the same request id, and the next one and its answer
abbrev runs :
    (built : Value) × (build_envelope clocked request "p" clerk none "session_started"
        (Value.obj payload)
        "a"
      ≡ ok built)
    × (a : Appended) × (append_envelope clocked config
          (some built)
          "k"
          (record { instant = 1; aware = true })
          []
          []
        ≡ ok a)
    × (a.created ≡ true)
    × (repeated : Value) × (build_envelope clocked request "p" clerk none "work_claimed"
          (Value.obj payload)
          "a"
        ≡ ok repeated)
    × (out : Value) × (verify_envelope clocked repeated "p" clerk participant_events ≡ ok out)
    × (events : List Logged) × (load_events clocked config a.events [] ≡ ok events)
    × (length events ≡ 1)
    × (next : Value) × (build_envelope clocked other_request "p" clerk
          (hash_of (last? events))
          "session_started"
          (Value.obj second_payload)
          "ccc"
        ≡ ok next)
    × (b : Appended) × (append_envelope clocked config
          (some next)
          "k"
          (record { instant = 2; aware = true })
          a.events
          []
        ≡ ok b)
    × (b.created ≡ true)
    × (later : List Logged) × (load_events clocked config (a.events ++ b.event ∷ []) [] ≡ ok later)
    × (length later ≡ 2)
    × ((envelope_digest clocked built == envelope_digest clocked repeated) ≡ false)
    × (member_of built "request_id" ≡ ok (Value.text request))
    × (member_of repeated "request_id" ≡ ok (Value.text request))
unfolding contains distinct subset same_set lookup insert keys values items array members of_members
    texts is_text number_of same_number is_number is_optional_text both_numbers find_member size
    same_value same_items same_members is_blank text_length is_hex_text startswith removeprefix
    codes_le text_le is_sha256 is_uuid_at ends_with_z rstrip_padding padding canonical_bytes
    digest_object encode decode public_key_text load_public_key sign_object verify_object required
    as_text mapping exact_keys text_field integer_field hex_digest replace_z parse_time in_set
    text_list event_body entry_body member_of get_of is_object has_fields is_named signed_event
    verify_event canonical_uuid event_hash present_hash sha256_digest prefixed_digest int_of natural
    without_signature unsigned unsigned_of signed checked_utc_time select envelope_unsigned
    as_authentication is_one_of check_envelope_target check_envelope_event build_envelope
    check_envelope_signature verify_envelope envelope_digest receipt_unsigned sequence is_sequence
    receipt_of build_receipt expects_request expects_envelope verify_receipt snapshot_unsigned
    is_count snapshot_of build_snapshot verify_snapshot chain_proof_unsigned plus distance is_int
    continues build_links verify_link verify_links has_range as_list as_int is_valid_start
    chain_proof_of matches_request build_chain_proof verify_chain_proof get_or_none checked_text
    check_texts checked_sha256 checked_uuid utc_time reference checked_artifact has_pair
    evidence_items checked_evidence unique_texts key_of session_started set_active_claim
    plus_seconds claim_of new_claim work_claimed renewed_until renewed claim_heartbeat close_claim
    handoff_published submission_candidate_published external_submission_receipted verifier_feedback
    reviewed review_feedback with_feedback candidate_feedback_recorded project_kind project_event
    project_all aged drop_expired age_claims drop_all_expired expire_claims state_from exact_fields
    get_value check_label check_lifetime authorize_session active_session check_claim_id
    authorize_message authorize_claim owned_claim authorize_heartbeat authorize_checkpoint
    authorize_release authorize_on_claim authorize_in_session authorize authorize_maintainer
    authorize_event validate_event validate_events begins replace_offset stamp digit digits decimal
    zeros padded prefix event_id_of is_at as_dict same_fields check_place check_shape logged_of
    verify_legacy envelope_of check_remote check_ordered verify_remote verify_contents read_event
    read_events formatted is_null answers logged_before hash_of events_of not_before core_of unless
    verify_maintainer_receipt guard_receipt guard_receipts load_events ordered_event answer_again
    authorize_envelope order_envelope append_envelope remote_receipt remote_chain_proof unary write
    read copies ticks ticked written two_digests
runs = (
  _, refl, _, refl, refl, _, refl, _, refl, _, refl, refl, _, refl, _, refl, refl, _, refl, refl,
  refl, refl, refl,
)

abbrev built : Value
built = runs.0

abbrev appended : Appended
appended = runs.2

abbrev log : List Value
log = appended.events

abbrev proofs :
    (first : Value) × (build_chain_proof clocked "p"
        (Value.int (ℤ.pos 0))
        none
        (event_at 0 none hash_a ∷ [])
        "k"
      ≡ ok first)
    × (second : Value) × (build_chain_proof clocked "p"
          (Value.int (ℤ.pos 1))
          (some hash_a)
          (event_at 1 (some hash_a) hash_b ∷ [])
          "k"
        ≡ ok second)
    × (verify_chain_proof clocked first "p" clerk (Value.int (ℤ.pos 0)) none (Value.int (ℤ.pos 1))
        ≡ ok first)
    × (verify_chain_proof clocked second "p" clerk
          (Value.int (ℤ.pos 1))
          (some hash_a)
          (Value.int (ℤ.pos 2))
        ≡ ok second)
    × (member_of first "to_head" ≡ ok (optional_text (some hash_a)))
    × (get_of (Value.obj payload) "problem_id" ≡ ok (text_of "p"))
    × (contains "session_started" participant_events ≡ true)
    × (get_of (Value.obj state) "problem_id" ≡ ok (text_of "p"))
    × (checked_utc_time clocked (text_of "bZ") "snapshot.at" ≡ ok "bZ")
    × (event_hash (optional_text (some hash_a)) "snapshot.head_event_hash" ≡ ok (some hash_a))
    × (sha256_digest (text_of (prefixed_digest clocked (Value.obj state))) "snapshot.state_digest"
        ≡ ok (prefixed_digest clocked (Value.obj state)))
unfolding contains distinct subset same_set lookup insert keys values items array members of_members
    texts is_text number_of same_number is_number is_optional_text both_numbers find_member size
    same_value same_items same_members is_blank text_length is_hex_text startswith removeprefix
    codes_le text_le is_sha256 is_uuid_at ends_with_z rstrip_padding padding canonical_bytes
    digest_object encode decode public_key_text load_public_key sign_object verify_object required
    as_text mapping exact_keys text_field integer_field hex_digest replace_z parse_time in_set
    text_list event_body entry_body member_of get_of is_object has_fields is_named signed_event
    verify_event canonical_uuid event_hash present_hash sha256_digest prefixed_digest int_of natural
    without_signature unsigned unsigned_of signed checked_utc_time select envelope_unsigned
    as_authentication is_one_of check_envelope_target check_envelope_event build_envelope
    check_envelope_signature verify_envelope envelope_digest receipt_unsigned sequence is_sequence
    receipt_of build_receipt expects_request expects_envelope verify_receipt snapshot_unsigned
    is_count snapshot_of build_snapshot verify_snapshot chain_proof_unsigned plus distance is_int
    continues build_links verify_link verify_links has_range as_list as_int is_valid_start
    chain_proof_of matches_request build_chain_proof verify_chain_proof get_or_none checked_text
    check_texts checked_sha256 checked_uuid utc_time reference checked_artifact has_pair
    evidence_items checked_evidence unique_texts key_of session_started set_active_claim
    plus_seconds claim_of new_claim work_claimed renewed_until renewed claim_heartbeat close_claim
    handoff_published submission_candidate_published external_submission_receipted verifier_feedback
    reviewed review_feedback with_feedback candidate_feedback_recorded project_kind project_event
    project_all aged drop_expired age_claims drop_all_expired expire_claims state_from exact_fields
    get_value check_label check_lifetime authorize_session active_session check_claim_id
    authorize_message authorize_claim owned_claim authorize_heartbeat authorize_checkpoint
    authorize_release authorize_on_claim authorize_in_session authorize authorize_maintainer
    authorize_event validate_event validate_events begins replace_offset stamp digit digits decimal
    zeros padded prefix event_id_of is_at as_dict same_fields check_place check_shape logged_of
    verify_legacy envelope_of check_remote check_ordered verify_remote verify_contents read_event
    read_events formatted is_null answers logged_before hash_of events_of not_before core_of unless
    verify_maintainer_receipt guard_receipt guard_receipts load_events ordered_event answer_again
    authorize_envelope order_envelope append_envelope remote_receipt remote_chain_proof unary write
    read copies ticks ticked written two_digests
proofs = (_, refl, _, refl, refl, refl, refl, refl, refl, refl, refl, refl, refl)

verify_chain_proof-build_chain_proof_example :
    verify_chain_proof clocked proofs.2 "p" clerk
      (Value.int (ℤ.pos 1))
      (some hash_a)
      (Value.int (ℤ.pos 2))
    ≡ ok proofs.2
verify_chain_proof-build_chain_proof_example =
    verify_chain_proof-build_chain_proof clocked clocked-IsSound "p" "k" 1 (some hash_a)
      (event_at 1 (some hash_a) hash_b ∷ []) proofs.3

verify_chain_proof-Extends_example :
    Extends clocked proofs.2 clerk (ℤ.pos 1) (ℤ.pos 2) (some hash_a)
verify_chain_proof-Extends_example =
    verify_chain_proof-Extends clocked proofs.2 "p" clerk (ℤ.pos 1) (ℤ.pos 2) (some hash_a) proofs.5

verify_chain_proof-IsJoined_example : IsJoined proofs.0 proofs.2 (ℤ.pos 0) (ℤ.pos 2) none
verify_chain_proof-IsJoined_example =
    verify_chain_proof-IsJoined clocked proofs.0 proofs.2 "p" clerk (ℤ.pos 0) (ℤ.pos 1) (ℤ.pos 2)
      none (some hash_a) proofs.4 proofs.6 proofs.5

verify_envelope-build_envelope_example :
    verify_envelope clocked built "p" clerk participant_events ≡ ok built
verify_envelope-build_envelope_example =
    verify_envelope-build_envelope clocked clocked-IsSound request "p" clerk none "session_started"
      payload "a" participant_events runs.1 proofs.8 proofs.7

append_envelope-IsKept_example : IsKept clocked config [] [] built appended
append_envelope-IsKept_example =
    append_envelope-IsKept clocked config clocked-IsSound clocked-IsStandard built "k" 1 [] []
      runs.3 runs.4 (omega arith)

append_envelope-again_example :
    append_envelope clocked config
      (some built)
      "k"
      (record { instant = 7; aware = true })
      (log ++ runs.14.event ∷ [])
      []
    ≡ ok (record {
      created = false;
      event = appended.event;
      receipt = appended.receipt;
      events = log ++ runs.14.event ∷ [];
    })
append_envelope-again_example =
    append_envelope-again clocked config clocked-IsSound clocked-IsStandard built "k" 1 7 [] []
      (runs.14.event ∷ []) [] runs.17 runs.3 runs.4 (omega arith) runs.18

remote_receipt-append_envelope_example :
    (remote_receipt clocked config request "k" log [] ≡ ok (some appended.receipt))
    × (verify_receipt clocked appended.receipt "p" clerk (some request) (some built)
        ≡ ok appended.receipt)
remote_receipt-append_envelope_example =
    remote_receipt-append_envelope clocked config clocked-IsSound clocked-IsStandard built "k" 1 []
      [] request runs.3 runs.4 (omega arith) runs.21

text_le-file_name_example :
    (text_le (file_name 9 "z") (file_name 10 "a") ≡ true)
    × (text_le (file_name 10 "a") (file_name 9 "z") ≡ false)
text_le-file_name_example = text_le-file_name 9 10 "z" "a" (omega arith) (omega arith)

append_envelope-conflict_example :
    append_envelope clocked config
      (some runs.5)
      "k"
      (record { instant = 7; aware = true })
      (log ++ runs.14.event ∷ [])
      []
    ≡ err (request_conflict "remote request id was reused with another envelope")
append_envelope-conflict_example =
    append_envelope-conflict clocked config clocked-IsSound clocked-IsStandard built runs.5 "k" 1 7
      [] [] (runs.14.event ∷ []) [] runs.17 request runs.3 runs.4 (omega arith) runs.18 runs.21
      runs.22 runs.8 runs.20

remote_chain_proof-Returns_example :
    (proof : Value) × (remote_chain_proof clocked config 0 1 "k" log [] ≡ ok proof)
    × (verify_chain_proof clocked proof "p" clerk
          (Value.int (ℤ.pos 0))
          (hash_of (logged_before 0 runs.9))
          (Value.int (ℤ.pos 1))
        ≡ ok proof)
remote_chain_proof-Returns_example =
    remote_chain_proof-Returns clocked config clocked-IsSound clocked-IsStandard log [] "k" runs.9 0
      1 runs.10 refl (omega arith) (omega (arith, runs.11)) (omega arith)

verify_snapshot-build_snapshot_example :
    verify_snapshot clocked
      (build_snapshot clocked "p"
        (stamp clocked 2)
        (length runs.17)
        (hash_of (last? runs.17))
        (Value.obj state)
        "k")
      (Value.obj state)
      "p"
      clerk
    ≡ ok (
        build_snapshot clocked "p"
          (stamp clocked 2)
          (length runs.17)
          (hash_of (last? runs.17))
          (Value.obj state)
          "k")
verify_snapshot-build_snapshot_example =
    verify_snapshot-build_snapshot clocked config clocked-IsStandard clocked-IsSound
      (log ++ runs.14.event ∷ []) [] runs.17 2 state "k" runs.18 refl proofs.9
