-- ===== src/Tests/Cases.antt =====
-- A case of src/boule/model.py.
use daryxx_boule_protocol.Prelude.{ℕ, String, ◌≡◌, refl, [], ◌∷◌}
use daryxx_boule_protocol.Python.{
  ok, contains, distinct, subset, same_set, lookup, keys, values, ℤ, Value, members, object,
  is_text, of_members, is_blank, text_length, is_hex_text, startswith, removeprefix, sorted,
  insert_sorted,
}
use daryxx_boule_protocol.Crypto.{public_key_text, load_public_key}
use daryxx_boule_protocol.Model.{
  required, as_text, mapping, exact_keys, text_field, integer_field, hex_digest, parse_time,
  replace_z, Case, validate_case,
}
use daryxx_boule_protocol.Model.Bounds.{IsValid, validate_case-IsValid}
use daryxx_boule_protocol.Tests.Toy.{toy, zeros, unary, write, read, copies}
use daryxx_boule_protocol.Crypto.{encode, decode, rstrip_padding, padding}
use daryxx_boule_protocol.Model.{
  is_case_id, validate_objective, agent_keys, controller_texts, criterion_weights, distinct_times,
  objective_texts, same_times, validate_agents, validate_controllers, validate_criteria,
  validate_deadlines, validate_policy,
}

abbrev pub text_of : String → Value
text_of s = Value.text s

abbrev pub number : ℕ → Value
number n = Value.int (ℤ.pos n)

abbrev pub key_text : String → Value
key_text key = text_of (public_key_text toy key)

abbrev pub case_value : Value
case_value = object (
    ("protocol", text_of "boule/0.1")
    ∷ ("case_id", text_of "case-1")
    ∷ ("title", text_of "A case")
    ∷ (
      "objective",
      object (
          ("type", text_of "proof")
          ∷ ("statement", text_of "P")
          ∷ ("base_commit", text_of "c")
          ∷ ("environment_digest", text_of zeros)
          ∷ ("verifier", text_of "v")
          ∷ []),
    )
    ∷ ("agents", object (("left", key_text "a") ∷ ("right", key_text "bb") ∷ []))
    ∷ ("agent_controllers", object (("left", text_of "one") ∷ ("right", text_of "two") ∷ []))
    ∷ ("verifier_key", key_text "ccc")
    ∷ ("criteria_weights_bps", object (("proof", number 6000) ∷ ("tests", number 4000) ∷ []))
    ∷ ("collaboration_floor_bps", number 1000)
    ∷ ("disclosure", object [])
    ∷ ("economics", object [])
    ∷ (
      "review_policy",
      object (
          ("panel_size", number 3)
          ∷ ("quorum", number 3)
          ∷ ("max_dispersion_bps", number 2000)
          ∷ ("min_calibration_passes", number 1)
          ∷ ("min_calibration_total", number 1)
          ∷ ("min_reveal_rate_bps", number 0)
          ∷ ("seed_commitment", text_of zeros)
          ∷ ("roster_digest", text_of zeros)
          ∷ []),
    )
    ∷ (
      "deadlines",
      object (
          ("submission", text_of "2")
          ∷ ("review_commit", text_of "02")
          ∷ ("review_reveal", text_of "002")
          ∷ ("appeal", text_of "0002")
          ∷ []),
    )
    ∷ [])

abbrev pub key_of_agent : String → String
key_of_agent key = public_key_text toy key

abbrev pub the_case : Case
the_case = record {
  case_id = "case-1";
  environment_digest = zeros;
  agents = ("left", key_of_agent "a") ∷ ("right", key_of_agent "bb") ∷ [];
  agent_controllers = ("left", "one") ∷ ("right", "two") ∷ [];
  verifier_key = key_of_agent "ccc";
  criteria_weights_bps = ("proof", 6000) ∷ ("tests", 4000) ∷ [];
  collaboration_floor_bps = 1000;
  review_policy = record {
    panel_size = 3;
    quorum = 3;
    max_dispersion_bps = 2000;
    min_calibration_passes = 1;
    min_calibration_total = 1;
    min_reveal_rate_bps = 0;
    seed_commitment = zeros;
    roster_digest = zeros;
  };
  deadlines = record { submission = 1; review_commit = 2; review_reveal = 3; appeal = 4 };
  raw = case_value;
}

pub accepted : validate_case toy case_value ≡ ok the_case
unfolding validate_case mapping exact_keys same_set subset keys members of_members contains required
    lookup is_text text_field is_blank text_length is_case_id validate_objective as_text decode
    load_public_key padding agent_keys controller_texts criterion_weights distinct_times
    objective_texts same_times validate_agents validate_controllers validate_criteria
    validate_deadlines validate_policy hex_digest integer_field parse_time replace_z distinct values
    insert_sorted sorted is_hex_text removeprefix startswith public_key_text encode rstrip_padding
    write unary read copies
accepted = refl

validate_case-IsValid_example : IsValid the_case
validate_case-IsValid_example = validate_case-IsValid toy case_value accepted
