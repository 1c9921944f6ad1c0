-- ===== src/Workspace/Reading.antt =====
-- What the checks of src/boule/workspace.py say of the payload: the texts that `_state_from` reads.
use mathlib.Core.Path.{subst}
use Prim.{absurd}
use daryxx_boule_protocol.Prelude.{
  ℕ, String, ◌≡◌, refl, ap, ◌∙◌, inl, inr, true, not, ◌||◌, Option, none, some, List, [], ◌∷◌,
  arith, eq_iff, leb, ◌==◌, Bool-cases, Option-cases,
}
use daryxx_boule_protocol.Python.{
  protocol, Result, ok, err, raise_if, or_crash, >>=-eq-ok, ok_injective, or_crash-eq-ok, Dict,
  contains, lookup, Value, is_text, is_text_lem, same_value,
}
use daryxx_boule_protocol.Crypto.{Platform}
use daryxx_boule_protocol.Model.{required, as_text, text_field}
use daryxx_boule_protocol.Workspace.State.{Config, Session, Claim, State}
use daryxx_boule_protocol.Workspace.Fields.{get_or_none, checked_text, check_texts, utc_time}
use daryxx_boule_protocol.Workspace.Project.{key_of}
use daryxx_boule_protocol.Workspace.Claims.{get_value, active_session, owned_claim}
use daryxx_boule_protocol.Model.{text_field_accepts}

-- The result is a value.
abbrev pub Returns : {A : Type 0} → Result A → Type 0
Returns {A} r = (a : A) × (r ≡ ok a)

-- A text that was checked is there.
pub checked-key_of :
    (p : Dict Value) (name : String) (names : List String) (most : ℕ) {u : Unit {0}}
    → check_texts p names most ≡ ok u
    → contains name names ≡ true
    → Returns (key_of p name)
unfolding check_texts checked_text key_of as_text contains
checked-key_of p name [] most h in_names = cc
checked-key_of p name (other ∷ names) most h in_names =
    let (value, there, h1) = >>=-eq-ok (required p other) _ h in
    let (text, is, h2) = >>=-eq-ok (text_field value other most) _ h1 in
    elim (Bool-cases (name == other)) [
      | inl same ↦
          let (is_value, _, _) = text_field_accepts value other most is in
          let who : name ≡ other = (eq_iff name other).0 same in
          let found : required p name ≡ ok (Value.text text) =
            rw who (there ∙ ap (λ v. ok v) is_value) in
          (text, rw found refl)
      | inr differ ↦ checked-key_of p name names most h2 (rw differ at in_names)
    ]

get_or_none-missing :
    (p : Dict Value) (name : String) → lookup name p ≡ none → get_or_none p name ≡ Value.null
unfolding get_or_none
get_or_none-missing p name h = rw (get_or_none, h) refl

get_or_none-found :
    (p : Dict Value) (name : String) {v : Value} → lookup name p ≡ some v → get_or_none p name ≡ v
unfolding get_or_none
get_or_none-found p name h = rw (get_or_none, h) refl

pub key_of-found :
    (p : Dict Value) (name : String) {v : Value}
    → lookup name p ≡ some v
    → key_of p name ≡ as_text v
unfolding key_of required
key_of-found p name h = rw h refl

pub key_of-text :
    (p : Dict Value) (name text : String)
    → is_text (get_or_none p name) text ≡ true
    → key_of p name ≡ ok text
unfolding as_text
key_of-text p name text h = elim (Option-cases (lookup name p)) [
  | inl missing ↦ absurd (null_is_no_text (rw (get_or_none-missing p name missing) at h))
  | inr (v, found) ↦
      let is : v ≡ Value.text text =
        is_text_lem v text (rw (get_or_none-found p name found) at h) in
      key_of-found p name found ∙ ap as_text is
]
  where
    null_is_no_text : is_text Value.null text ≡ true → ⊥
    null_is_no_text q = let bad : Value.null ≡ Value.text text = is_text_lem Value.null text q in cc

found_key :
    (o : Option String) (d : Dict Session) {x : Session}
    → elim o [
      | none ↦ err (protocol "actor is not an active session")
      | some id ↦ or_crash (lookup id d)
    ]
      ≡ ok x
    → (id : String) × (lookup id d ≡ some x)
found_key none d h = cc
found_key (some id) d h = (id, or_crash-eq-ok (lookup id d) h)

null_is_no_key : (k : String) → as_text Value.null ≡ ok k → ⊥
unfolding as_text
null_is_no_key k h = cc

as_key :
    {V : Type 0} (w : Value) (d : Dict V) {v : V}
    → get_value w d ≡ ok (some v)
    → (k : String) × (as_text w ≡ ok k) × (lookup k d ≡ some v)
unfolding get_value as_text
as_key (Value.text k) d q = (k, refl, ok_injective q)
as_key _ d q = cc

-- A value that led to an entry of a dict is a text of the payload.
pub value_key :
    {V : Type 0} (p : Dict Value) (name : String) (d : Dict V) {v : V}
    → get_value (get_or_none p name) d ≡ ok (some v)
    → (k : String) × (key_of p name ≡ ok k) × (lookup k d ≡ some v)
value_key p name d {v} h = elim (Option-cases (lookup name p)) [
  | inl missing ↦
      let (k, is, _) = as_key Value.null d (rw (get_or_none-missing p name missing) at h) in
      absurd (null_is_no_key k is)
  | inr (w, found) ↦
      let (k, is, at) = as_key w d (rw (get_or_none-found p name found) at h) in
      (k, key_of-found p name found ∙ is, at)
]

-- The live session of the event, and its id in the payload.
pub active_session-lem :
    (sys : Platform) (config : Config) (p : Dict Value) (actor : String) (seen : State) (now : ℕ)
    {x : Session}
    → active_session sys config p actor seen now ≡ ok x
    → (id : String) × (lookup id seen.sessions ≡ some x) × (key_of p "session_id" ≡ ok x.session_id)
unfolding active_session
active_session-lem sys config p actor seen now {x} a =
    let (y, found, a1) =
      >>=-eq-ok
        (elim (lookup actor seen.session_keys) [
          | none ↦ err (protocol "actor is not an active session")
          | some id ↦ or_crash (lookup id seen.sessions)
        ])
        _ a in
    let (limit, _, a2) = >>=-eq-ok (utc_time sys y.not_after) _ a1 in
    let (u, _, a3) = >>=-eq-ok (raise_if (leb limit now) _) _ a2 in
    let (u1, same, a4) =
      >>=-eq-ok
        (raise_if
          (not (is_text (get_or_none p "session_id") y.session_id)
            || not (same_value (get_or_none p "participant_id") y.participant_id))
          _)
        _ a3 in
    let is : y ≡ x = ok_injective a4 in
    let named : is_text (get_or_none p "session_id") y.session_id ≡ true = ground arith in
    let (id, at) = found_key (lookup actor seen.session_keys) seen.sessions found in
    (
      id,
      at ∙ ap (λ z. some z) is,
      subst (λ (z : Session). key_of p "session_id" ≡ ok z.session_id) is
          (key_of-text p "session_id" y.session_id named),
    )

pub owned_claim-lem :
    (p : Dict Value) (session : Session) (seen : State) {claim : Claim}
    → owned_claim p session seen ≡ ok claim
    → (k : String) × (key_of p "claim_id" ≡ ok k) × (lookup k seen.claims ≡ some claim)
unfolding owned_claim key_of required as_text get_or_none get_value
owned_claim-lem p session seen {claim} a =
    let (o, found, a1) = >>=-eq-ok (get_value (get_or_none p "claim_id") seen.claims) _ a in
    let is : o ≡ some claim = ground arith in value_key p "claim_id" seen.claims (rw is at found)
