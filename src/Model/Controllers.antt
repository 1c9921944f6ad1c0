-- ===== src/Model/Controllers.antt =====
-- The controllers of a case that `validate_case` of src/boule/model.py accepts: one for each agent, and
-- no two agents with the same.
use mathlib.Core.Path.{subst}
use daryxx_boule_protocol.Prelude.{
  String, ◌≡◌, refl, sym, ap, ◌∙◌, inl, inr, true, not, some, List, [], ◌∷◌, arith, eq_iff, ◌==◌,
  Bool-cases, and_both, not_both, same_texts,
}
use daryxx_boule_protocol.Python.{
  ok, raise_if, raise_unless-eq-ok, >>=-eq-ok, ok_injective, Dict, contains, distinct, same_set,
  contains-same_set, lookup, keys, values, Value,
}
use daryxx_boule_protocol.Model.Fields.{mapping, text_field}
use daryxx_boule_protocol.Model.Cases.{controller_texts, validate_controllers}

-- Each agent has a controller, and no two agents have the same.
pub record IsControlled (agents controllers : Dict String) : Type 0 where
  pub matched : (id : String) → contains id (keys controllers) ≡ contains id (keys agents)
  pub apart :
      (a b controller : String)
      → lookup a controllers ≡ some controller
      → lookup b controllers ≡ some controller
      → a ≡ b

keys-controller_texts :
    (d : Dict Value) {names : Dict String} → controller_texts d ≡ ok names → keys names ≡ keys d
unfolding controller_texts keys
keys-controller_texts [] e = ap keys (sym (ok_injective e))
keys-controller_texts ((id, controller) ∷ d) e =
    let (name, _, e1) = >>=-eq-ok (text_field controller "agent controller" 128) _ e in
    let (rest, e2, e3) = >>=-eq-ok (controller_texts d) _ e1 in
    ap keys (sym (ok_injective e3)) ∙ ap (◌∷◌ id) (keys-controller_texts d e2)

contains-values :
    (k x : String) (d : Dict String) → lookup k d ≡ some x → contains x (values d) ≡ true
unfolding lookup values contains
contains-values k x [] h = cc
contains-values k x ((j, y) ∷ d) h = elim (Bool-cases (k == j)) [
  | inl same ↦ ground (arith, same, eq_iff x y)
  | inr other ↦ ground (arith, contains-values k x d (rw other at h))
]

clash :
    (y x : String) (xs : List String)
    → not (contains y xs) ≡ true
    → contains x xs ≡ true
    → ¬ (some y ≡ some x)
clash y x xs fresh held is =
    let same : y ≡ x = cc in
    let free : not (contains x xs) ≡ true = subst (λ z. not (contains z xs) ≡ true) same fresh in
    not_both (rw held at free) refl

distinct-apart :
    (d : Dict String)
    → distinct (values d) ≡ true
    → (a b x : String) → lookup a d ≡ some x
    → lookup b d ≡ some x
    → a ≡ b
unfolding lookup values distinct
distinct-apart [] h a b x p q = cc
distinct-apart ((j, y) ∷ d) h a b x p q =
    let (fresh, rest) = and_both h in
    let taken = λ (k : String) (found : lookup k d ≡ some x) (is : some y ≡ some x).
      clash y x (values d) fresh (contains-values k x d found) is in
    elim (Bool-cases (a == j)) [
      | inl a_first ↦ elim (Bool-cases (b == j)) [
        | inl b_first ↦ same_texts a j a_first ∙ sym (same_texts b j b_first)
        | inr b_later ↦ absurd (taken b (rw b_later at q) (rw a_first at p))
      ]
      | inr a_later ↦ elim (Bool-cases (b == j)) [
        | inl b_first ↦ absurd (taken a (rw a_later at p) (rw b_first at q))
        | inr b_later ↦ distinct-apart d rest a b x (rw a_later at p) (rw b_later at q)
      ]
    ]

pub validate_controllers-IsControlled :
    (v : Value) (agents : Dict String) {names : Dict String}
    → validate_controllers v agents ≡ ok names
    → IsControlled agents names
unfolding validate_controllers
validate_controllers-IsControlled v agents {names} e =
    let (d, _, e1) = >>=-eq-ok (mapping v "case.agent_controllers") _ e in
    let (u, same, e2) =
      >>=-eq-ok
        (raise_if (not (same_set (keys d) (keys agents)))
          "agent controller IDs must match agent IDs")
        _ e1 in
    let (texts, read, e3) = >>=-eq-ok (controller_texts d) _ e2 in
    let (u1, differ, e4) =
      >>=-eq-ok
        (raise_if (not (distinct (values texts)))
          "the two agents must declare distinct controllers")
        _ e3 in
    let is : texts ≡ names = ok_injective e4 in
    subst (IsControlled agents) is (record {
      matched = λ id.
          ap (contains id) (keys-controller_texts d read)
          ∙ contains-same_set id (keys d) (keys agents) (raise_unless-eq-ok _ _ same);
      apart = distinct-apart texts (raise_unless-eq-ok _ _ differ);
    })
