-- ===== src/Workspace/Ageing.antt =====
-- The loop of `_state_from` of src/boule/workspace.py that lets leases run out always ends, and
-- leaves the sessions' ids as they are.
use mathlib.Core.Path.{subst}
use Prim.{absurd}
use daryxx_boule_protocol.Prelude.{
  ℕ, String, ◌≡◌, refl, sym, ap, ◌∙◌, inl, inr, true, false, ◌&&◌, none, some, [], ◌∷◌, eq_iff, leb,
  ◌==◌, Bool-cases, Option-cases,
}
use daryxx_boule_protocol.Python.{
  ok, >>=-eq-ok, ok_injective, Dict, lookup, has_key, lookup-insert, AllValues,
}
use daryxx_boule_protocol.Workspace.State.{Config, Session, is_active, Claim, State}
use daryxx_boule_protocol.Workspace.Expiry.{
  without_claim, drop_expired, drop_all_expired, expire_claims,
}
use daryxx_boule_protocol.Workspace.Linked.{IsLinked, has_key-insert, named_insert}

abbrev IsNamed : Dict Session → Type 0
IsNamed d = (id : String) (x : Session) → lookup id d ≡ some x → x.session_id ≡ id

-- The dict has the same ids, and each session is still under its id.
pub record KeepsIds (d t : Dict Session) : Type 0 where
  pub named : IsNamed t
  pub back : (id : String) → has_key id t ≡ true → has_key id d ≡ true
  pub forth : (id : String) → has_key id d ≡ true → has_key id t ≡ true

pub has_key-found :
    {V : Type 0} (k : String) (d : Dict V) → has_key k d ≡ true → (v : V) × (lookup k d ≡ some v)
has_key-found k d h = elim (Option-cases (lookup k d)) [
  | inl missing ↦ absurd (let bad : false ≡ true = rw (has_key, missing) at h in cc)
  | inr found ↦ found
]

without_claim-Keeps :
    (c : Claim) (d : Dict Session) (x : Session) {t : Dict Session}
    → IsNamed d
    → lookup c.session_id d ≡ some x
    → without_claim c d x ≡ ok t
    → KeepsIds d t
without_claim-Keeps c d x {t} named found p =
    elim (Bool-cases (elim x.active_claim [ none ↦ false | some claim ↦ claim == c.claim_id ])) [
      | inl holds ↦
          let y : Session = record x { active_claim = none } in
          subst (KeepsIds d) (ok_injective (rw holds at p)) (record {
            named = named_insert c.session_id y d (named c.session_id x found) named;
            back = λ id there.
                let at = lookup-insert c.session_id id y d in
                elim (Bool-cases (id == c.session_id)) [
                  | inl same ↦
                      let who : id ≡ c.session_id = (eq_iff id c.session_id).0 same in
                      rw (has_key, who, found) refl
                  | inr other ↦ let there' = rw (has_key, at) at there in rw other at there'
                ];
            forth = λ id there. has_key-insert c.session_id id y d there;
          })
      | inr holds_not ↦
          subst (KeepsIds d) (ok_injective (rw holds_not at p))
            (record { named = named; back = λ id there. there; forth = λ id there. there })
    ]

drop_expired-Keeps :
    (config : Config) (now : ℕ) (c : Claim) (d : Dict Session)
    → IsNamed d
    → has_key c.session_id d ≡ true
    → (t : Dict Session) × (drop_expired config now c d ≡ ok t) × KeepsIds d t
unfolding drop_expired
drop_expired-Keeps config now c d named there =
    elim (Bool-cases (is_active c.status && leb c.deadline now)) [
      | inl over ↦
          let (x, found) = has_key-found c.session_id d there in
          rw over (rw found (_, refl, without_claim-Keeps c d x named found refl))
      | inr not_over ↦
          rw not_over (d, refl, record { named = named; back = λ id q. q; forth = λ id q. q })
    ]

all_forth :
    (d t : Dict Session) (claims : Dict Claim)
    → KeepsIds d t
    → AllValues (λ (c : Claim). has_key c.session_id d ≡ true) claims
    → AllValues (λ (c : Claim). has_key c.session_id t ≡ true) claims
all_forth d t [] k h = tt
all_forth d t ((j, c) ∷ claims) k h = (k.forth c.session_id h.0, all_forth d t claims k h.1)

drop_all_expired-Keeps :
    (config : Config) (now : ℕ) (claims : Dict Claim) (d : Dict Session)
    → IsNamed d
    → AllValues (λ (c : Claim). has_key c.session_id d ≡ true) claims
    → (t : Dict Session) × (drop_all_expired config now claims d ≡ ok t) × KeepsIds d t
unfolding drop_all_expired
drop_all_expired-Keeps config now [] d named h =
    (d, refl, record { named = named; back = λ id q. q; forth = λ id q. q })
drop_all_expired-Keeps config now ((j, c) ∷ claims) d named h =
    let (m, first, k) = drop_expired-Keeps config now c d named h.0 in
    let (t, rest, l) =
      drop_all_expired-Keeps config now claims m k.named (all_forth d m claims k h.1) in
    rw first (
      t,
      rest,
      record {
        named = l.named;
        back = λ id q. k.back id (l.back id q);
        forth = λ id q. l.forth id (k.forth id q);
      },
    )

-- In a linked state the loop over the claims ends.
pub expire_claims-total :
    (config : Config) (now : ℕ) (s : State)
    → IsLinked s
    → (t : State) × (expire_claims config now s ≡ ok t)
unfolding expire_claims
expire_claims-total config now s h =
    let (d, done, k) = drop_all_expired-Keeps config now s.claims s.sessions h.named h.owned in
    rw done (_, refl)

-- The sessions that are seen then are the sessions that there are, each under its id.
pub expire_claims-Keeps :
    (config : Config) (now : ℕ) (s : State) {seen : State}
    → IsLinked s
    → expire_claims config now s ≡ ok seen
    → KeepsIds s.sessions seen.sessions
unfolding expire_claims
expire_claims-Keeps config now s {seen} h ages =
    let (d, done, k) = drop_all_expired-Keeps config now s.claims s.sessions h.named h.owned in
    let (d1, done1, is_seen) = >>=-eq-ok (drop_all_expired config now s.claims s.sessions) _ ages in
    let same : d ≡ d1 = ok_injective (sym done ∙ done1) in
    subst (KeepsIds s.sessions) (same ∙ ap (λ (q : State). q.sessions) (ok_injective is_seen)) k
