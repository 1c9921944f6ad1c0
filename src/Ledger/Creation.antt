-- ===== src/Ledger/Creation.antt =====
-- The genesis entry: what `create` builds passes `verify`.
use daryxx_boule_protocol.Prelude.{
  String, ◌≡◌, refl, sym, ap, ◌∙◌, List, [], ◌∷◌, ◌++◌, arith, length,
}
use daryxx_boule_protocol.Python.{
  same_value_text, ok, >>=-eq-ok, ok_injective, contains, subset, same_set, lookup, keys, Value,
  members, object, is_text, of_members,
}
use daryxx_boule_protocol.Crypto.{Platform, public_key_text, sign_object, IsSound}
use daryxx_boule_protocol.Model.{required}
use daryxx_boule_protocol.Ledger.Events.{
  event_body, entry_body, member_of, get_of, has_fields, signed_event,
}
use mathlib.Core.Path.{subst}
use daryxx_boule_protocol.Ledger.Chain.{
  last_hash, sealed_entry, append_event, create, append, rollback_last,
}
use daryxx_boule_protocol.Ledger.Verify.{
  Cursor, genesis, verify_entry, verify_entries, verify_genesis, verify,
}
use daryxx_boule_protocol.Ledger.Verified.{verify_entry-sealed_entry, verify_event-signed_event}
use daryxx_boule_protocol.Ledger.Appends.{append_event-Appended}

-- Taking the last entry away undoes an append.
pub rollback_last-append : (xs : List Value) (x : Value) → rollback_last (xs ++ x ∷ []) ≡ xs
unfolding rollback_last
rollback_last-append [] x = refl
rollback_last-append (y ∷ []) x = refl
rollback_last-append (y ∷ z ∷ xs) x = ap (◌∷◌ y) (rollback_last-append (z ∷ xs) x)

module _ (sys : Platform) where
  pub append_grows :
      (entries : List Value) (kind : String) (payload : Value) (actor clerk received_at : String)
      {out : List Value × Value}
      → append sys entries kind payload actor clerk received_at ≡ ok out
      → out.0 ≡ entries ++ out.1 ∷ []
  unfolding append append_event
  append_grows entries kind payload actor clerk received_at p = ground arith

  verify_genesis-sealed_entry :
      (key received_at : String) (case reviewers prev : Value) (signature : Value)
      → let clerk = Value.text (public_key_text sys key) in
        let payload =
          object (("clerk_key", clerk) ∷ ("case", case) ∷ ("reviewers", reviewers) ∷ []) in
        let event = object (
          ("kind", Value.text "case_opened")
          ∷ ("actor", clerk)
          ∷ ("payload", payload)
          ∷ ("signature", signature)
          ∷ []) in
        verify_genesis sys (sealed_entry sys 0 received_at prev event key) ≡ ok clerk
  unfolding verify_genesis sealed_entry
  verify_genesis-sealed_entry key received_at case reviewers prev signature =
      unfold member_of get_of has_fields entry_body required members of_members lookup keys same_set
        subset contains is_text in
      simp (same_value_text)

  signed_event_lem :
      (kind : String) (payload : Value) (key : String) {event : Value}
      → signed_event sys kind payload key ≡ ok event
      → (signature : Value) × (event
          ≡ object (
              ("kind", Value.text kind)
              ∷ ("actor", Value.text (public_key_text sys key))
              ∷ ("payload", payload)
              ∷ ("signature", signature)
              ∷ []))
  unfolding signed_event
  signed_event_lem kind payload key p = (
    Value.text (
        sign_object sys key
          (event_body (Value.text kind) (Value.text (public_key_text sys key)) payload)),
    ground arith,
  )

  verify_first :
      (clerk s : Value) {d : Cursor}
      → verify_genesis sys s ≡ ok clerk
      → verify_entry sys clerk genesis s ≡ ok d
      → verify sys (s ∷ []) ≡ ok d
  unfolding verify verify_entries
  verify_first clerk s g step = rw (g, step)

  -- If the crypto functions keep their promises, every ledger that `create` makes verifies, and has
  -- exactly one entry.
  pub verify-create :
      (sound : IsSound sys) (case reviewers : Value) (key received_at : String)
      {entries : List Value}
      → create sys case reviewers key received_at ≡ ok entries
      → (d : Cursor) × (verify sys entries ≡ ok d) × (length entries ≡ 1)
  unfolding create
  verify-create sound case reviewers key received_at {entries} p =
      let clerk = Value.text (public_key_text sys key) in
      let payload =
        object (("clerk_key", clerk) ∷ ("case", case) ∷ ("reviewers", reviewers) ∷ []) in
      let (event, signed, p1) = >>=-eq-ok (signed_event sys "case_opened" payload key) _ p in
      let (out, grown, p2) = >>=-eq-ok (append_event sys [] event key received_at) _ p1 in
      let w = append_event-Appended sys [] event key received_at grown in
      let (signature, form) = signed_event_lem "case_opened" payload key signed in
      let link : w.prev_hash ≡ Value.null = unfold last_hash in ok_injective (sym w.last_link) in
      let (d, sealed) =
        verify_entry-sealed_entry sys sound key genesis received_at event
          (verify_event-signed_event sys sound "case_opened" payload key signed) w.time refl in
      let s = sealed_entry sys 0 received_at Value.null event key in
      let opened : verify_genesis sys s ≡ ok clerk =
        subst (λ v. verify_genesis sys (sealed_entry sys 0 received_at Value.null v key) ≡ ok clerk)
          (sym form)
          (verify_genesis-sealed_entry key received_at case reviewers Value.null signature) in
      let built : out.0 ≡ s ∷ [] =
        subst (λ h. out.0 ≡ sealed_entry sys 0 received_at h event key ∷ []) link w.built in
      let all : entries ≡ s ∷ [] = ok_injective (sym p2) ∙ built in
      (
        d,
        subst (λ o. verify sys o ≡ ok d) (sym all) (verify_first clerk s opened sealed),
        ap length all,
      )
