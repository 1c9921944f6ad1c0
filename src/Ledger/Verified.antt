-- ===== src/Ledger/Verified.antt =====
-- Every ledger that `create` and `append` build passes `verify`.
use daryxx_boule_protocol.Prelude.{
  ℕ, ◌+◌, String, ◌≡◌, refl, sym, inl, inr, false, not, some, List, [], ◌∷◌, ◌++◌, arith, ◌==◌,
  length, last?,
}
use daryxx_boule_protocol.Python.{
  ok, ◌>>=◌, raise_if, >>=-eq-ok, Result-cases, ok_injective, is_text_refl, is_text_lem,
  is_optional_text_refl, is_number_refl, raise_if-eq-ok, contains, subset, same_set, lookup, keys,
  ℤ, Value, members, object, optional_text, of_members,
}
use daryxx_boule_protocol.Crypto.{
  Platform, digest_object, public_key_text, IsSound, verify_object-sign_object,
}
use daryxx_boule_protocol.Model.{required, text_field, parse_time}
use daryxx_boule_protocol.Ledger.Events.{
  entry_body, member_of, get_of, is_object, has_fields, is_named, signed_event, verify_event,
}
use mathlib.Core.Path.{subst}
use daryxx_boule_protocol.Ledger.Chain.{
  moved_back, last_received, last_hash, clerk_key, sealed_entry,
}
use daryxx_boule_protocol.Ledger.Verify.{Cursor, verify_entry, verify_entries, verify_genesis}

module _ (sys : Platform) where
  -- Whether a time is read does not depend on the name in the message.
  parse_time_name :
      (v : Value) (m n : String) {t : ℕ} → parse_time sys v m ≡ ok t → parse_time sys v n ≡ ok t
  unfolding parse_time text_field
  parse_time_name (Value.text s) m n h = ground arith
  parse_time_name _ m n h = cc

  pub verify_entries-append :
      (clerk : Value) (c : Cursor) (xs ys : List Value)
      → verify_entries sys clerk c (xs ++ ys)
        ≡ (verify_entries sys clerk c xs >>= λ d. verify_entries sys clerk d ys)
  unfolding verify_entries
  verify_entries-append clerk c [] ys = refl
  verify_entries-append clerk c (x ∷ xs) ys = elim (Result-cases (verify_entry sys clerk c x)) [
    | inl (d, e) ↦ rw e (verify_entries-append clerk d xs ys)
    | inr (e, failed) ↦ rw failed
  ]

  -- What a cursor knows of the last entry before it.
  pub record Follows (c : Cursor) (entry : Value) : Type 0 where
    pub hash : member_of entry "entry_hash" ≡ ok (optional_text c.previous)
    pub time :
        (do
          received_at ← member_of entry "received_at"
          received ← parse_time sys received_at "previous entry.received_at"
          ok (some received))
        ≡ ok c.previous_received_at

  pub verify_entry-Follows :
      (clerk : Value) (c : Cursor) (entry : Value) {d : Cursor}
      → verify_entry sys clerk c entry ≡ ok d
      → Follows d entry × (d.expected_seq ≡ c.expected_seq + 1)
  unfolding verify_entry
  verify_entry-Follows clerk c entry {d} e = (
    record { hash = grind (arith, is_text_lem); time = grind (arith, parse_time_name) },
    ground arith,
  )

  pub verify_entry-sealed_entry :
      (sound : IsSound sys) (key : String) (c : Cursor) (received_at : String) (event : Value)
      {t : ℕ}
      → verify_event sys event ≡ ok tt
      → parse_time sys (Value.text received_at) "entry.received_at" ≡ ok t
      → moved_back c.previous_received_at t ≡ false
      → (d : Cursor) × (verify_entry sys
            (Value.text (public_key_text sys key))
            c
            (sealed_entry sys c.expected_seq received_at (optional_text c.previous) event key)
          ≡ ok d)
  unfolding verify_entry sealed_entry
  verify_entry-sealed_entry sound key c received_at event {t} ev time order = (
    record {
      expected_seq = c.expected_seq + 1;
      previous = some (
          digest_object sys (
            object (
              entry_body (Value.int (ℤ.pos c.expected_seq)) (Value.text received_at)
                (optional_text c.previous) event)));
      previous_received_at = some t;
    },
    unfold member_of has_fields entry_body required members of_members lookup keys same_set subset
          contains in
        simp (
          is_number_refl,
          parse_time_name (Value.text received_at) "entry.received_at"
              "entry[{expected_seq}].received_at" time,
          order,
          is_optional_text_refl,
          ev,
          is_text_refl,
          verify_object-sign_object sys sound key,
        ),
  )

  -- After the loop the cursor knows the last entry, and counts the entries.
  pub record Ends (c d : Cursor) (entries : List Value) : Type 0 where
    pub count : d.expected_seq ≡ c.expected_seq + length entries
    pub entry : Value
    pub last : last? entries ≡ some entry
    pub follows : Follows d entry

  pub verify_entries-Ends :
      (clerk : Value) (c : Cursor) (x : Value) (xs : List Value) {d : Cursor}
      → verify_entries sys clerk c (x ∷ xs) ≡ ok d
      → Ends c d (x ∷ xs)
  unfolding verify_entries
  verify_entries-Ends clerk c x [] {d} e =
      let (m, e1, e2) = >>=-eq-ok (verify_entry sys clerk c x) _ e in
      let same : m ≡ d = ok_injective e2 in
      let (follows, seq) = verify_entry-Follows clerk c x e1 in
      record {
        count = rw (sym same) (omega arith);
        entry = x;
        last = refl;
        follows = subst (λ k. Follows k x) same follows;
      }
  verify_entries-Ends clerk c x (y ∷ ys) {d} e =
      let (m, e1, e2) = >>=-eq-ok (verify_entry sys clerk c x) _ e in
      let (_, seq) = verify_entry-Follows clerk c x e1 in
      let ih = verify_entries-Ends clerk m y ys e2 in
      record {
        count = omega (arith, ih.count);
        entry = ih.entry;
        last = ih.last;
        follows = ih.follows;
      }

  pub verify_event-signed_event :
      (sound : IsSound sys) (kind : String) (payload : Value) (key : String) {event : Value}
      → signed_event sys kind payload key ≡ ok event
      → verify_event sys event ≡ ok tt
  unfolding signed_event verify_event
  verify_event-signed_event sound kind payload key {event} e =
      let (u, e1, e2) = >>=-eq-ok (raise_if (kind == "") "event kind must be non-empty text") _ e in
      let (v, e3, e4) =
        >>=-eq-ok (raise_if (not (is_object payload)) "event payload must be an object") _ e2 in
      let named = raise_if-eq-ok (kind == "") "event kind must be non-empty text" e1 in
      let object_payload =
        raise_if-eq-ok (not (is_object payload)) "event payload must be an object" e3 in
      rw (sym (ok_injective e4)) (
        unfold has_fields member_of required members of_members lookup keys same_set subset contains
          is_named in
        simp (named, object_payload, verify_object-sign_object sys sound key))

  pub clerk_key-verify_genesis :
      (first : Value) (rest : List Value) {clerk : Value}
      → verify_genesis sys first ≡ ok clerk
      → clerk_key sys (first ∷ rest) ≡ ok clerk
  unfolding verify_genesis clerk_key get_of member_of required has_fields
  clerk_key-verify_genesis (Value.obj ms) rest {clerk} e = ground arith
  clerk_key-verify_genesis Value.null rest e = cc
  clerk_key-verify_genesis _ rest e = cc

  pub last_of :
      (entries : List Value) {entry : Value} (d : Cursor)
      → last? entries ≡ some entry
      → Follows d entry
      → (last_received sys entries ≡ ok d.previous_received_at)
        × (last_hash sys entries ≡ ok (optional_text d.previous))
  unfolding last_received last_hash
  last_of entries d last f = (rw (last, last_received) f.time, rw (last, last_hash) f.hash)
