-- ===== src/Ledger/Appends.antt =====
-- A ledger that verifies still does after `append`.
use daryxx_boule_protocol.Prelude.{
  ℕ, ◌+◌, String, ◌≡◌, sym, ap, ◌∙◌, false, not, Option, List, [], ◌∷◌, ◌++◌, arith, length,
}
use daryxx_boule_protocol.Python.{
  ok, raise_if, >>=-eq-ok, ok_injective, is_text_lem, raise_if-eq-ok, Value, is_text, optional_text,
}
use daryxx_boule_protocol.Crypto.{Platform, public_key_text, IsSound}
use daryxx_boule_protocol.Model.{parse_time}
use daryxx_boule_protocol.Ledger.Events.{signed_event, verify_event}
use mathlib.Core.Path.{subst}
use daryxx_boule_protocol.Ledger.Chain.{
  moved_back, last_received, last_hash, clerk_key, sealed_entry, append_event, append,
}
use daryxx_boule_protocol.Ledger.Verify.{
  Cursor, genesis, verify_entry, verify_entries, verify_genesis, verify,
}
use daryxx_boule_protocol.Ledger.Verified.{
  verify_entries-append, verify_entry-Follows, verify_entry-sealed_entry, verify_entries-Ends,
  verify_event-signed_event, clerk_key-verify_genesis, last_of,
}

module _ (sys : Platform) where
  -- What a successful `_append_event` has read and built.
  pub record Appended (entries : List Value) (event : Value) (key received_at : String)
      (out : List Value × Value) : Type 0 where
    pub received : ℕ
    pub time : parse_time sys (Value.text received_at) "entry.received_at" ≡ ok received
    pub previous : Option ℕ
    pub last_time : last_received sys entries ≡ ok previous
    pub in_order : moved_back previous received ≡ false
    pub prev_hash : Value
    pub last_link : last_hash sys entries ≡ ok prev_hash
    pub built :
        out.0 ≡ entries ++ sealed_entry sys (length entries) received_at prev_hash event key ∷ []

  pub append_event-Appended :
      (entries : List Value) (event : Value) (key received_at : String) {out : List Value × Value}
      → append_event sys entries event key received_at ≡ ok out
      → Appended entries event key received_at out
  unfolding append_event
  append_event-Appended entries event key received_at a =
      let (t, time, a1) =
        >>=-eq-ok (parse_time sys (Value.text received_at) "entry.received_at") _ a in
      let (p, last_time, a2) = >>=-eq-ok (last_received sys entries) _ a1 in
      let (u, order, a3) =
        >>=-eq-ok (raise_if (moved_back p t) "ledger receipt times must be monotonic") _ a2 in
      let (h, last_link, a4) = >>=-eq-ok (last_hash sys entries) _ a3 in
      record {
        received = t;
        time = time;
        previous = p;
        last_time = last_time;
        in_order = raise_if-eq-ok (moved_back p t) "ledger receipt times must be monotonic" order;
        prev_hash = h;
        last_link = last_link;
        built = ap (λ (o : List Value × Value). o.0) (sym (ok_injective a4));
      }

  verify_one_more :
      (x : Value) (xs : List Value) (s clerk : Value) {c d : Cursor}
      → verify_genesis sys x ≡ ok clerk
      → verify_entries sys clerk genesis (x ∷ xs) ≡ ok c
      → verify_entry sys clerk c s ≡ ok d
      → verify sys ((x ∷ xs) ++ s ∷ []) ≡ ok d
  unfolding verify
  verify_one_more x xs s clerk g loop step = rw g (
      verify_entries-append sys clerk genesis (x ∷ xs) (s ∷ [])
      ∙ rw loop (unfold verify_entries in rw step))

  -- If the crypto functions keep their promises, one more entry by the clerk of a ledger that
  -- verifies, with an event that verifies, gives a ledger that verifies and is one entry longer.
  pub verify-append_event :
      (sound : IsSound sys) (key : String) (entries : List Value) (event : Value)
      (received_at : String) {c : Cursor} {out : List Value × Value}
      → verify sys entries ≡ ok c
      → clerk_key sys entries ≡ ok (Value.text (public_key_text sys key))
      → verify_event sys event ≡ ok tt
      → append_event sys entries event key received_at ≡ ok out
      → (d : Cursor) × (verify sys out.0 ≡ ok d) × (d.expected_seq ≡ length entries + 1)
  unfolding verify
  verify-append_event sound key [] event received_at v k ev a = cc
  verify-append_event sound key (x ∷ xs) event received_at {c} {out} v k ev a =
      let (clerk, g, loop) = >>=-eq-ok (verify_genesis sys x) _ v in
      let own : Value.text (public_key_text sys key) ≡ clerk =
        ok_injective (sym k ∙ clerk_key-verify_genesis sys x xs g) in
      let ends = verify_entries-Ends sys clerk genesis x xs loop in
      let (received, hash) = last_of sys (x ∷ xs) c ends.last ends.follows in
      let w = append_event-Appended (x ∷ xs) event key received_at a in
      let order : moved_back c.previous_received_at w.received ≡ false =
        subst (λ p. moved_back p w.received ≡ false) (ok_injective (sym w.last_time ∙ received))
          w.in_order in
      let link : w.prev_hash ≡ optional_text c.previous = ok_injective (sym w.last_link ∙ hash) in
      let counted : length (x ∷ xs) ≡ c.expected_seq = omega (arith, ends.count) in
      let (d, sealed) =
        verify_entry-sealed_entry sys sound key c received_at event ev w.time order in
      let s = sealed_entry sys c.expected_seq received_at (optional_text c.previous) event key in
      let built : out.0 ≡ (x ∷ xs) ++ s ∷ [] =
        subst
          (λ n.
            out.0
            ≡ (x ∷ xs) ++ sealed_entry sys n received_at (optional_text c.previous) event key ∷ [])
          counted
          (subst
            (λ h.
              out.0 ≡ (x ∷ xs) ++ sealed_entry sys (length (x ∷ xs)) received_at h event key ∷ [])
            link w.built) in
      let step : verify_entry sys clerk c s ≡ ok d =
        subst (λ q. verify_entry sys q c s ≡ ok d) own sealed in
      let (_, next) = verify_entry-Follows sys clerk c s step in
      (
        d,
        subst (λ o. verify sys o ≡ ok d) (sym built) (verify_one_more x xs s clerk g loop step),
        omega (arith, next, counted),
      )

  -- If the crypto functions keep their promises and a ledger verifies, whatever `append` adds to it
  -- (any kind, payload, signer and time that it accepts) leaves a ledger that verifies with one entry
  -- more.
  pub verify-append :
      (sound : IsSound sys) (entries : List Value) (kind : String) (payload : Value)
      (actor clerk received_at : String) {c : Cursor} {out : List Value × Value}
      → verify sys entries ≡ ok c
      → append sys entries kind payload actor clerk received_at ≡ ok out
      → (d : Cursor) × (verify sys out.0 ≡ ok d) × (d.expected_seq ≡ length entries + 1)
  unfolding append
  verify-append sound entries kind payload actor clerk received_at {c} {out} v a =
      let (k, e1, e2) = >>=-eq-ok (clerk_key sys entries) _ a in
      let (u, e3, e4) =
        >>=-eq-ok (raise_if (not (is_text k (public_key_text sys clerk))) "wrong clerk key") _ e2 in
      let (event, e5, e6) = >>=-eq-ok (signed_event sys kind payload actor) _ e4 in
      let own : k ≡ Value.text (public_key_text sys clerk) =
        is_text_lem k (public_key_text sys clerk) (
          ground (
            arith,
            raise_if-eq-ok (not (is_text k (public_key_text sys clerk))) "wrong clerk key" e3,
          )) in
      verify-append_event sound clerk entries event received_at v (e1 ∙ ap ok own)
        (verify_event-signed_event sys sound kind payload actor e5) e6
