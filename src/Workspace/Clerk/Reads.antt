-- ===== src/Workspace/Clerk/Reads.antt =====
-- What the first loop of `_events` (src/boule/workspace.py) has found of an event that it accepts.
use mathlib.Core.Path.{subst}
use daryxx_boule_protocol.Prelude.{
  ℕ, ◌+◌, String, ◌≡◌, refl, sym, ap, ◌∙◌, inl, inr, true, false, not, ◌&&◌, some, List, [], ◌∷◌,
  arith, Bool-cases,
}
use daryxx_boule_protocol.Python.{
  raise_unless-eq-ok, raise_unless_both, ok, raise_if, >>=-eq-ok, ok_injective, raise_if-eq-ok,
  Value, object, list, is_text, is_text_lem, is_optional_text,
}
use daryxx_boule_protocol.Crypto.{Platform, digest_object, load_public_key}
use daryxx_boule_protocol.Model.{as_text}
use daryxx_boule_protocol.Ledger.{member_of, has_fields, moved_back}
use daryxx_boule_protocol.Workspace.Clerk.Format.{event_id_of}
use daryxx_boule_protocol.Remote.{envelope_digest, select}
use daryxx_boule_protocol.Workspace.State.{Config}
use daryxx_boule_protocol.Workspace.Clerk.Entries.{
  legacy_event_fields, remote_event_fields, core_fields, unsigned_fields, Logged, Walk, is_at,
  as_dict, check_place, check_shape, logged_of, event_schema,
}
use daryxx_boule_protocol.Workspace.Clerk.Contents.{
  envelope_of, verify_legacy, check_remote, check_ordered, verify_remote, verify_contents,
  read_event, read_events,
}

pub as_text-eq-ok : (v : Value) {s : String} → as_text v ≡ ok s → v ≡ Value.text s
unfolding as_text
as_text-eq-ok (Value.text t) h = ground arith
as_text-eq-ok Value.null h = cc
as_text-eq-ok _ h = cc

text_injective : {s t : String} → Value.text s ≡ Value.text t → s ≡ t
text_injective h = cc

pub record IsPlaced (walk : Walk) (e : Value) : Type 0 where
  pub seq : Value
  pub prev : Value
  pub numbered : (member_of e "seq" ≡ ok seq) × (is_at seq walk.seq ≡ true)
  pub linked :
      (member_of e "prev_event_hash" ≡ ok prev) × (is_optional_text prev walk.previous ≡ true)

pub check_place-IsPlaced : (walk : Walk) (e : Value) → check_place walk e ≡ ok tt → IsPlaced walk e
unfolding check_place
check_place-IsPlaced walk e h =
    let (_, _, h1) =
      >>=-eq-ok
        (raise_if (not (has_fields e legacy_event_fields) && not (has_fields e remote_event_fields))
          "event chain fields are invalid")
        _ h in
    let (seq, seq_of, h2) = >>=-eq-ok (member_of e "seq") _ h1 in
    let (prev, prev_of, h3) = >>=-eq-ok (member_of e "prev_event_hash") _ h2 in
    let (_, placed, h4) =
      >>=-eq-ok
        (raise_if (not (is_at seq walk.seq && is_optional_text prev walk.previous))
          "event chain fields are invalid")
        _ h3 in
    let (numbered, linked) =
      raise_unless_both (is_at seq walk.seq) (is_optional_text prev walk.previous)
        "event chain fields are invalid" placed in
    record { seq = seq; prev = prev; numbered = (seq_of, numbered); linked = (prev_of, linked) }

pub logged_of_lem :
    (e : Value) (received_at : ℕ) (event_id : String) {l : Logged}
    → logged_of e received_at event_id ≡ ok l
    → (member_of e "event_hash" ≡ ok (Value.text l.hash)) × (l.event.received_at ≡ received_at)
unfolding logged_of
logged_of_lem e received_at event_id {l} h =
    let (v, hash_of, h1) = >>=-eq-ok (member_of e "event_hash") _ h in
    let (hash, texted, h2) = >>=-eq-ok (as_text v) _ h1 in
    let (kind, _, h3) = >>=-eq-ok (member_of e "kind") _ h2 in
    let (_, _, h4) = >>=-eq-ok (as_text kind) _ h3 in
    let (actor, _, h5) = >>=-eq-ok (member_of e "actor") _ h4 in
    let (_, _, h6) = >>=-eq-ok (as_text actor) _ h5 in
    let (payload, _, h7) = >>=-eq-ok (member_of e "payload") _ h6 in
    let (_, _, h8) = >>=-eq-ok (as_dict payload) _ h7 in
    subst
      (λ (o : Logged).
        (member_of e "event_hash" ≡ ok (Value.text o.hash)) × (o.event.received_at ≡ received_at))
      (ok_injective h8) (hash_of ∙ ap ok (as_text-eq-ok v texted), refl)

pub record IsRead (sys : Platform) (walk : Walk) (e : Value) (next : Walk) (l : Logged)
    : Type 0 where
  pub place : IsPlaced walk e
  pub signed_value : Value
  pub hashed : member_of e "event_hash" ≡ ok (Value.text l.hash)
  pub is_digest : l.hash ≡ digest_object sys signed_value
  pub advanced :
      (next.seq ≡ walk.seq + 1)
      × (next.previous ≡ some l.hash)
      × (next.last ≡ some l.event.received_at)
  pub in_order : moved_back walk.last l.event.received_at ≡ false

module _ (sys : Platform) (config : Config) where
  legacy_digest :
      (seq : ℕ) (e : Value)
      → verify_legacy sys config seq e ≡ ok tt
      → (v : Value) × (member_of e "event_hash" ≡ ok (Value.text (digest_object sys v)))
  unfolding verify_legacy
  legacy_digest seq e h =
      let (kind, _, h1) = >>=-eq-ok (member_of e "kind") _ h in
      let (payload, _, h2) = >>=-eq-ok (member_of e "payload") _ h1 in
      let (received_at, _, h3) = >>=-eq-ok (member_of e "received_at") _ h2 in
      let (event_id, _, h4) = >>=-eq-ok (member_of e "event_id") _ h3 in
      let named = event_id_of seq (digest_object sys (list (kind ∷ payload ∷ received_at ∷ []))) in
      let (_, _, h5) =
        >>=-eq-ok
          (raise_if (not (is_text event_id named)) "event id does not match its signed contents") _
          h4 in
      let (actor, _, h6) = >>=-eq-ok (member_of e "actor") _ h5 in
      let (_, _, h7) = >>=-eq-ok (load_public_key sys actor) _ h6 in
      let (fields, _, h8) = >>=-eq-ok (select e unsigned_fields) _ h7 in
      let (hash, hash_of, h9) = >>=-eq-ok (member_of e "event_hash") _ h8 in
      let digest = digest_object sys (object fields) in
      let (_, same, _) =
        >>=-eq-ok (raise_if (not (is_text hash digest)) "event hash mismatch") _ h9 in
      (
        object fields,
        hash_of ∙ ap ok (is_text_lem hash digest (raise_unless-eq-ok _ "event hash mismatch" same)),
      )

  ordered_digest :
      (seq : ℕ) (request_id : String) (e : Value)
      → check_ordered sys config seq request_id e ≡ ok tt
      → (v : Value) × (member_of e "event_hash" ≡ ok (Value.text (digest_object sys v)))
  unfolding check_ordered
  ordered_digest seq request_id e h =
      let (envelope, _, h1) = >>=-eq-ok (envelope_of sys config e) _ h in
      let (bound, _, h2) = >>=-eq-ok (member_of e "envelope_digest") _ h1 in
      let (_, _, h3) =
        >>=-eq-ok
          (raise_if (not (is_text bound (envelope_digest sys envelope)))
            "remote event envelope digest mismatch")
          _ h2 in
      let (event_id, _, h4) = >>=-eq-ok (member_of e "event_id") _ h3 in
      let (_, _, h5) =
        >>=-eq-ok
          (raise_if (not (is_text event_id (event_id_of seq (digest_object sys envelope))))
            "remote event id does not match its envelope")
          _ h4 in
      let (core, _, h6) = >>=-eq-ok (select e core_fields) _ h5 in
      let (hash, hash_of, h7) = >>=-eq-ok (member_of e "event_hash") _ h6 in
      let digest = digest_object sys (object core) in
      let (_, same, _) =
        >>=-eq-ok (raise_if (not (is_text hash digest)) "remote event hash mismatch") _ h7 in
      (
        object core,
        hash_of
            ∙ ap ok
                (is_text_lem hash digest (raise_unless-eq-ok _ "remote event hash mismatch" same)),
      )

  remote_digest :
      (seq : ℕ) (request_ids : List String) (e : Value) {out : List String}
      → verify_remote sys config seq request_ids e ≡ ok out
      → (v : Value) × (member_of e "event_hash" ≡ ok (Value.text (digest_object sys v)))
  unfolding verify_remote
  remote_digest seq request_ids e h =
      let (schema, _, h1) = >>=-eq-ok (member_of e "schema") _ h in
      let (_, _, h2) =
        >>=-eq-ok
          (raise_if (not (is_text schema event_schema)) "remote event schema is unsupported") _
          h1 in
      let (request_id, _, h3) = >>=-eq-ok (check_remote sys config request_ids e) _ h2 in
      let (_, ordered, _) = >>=-eq-ok (check_ordered sys config seq request_id e) _ h3 in
      ordered_digest seq request_id e ordered

  -- Either branch compares the hash with a digest.
  verify_contents-digest :
      (seq : ℕ) (request_ids : List String) (e : Value) {out : List String}
      → verify_contents sys config seq request_ids e ≡ ok out
      → (v : Value) × (member_of e "event_hash" ≡ ok (Value.text (digest_object sys v)))
  unfolding verify_contents
  verify_contents-digest seq request_ids e h =
      elim (Bool-cases (has_fields e legacy_event_fields)) [
        | inl legacy ↦
            let (_, checked, _) = >>=-eq-ok (verify_legacy sys config seq e) _ (rw legacy at h) in
            legacy_digest seq e checked
        | inr other ↦ remote_digest seq request_ids e (rw other at h)
      ]

  pub read_event-IsRead :
      (walk : Walk) (e : Value) {next : Walk} {l : Logged}
      → read_event sys config walk e ≡ ok (next, l)
      → IsRead sys walk e next l
  unfolding read_event
  read_event-IsRead walk e {next} {l} h =
      let (_, placed, h1) = >>=-eq-ok (check_place walk e) _ h in
      let ((received_at, event_id), _, h2) = >>=-eq-ok (check_shape sys e) _ h1 in
      let (request_ids, contents, h3) =
        >>=-eq-ok (verify_contents sys config walk.seq walk.request_ids e) _ h2 in
      let (_, ordered, h4) =
        >>=-eq-ok
          (raise_if (moved_back walk.last received_at) "event receipt times must be monotonic") _
          h3 in
      let (logged, built, h5) = >>=-eq-ok (logged_of e received_at event_id) _ h4 in
      let (value, digest) = verify_contents-digest walk.seq walk.request_ids e contents in
      let place = check_place-IsPlaced walk e placed in
      let (hashed, timed) = logged_of_lem e received_at event_id built in
      subst (λ (o : Walk × Logged). IsRead sys walk e o.0 o.1) (ok_injective h5)
        (record {
          place = place;
          signed_value = value;
          hashed = hashed;
          is_digest = text_injective (ok_injective (sym hashed ∙ digest));
          advanced = (refl, refl, ap some (sym timed));
          in_order =
              subst (λ t. moved_back walk.last t ≡ false) (sym timed) (raise_if-eq-ok _ _ ordered);
        })

  pub read_events-nil :
      (walk : Walk) {end : Walk} {events : List Logged}
      → read_events sys config walk [] ≡ ok (end, events)
      → (walk ≡ end) × (events ≡ [])
  unfolding read_events
  read_events-nil walk h =
      let same = ok_injective h in
      (ap (λ (o : Walk × List Logged). o.0) same, sym (ap (λ (o : Walk × List Logged). o.1) same))

  pub read_events-cons :
      (walk : Walk) (e : Value) (files : List Value) {end : Walk} {events : List Logged}
      → read_events sys config walk (e ∷ files) ≡ ok (end, events)
      → (next : Walk) × (l : Logged) × (rest : List Logged) × (events ≡ l ∷ rest)
        × (read_event sys config walk e ≡ ok (next, l))
        × (read_events sys config next files ≡ ok (end, rest))
  unfolding read_events
  read_events-cons walk e files {end} {events} h =
      let ((next, l), read, h1) = >>=-eq-ok (read_event sys config walk e) _ h in
      let ((last, rest), more, h2) = >>=-eq-ok (read_events sys config next files) _ h1 in
      let same = ok_injective h2 in
      (
        next,
        l,
        rest,
        sym (ap (λ (o : Walk × List Logged). o.1) same),
        read,
        more ∙ ap (λ w. ok (w, rest)) (ap (λ (o : Walk × List Logged). o.0) same),
      )
