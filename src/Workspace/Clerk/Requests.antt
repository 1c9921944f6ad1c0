-- ===== src/Workspace/Clerk/Requests.antt =====
-- `remote_request_ids` of `_events` (src/boule/workspace.py) holds the ids of the log's envelopes.
use mathlib.Core.Path.{subst}
use daryxx_boule_protocol.Prelude.{
  same_texts, not_both, ℕ, String, ◌≡◌, refl, sym, ap, ◌∙◌, ◌⊎◌, inl, inr, true, false, not, none,
  some, List, [], ◌∷◌, ◌==◌, Bool-cases, find?,
}
use daryxx_boule_protocol.Python.{
  raise_unless-eq-ok, ok, raise_if, >>=-eq-ok, ok_injective, or_crash-eq-ok, contains, lookup,
  Value, members, is_text, is_text_refl, is_text_lem, same_value,
}
use daryxx_boule_protocol.Crypto.{Platform}
use daryxx_boule_protocol.Model.{required, in_set}
use daryxx_boule_protocol.Ledger.{member_of, has_fields, moved_back}
use daryxx_boule_protocol.Remote.{is_one_of, verify_envelope}
use daryxx_boule_protocol.Workspace.State.{Config}
use daryxx_boule_protocol.Workspace.Log.{participant_events}
use daryxx_boule_protocol.Workspace.Clerk.Entries.{
  event_schema, legacy_event_fields, Logged, Walk, check_place, check_shape, logged_of,
}
use daryxx_boule_protocol.Workspace.Clerk.Contents.{
  envelope_of, verify_legacy, check_remote, check_ordered, verify_remote, verify_contents,
  read_event, read_events,
}
use daryxx_boule_protocol.Workspace.Clerk.Append.{answers}
use daryxx_boule_protocol.Workspace.Clerk.Reads.{as_text-eq-ok, read_events-nil, read_events-cons}

pub answers_members :
    (id : String) (e : Value)
    → member_of e "schema" ≡ ok (Value.text event_schema)
    → member_of e "request_id" ≡ ok (Value.text id)
    → answers id e ≡ true
unfolding member_of required answers
answers_members id (Value.obj ms) a b =
    rw
      (
        answers,
        or_crash-eq-ok (lookup "schema" (members ms)) a,
        or_crash-eq-ok (lookup "request_id" (members ms)) b,
        is_text_refl event_schema,
        is_text_refl id,
      )
      refl
answers_members id Value.null a b = cc
answers_members id _ a b = cc

-- Either nothing is added, or the id of an event that answers it.
abbrev IsAdded : List String → Value → List String → Type 0
IsAdded ids e out = (out ≡ ids) ⊎ ((r : String) × (out ≡ r ∷ ids) × (answers r e ≡ true))

not-none_found : {v : Value} → ¬ (some v ≡ none)
not-none_found h = cc

still_new :
    (id : String) (ids : List String) (e : Value) (out : List String)
    → answers id e ≡ false
    → contains id ids ≡ false
    → IsAdded ids e out
    → contains id out ≡ false
unfolding contains
still_new id ids e out away c (inl same) = subst (λ o. contains id o ≡ false) (sym same) c
still_new id ids e out away c (inr (r, form, there)) = elim (Bool-cases (id == r)) [
  | inl same ↦
      absurd (not_both (subst (λ k. answers k e ≡ true) (sym (same_texts id r same)) there) away)
  | inr other ↦ subst (λ o. contains id o ≡ false) (sym form) (rw other c)
]

module _ (sys : Platform) (config : Config) where
  check_remote-request :
      (ids : List String) (e : Value) {r : String}
      → check_remote sys config ids e ≡ ok r
      → member_of e "request_id" ≡ ok (Value.text r)
  unfolding check_remote
  check_remote-request ids e h =
      let (kind, _, h1) = >>=-eq-ok (member_of e "kind") _ h in
      let (_, _, h2) =
        >>=-eq-ok
          (raise_if (not (is_one_of kind participant_events))
            "remote event kind is not a participant event")
          _ h1 in
      let (base, _, h3) = >>=-eq-ok (member_of e "base_event_hash") _ h2 in
      let (prev, _, h4) = >>=-eq-ok (member_of e "prev_event_hash") _ h3 in
      let (_, _, h5) =
        >>=-eq-ok
          (raise_if (not (same_value base prev))
            "remote event base does not match its ordered predecessor")
          _ h4 in
      let (request, request_of, h6) = >>=-eq-ok (member_of e "request_id") _ h5 in
      let (seen, _, h7) = >>=-eq-ok (in_set request ids) _ h6 in
      let (_, _, h8) = >>=-eq-ok (raise_if seen "remote request id is not unique") _ h7 in
      let (envelope, _, h9) = >>=-eq-ok (envelope_of sys config e) _ h8 in
      let (_, _, h10) =
        >>=-eq-ok
          (verify_envelope sys envelope config.problem_id config.maintainer_key participant_events)
          _ h9 in
      request_of ∙ ap ok (as_text-eq-ok request h10)

  verify_remote-IsAdded :
      (seq : ℕ) (ids : List String) (e : Value) {out : List String}
      → verify_remote sys config seq ids e ≡ ok out
      → IsAdded ids e out
  unfolding verify_remote
  verify_remote-IsAdded seq ids e h =
      let (schema, schema_of, h1) = >>=-eq-ok (member_of e "schema") _ h in
      let (_, schemed, h2) =
        >>=-eq-ok
          (raise_if (not (is_text schema event_schema)) "remote event schema is unsupported") _
          h1 in
      let (r, checked, h3) = >>=-eq-ok (check_remote sys config ids e) _ h2 in
      let (_, _, h4) = >>=-eq-ok (check_ordered sys config seq r e) _ h3 in
      let named =
        is_text_lem schema event_schema
          (raise_unless-eq-ok _ "remote event schema is unsupported" schemed) in
      inr (
        r,
        sym (ok_injective h4),
        answers_members r e (schema_of ∙ ap ok named) (check_remote-request ids e checked),
      )

  verify_contents-IsAdded :
      (seq : ℕ) (ids : List String) (e : Value) {out : List String}
      → verify_contents sys config seq ids e ≡ ok out
      → IsAdded ids e out
  unfolding verify_contents
  verify_contents-IsAdded seq ids e h = elim (Bool-cases (has_fields e legacy_event_fields)) [
    | inl legacy ↦
        let (_, _, h1) = >>=-eq-ok (verify_legacy sys config seq e) _ (rw legacy at h) in
        inl (sym (ok_injective h1))
    | inr other ↦ verify_remote-IsAdded seq ids e (rw other at h)
  ]

  read_event-IsAdded :
      (walk : Walk) (e : Value) {next : Walk} {l : Logged}
      → read_event sys config walk e ≡ ok (next, l)
      → IsAdded walk.request_ids e next.request_ids
  unfolding read_event
  read_event-IsAdded walk e {next} {l} h =
      let (_, _, h1) = >>=-eq-ok (check_place walk e) _ h in
      let ((received_at, event_id), _, h2) = >>=-eq-ok (check_shape sys e) _ h1 in
      let (ids, contents, h3) =
        >>=-eq-ok (verify_contents sys config walk.seq walk.request_ids e) _ h2 in
      let (_, _, h4) =
        >>=-eq-ok
          (raise_if (moved_back walk.last received_at) "event receipt times must be monotonic") _
          h3 in
      let (logged, _, h5) = >>=-eq-ok (logged_of e received_at event_id) _ h4 in
      subst (λ (o : Walk × Logged). IsAdded walk.request_ids e o.0.request_ids) (ok_injective h5)
        (verify_contents-IsAdded walk.seq walk.request_ids e contents)

  -- The id of no event is not among the ids that the loop has seen.
  pub read_events-request_ids :
      (id : String) (walk : Walk) (files : List Value) {end : Walk} {events : List Logged}
      → read_events sys config walk files ≡ ok (end, events)
      → find? (answers id) files ≡ none
      → contains id walk.request_ids ≡ false
      → contains id end.request_ids ≡ false
  read_events-request_ids id walk [] {end} {events} h f c =
      subst (λ w. contains id w.request_ids ≡ false) (read_events-nil sys config walk h).0 c
  read_events-request_ids id walk (e ∷ files) {end} {events} h f c =
      let (after, m, rest, form, read, more) = read_events-cons sys config walk e files h in
      elim (Bool-cases (answers id e)) [
        | inl there ↦ absurd (not-none_found (rw (find?, there) at f))
        | inr away ↦ read_events-request_ids id after files more (rw (find?, away) at f) (
            still_new id walk.request_ids e after.request_ids away c
              (read_event-IsAdded walk e read))
      ]
