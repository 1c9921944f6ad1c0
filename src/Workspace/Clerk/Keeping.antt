-- ===== src/Workspace/Clerk/Keeping.antt =====
-- `append_envelope` of src/boule/workspace.py keeps the log acceptable, and the receipt that it
-- returns is one that the participant accepts.
use mathlib.Core.Path.{subst}
use daryxx_boule_protocol.Prelude.{
  not_true, ℕ, ◌<◌, String, ◌≡◌, refl, sym, ap, ◌∙◌, inl, inr, true, false, Option, none, some,
  List, [], arith, Option-cases, length, find?, last?,
}
use daryxx_boule_protocol.Python.{
  is_optional_text_lem, request_conflict, ok, >>=-eq-ok, ok_injective, contains, Value, is_text,
}
use daryxx_boule_protocol.Crypto.{Platform, digest_object, public_key_text, IsSound}
use daryxx_boule_protocol.Ledger.{member_of}
use daryxx_boule_protocol.Remote.{envelope_digest}
use daryxx_boule_protocol.Remote.Agreed.{Envelope, Holds, IsAdmitted}
use daryxx_boule_protocol.Remote.Admitted.{IsSigned}
use daryxx_boule_protocol.Remote.Building.{envelope_value, envelope_value-Holds}
use daryxx_boule_protocol.Remote.Digests.{digest_object-Holds}
use daryxx_boule_protocol.Workspace.State.{Config}
use daryxx_boule_protocol.Workspace.Log.{participant_events}
use daryxx_boule_protocol.Workspace.Clerk.Format.{IsStandard}
use daryxx_boule_protocol.Workspace.Clerk.Entries.{Logged, Walk, walk_start}
use daryxx_boule_protocol.Workspace.Clerk.Append.{
  answers, not_before, unless, Appended, answer_again, order_envelope, append_envelope,
}
use daryxx_boule_protocol.Workspace.Clerk.Load.{hash_of}
use daryxx_boule_protocol.Workspace.Clerk.Extending.{read_events-IsEnd, read_events-length}
use daryxx_boule_protocol.Workspace.Clerk.Requests.{read_events-request_ids}
use daryxx_boule_protocol.Workspace.Clerk.Ordered.{IsNext}
use daryxx_boule_protocol.Workspace.Clerk.Loaded.{IsLoaded, load_events-IsLoaded}
use daryxx_boule_protocol.Workspace.Clerk.Opened.{
  in_time, load_public_key-text, authorize_envelope-eq-ok, order_envelope-eq-ok,
  append_envelope-IsOpened,
}
use daryxx_boule_protocol.Workspace.Clerk.Answers.{IsKept, answer, new_event-IsKept}

nothing_seen : (id : String) → contains id [] ≡ false
unfolding contains
nothing_seen id = refl

module _ (sys : Platform) (config : Config) where
  last_hash : (o : Option Logged) → elim o [ some l ↦ some l.hash | none ↦ none ] ≡ hash_of o
  unfolding hash_of
  last_hash none = refl
  last_hash (some l) = refl

  not_created :
      (files : List Value) (envelope previous : Value) {a : Appended}
      → answer_again sys config envelope files previous ≡ ok a
      → ¬ (a.created ≡ true)
  unfolding answer_again
  not_created files envelope previous {a} h created =
      let (digest, _, h1) = >>=-eq-ok (member_of previous "envelope_digest") _ h in
      let (_, _, h2) =
        >>=-eq-ok
          (unless (is_text digest (envelope_digest sys envelope))
            (request_conflict "remote request id was reused with another envelope"))
          _ h1 in
      let (receipt, _, h3) = >>=-eq-ok (member_of previous "clerk_receipt") _ h2 in
      not_true (ap (λ (o : Appended). o.created) (ok_injective h3) ∙ created)

  module _ (sound : IsSound sys) (standard : IsStandard sys) (envelope : Value) (key : String)
      (observed : ℕ) (files receipts : List Value) where
    -- The new event, if the digest is the one of the envelope as the log rebuilds it.
    order_envelope-IsKept :
        (right_key : public_key_text sys key ≡ config.maintainer_key) (v : Envelope)
        (holds : Holds envelope config.problem_id config.maintainer_key v)
        (admitted : IsAdmitted sys config.problem_id participant_events v)
        (signed : IsSigned sys config.problem_id config.maintainer_key v) (events : List Logged)
        (end : Walk) {a : Appended}
        → IsLoaded sys config files receipts end events
        → length files < 100000000
        → find? (answers v.request_id) files ≡ none
        → order_envelope sys config key observed envelope files events ≡ ok a
        → IsKept sys config receipts files envelope a
    order_envelope-IsKept right_key v holds admitted signed events end {a} loaded few new h =
        let now = not_before observed (last? events) in
        let (based, authorized, result) =
          order_envelope-eq-ok sys config key observed envelope v files events holds h in
        let (actor, is_actor) = load_public_key-text sys v.actor signed.loaded in
        let (s, projected, allowed) =
          authorize_envelope-eq-ok sys config events envelope v actor now holds is_actor
            authorized in
        let walk = read_events-IsEnd sys config walk_start files loaded.read in
        let rebuilt = envelope_value config.problem_id config.maintainer_key v in
        let d = digest_object sys envelope in
        let d2 = digest_object sys rebuilt in
        let same : d ≡ d2 =
          digest_object-Holds sys standard.json_dumps-lookup envelope rebuilt config.problem_id
            config.maintainer_key v holds
            (envelope_value-Holds config.problem_id config.maintainer_key v) in
        let based_at : hash_of (last? events) ≡ v.base =
          is_optional_text_lem v.base (hash_of (last? events)) based in
        let at_end : length events ≡ end.seq = omega (arith, walk.counted) in
        let counted = read_events-length sys config walk_start files loaded.read in
        let is_next : IsNext end v now = record {
          headed = walk.headed ∙ last_hash (last? events) ∙ based_at;
          unseen =
              read_events-request_ids sys config v.request_id walk_start files loaded.read new
                (nothing_seen v.request_id);
          in_time = in_time observed (last? events) end.last walk.timed;
          few = omega (arith, few, counted, walk.counted);
        } in
        let kept =
          new_event-IsKept sys config sound standard envelope key files receipts right_key v holds
            admitted signed actor is_actor now events end s loaded is_next new projected allowed
            same in
        subst (λ o. IsKept sys config receipts files envelope o)
          (ap (λ n. answer sys config key files v n now v.base d2) (sym at_end)
            ∙ ap (λ o. answer sys config key files v (length events) now o d2) (sym based_at)
            ∙ ap (λ x. answer sys config key files v (length events) now (hash_of (last? events)) x)
                (sym same)
            ∙ sym result)
          kept

    -- If the libraries keep their promises and the log has fewer than a hundred million events, then
    -- a new envelope that `append_envelope` orders is kept: the log with its event is accepted by
    -- `_events`, and the receipt in the event is accepted by the participant, for the envelope and
    -- under the clerk's key.
    pub append_envelope-IsKept :
        {a : Appended}
        → append_envelope sys config
            (some envelope)
            key
            (record { instant = observed; aware = true })
            files
            receipts
          ≡ ok a
        → a.created ≡ true
        → length files < 100000000
        → IsKept sys config receipts files envelope a
    append_envelope-IsKept {a} h created few =
        let o =
          append_envelope-IsOpened sys config envelope key
            (record { instant = observed; aware = true }) files receipts h in
        let (end, loaded) = load_events-IsLoaded sys config files receipts o.loaded in
        elim (Option-cases (find? (answers o.values.request_id) files)) [
          | inl new ↦
              order_envelope-IsKept o.right_key o.values o.holds o.admitted o.signed o.events end
                loaded few new (rw new at o.answered)
          | inr (previous, there) ↦
              absurd (not_created files envelope previous (rw there at o.answered) created)
        ]
