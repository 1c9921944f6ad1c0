-- ===== src/Protocol/Sync.antt =====
-- The ledger and the state of a session of src/boule/protocol.py go together.
use daryxx_boule_protocol.Prelude.{
  String, ◌≡◌, sym, ap, ◌∙◌, not, some, List, [], ◌∷◌, ◌++◌, arith, length, get_elem?,
}
use daryxx_boule_protocol.Python.{
  Result, ok, raise_if, or_crash, >>=-eq-ok, ok_injective, or_crash-eq-ok, Value, is_text,
}
use daryxx_boule_protocol.Crypto.{Platform, public_key_text, IsSound}
use daryxx_boule_protocol.Ledger.{clerk_key, create, Cursor, verify}
use daryxx_boule_protocol.Protocol.State.{State, initial}
use daryxx_boule_protocol.Protocol.Apply.{apply, apply_all, replay_ledger}
use mathlib.Core.Path.{subst}
use daryxx_boule_protocol.Ledger.Appends.{verify-append}
use daryxx_boule_protocol.Ledger.Creation.{append_grows, verify-create}
use daryxx_boule_protocol.Protocol.Session.{Session, new_session, open_session}
use daryxx_boule_protocol.Protocol.Atomic.{Method, Outcome, call, call_all, call-Outcome}

only_first : (l : List Value) {x : Value} → get_elem? l 0 ≡ some x → length l ≡ 1 → l ≡ x ∷ []
only_first (y ∷ []) h n = cc
only_first [] h n = cc
only_first (y ∷ z ∷ l) h n = absurd (omega arith)

module _ (sys : Platform) where
  -- The ledger verifies, and its replay gives the state.
  pub record InSync (s : Session) : Type 0 where
    pub cursor : Cursor
    pub verified : verify sys s.ledger ≡ ok cursor
    pub replayed : apply_all sys initial s.ledger ≡ ok s.state

  apply_all-append_one :
      (s : State) (entries : List Value) (entry : Value) {t u : State}
      → apply_all sys s entries ≡ ok t
      → apply sys t entry ≡ ok u
      → apply_all sys s (entries ++ entry ∷ []) ≡ ok u
  unfolding apply_all
  apply_all-append_one s [] entry {t} {u} h k = let same : s ≡ t = ok_injective h in rw same (rw k)
  apply_all-append_one s (x ∷ xs) entry h k =
      let (m, first, rest) = >>=-eq-ok (apply sys s x) _ h in
      rw first (apply_all-append_one m xs entry rest k)

  Outcome-InSync :
      (sound : IsSound sys) {A : Type 0} {s : Session} {x : Result A × Session}
      → InSync s
      → Outcome sys s x
      → InSync x.1
  Outcome-InSync sound h (Outcome.raised e) = h
  Outcome-InSync sound {s = s} h
        (Outcome.appended a kind payload actor at out state done accepted) =
      let (d, verified, longer) =
        verify-append sys sound s.ledger kind payload actor s.clerk_private_key at h.verified
          done in
      record {
        cursor = d;
        verified = verified;
        replayed =
            subst (λ l. apply_all sys initial l ≡ ok state)
              (sym (append_grows sys s.ledger kind payload actor s.clerk_private_key at done))
              (apply_all-append_one initial s.ledger out.1 h.replayed accepted);
      }

  call_all-InSync :
      (sound : IsSound sys) (ms : List Method) (s : Session) → InSync s → InSync (call_all sys ms s)
  unfolding call_all
  call_all-InSync sound [] s h = h
  call_all-InSync sound (m ∷ ms) s h =
      call_all-InSync sound ms (call sys m s).1 (Outcome-InSync sound h (call-Outcome sys m s))

  replay-InSync : (s : Session) → InSync s → replay_ledger sys s.ledger ≡ ok s.state
  unfolding replay_ledger
  replay-InSync s h = rw h.verified h.replayed

  new_session_lem :
      (ledger : List Value) (state : State) (key : String) {s : Session}
      → new_session sys ledger state key ≡ ok s
      → (s.ledger ≡ ledger) × (s.state ≡ state)
  unfolding new_session
  new_session_lem ledger state key {s} p =
      let (k, _, p1) = >>=-eq-ok (clerk_key sys ledger) _ p in
      let (u, _, p2) =
        >>=-eq-ok
          (raise_if (not (is_text k (public_key_text sys key)))
            "session clerk key does not match ledger")
          _ p1 in
      (
        ap (λ (q : Session). q.ledger) (sym (ok_injective p2)),
        ap (λ (q : Session). q.state) (sym (ok_injective p2)),
      )

  open_session-InSync :
      (sound : IsSound sys) (case reviewers : Value) (key at : String) {s : Session}
      → open_session sys case reviewers key at ≡ ok s
      → InSync s
  unfolding open_session
  open_session-InSync sound case reviewers key at {s} p =
      let (ledger, made, p1) = >>=-eq-ok (create sys case reviewers key at) _ p in
      let (first, head, p2) = >>=-eq-ok (or_crash (get_elem? ledger 0)) _ p1 in
      let (state, accepted, p3) = >>=-eq-ok (apply sys initial first) _ p2 in
      let (d, verified, one) = verify-create sys sound case reviewers key at made in
      let kept = new_session_lem ledger state key p3 in
      let single : ledger ≡ first ∷ [] =
        only_first ledger (or_crash-eq-ok (get_elem? ledger 0) head) one in
      record {
        cursor = d;
        verified = subst (λ l. verify sys l ≡ ok d) (sym kept.0) verified;
        replayed =
            subst (λ l. apply_all sys initial l ≡ ok s.state) (sym (kept.0 ∙ single))
              (unfold apply_all in rw accepted (ap ok (sym kept.1)));
      }

  -- If the crypto functions keep their promises, then after any calls of a session's methods,
  -- whether they raise or not, `replay_ledger` accepts the session's ledger and gives its state.
  pub replay-call_all :
      (sound : IsSound sys) (case reviewers : Value) (key at : String) (ms : List Method)
      {s : Session}
      → open_session sys case reviewers key at ≡ ok s
      → replay_ledger sys (call_all sys ms s).ledger ≡ ok (call_all sys ms s).state
  replay-call_all sound case reviewers key at ms {s} p =
      replay-InSync (call_all sys ms s)
        (call_all-InSync sound ms s (open_session-InSync sound case reviewers key at p))
