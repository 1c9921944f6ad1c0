-- ===== src/Protocol/Atomic.antt =====
-- `ProtocolSession`: a call that raises changes nothing, and the state is always what a replay
-- of the ledger gives.
use daryxx_boule_protocol.Prelude.{String, ◌≡◌, refl, sym, ap, ◌∙◌, inl, inr, List, [], ◌∷◌, ◌++◌}
use daryxx_boule_protocol.Python.{Error, Result, ok, err, ◌>>◌, Result-cases, Value}
use daryxx_boule_protocol.Crypto.{Platform}
use daryxx_boule_protocol.Ledger.{append, rollback_last}
use daryxx_boule_protocol.Protocol.State.{State}
use daryxx_boule_protocol.Protocol.Apply.{apply}
use mathlib.Core.Path.{subst}
use daryxx_boule_protocol.Ledger.Creation.{rollback_last-append, append_grows}
use daryxx_boule_protocol.Protocol.Session
use daryxx_boule_protocol.Protocol.Session.{
  Session, Action, new_session, open_session, settle, extend, append_entry, with_payload,
  seal_payload, assignment_payload, commit_payload, close_payload, reveal_payload, decision_payload,
}

-- The methods of a session, with their arguments.
pub data Method : Type 0 where
  add_contribution : Value → String → String → Method
  record_technical_receipt : Value → String → String → Method
  seal_evidence : String → Method
  assign_reviewers : String → String → Method
  commit_review : Value → String → String → String → Method
  close_review_commits : String → Method
  reveal_review : Value → String → String → String → Method
  finalize : String → Method

-- whether a method returned, and the session it left
abbrev pub outcome : {A : Type 0} → Result A × Session → Result (Unit {0}) × Session
outcome (r, s) = (r >> ok tt, s)

module _ (sys : Platform) where
  unfoldable pub call : Method → Action (Unit {0})
  call (Method.add_contribution c key at) s = outcome (Session.add_contribution sys c key at s)
  call (Method.record_technical_receipt r key at) s =
      outcome (Session.record_technical_receipt sys r key at s)
  call (Method.seal_evidence at) s = outcome (Session.seal_evidence sys at s)
  call (Method.assign_reviewers seed at) s = outcome (Session.assign_reviewers sys seed at s)
  call (Method.commit_review ballot salt key at) s =
      outcome (Session.commit_review sys ballot salt key at s)
  call (Method.close_review_commits at) s = outcome (Session.close_review_commits sys at s)
  call (Method.reveal_review ballot salt key at) s =
      outcome (Session.reveal_review sys ballot salt key at s)
  call (Method.finalize at) s = outcome (Session.finalize sys at s)

  -- a client that goes on after a call has raised
  unfoldable pub call_all : List Method → Session → Session
  call_all [] s = s
  call_all (m ∷ ms) s = call_all ms (call m s).1

  -- What an action may do: raise and leave the session, or append one entry that the state accepts.
  pub data Outcome {A : Type 0} (s : Session) : Result A × Session → Type 0 where
    raised : (e : Error) → Outcome s (err e, s)
    appended :
        (a : A) (kind : String) (payload : Value) (actor at : String) (out : List Value × Value)
        (state : State)
        → append sys s.ledger kind payload actor s.clerk_private_key at ≡ ok out
        → apply sys s.state out.1 ≡ ok state
        → Outcome s (ok a, record s { ledger = out.0; state = state })

  settle-Outcome :
      (s : Session) (kind : String) (payload : Value) (actor at : String) (grown : List Value)
      (entry : Value)
      → append sys s.ledger kind payload actor s.clerk_private_key at ≡ ok (grown, entry)
      → grown ≡ s.ledger ++ entry ∷ []
      → Outcome s (settle sys s grown entry (apply sys s.state entry))
  unfolding settle
  settle-Outcome s kind payload actor at grown entry done longer =
      elim (Result-cases (apply sys s.state entry)) [
        | inl (state, accepted) ↦
            rw accepted
              (Outcome.appended entry kind payload actor at (grown, entry) state done accepted)
        | inr (e, refused) ↦ rw refused (
            subst (λ l. Outcome {A = Value} s (err e, record s { ledger = l }))
              (sym (ap rollback_last longer ∙ rollback_last-append s.ledger entry))
              (Outcome.raised e))
      ]

  -- The value that an action returns may be replaced.
  then_return :
      {A B : Type 0} {s : Session} (b : B) (x : Result A × Session)
      → Outcome s x
      → Outcome s (x.0 >> ok b, x.1)
  then_return b x (Outcome.raised e) = Outcome.raised e
  then_return b x (Outcome.appended a kind payload actor at out state done accepted) =
      Outcome.appended b kind payload actor at out state done accepted

  append_entry-Outcome :
      (kind : String) (payload : Value) (actor at : String) (s : Session)
      → Outcome s (append_entry sys kind payload actor at s)
  unfolding append_entry
  append_entry-Outcome kind payload actor at s =
      elim (Result-cases (append sys s.ledger kind payload actor s.clerk_private_key at)) [
        | inr (e, failed) ↦ rw (failed, extend) (Outcome.raised e)
        | inl ((grown, entry), done) ↦
            rw (done, extend)
              (settle-Outcome s kind payload actor at grown entry done
                (append_grows sys s.ledger kind payload actor s.clerk_private_key at done))
      ]

  -- An action that computes its payload first has the same outcomes.
  with_payload-Outcome :
      {A : Type 0} (kind key at : String) (r : Result (Value × A)) (s : Session)
      → Outcome s (with_payload sys kind key at r s)
  with_payload-Outcome kind key at (err e) s = Outcome.raised e
  with_payload-Outcome kind key at (ok (payload, a)) s =
      then_return a (append_entry sys kind payload key at s)
        (append_entry-Outcome kind payload key at s)

  pub call-Outcome : (m : Method) (s : Session) → Outcome s (call m s)
  unfolding call Session.add_contribution Session.record_technical_receipt Session.seal_evidence
      Session.assign_reviewers Session.commit_review Session.close_review_commits
      Session.reveal_review Session.finalize
  call-Outcome (Method.add_contribution c key at) s =
      then_return tt (Session.add_contribution sys c key at s)
        (append_entry-Outcome "contribution_added" c key at s)
  call-Outcome (Method.record_technical_receipt r key at) s =
      then_return tt (Session.record_technical_receipt sys r key at s)
        (append_entry-Outcome "technical_receipt_recorded" r key at s)
  call-Outcome (Method.seal_evidence at) s =
      then_return tt (Session.seal_evidence sys at s)
        (with_payload-Outcome "evidence_sealed" s.clerk_private_key at (seal_payload sys s.state) s)
  call-Outcome (Method.assign_reviewers seed at) s =
      then_return tt (Session.assign_reviewers sys seed at s) (
        with_payload-Outcome "reviewers_assigned" s.clerk_private_key at
          (assignment_payload sys s.state seed) s)
  call-Outcome (Method.commit_review ballot salt key at) s =
      then_return tt (Session.commit_review sys ballot salt key at s) (
        with_payload-Outcome "review_committed" key at (commit_payload sys s.state ballot salt key)
          s)
  call-Outcome (Method.close_review_commits at) s =
      then_return tt (Session.close_review_commits sys at s) (
        with_payload-Outcome "review_commit_phase_closed" s.clerk_private_key at
          (close_payload sys s.state) s)
  call-Outcome (Method.reveal_review ballot salt key at) s =
      then_return tt (Session.reveal_review sys ballot salt key at s)
        (with_payload-Outcome "review_revealed" key at (reveal_payload sys s.state ballot salt) s)
  call-Outcome (Method.finalize at) s = then_return tt (Session.finalize sys at s) (
      with_payload-Outcome "provisional_decision_recorded" s.clerk_private_key at
        (decision_payload sys s.state) s)

  Outcome-raised :
      {A : Type 0} {s : Session} (x : Result A × Session) {e : Error}
      → Outcome s x
      → x.0 ≡ err e
      → x.1 ≡ s
  Outcome-raised x (Outcome.raised e') h = refl
  Outcome-raised x (Outcome.appended a kind payload actor at out state done accepted) h = cc

  -- A method of a session that raises leaves the session, ledger and state, as it was.
  pub call_atomic : (m : Method) (s : Session) {e : Error} → (call m s).0 ≡ err e → (call m s).1 ≡ s
  call_atomic m s h = Outcome-raised (call m s) (call-Outcome m s) h
