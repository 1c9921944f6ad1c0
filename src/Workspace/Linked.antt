-- ===== src/Workspace/Linked.antt =====
-- The sessions that the keys and the claims of src/boule/workspace.py lead to are there.
use mathlib.Core.Path.{subst}
use daryxx_boule_protocol.Prelude.{
  ℕ, arith, String, ◌≡◌, refl, sym, ◌∙◌, inl, inr, true, Option, none, some, [], ◌∷◌, eq_iff, ◌==◌,
  Bool-cases,
}
use daryxx_boule_protocol.Python.{
  ok, or_crash, >>=-eq-ok, ok_injective, or_crash-eq-ok, Dict, lookup, has_key, insert,
  lookup-insert, AllValues, AllValues-insert, AllValues-lookup,
}
use daryxx_boule_protocol.Crypto.{Platform}
use daryxx_boule_protocol.Model.{required}
use daryxx_boule_protocol.Workspace.State.{Config, Event, Session, ClaimStatus, Claim, State}
use daryxx_boule_protocol.Workspace.Project.{
  key_of, session_started, set_active_claim, claim_of, new_claim, work_claimed, renewed_until,
  renewed, claim_heartbeat, close_claim, handoff_published, submission_candidate_published,
  external_submission_receipted, with_feedback, candidate_feedback_recorded,
}
use daryxx_boule_protocol.Workspace.Accepted.{Keeps}

-- A session is under its id; a key leads to a session, and so does a claim.
pub record IsLinked (s : State) : Type 0 where
  pub named : (id : String) (x : Session) → lookup id s.sessions ≡ some x → x.session_id ≡ id
  pub keyed : (key id : String) → lookup key s.session_keys ≡ some id → has_key id s.sessions ≡ true
  pub owned : AllValues (λ c. has_key c.session_id s.sessions ≡ true) s.claims

pub has_key-insert :
    {V : Type 0} (k j : String) (v : V) (d : Dict V)
    → has_key j d ≡ true
    → has_key j (insert k v d) ≡ true
has_key-insert k j v d h =
    let at = lookup-insert k j v d in
    elim (Bool-cases (j == k)) [
      | inl same ↦ rw (has_key, at) (rw same refl)
      | inr other ↦ rw (has_key, at) (rw other h)
    ]

pub has_key-own : {V : Type 0} (k : String) (v : V) (d : Dict V) → has_key k (insert k v d) ≡ true
has_key-own k v d =
    let at = lookup-insert k k v d in
    let same : (k == k) ≡ true = (eq_iff k k).1 refl in rw (has_key, at) (rw same refl)

all_owned :
    (k : String) (x : Session) (d : Dict Session) (claims : Dict Claim)
    → AllValues (λ c. has_key c.session_id d ≡ true) claims
    → AllValues (λ c. has_key c.session_id (insert k x d) ≡ true) claims
all_owned k x d [] h = tt
all_owned k x d ((j, c) ∷ claims) h =
    (has_key-insert k c.session_id x d h.0, all_owned k x d claims h.1)

pub named_insert :
    (k : String) (x : Session) (d : Dict Session)
    → x.session_id ≡ k
    → ((id : String) (y : Session) → lookup id d ≡ some y → y.session_id ≡ id)
    → (id : String) (y : Session) → lookup id (insert k x d) ≡ some y
    → y.session_id ≡ id
named_insert k x d own h id y found =
    let at = sym (lookup-insert k id x d) ∙ found in
    elim (Bool-cases (id == k)) [
      | inl same ↦
          let who : id ≡ k = (eq_iff id k).0 same in
          let what : some x ≡ some y = rw same at at in
          let is : x ≡ y = cc in subst (λ (q : Session). q.session_id ≡ id) is (own ∙ sym who)
      | inr other ↦ h id y (rw other at at)
    ]

module _ (s : State) (h : IsLinked s) where
  put_session :
      (k : String) (x : Session)
      → x.session_id ≡ k
      → IsLinked (record s { sessions = insert k x s.sessions })
  put_session k x own = record {
    named = named_insert k x s.sessions own h.named;
    keyed = λ key id found. has_key-insert k id x s.sessions (h.keyed key id found);
    owned = all_owned k x s.sessions s.claims h.owned;
  }

  put_claim :
      (k : String) (c : Claim)
      → has_key c.session_id s.sessions ≡ true
      → IsLinked (record s { claims = insert k c s.claims })
  put_claim k c there = record {
    named = h.named;
    keyed = h.keyed;
    owned =
        AllValues-insert (λ (q : Claim). has_key q.session_id s.sessions ≡ true) k c s.claims there
          h.owned;
  }

  put_key :
      (key k : String)
      → has_key k s.sessions ≡ true
      → IsLinked (record s { session_keys = insert key k s.session_keys })
  put_key key k there = record {
    named = h.named;
    keyed = λ j id found.
        let at = sym (lookup-insert key j k s.session_keys) ∙ found in
        elim (Bool-cases (j == key)) [
          | inl same ↦
              let what : some k ≡ some id = rw same at at in
              let is : k ≡ id = cc in subst (λ q. has_key q s.sessions ≡ true) is there
          | inr other ↦ h.keyed j id (rw other at at)
        ];
    owned = h.owned;
  }

  pub claim_owned :
      (k : String) {c : Claim} → lookup k s.claims ≡ some c → has_key c.session_id s.sessions ≡ true
  claim_owned k found =
      AllValues-lookup (λ (q : Claim). has_key q.session_id s.sessions ≡ true) k s.claims h.owned
        found

set_active_claim-IsLinked :
    (s : State)
    → IsLinked s
    → (k : String) (claim : Option String) {t : State} → set_active_claim s k claim ≡ ok t
    → IsLinked t
unfolding set_active_claim
set_active_claim-IsLinked s h k claim p =
    let (x, found, p1) = >>=-eq-ok (or_crash (lookup k s.sessions)) _ p in
    let own = h.named k x (or_crash-eq-ok (lookup k s.sessions) found) in
    subst IsLinked (ok_injective p1) (put_session s h k (record x { active_claim = claim }) own)

-- A binding that worked found the session.
set_active_claim-found :
    (s : State) (k : String) (claim : Option String) {t : State}
    → set_active_claim s k claim ≡ ok t
    → has_key k s.sessions ≡ true
unfolding set_active_claim
set_active_claim-found s k claim p =
    let (x, found, p1) = >>=-eq-ok (or_crash (lookup k s.sessions)) _ p in
    rw (has_key, or_crash-eq-ok (lookup k s.sessions) found) refl

new_claim-session :
    (config : Config) (claim_id session_id : String) (e : Event) {c : Claim}
    → new_claim config claim_id session_id e ≡ ok c
    → c.session_id ≡ session_id
unfolding new_claim claim_of
new_claim-session config claim_id session_id e p = ground arith

renewed-session :
    (config : Config) (at : ℕ) (c : Claim) {next : Claim}
    → renewed config at c ≡ ok next
    → next.session_id ≡ c.session_id
unfolding renewed renewed_until
renewed-session config at c p = ground arith

module _ (config : Config) (s : State) (e : Event) (h : IsLinked s) where
  session_started-IsLinked : {t : State} → session_started s e ≡ ok t → IsLinked t
  unfolding session_started
  session_started-IsLinked p =
      let (id, _, p1) = >>=-eq-ok (key_of e.payload "session_id") _ p in
      let (key, _, p2) = >>=-eq-ok (key_of e.payload "session_key") _ p1 in
      let (participant, _, p3) = >>=-eq-ok (required e.payload "participant_id") _ p2 in
      let (limit, _, p4) = >>=-eq-ok (required e.payload "not_after") _ p3 in
      let put =
        put_session s h id
          (record {
            session_id = id;
            participant_id = participant;
            not_after = limit;
            payload = e.payload;
            active_claim = none;
          })
          refl in
      subst IsLinked (ok_injective p4) (put_key _ put key id (has_key-own id _ s.sessions))

  work_claimed-IsLinked : {t : State} → work_claimed config s e ≡ ok t → IsLinked t
  unfolding work_claimed
  work_claimed-IsLinked p =
      let (claim_id, _, p1) = >>=-eq-ok (key_of e.payload "claim_id") _ p in
      let (id, _, p2) = >>=-eq-ok (key_of e.payload "session_id") _ p1 in
      let (c, is_new, p3) = >>=-eq-ok (new_claim config claim_id id e) _ p2 in
      let there = set_active_claim-found _ id (some claim_id) p3 in
      let of_session = new_claim-session config claim_id id e is_new in
      set_active_claim-IsLinked _ (put_claim s h claim_id c (rw of_session there)) id
        (some claim_id) p3

  claim_heartbeat-IsLinked : {t : State} → claim_heartbeat config s e ≡ ok t → IsLinked t
  unfolding claim_heartbeat
  claim_heartbeat-IsLinked p =
      let (claim_id, _, p1) = >>=-eq-ok (key_of e.payload "claim_id") _ p in
      let (c, found, p2) = >>=-eq-ok (or_crash (lookup claim_id s.claims)) _ p1 in
      let there = claim_owned s h claim_id (or_crash-eq-ok (lookup claim_id s.claims) found) in
      let (next, is_next, p3) = >>=-eq-ok (renewed config e.received_at c) _ p2 in
      let of_session = renewed-session config e.received_at c is_next in
      subst IsLinked (ok_injective p3) (put_claim s h claim_id next (rw of_session there))

  close_claim-IsLinked :
      (status : ClaimStatus) {t : State} → close_claim s e status ≡ ok t → IsLinked t
  unfolding close_claim
  close_claim-IsLinked status p =
      let (claim_id, _, p1) = >>=-eq-ok (key_of e.payload "claim_id") _ p in
      let (c, found, p2) = >>=-eq-ok (or_crash (lookup claim_id s.claims)) _ p1 in
      let (id, _, p3) = >>=-eq-ok (key_of e.payload "session_id") _ p2 in
      let there = claim_owned s h claim_id (or_crash-eq-ok (lookup claim_id s.claims) found) in
      set_active_claim-IsLinked _ (put_claim s h claim_id (record c { status = status }) there) id
        none p3

  handoff_published-IsLinked : {t : State} → handoff_published s e ≡ ok t → IsLinked t
  unfolding handoff_published
  handoff_published-IsLinked p =
      let (m, closed, p1) = >>=-eq-ok (close_claim s e ClaimStatus.completed) _ p in
      let (handoff_id, _, p2) = >>=-eq-ok (key_of e.payload "handoff_id") _ p1 in
      let l = close_claim-IsLinked ClaimStatus.completed closed in
      subst IsLinked (ok_injective p2)
        (record { named = l.named; keyed = l.keyed; owned = l.owned })

  candidate-IsLinked : {t : State} → submission_candidate_published s e ≡ ok t → IsLinked t
  unfolding submission_candidate_published
  candidate-IsLinked p =
      let (k, _, p1) = >>=-eq-ok (key_of e.payload "candidate_id") _ p in
      subst IsLinked (ok_injective p1)
        (record { named = h.named; keyed = h.keyed; owned = h.owned })

  receipt-IsLinked : {t : State} → external_submission_receipted s e ≡ ok t → IsLinked t
  unfolding external_submission_receipted
  receipt-IsLinked p =
      let (k, _, p1) = >>=-eq-ok (key_of e.payload "candidate_id") _ p in
      let (b, _, p2) = >>=-eq-ok (or_crash (lookup k s.candidates)) _ p1 in
      let (id, _, p3) = >>=-eq-ok (key_of e.payload "submission_id") _ p2 in
      subst IsLinked (ok_injective p3)
        (record { named = h.named; keyed = h.keyed; owned = h.owned })

  feedback-IsLinked : {t : State} → candidate_feedback_recorded s e ≡ ok t → IsLinked t
  unfolding candidate_feedback_recorded
  feedback-IsLinked p =
      let (k, _, p1) = >>=-eq-ok (key_of e.payload "candidate_id") _ p in
      let (b, _, p2) = >>=-eq-ok (or_crash (lookup k s.candidates)) _ p1 in
      let (stage, _, p3) = >>=-eq-ok (required e.payload "stage") _ p2 in
      let (c, _, p4) = >>=-eq-ok (with_feedback b e stage) _ p3 in
      subst IsLinked (ok_injective p4)
        (record { named = h.named; keyed = h.keyed; owned = h.owned })

-- Every step keeps the links.
pub keeps_links : (sys : Platform) (config : Config) → Keeps sys config IsLinked
unfolding lookup
keeps_links sys config = record {
  start = record { named = λ id x found. cc; keyed = λ key id found. cc; owned = tt };
  step = λ s seen e h ages. record {
    session_started = λ a p. session_started-IsLinked config s e h p;
    work_claimed = λ session a1 a2 p. work_claimed-IsLinked config s e h p;
    claim_heartbeat = λ session claim owned a p. claim_heartbeat-IsLinked config s e h p;
    checkpoint_published = record { named = h.named; keyed = h.keyed; owned = h.owned };
    message_posted = record { named = h.named; keyed = h.keyed; owned = h.owned };
    claim_released =
        λ session claim owned p. close_claim-IsLinked config s e h ClaimStatus.released p;
    handoff_published = λ session claim owned a p. handoff_published-IsLinked config s e h p;
    submission_candidate_published = λ a p. candidate-IsLinked config s e h p;
    external_submission_receipted = λ a p. receipt-IsLinked config s e h p;
    candidate_feedback_recorded = λ a p. feedback-IsLinked config s e h p;
    case_resolution_recorded = λ a. record { named = h.named; keyed = h.keyed; owned = h.owned };
  };
}
