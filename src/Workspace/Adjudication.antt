-- ===== src/Workspace/Adjudication.antt =====
-- The adjudication of the candidates of src/boule/workspace.py, from the submission to the resolution.
use mathlib.Core.Path.{subst}
use daryxx_boule_protocol.Prelude.{
  ℕ, ◌+◌, ◌≤◌, String, ◌≡◌, refl, sym, ◌∙◌, true, none, some, List, [], ◌∷◌, ◌++◌, arith, length,
}
use daryxx_boule_protocol.Python.{
  ok, >>=-eq-ok, ok_injective, lookup, insert, values, AllValues, AllValues-insert,
  AllValues-lookup,
}
use daryxx_boule_protocol.Crypto.{Platform}
use daryxx_boule_protocol.Workspace.State.{
  Config, Event, ClaimStatus, Observation, CandidateStatus, Candidate, State, empty,
}
use daryxx_boule_protocol.Workspace.Project.{
  key_of, observed, submission_candidate_published, external_submission_receipted, with_feedback,
  candidate_feedback_recorded, project_all,
}
use daryxx_boule_protocol.Workspace.Expiry.{state_from}
use daryxx_boule_protocol.Workspace.Maintain.{
  bound_candidate, authorize_receipt, check_stage, authorize_feedback, authorize_resolution,
}
use daryxx_boule_protocol.Workspace.Publish.{authorize_candidate, is_empty}
use daryxx_boule_protocol.Workspace.Log.{validate_events}
use daryxx_boule_protocol.Workspace.Counting.{
  one, count_if, count_if-replaced, count_if-added, count_if-lookup, in_flight, is_approved,
  unblocked-count,
}
use daryxx_boule_protocol.Workspace.Accepted.{Keeps, log-Holds}
use daryxx_boule_protocol.Workspace.Candidates.{IsCoherent, Replaces, added, receipted, fed_back}
use daryxx_boule_protocol.Workspace.Allowed.{
  bound_candidate-found, receipt_allowed, feedback_allowed, resolution_allowed,
}
use daryxx_boule_protocol.Workspace.Untouched.{
  Untouched, expire_claims-Untouched, session_started-Untouched, work_claimed-Untouched,
  claim_heartbeat-Untouched, close_claim-Untouched, handoff_published-Untouched, candidate_allowed,
}
use daryxx_boule_protocol.Workspace.Feedback.{feedback-Follows, receipted-IsCoherent}

-- The candidates are coherent; at most one of them is in flight; the case has at most one
-- resolution, and if it has one, an approved candidate.
pub record IsAdjudicated (s : State) : Type 0 where
  pub coherent : AllValues IsCoherent s.candidates
  pub single : count_if in_flight (values s.candidates) ≤ 1
  pub one_resolution : length s.resolutions ≤ 1
  pub approved : length s.resolutions ≤ count_if is_approved (values s.candidates)

module _ (s : State) (h : IsAdjudicated s) where
  same_candidates :
      (t : State) → t.candidates ≡ s.candidates → t.resolutions ≡ s.resolutions → IsAdjudicated t
  same_candidates t c r = record {
    coherent = subst (AllValues IsCoherent) (sym c) h.coherent;
    single = rw c h.single;
    one_resolution = rw r h.one_resolution;
    approved = rw c (rw r h.approved);
  }

  added-IsAdjudicated :
      (t : State) (k : String) (c : Candidate)
      → c.status ≡ CandidateStatus.candidate_ready
      → lookup k s.candidates ≡ none
      → t.candidates ≡ insert k c s.candidates
      → t.resolutions ≡ s.resolutions
      → IsAdjudicated t
  added-IsAdjudicated t k c ready new grown same =
      let coherent : IsCoherent c = record {
        submitted = λ q. ground arith;
        verified = λ q. ground arith;
        reviewed = λ q. ground arith;
      } in
      let flight = count_if-added in_flight k c s.candidates new in
      let approval = count_if-added is_approved k c s.candidates new in
      record {
        coherent =
            subst (AllValues IsCoherent) (sym grown)
              (AllValues-insert IsCoherent k c s.candidates coherent h.coherent);
        single = rw grown (rw flight (rw ready (let x = h.single in omega arith)));
        one_resolution = rw same h.one_resolution;
        approved = rw grown (rw approval (rw same (let x = h.approved in omega arith)));
      }

  replaced-IsAdjudicated :
      (t : State) (k : String) (b c : Candidate)
      → Replaces s t k b c
      → IsCoherent c
      → count_if in_flight (values s.candidates) + one (in_flight c.status)
        ≤ 1 + one (in_flight b.status)
      → one (is_approved b.status) ≤ one (is_approved c.status)
      → IsAdjudicated t
  replaced-IsAdjudicated t k b c r coherent flight_le approval_le =
      let flight = count_if-replaced in_flight k c s.candidates r.found in
      let approval = count_if-replaced is_approved k c s.candidates r.found in
      let before = h.approved in
      record {
        coherent =
            subst (AllValues IsCoherent) (sym r.candidates)
              (AllValues-insert IsCoherent k c s.candidates coherent h.coherent);
        single = rw (r.candidates) (omega arith);
        one_resolution = rw (r.resolutions) h.one_resolution;
        approved = rw (r.candidates) (rw (r.resolutions) (omega arith));
      }

module _ (sys : Platform) (config : Config) (s seen : State) (e : Event) (h : IsAdjudicated s)
    (same : Untouched s seen) where
  of_Untouched : {t : State} → Untouched s t → IsAdjudicated t
  of_Untouched {t} u = same_candidates s h t u.candidates u.resolutions

  candidate-IsAdjudicated :
      {t : State}
      → authorize_candidate config e.payload seen ≡ ok tt
      → submission_candidate_published s e ≡ ok t
      → IsAdjudicated t
  candidate-IsAdjudicated {t} a p =
      let (k, named, new) = candidate_allowed config e.payload seen a in
      let (j, c, is_j, ready, grown, kept) = added config s e p in
      let is : j ≡ k = ok_injective (sym is_j ∙ named) in
      let new_s : lookup k s.candidates ≡ none =
        subst (λ d. lookup k d ≡ none) same.candidates new in
      added-IsAdjudicated s h t j c ready (subst (λ q. lookup q s.candidates ≡ none) (sym is) new_s)
        grown kept

  -- The candidate that is bound in the state that was seen is the one that the step replaces.
  bound_is :
      (k : String) (b c : Candidate)
      → key_of e.payload "candidate_id" ≡ ok k
      → lookup k s.candidates ≡ some b
      → bound_candidate config e.payload seen ≡ ok c
      → c ≡ b
  bound_is k b c named found bound =
      let in_seen = bound_candidate-found config e.payload seen k named bound in
      let in_s : lookup k s.candidates ≡ some c =
        subst (λ d. lookup k d ≡ some c) same.candidates in_seen in
      cc

  receipt-IsAdjudicated :
      {t : State}
      → authorize_receipt sys config e.payload seen e.received_at ≡ ok tt
      → external_submission_receipted s e ≡ ok t
      → IsAdjudicated t
  receipt-IsAdjudicated {t} a p =
      let (c, id, bound, ready, free, has_id) =
        receipt_allowed sys config e.payload seen e.received_at a in
      let (k, b, named, r) = receipted config s e p in
      let is = bound_is k b c named r.found bound in
      let ready_b : b.status ≡ CandidateStatus.candidate_ready =
        subst (λ (q : Candidate). q.status ≡ CandidateStatus.candidate_ready) is ready in
      let none_seen = unblocked-count seen free in
      let none_s : count_if in_flight (values s.candidates) ≡ 0 =
        subst (λ d. count_if in_flight (values d) ≡ 0) same.candidates none_seen in
      replaced-IsAdjudicated s h t k b _ r (receipted-IsCoherent b e id has_id)
        (rw none_s (omega arith)) (rw ready_b (omega arith))

  feedback-IsAdjudicated :
      {t : State}
      → authorize_feedback config e.payload seen ≡ ok tt
      → candidate_feedback_recorded s e ≡ ok t
      → IsAdjudicated t
  feedback-IsAdjudicated {t} a p =
      let (c, stage, decision, bound, at, _, checked) = feedback_allowed config e.payload seen a in
      let (k, b, d, stage1, named, at1, next, r) = fed_back config s e p in
      let is = bound_is k b c named r.found bound in
      let is_stage : stage ≡ stage1 = ok_injective (sym at ∙ at1) in
      let checked_b : check_stage stage decision b ≡ ok tt =
        subst (λ q. check_stage stage decision q ≡ ok tt) is checked in
      let next_b : with_feedback b e stage ≡ ok d =
        subst (λ q. with_feedback b e q ≡ ok d) (sym is_stage) next in
      let follows =
        feedback-Follows b e (AllValues-lookup IsCoherent k s.candidates h.coherent r.found) stage
          decision checked_b next_b in
      let flight = follows.flight in
      let single = h.single in
      replaced-IsAdjudicated s h t k b d r follows.coherent (omega arith) follows.approval

  resolution-IsAdjudicated :
      authorize_resolution config e.payload seen ≡ ok tt
      → IsAdjudicated (record s { resolutions = s.resolutions ++ observed e ∷ [] })
  resolution-IsAdjudicated a =
      let (c, k, found, approved, only) = resolution_allowed config e.payload seen a in
      let found_s : lookup k s.candidates ≡ some c =
        subst (λ d. lookup k d ≡ some c) same.candidates found in
      let only_s : is_empty s.resolutions ≡ true =
        subst (λ (r : List Observation). is_empty r ≡ true) same.resolutions only in
      let fresh = first_one s.resolutions (observed e) only_s in
      let there = count_if-lookup is_approved k s.candidates found_s approved in
      record {
        coherent = h.coherent;
        single = h.single;
        one_resolution = rw fresh (omega arith);
        approved = rw fresh there;
      }
    where
      first_one :
          (rs : List Observation) (o : Observation) → is_empty rs ≡ true → length (rs ++ o ∷ []) ≡ 1
      first_one [] o q = refl
      first_one (r ∷ rs) o q = cc

keeps_adjudication : (sys : Platform) (config : Config) → Keeps sys config IsAdjudicated
unfolding values count_if
keeps_adjudication sys config = record {
  start = record {
    coherent = tt;
    single = omega arith;
    one_resolution = omega arith;
    approved = omega arith;
  };
  step = λ s seen e h ages.
      let same = expire_claims-Untouched config e.received_at s ages in
      record {
        session_started =
            λ a p. of_Untouched sys config s seen e h same (session_started-Untouched config s e p);
        work_claimed = λ session a1 a2 p.
            of_Untouched sys config s seen e h same (work_claimed-Untouched config s e p);
        claim_heartbeat = λ session claim owned a p.
            of_Untouched sys config s seen e h same (claim_heartbeat-Untouched config s e p);
        checkpoint_published =
            of_Untouched sys config s seen e h same
              (record { candidates = refl; resolutions = refl });
        message_posted =
            of_Untouched sys config s seen e h same
              (record { candidates = refl; resolutions = refl });
        claim_released = λ session claim owned p.
            of_Untouched sys config s seen e h same
              (close_claim-Untouched config s e ClaimStatus.released p);
        handoff_published = λ session claim owned a p.
            of_Untouched sys config s seen e h same (handoff_published-Untouched config s e p);
        submission_candidate_published =
            λ a p. candidate-IsAdjudicated sys config s seen e h same a p;
        external_submission_receipted = λ a p. receipt-IsAdjudicated sys config s seen e h same a p;
        candidate_feedback_recorded = λ a p. feedback-IsAdjudicated sys config s seen e h same a p;
        case_resolution_recorded = λ a. resolution-IsAdjudicated sys config s seen e h same a;
      };
}

-- In the state that an accepted log projects to at any time, every candidate that is not just
-- published has a submission, with its id, and the feedback that its status needs; at most one
-- candidate awaits a verdict or is approved; and the case has at most one resolution, and none without
-- an approved candidate.
pub state_from-IsAdjudicated :
    (sys : Platform) (config : Config) (events : List Event) (now : ℕ) {out : List Event}
    {s : State}
    → validate_events sys config [] events ≡ ok out
    → state_from config out now ≡ ok s
    → IsAdjudicated s
unfolding state_from
state_from-IsAdjudicated sys config events now {out} {s} accepted projected =
    let (t, before, ages) = >>=-eq-ok (project_all config empty out) _ projected in
    let h =
      log-Holds sys config IsAdjudicated (keeps_adjudication sys config) events accepted before in
    let same = expire_claims-Untouched config now t ages in
    same_candidates t h s same.candidates same.resolutions
