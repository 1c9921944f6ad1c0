-- ===== src/Workspace/Candidates.antt =====
-- What the projection of src/boule/workspace.py does to a candidate, and what of it was authorized.
use daryxx_boule_protocol.Prelude.{
  ℕ, String, ◌≡◌, refl, sym, ap, ◌∙◌, Bool, true, false, not, Option, none, some, arith, eqb,
  if◌then◌else◌,
}
use daryxx_boule_protocol.Python.{
  ok, raise_if, or_crash, >>=-eq-ok, ok_injective, or_crash-eq-ok, lookup, insert, Value,
}
use daryxx_boule_protocol.Model.{required}
use daryxx_boule_protocol.Workspace.State.{
  Config, Event, CandidateStatus, status_code, same_status, Candidate, State,
}
use daryxx_boule_protocol.Workspace.Project.{
  key_of, observed, submission_candidate_published, external_submission_receipted, with_feedback,
  candidate_feedback_recorded,
}
use daryxx_boule_protocol.Workspace.Status.{submission_of}
use daryxx_boule_protocol.Workspace.Counting.{is_approved}

abbrev pub is_there {ℓ} : {A : Type ℓ} → Option A → Bool
is_there none = false
is_there (some _) = true

-- REVIEW_PENDING and what comes after it
abbrev pub behind_verifier : CandidateStatus → Bool
behind_verifier CandidateStatus.candidate_ready = false
behind_verifier CandidateStatus.verification_pending = false
behind_verifier _ = true

-- A candidate that is not just published has a submission with its id; one that awaits the review or
-- is behind it has the verifier's feedback; and one that was approved has the review.
pub record IsCoherent (c : Candidate) : Type 0 where
  pub submitted :
      same_status c.status CandidateStatus.candidate_ready ≡ false
      → (id : Value) × (submission_of c ≡ ok id)
  pub verified : behind_verifier c.status ≡ true → is_there c.verifier ≡ true
  pub reviewed : is_approved c.status ≡ true → is_there c.review ≡ true

-- The state has one candidate more, or another under the id, and all else of it but the submissions'
-- ids and the feedback is as before.
pub record Replaces (s t : State) (k : String) (b c : Candidate) : Type 0 where
  pub found : lookup k s.candidates ≡ some b
  pub candidates : t.candidates ≡ insert k c s.candidates
  pub resolutions : t.resolutions ≡ s.resolutions

module _ (config : Config) (s : State) (e : Event) where
  pub added :
      {t : State}
      → submission_candidate_published s e ≡ ok t
      → (k : String) × (c : Candidate) × (key_of e.payload "candidate_id" ≡ ok k)
        × (c.status ≡ CandidateStatus.candidate_ready)
        × (t.candidates ≡ insert k c s.candidates)
        × (t.resolutions ≡ s.resolutions)
  unfolding submission_candidate_published
  added p =
      let (k, named, p1) = >>=-eq-ok (key_of e.payload "candidate_id") _ p in
      (
        k,
        _,
        named,
        refl,
        ap (λ (q : State). q.candidates) (sym (ok_injective p1)),
        ap (λ (q : State). q.resolutions) (sym (ok_injective p1)),
      )

  pub receipted :
      {t : State}
      → external_submission_receipted s e ≡ ok t
      → (k : String) × (b : Candidate) × (key_of e.payload "candidate_id" ≡ ok k)
        × Replaces s t k b (record b {
          status = CandidateStatus.verification_pending;
          submission = some (observed e);
        })
  unfolding external_submission_receipted
  receipted p =
      let (k, named, p1) = >>=-eq-ok (key_of e.payload "candidate_id") _ p in
      let (b, found, p2) = >>=-eq-ok (or_crash (lookup k s.candidates)) _ p1 in
      let (id, _, p3) = >>=-eq-ok (key_of e.payload "submission_id") _ p2 in
      (
        k,
        b,
        named,
        record {
          found = or_crash-eq-ok (lookup k s.candidates) found;
          candidates = ap (λ (q : State). q.candidates) (sym (ok_injective p3));
          resolutions = ap (λ (q : State). q.resolutions) (sym (ok_injective p3));
        },
      )

  pub fed_back :
      {t : State}
      → candidate_feedback_recorded s e ≡ ok t
      → (k : String) × (b : Candidate) × (c : Candidate) × (stage : Value) × (key_of e.payload
            "candidate_id"
          ≡ ok k)
        × (required e.payload "stage" ≡ ok stage)
        × (with_feedback b e stage ≡ ok c)
        × Replaces s t k b c
  unfolding candidate_feedback_recorded
  fed_back p =
      let (k, named, p1) = >>=-eq-ok (key_of e.payload "candidate_id") _ p in
      let (b, found, p2) = >>=-eq-ok (or_crash (lookup k s.candidates)) _ p1 in
      let (stage, at, p3) = >>=-eq-ok (required e.payload "stage") _ p2 in
      let (c, next, p4) = >>=-eq-ok (with_feedback b e stage) _ p3 in
      (
        k,
        b,
        c,
        stage,
        named,
        at,
        next,
        record {
          found = or_crash-eq-ok (lookup k s.candidates) found;
          candidates = ap (λ (q : State). q.candidates) (sym (ok_injective p4));
          resolutions = ap (λ (q : State). q.resolutions) (sym (ok_injective p4));
        },
      )

of_code : ℕ → CandidateStatus
of_code n =
    if eqb n 0
    then CandidateStatus.candidate_ready
    else if eqb n 1
    then CandidateStatus.verification_pending
    else if eqb n 2
    then CandidateStatus.review_pending
    else if eqb n 3
    then CandidateStatus.approved
    else if eqb n 4
    then CandidateStatus.rejected
    else CandidateStatus.partial_award

of_code-status_code : (a : CandidateStatus) → of_code (status_code a) ≡ a
unfolding of_code
of_code-status_code CandidateStatus.candidate_ready = refl
of_code-status_code CandidateStatus.verification_pending = refl
of_code-status_code CandidateStatus.review_pending = refl
of_code-status_code CandidateStatus.approved = refl
of_code-status_code CandidateStatus.rejected = refl
of_code-status_code CandidateStatus.partial_award = refl

-- Two statuses that are tested to be the same are the same.
pub same_status_lem : (a b : CandidateStatus) → same_status a b ≡ true → a ≡ b
same_status_lem a b h =
    let codes_same : status_code a ≡ status_code b = ground arith in
    sym (of_code-status_code a) ∙ (ap of_code codes_same ∙ of_code-status_code b)

pub expect_status :
    (a b : CandidateStatus) (m : String) {u : Unit {0}}
    → raise_if (not (same_status a b)) m ≡ ok u
    → a ≡ b
expect_status a b m h = same_status_lem a b (ground arith)
