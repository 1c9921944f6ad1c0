-- ===== src/Moderation/Panel.antt =====
-- What a panel that `select_reviewers` returns is made of.
use daryxx_boule_protocol.Prelude.{
  ℕ, suc, get_elem?, String, ◌≡◌, refl, sym, ◌∙◌, inl, inr, true, false, not, ◌||◌, Option, some,
  List, [], ◌∷◌, ◌++◌, map, arith, eq_iff, eqb, ◌==◌, Bool-cases, length, All, All-append,
}
use daryxx_boule_protocol.Python.{
  ok, raise_if, >>=-eq-ok, contains, distinct, Value, sorted, All-sorted,
}
use daryxx_boule_protocol.Crypto.{Platform}
use daryxx_boule_protocol.Model.{as_text, Case, Reviewer, validate_reviewer}
use mathlib.Core.List.{map-append}
use mathlib.Core.Path.{subst}
use daryxx_boule_protocol.Moderation.Select.{
  root_text, eligible, candidates, candidate_le, pick, select_reviewers, seed_commitment,
  assignment_score,
}

abbrev ids : List Reviewer → List String
ids = map (λ r. r.reviewer_id)

abbrev controllers : List Reviewer → List String
controllers = map (λ r. r.controller_id)

-- A reviewer of the roster, as its profile was validated, that is eligible for the case.
pub record IsCandidate (sys : Platform) (case : Case) (roster : List Reviewer) (r : Reviewer)
    : Type 0 where
  pub position : ℕ
  pub profile : Reviewer
  pub listed : get_elem? roster position ≡ some profile
  pub validated : validate_reviewer sys profile.raw ≡ ok r
  pub is_eligible : eligible case r ≡ true

-- The members of a panel, behind their ids: as many as the policy says, each an eligible reviewer
-- of the roster, no two with one controller.
pub record IsPanel (sys : Platform) (case : Case) (roster : List Reviewer) (selected : List String)
    : Type 0 where
  pub members : List Reviewer
  pub named : selected ≡ map (λ r. r.reviewer_id) members
  pub filled : length selected ≡ case.review_policy.panel_size
  pub all_candidates : All (IsCandidate sys case roster) members
  pub independent : distinct (map (λ r. r.controller_id) members) ≡ true

contains-append_one :
    (k x : String) (xs : List String) → contains k (xs ++ x ∷ []) ≡ (contains k xs || k == x)
unfolding contains
contains-append_one k x [] = ground arith
contains-append_one k x (y ∷ xs) = ground (arith, contains-append_one k x xs)

distinct-append_one :
    (x : String) (xs : List String)
    → distinct xs ≡ true
    → contains x xs ≡ false
    → distinct (xs ++ x ∷ []) ≡ true
unfolding distinct contains
distinct-append_one x [] d c = refl
distinct-append_one x (y ∷ xs) d c =
    ground (arith, contains-append_one y x xs, eq_iff x y, eq_iff y x, distinct-append_one x xs)

-- The step that takes a candidate: it fills the panel, or the rest of the loop does.
pick_free :
    (sys : Platform) (roster : List Reviewer) (case : Case) (score : String) (r : Reviewer)
    (cs : List (String × Reviewer)) (chosen : List Reviewer) {selected : List String}
    → All (λ c. IsCandidate sys case roster c.1) ((score, r) ∷ cs)
    → All (IsCandidate sys case roster) chosen
    → distinct (controllers chosen) ≡ true
    → contains r.controller_id (controllers chosen) ≡ false
    → pick case.review_policy.panel_size ((score, r) ∷ cs) (ids chosen) (controllers chosen)
      ≡ some selected
    → (All (IsCandidate sys case roster) (chosen ++ r ∷ [])
        → distinct (controllers (chosen ++ r ∷ [])) ≡ true
        → pick case.review_policy.panel_size cs
            (ids (chosen ++ r ∷ []))
            (controllers (chosen ++ r ∷ []))
          ≡ some selected
        → IsPanel sys case roster selected)
    → IsPanel sys case roster selected
unfolding pick
pick_free sys roster case score r cs chosen {selected} good before d free e continue =
    let size = case.review_policy.panel_size in
    let more = chosen ++ r ∷ [] in
    let eligible_all =
      All-append (IsCandidate sys case roster) chosen (r ∷ []) before (good.0, tt) in
    let named : ids more ≡ ids chosen ++ r.reviewer_id ∷ [] =
      map-append (λ (q : Reviewer). q.reviewer_id) chosen (r ∷ []) in
    let led : controllers more ≡ controllers chosen ++ r.controller_id ∷ [] =
      map-append (λ (q : Reviewer). q.controller_id) chosen (r ∷ []) in
    let apart : distinct (controllers more) ≡ true =
      rw led (distinct-append_one r.controller_id (controllers chosen) d free) in
    elim (Bool-cases (eqb (length (ids chosen ++ r.reviewer_id ∷ [])) size)) [
      | inl full ↦
          let done : ids chosen ++ r.reviewer_id ∷ [] ≡ selected = ground (arith, full, free) in
          record {
            members = more;
            named = sym done ∙ sym named;
            filled = rw (sym done) (ground arith);
            all_candidates = eligible_all;
            independent = apart;
          }
      | inr room ↦ continue eligible_all apart (rw (named, led) (ground (arith, room, free)))
    ]

pick-IsPanel :
    (sys : Platform) (roster : List Reviewer) (case : Case) (cs : List (String × Reviewer))
    (chosen : List Reviewer) {selected : List String}
    → All (λ c. IsCandidate sys case roster c.1) cs
    → All (IsCandidate sys case roster) chosen
    → distinct (controllers chosen) ≡ true
    → pick case.review_policy.panel_size cs (ids chosen) (controllers chosen) ≡ some selected
    → IsPanel sys case roster selected
unfolding pick
pick-IsPanel sys roster case [] chosen good ok_so_far d e = cc
pick-IsPanel sys roster case ((s, r) ∷ cs) chosen {selected} good ok_so_far d e =
    elim (Bool-cases (contains r.controller_id (controllers chosen))) [
      | inl taken ↦ pick-IsPanel sys roster case cs chosen good.1 ok_so_far d (rw taken at e)
      | inr free ↦
          pick_free sys roster case s r cs chosen good ok_so_far d free e
            (pick-IsPanel sys roster case cs (chosen ++ r ∷ []) good.1)
    ]

later_listed :
    (sys : Platform) (case : Case) (raw : Reviewer) (roster : List Reviewer)
    (cs : List (String × Reviewer))
    → All (λ c. IsCandidate sys case roster c.1) cs
    → All (λ c. IsCandidate sys case (raw ∷ roster) c.1) cs
later_listed sys case raw roster [] h = tt
later_listed sys case raw roster (c ∷ cs) h = (
  record {
    position = suc h.0.position;
    profile = h.0.profile;
    listed = h.0.listed;
    validated = h.0.validated;
    is_eligible = h.0.is_eligible;
  },
  later_listed sys case raw roster cs h.1,
)

candidates-IsCandidate :
    (sys : Platform) (case : Case) (seed root : String) (roster : List Reviewer)
    {cs : List (String × Reviewer)}
    → candidates sys case seed root roster ≡ ok cs
    → All (λ c. IsCandidate sys case roster c.1) cs
unfolding candidates
candidates-IsCandidate sys case seed root [] {cs} e =
    let empty : [] ≡ cs = cc in subst (All (λ c. IsCandidate sys case [] c.1)) empty tt
candidates-IsCandidate sys case seed root (raw ∷ roster) {cs} e =
    let (r, e1, e2) = >>=-eq-ok (validate_reviewer sys raw.raw) _ e in
    let (rest, e3, e4) = >>=-eq-ok (candidates sys case seed root roster) _ e2 in
    let P = λ (c : String × Reviewer). IsCandidate sys case (raw ∷ roster) c.1 in
    let ih =
      later_listed sys case raw roster rest (candidates-IsCandidate sys case seed root roster e3) in
    elim (Bool-cases (eligible case r)) [
      | inl good ↦
          let eq : (assignment_score sys case seed root r, r) ∷ rest ≡ cs = ground (arith, good) in
          let first : IsCandidate sys case (raw ∷ roster) r = record {
            position = 0;
            profile = raw;
            listed = refl;
            validated = e1;
            is_eligible = good;
          } in
          subst (All P) eq (first, ih)
      | inr bad ↦ let eq : rest ≡ cs = ground (arith, bad) in subst (All P) eq ih
    ]

-- A panel that `select_reviewers` returns has exactly `panel_size` members; each of them is a
-- reviewer of the given roster whose profile validates and passes every eligibility test of the
-- case, and no two of them have the same controller.
pub select_reviewers-IsPanel :
    (sys : Platform) (case : Case) (roster : List Reviewer) (seed : Value) (root : Option String)
    {selected : List String}
    → select_reviewers sys case roster seed root ≡ ok selected
    → IsPanel sys case roster selected
unfolding select_reviewers
select_reviewers-IsPanel sys case roster seed root {selected} e =
    let (c, e1, e2) = >>=-eq-ok (seed_commitment sys seed) _ e in
    let (s, e3, e4) = >>=-eq-ok (as_text seed) _ e2 in
    let (u, e5, e6) =
      >>=-eq-ok
        (raise_if (not (c == case.review_policy.seed_commitment))
          "review seed does not match the case commitment")
        _ e4 in
    let (r, e7, e8) = >>=-eq-ok (root_text root) _ e6 in
    let (cs, e9, e10) = >>=-eq-ok (candidates sys case s r roster) _ e8 in
    let picked : pick case.review_policy.panel_size (sorted candidate_le cs) [] [] ≡ some selected =
      ground arith in
    pick-IsPanel sys roster case (sorted candidate_le cs) []
      (All-sorted (λ c. IsCandidate sys case roster c.1) candidate_le cs
        (candidates-IsCandidate sys case s r roster e9))
      tt (unfold distinct in refl) picked
