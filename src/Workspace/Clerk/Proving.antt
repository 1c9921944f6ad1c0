-- ===== src/Workspace/Clerk/Proving.antt =====
-- Chain proofs of a log that `_events` (src/boule/workspace.py) accepts.
use mathlib.Core.Path.{subst}
use daryxx_boule_protocol.Prelude.{
  ℕ, zero, suc, ◌+◌, ◌≤◌, ◌<◌, String, ◌≡◌, refl, sym, ap, ◌∙◌, true, Option, some, List, [], ◌∷◌,
  arith, length, take, drop,
}
use daryxx_boule_protocol.Python.{
  ok, >>=-eq-ok, or_crash-eq-ok, lookup, ℤ, Value, members, number_of, same_number,
  is_optional_text, optional_text, is_hex_text,
}
use daryxx_boule_protocol.Crypto.{Platform, digest_object}
use daryxx_boule_protocol.Model.{required}
use daryxx_boule_protocol.Ledger.{member_of, get_of}
use daryxx_boule_protocol.Remote.{
  continues, build_links, event_hash, present_hash, natural, is_int, plus, link_value,
}
use daryxx_boule_protocol.Workspace.State.{Config}
use daryxx_boule_protocol.Workspace.Clerk.Format.{IsStandard}
use daryxx_boule_protocol.Workspace.Clerk.Entries.{Logged, Walk, is_at}
use daryxx_boule_protocol.Workspace.Clerk.Contents.{read_event, read_events}
use daryxx_boule_protocol.Workspace.Clerk.Load.{logged_before, hash_of}
use daryxx_boule_protocol.Workspace.Clerk.Reads.{
  IsPlaced, IsRead, read_event-IsRead, read_events-nil, read_events-cons,
}

-- `e["k"]` and `e.get("k")` of an object with the key
get_of-member_of : (e : Value) (k : String) {v : Value} → member_of e k ≡ ok v → get_of e k ≡ ok v
unfolding member_of get_of required
get_of-member_of (Value.obj ms) k h = rw (get_of, or_crash-eq-ok (lookup k (members ms)) h) refl
get_of-member_of Value.null k h = cc
get_of-member_of _ k h = cc

at_is_int : (v : Value) (n : ℕ) → is_at v n ≡ true → is_int v (ℤ.pos n) ≡ true
unfolding is_at natural is_int number_of same_number
at_is_int (Value.int (ℤ.pos m)) n h = h
at_is_int (Value.int (ℤ.negsuc m)) n h = cc
at_is_int Value.null n h = cc
at_is_int _ n h = cc

continues_members :
    (e seq prev : Value) (n : ℤ) (previous : Option String)
    → member_of e "seq" ≡ ok seq
    → member_of e "prev_event_hash" ≡ ok prev
    → is_int seq n ≡ true
    → is_optional_text prev previous ≡ true
    → continues e n previous ≡ true
unfolding member_of required continues
continues_members (Value.obj ms) seq prev n previous a b c d =
    rw
      (
        continues,
        or_crash-eq-ok (lookup "seq" (members ms)) a,
        or_crash-eq-ok (lookup "prev_event_hash" (members ms)) b,
        c,
        d,
      )
      refl
continues_members Value.null seq prev n previous a b c d = cc
continues_members _ seq prev n previous a b c d = cc

-- An event in its place continues the run of hashes.
continues-IsPlaced :
    (walk : Walk) (e : Value) → IsPlaced walk e → continues e (ℤ.pos walk.seq) walk.previous ≡ true
continues-IsPlaced walk e p =
    continues_members e p.seq p.prev (ℤ.pos walk.seq) walk.previous p.numbered.0 p.linked.0
      (at_is_int p.seq walk.seq p.numbered.1) p.linked.1

build_links_cons :
    (from offset seq : ℕ) (previous : Option String) (e : Value) (files : List Value)
    (hash : String) (out : List Value × Option String)
    → from + offset ≡ seq
    → continues e (ℤ.pos seq) previous ≡ true
    → get_of e "event_hash" ≡ ok (Value.text hash)
    → is_hex_text 64 hash ≡ true
    → build_links (ℤ.pos from) (offset + 1) (some hash) files ≡ ok out
    → build_links (ℤ.pos from) offset previous (e ∷ files)
      ≡ ok (link_value (ℤ.pos (from + offset)) previous hash ∷ out.0, out.1)
unfolding build_links plus present_hash
build_links_cons from offset seq previous e files hash out at c h is_hash rest =
    rw (at, c, h, is_hash, rest) refl

-- the hash before a position, behind the hash that the walk starts with
unfoldable pub head_at : Option String → List Logged → ℕ → Option String
head_at p events zero = p
head_at p [] (suc m) = p
head_at p (l ∷ events) (suc m) = head_at (some l.hash) events m

too_many : (m : ℕ) → ¬ (suc m ≤ length {A = Logged} [])
too_many m h = omega arith

pub head_at-logged_before :
    (p : Option String) (events : List Logged) (m : ℕ)
    → m < length events
    → head_at p events (suc m) ≡ hash_of (logged_before (suc m) events)
unfolding head_at logged_before hash_of
head_at-logged_before p [] m h = absurd (too_many m (omega arith))
head_at-logged_before p (l ∷ events) zero h = refl
head_at-logged_before p (l ∷ events) (suc m) h =
    head_at-logged_before (some l.hash) events m (omega arith)

fewer : (m : ℕ) (rest : List Logged) (l : Logged) → suc m ≤ length (l ∷ rest) → m ≤ length rest
fewer m rest l h = omega arith

event_hash_text :
    (hash : String)
    → is_hex_text 64 hash ≡ true
    → event_hash (Value.text hash) "chain proof start head" ≡ ok (some hash)
unfolding event_hash
event_hash_text hash h = rw h refl

module _ (sys : Platform) (standard : IsStandard sys) (config : Config) where
  digest-is_hex : (v : Value) → is_hex_text 64 (digest_object sys v) ≡ true
  unfolding digest_object
  digest-is_hex v = standard.hexdigest-is_hex _

  pub build_links-read_events :
      (from offset n : ℕ) (walk : Walk) (files : List Value) {end : Walk} {events : List Logged}
      → read_events sys config walk files ≡ ok (end, events)
      → from + offset ≡ walk.seq
      → (out : List Value × Option String) × (build_links
            (ℤ.pos from)
            offset
            walk.previous
            (take n files)
          ≡ ok out)
  unfolding read_events build_links
  build_links-read_events from offset zero walk files h at = (([], walk.previous), refl)
  build_links-read_events from offset (suc n) walk [] h at = (([], walk.previous), refl)
  build_links-read_events from offset (suc n) walk (e ∷ files) h at =
      let ((next, l), read, h1) = >>=-eq-ok (read_event sys config walk e) _ h in
      let ((end, rest), more, _) = >>=-eq-ok (read_events sys config next files) _ h1 in
      let r = read_event-IsRead sys config walk e read in
      let moved : from + (offset + 1) ≡ next.seq = omega (arith, r.advanced.0, at) in
      let (out, built) = build_links-read_events from (offset + 1) n next files more moved in
      let is_hash : is_hex_text 64 l.hash ≡ true =
        subst (λ s. is_hex_text 64 s ≡ true) (sym r.is_digest) (digest-is_hex r.signed_value) in
      (
        (link_value (ℤ.pos (from + offset)) walk.previous l.hash ∷ out.0, out.1),
        build_links_cons from offset walk.seq walk.previous e (take n files) l.hash out at
            (continues-IsPlaced walk e r.place) (get_of-member_of e "event_hash" r.hashed) is_hash
            (subst (λ p. build_links (ℤ.pos from) (offset + 1) p (take n files) ≡ ok out)
              r.advanced.1 built),
      )

  -- The walk reaches every position of the log.
  pub record IsReached (walk : Walk) (files : List Value) (events : List Logged) (m : ℕ)
      : Type 0 where
    pub at : Walk
    pub end : Walk
    pub read : read_events sys config at (drop m files) ≡ ok (end, drop m events)
    pub counted : at.seq ≡ walk.seq + m
    pub headed : at.previous ≡ head_at walk.previous events m
    pub hashed : event_hash (optional_text at.previous) "chain proof start head" ≡ ok at.previous

  IsReached-later :
      (m : ℕ) (walk next : Walk) (e : Value) (files : List Value) (l : Logged) (rest : List Logged)
      → IsRead sys walk e next l
      → IsReached next files rest m
      → IsReached walk (e ∷ files) (l ∷ rest) (suc m)
  unfolding head_at
  IsReached-later m walk next e files l rest r ih = record {
    at = ih.at;
    end = ih.end;
    read = ih.read;
    counted = omega (arith, ih.counted, r.advanced.0);
    headed = ih.headed ∙ ap (λ p. head_at p rest m) r.advanced.1;
    hashed = ih.hashed;
  }

  pub read_events-IsReached :
      (m : ℕ) (walk : Walk) (files : List Value) {end : Walk} {events : List Logged}
      → read_events sys config walk files ≡ ok (end, events)
      → m ≤ length events
      → event_hash (optional_text walk.previous) "chain proof start head" ≡ ok walk.previous
      → IsReached walk files events m
  unfolding head_at
  read_events-IsReached zero walk files {end} h at hashed = record {
    at = walk;
    end = end;
    read = h;
    counted = omega arith;
    headed = refl;
    hashed = hashed;
  }
  read_events-IsReached (suc m) walk [] {end} {events} h at hashed =
      let none_left = (read_events-nil sys config walk h).1 in
      absurd (too_many m (subst (λ es. suc m ≤ length es) none_left at))
  read_events-IsReached (suc m) walk (e ∷ files) {end} {events} h at hashed =
      let (next, l, rest, form, read, more) = read_events-cons sys config walk e files h in
      let r = read_event-IsRead sys config walk e read in
      let is_hash : is_hex_text 64 l.hash ≡ true =
        subst (λ s. is_hex_text 64 s ≡ true) (sym r.is_digest) (digest-is_hex r.signed_value) in
      let left : m ≤ length rest = fewer m rest l (subst (λ es. suc m ≤ length es) form at) in
      let ih = read_events-IsReached m next files more left (
        subst (λ p. event_hash (optional_text p) "chain proof start head" ≡ ok p) (sym r.advanced.1)
          (event_hash_text l.hash is_hash)) in
      subst (λ es. IsReached walk (e ∷ files) es (suc m)) (sym form)
        (IsReached-later m walk next e files l rest r ih)
