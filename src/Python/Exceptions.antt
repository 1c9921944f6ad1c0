-- ===== src/Python/Exceptions.antt =====
-- Exceptions as values (src/boule/errors.py). A message is kept as the source spells it, with
-- what an f-string interpolates left as its braces; the interpolated name is a second argument.
use daryxx_boule_protocol.Prelude.{
  not, ◌&&◌, ◌==◌, arith, eq_iff, ◌⊎◌, inl, inr, ℕ, String, ◌≡◌, refl, Bool, true, false, Option,
  none, some,
}

pub data Error : Type 0 where
  -- `ProtocolError(message)`, and the same with the name that the message interpolates
  protocol : String → Error
  invalid : String → String → Error
  -- `AuthenticationError`, `RequestConflictError`
  authentication : String → Error
  request_conflict : String → Error
  -- `StaleHeadError(current_head, event_count)`
  stale_head : Option String → ℕ → Error
  -- `KeyError`, `TypeError`, `StopIteration` and the like: what the program does not raise itself
  crash : Error

pub data Result {ℓ} (A : Type ℓ) : Type ℓ where
  ok : A → Result A
  err : Error → Result A

-- to go on with what a call returned, unless it raised
infixl 5 ◌>>=◌
abbrev pub ◌>>=◌ {ℓ κ} : {X : Type ℓ} {Y : Type κ} → Result X → (X → Result Y) → Result Y
err e >>= go_on = err e
ok x >>= go_on = go_on x

infixl 5 ◌>>◌
abbrev pub ◌>>◌ {ℓ κ} : {A : Type κ} {B : Type ℓ} → Result A → Result B → Result B
call >> after = call >>= λ _. after

-- `if test: raise ProtocolError(message)`
abbrev pub raise_if : Bool → String → Result (Unit {0})
raise_if true message = err (protocol message)
raise_if false message = ok tt

abbrev pub or_crash {ℓ} : {A : Type ℓ} → Option A → Result A
or_crash none = err crash
or_crash (some a) = ok a

-- `except ProtocolError`, which catches its subclasses too, and nothing else
abbrev pub is_protocol_error : Error → Bool
is_protocol_error crash = false
is_protocol_error _ = true

-- Inversion of a successful bind.
pub >>=-eq-ok {ℓ κ} :
    {X : Type ℓ} {Y : Type κ} (call : Result X) (go_on : X → Result Y) {y : Y}
    → (call >>= go_on) ≡ ok y
    → (x : X) × (call ≡ ok x) × (go_on x ≡ ok y)
>>=-eq-ok (err e) go_on returned = cc
>>=-eq-ok (ok x) go_on returned = (x, refl, returned)

pub raise_if-eq-ok : (b : Bool) (m : String) {u : Unit {0}} → raise_if b m ≡ ok u → b ≡ false
raise_if-eq-ok true m h = cc
raise_if-eq-ok false m h = refl

pub raise_unless-eq-ok :
    (b : Bool) (m : String) {u : Unit {0}} → raise_if (not b) m ≡ ok u → b ≡ true
raise_unless-eq-ok true m h = refl
raise_unless-eq-ok false m h = cc

pub raise_unless_both :
    (a b : Bool) (m : String) {u : Unit {0}}
    → raise_if (not (a && b)) m ≡ ok u
    → (a ≡ true) × (b ≡ true)
raise_unless_both true true m h = (refl, refl)
raise_unless_both true false m h = cc
raise_unless_both false b m h = cc

-- To split on what a step gave and keep the equation.
pub Result-cases {ℓ} :
    {A : Type ℓ} (r : Result A) → ((a : A) × (r ≡ ok a)) ⊎ ((e : Error) × (r ≡ err e))
Result-cases (ok a) = inl (a, refl)
Result-cases (err e) = inr (e, refl)

pub ok_injective {ℓ} : {A : Type ℓ} {a b : A} → ok a ≡ ok b → a ≡ b
ok_injective h = cc

pub or_crash-eq-ok {ℓ} : {A : Type ℓ} (o : Option A) {a : A} → or_crash o ≡ ok a → o ≡ some a
or_crash-eq-ok none h = cc
or_crash-eq-ok (some b) h = cc

-- `if a != b: raise` has passed.
pub raise_unless_same : (a b m : String) {u : Unit {0}} → raise_if (not (a == b)) m ≡ ok u → a ≡ b
raise_unless_same a b m h = ground (arith, eq_iff a b)
