-- ===== src/Python/Json.antt =====
-- JSON values as `json.loads` gives them. An object keeps its members in the order of the text.
use daryxx_boule_protocol.Prelude.{
  ap, ◌≡◌, refl, arith, eq_iff, eq_refl, suc, true, if◌then◌else◌, Option, none, some, eqb, ◌&&◌, ℕ,
  String, Bool, false, List, [], ◌∷◌, ◌==◌,
}
use daryxx_boule_protocol.Python.Dicts.{Dict}

-- `negsuc n` is -(n + 1)
pub data ℤ : Type 0 where
  pos : ℕ → ℤ
  negsuc : ℕ → ℤ

mutual
  pub data Value : Type 0 where
    null : Value
    bool : Bool → Value
    int : ℤ → Value
    -- a finite float: the integer that it equals, if there is one, and its text
    real : Option ℤ → String → Value
    text : String → Value
    arr : Items → Value
    obj : Members → Value

  pub data Items : Type 0 where
    nil : Items
    item : Value → Items → Items

  pub data Members : Type 0 where
    end : Members
    member : String → Value → Members → Members

unfoldable pub items : Items → List Value
items nil = []
items (item v rest) = v ∷ items rest

unfoldable pub array : List Value → Items
array [] = nil
array (v ∷ vs) = item v (array vs)

unfoldable pub members : Members → Dict Value
members end = []
members (member k v rest) = (k, v) ∷ members rest

unfoldable pub of_members : Dict Value → Members
of_members [] = end
of_members ((k, v) ∷ d) = member k v (of_members d)

-- a dict display, a list of texts
abbrev pub object : Dict Value → Value
object d = Value.obj (of_members d)

abbrev pub list : List Value → Value
list vs = Value.arr (array vs)

unfoldable pub texts : List String → Value
unfolding array
texts ts = list (go ts)
  where
    go : List String → List Value
    go [] = []
    go (t ∷ ts) = Value.text t ∷ go ts

-- `v == "..."`
unfoldable pub is_text : Value → String → Bool
is_text (Value.text s) t = s == t
is_text _ t = false

-- the integer that a value equals: Python has `True == 1` and `1.0 == 1`
unfoldable pub number_of : Value → Option ℤ
number_of (Value.bool true) = some (ℤ.pos 1)
number_of (Value.bool false) = some (ℤ.pos 0)
number_of (Value.int n) = some n
number_of (Value.real n _) = n
number_of _ = none

unfoldable pub same_number : ℤ → ℤ → Bool
same_number (ℤ.pos m) (ℤ.pos n) = eqb m n
same_number (ℤ.negsuc m) (ℤ.negsuc n) = eqb m n
same_number _ _ = false

-- `v == n` for a number, `v == s` for a text or `None`
unfoldable pub is_number : Value → ℕ → Bool
unfolding number_of same_number
is_number v n = elim (number_of v) [ some m ↦ same_number m (ℤ.pos n) | none ↦ false ]

unfoldable pub is_optional_text : Value → Option String → Bool
unfolding is_text
is_optional_text Value.null none = true
is_optional_text v (some s) = is_text v s
is_optional_text _ none = false

abbrev pub optional_text : Option String → Value
optional_text none = Value.null
optional_text (some s) = Value.text s

-- two values that are no texts, lists or objects
unfoldable pub both_numbers : Option ℤ → Option ℤ → Bool
both_numbers (some m) (some n) = same_number m n
both_numbers _ _ = false

-- the member of an object, which is looked up in the second value of a comparison
unfoldable pub find_member : String → Members → Option Value
find_member k end = none
find_member k (member j v rest) = if k == j then some v else find_member k rest

unfoldable pub size : Members → ℕ
size end = 0
size (member k v rest) = suc (size rest)

-- `a == b`: numbers by value, lists by their items, objects in any order of their members
unfoldable mutual
  pub same_value : Value → Value → Bool
  same_value (Value.arr xs) (Value.arr ys) = same_items xs ys
  same_value (Value.obj xs) (Value.obj ys) = eqb (size xs) (size ys) && same_members xs ys
  same_value (Value.text s) (Value.text t) = s == t
  same_value Value.null Value.null = true
  same_value (Value.real m s) (Value.real n t) = elim m [
    | some i ↦ elim n [ some j ↦ same_number i j | none ↦ false ]
    | none ↦ s == t
  ]
  same_value v w = both_numbers (number_of v) (number_of w)

  pub same_items : Items → Items → Bool
  same_items nil nil = true
  same_items (item v vs) (item w ws) = same_value v w && same_items vs ws
  same_items _ _ = false

  pub same_members : Members → Members → Bool
  same_members end ys = true
  same_members (member k v rest) ys =
      elim (find_member k ys) [ some w ↦ same_value v w | none ↦ false ] && same_members rest ys

pub is_text_refl : (s : String) → is_text (Value.text s) s ≡ true
unfolding is_text
is_text_refl s = eq_refl s

pub is_text_lem : (v : Value) (s : String) → is_text v s ≡ true → v ≡ Value.text s
unfolding is_text
is_text_lem (Value.text t) s h = ground (arith, eq_iff s t, eq_iff t s)
is_text_lem Value.null s h = cc
is_text_lem _ s h = cc

pub is_optional_text_refl : (o : Option String) → is_optional_text (optional_text o) o ≡ true
unfolding is_optional_text
is_optional_text_refl none = refl
is_optional_text_refl (some s) = eq_refl s

pub is_optional_text_lem :
    (a b : Option String) → is_optional_text (optional_text a) b ≡ true → b ≡ a
unfolding is_optional_text is_text
is_optional_text_lem none none h = refl
is_optional_text_lem none (some t) h = cc
is_optional_text_lem (some s) none h = cc
is_optional_text_lem (some s) (some t) h = ground (arith, eq_iff s t)

pub is_number_refl : (n : ℕ) → is_number (Value.int (ℤ.pos n)) n ≡ true
unfolding is_number
is_number_refl n = ground arith

pub same_value_text : (s : String) → same_value (Value.text s) (Value.text s) ≡ true
unfolding same_value
same_value_text s = eq_refl s

pub members-of_members : (d : Dict Value) → members (of_members d) ≡ d
unfolding members of_members
members-of_members [] = refl
members-of_members ((k, v) ∷ d) = ap (◌∷◌ (k, v)) (members-of_members d)

pub text_injective : {s t : String} → Value.text s ≡ Value.text t → s ≡ t
text_injective h = cc
