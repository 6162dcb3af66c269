-- ===== src/Common/Order.antt =====
-- Strict total orders with a Boolean test: numbers, texts, and pairs in lexicographic order, which
-- is how Python compares `(datetime, str)` tuples.
use Prim.Native.Nat.{ℕ, Ordering}
use Prim.Native.Char.{Char, code}
use Prim.Native.String.{String, compare}
use Prim.Native.String.compare
use mathlib.Core.Path.{◌≡◌, refl, ap}
use mathlib.Core.Logic.{inl, inr}
use mathlib.Core.Bool.{Bool, true, false, ◌||◌, ◌&&◌, not}
use native.Mathlib.Omega.{arith}
use text.Mathlib.Text.{is_lt}
use text.Mathlib.TextEquality.{path_by_compare}
use text.Mathlib.TextPositions.{compare_refl}
use phlo_observe.Common.Tests.{ltb, ◌==◌, Bool-cases}

pub record TotalOrder {ℓ} (A : Type ℓ) : Type ℓ where
  pub less : A → A → Bool
  pub less_irrefl : (a : A) → less a a ≡ false
  pub less_trans : (a b c : A) → less a b ≡ true → less b c ≡ true → less a c ≡ true
  pub less_connex : (a b : A) → less a b ≡ false → less b a ≡ false → a ≡ b

pub ltb_irrefl : (a : ℕ) → ltb a a ≡ false
ltb_irrefl a = ground arith

pub ltb_trans : (a b c : ℕ) → ltb a b ≡ true → ltb b c ≡ true → ltb a c ≡ true
ltb_trans a b c h k = ground arith

pub ltb_connex : (a b : ℕ) → ltb a b ≡ false → ltb b a ≡ false → a ≡ b
ltb_connex a b h k = ground arith

instance abbrev pub nat_order : TotalOrder ℕ
nat_order = record {
  less = ltb;
  less_irrefl = ltb_irrefl;
  less_trans = ltb_trans;
  less_connex = ltb_connex;
}

abbrev pub str_less : String → String → Bool
str_less s t = is_lt (compare s t)

less-cons :
    (c d : Char) (s t : String)
    → str_less (String.◌∷◌ c s) (String.◌∷◌ d t)
      ≡ (ltb (code c) (code d) || (code c == code d && str_less s t))
less-cons c d s t = ground (arith, compare.cons-cons c d s t)

less-nil-cons : (c : Char) (s : String) → str_less String.[] (String.◌∷◌ c s) ≡ true
less-nil-cons c s = ap is_lt (compare.nil-cons c s)

less-cons-nil : (c : Char) (s : String) → str_less (String.◌∷◌ c s) String.[] ≡ false
less-cons-nil c s = ap is_lt (compare.cons-nil c s)

pub str_less_irrefl : (s : String) → str_less s s ≡ false
str_less_irrefl s = ap is_lt (compare_refl s)

pub str_less_trans :
    (s t u : String) → str_less s t ≡ true → str_less t u ≡ true → str_less s u ≡ true
str_less_trans String.[] String.[] u h k = cc
str_less_trans String.[] (String.◌∷◌ d t) String.[] h k = cc (less-cons-nil d t)
str_less_trans String.[] (String.◌∷◌ d t) (String.◌∷◌ e u) h k = less-nil-cons e u
str_less_trans (String.◌∷◌ c s) String.[] u h k = cc (less-cons-nil c s)
str_less_trans (String.◌∷◌ c s) (String.◌∷◌ d t) String.[] h k = cc (less-cons-nil d t)
str_less_trans (String.◌∷◌ c s) (String.◌∷◌ d t) (String.◌∷◌ e u) h k =
    ground (arith, less-cons c d s t, less-cons d e t u, less-cons c e s u, str_less_trans s t u)

compare_connex :
    (s t : String) → str_less s t ≡ false → str_less t s ≡ false → compare s t ≡ Ordering.eq
compare_connex String.[] String.[] h k = refl
compare_connex String.[] (String.◌∷◌ d t) h k = cc (less-nil-cons d t)
compare_connex (String.◌∷◌ c s) String.[] h k = cc (less-nil-cons c s)
compare_connex (String.◌∷◌ c s) (String.◌∷◌ d t) h k =
    ground
      (arith, compare.cons-cons c d s t, less-cons c d s t, less-cons d c t s, compare_connex s t)

pub str_less_connex : (s t : String) → str_less s t ≡ false → str_less t s ≡ false → s ≡ t
str_less_connex s t h k = path_by_compare s t (compare_connex s t h k)

instance abbrev pub str_order : TotalOrder String
str_order = record {
  less = str_less;
  less_irrefl = str_less_irrefl;
  less_trans = str_less_trans;
  less_connex = str_less_connex;
}

-- The three ways in which two values stand to each other.
pub data Compared {ℓ} {A : Type ℓ} (o : TotalOrder A) (a b : A) : Type ℓ where
  below : o.less a b ≡ true → o.less b a ≡ false → Compared o a b
  same : a ≡ b → Compared o a b
  above : o.less a b ≡ false → o.less b a ≡ true → Compared o a b

module _ {ℓ} {A : Type ℓ} ⦃o : TotalOrder A⦄ where
  pub less_asym : (a b : A) → o.less a b ≡ true → o.less b a ≡ false
  less_asym a b h = elim (Bool-cases (o.less b a)) [
    | inl back ↦ cc (o.less_trans a b a h back, o.less_irrefl a)
    | inr forth ↦ forth
  ]

  pub compared : (a b : A) → Compared o a b
  compared a b = elim (Bool-cases (o.less a b)) [
    | inl lt ↦ below lt (less_asym a b lt)
    | inr not_lt ↦ elim (Bool-cases (o.less b a)) [
      | inl gt ↦ above not_lt gt
      | inr not_gt ↦ same (o.less_connex a b not_lt not_gt)
    ]
  ]

  -- `a >= b` of a total order.
  abbrev pub at_least : A → A → Bool
  at_least a b = not (o.less a b)

module _ {ℓ κ} {A : Type ℓ} {B : Type κ} (o : TotalOrder A) (q : TotalOrder B) where
  abbrev pub pair_less : A × B → A × B → Bool
  pair_less x y = o.less x.0 y.0 || (not (o.less y.0 x.0) && q.less x.1 y.1)

  pub pair_less_irrefl : (x : A × B) → pair_less x x ≡ false
  pair_less_irrefl x = ground (arith, o.less_irrefl x.0, q.less_irrefl x.1)

  pub pair_less_trans :
      (x y z : A × B) → pair_less x y ≡ true → pair_less y z ≡ true → pair_less x z ≡ true
  pair_less_trans x y z h k = ground (
    arith,
    o.less_trans x.0 y.0 z.0,
    o.less_trans y.0 z.0 x.0,
    o.less_trans z.0 x.0 y.0,
    o.less_connex x.0 y.0,
    o.less_connex y.0 z.0,
    o.less_irrefl x.0,
    q.less_trans x.1 y.1 z.1,
  )

  pub pair_less_connex : (x y : A × B) → pair_less x y ≡ false → pair_less y x ≡ false → x ≡ y
  pair_less_connex (a, b) (c, d) h k = ground (arith, o.less_connex a c, q.less_connex b d)

  abbrev pub pair_order : TotalOrder (A × B)
  pair_order = record {
    less = pair_less;
    less_irrefl = pair_less_irrefl;
    less_trans = pair_less_trans;
    less_connex = pair_less_connex;
  }
