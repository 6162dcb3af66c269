-- ===== src/Common/Equality.antt =====
-- An equality test, and a dict whose keys have one: the entries in the order of their first insertion.
use Prim.Native.Nat.{ℕ, ◌+◌, ◌≤◌}
use Prim.Native.String.{String}
use mathlib.Core.Path.{◌≡◌, refl}
use mathlib.Core.Bool.{Bool, true, false, ◌&&◌}
use mathlib.Core.Option.{Option, none, some}
use mathlib.Core.List.{List, [], ◌∷◌}
use native.Mathlib.Omega.{arith}
use text.Mathlib.TextEquality.{eq_iff}
use phlo_observe.Common.Tests.{str_eq, ◌==◌, if◌then◌else◌}
use phlo_observe.Common.Lists.{length}

pub record Equality {ℓ} (A : Type ℓ) : Type ℓ where
  pub same : A → A → Bool
  pub same_sound : (a b : A) → same a b ≡ true → a ≡ b
  pub same_refl : (a : A) → same a a ≡ true

pub text_sound : (s t : String) → str_eq s t ≡ true → s ≡ t
text_sound s t h = ground (arith, eq_iff s t, h)

pub text_refl : (s : String) → str_eq s s ≡ true
text_refl s = ground (arith, eq_iff s s)

instance abbrev pub text_equality : Equality String
text_equality = record { same = str_eq; same_sound = text_sound; same_refl = text_refl }

pub number_sound : (m n : ℕ) → (m == n) ≡ true → m ≡ n
number_sound m n h = ground arith

pub number_refl : (n : ℕ) → (n == n) ≡ true
number_refl n = ground arith

instance abbrev pub number_equality : Equality ℕ
number_equality = record { same = ◌==◌; same_sound = number_sound; same_refl = number_refl }

module _ {ℓ κ} {A : Type ℓ} {B : Type κ} (p : Equality A) (q : Equality B) where
  abbrev pub same_pair : A × B → A × B → Bool
  same_pair x y = p.same x.0 y.0 && q.same x.1 y.1

  pub same_pair_sound : (x y : A × B) → same_pair x y ≡ true → x ≡ y
  same_pair_sound (a, b) (c, d) h = ground (arith, p.same_sound a c, q.same_sound b d, h)

  pub same_pair_refl : (x : A × B) → same_pair x x ≡ true
  same_pair_refl (a, b) = ground (arith, p.same_refl a, q.same_refl b)

  abbrev pub pair_equality : Equality (A × B)
  pair_equality = record {
    same = same_pair;
    same_sound = same_pair_sound;
    same_refl = same_pair_refl;
  }

module _ {ℓ} {A : Type ℓ} (p : Equality A) where
  abbrev pub same_list : List A → List A → Bool
  same_list [] [] = true
  same_list (x ∷ xs) (y ∷ ys) = p.same x y && same_list xs ys
  same_list _ _ = false

  pub same_list_sound : (xs ys : List A) → same_list xs ys ≡ true → xs ≡ ys
  same_list_sound [] [] h = refl
  same_list_sound [] (y ∷ ys) h = cc
  same_list_sound (x ∷ xs) [] h = cc
  same_list_sound (x ∷ xs) (y ∷ ys) h = ground (arith, p.same_sound x y, same_list_sound xs ys, h)

  pub same_list_refl : (xs : List A) → same_list xs xs ≡ true
  same_list_refl [] = refl
  same_list_refl (x ∷ xs) = ground (arith, p.same_refl x, same_list_refl xs)

  abbrev pub list_equality : Equality (List A)
  list_equality = record {
    same = same_list;
    same_sound = same_list_sound;
    same_refl = same_list_refl;
  }

module _ {ℓ} {A : Type ℓ} (p : Equality A) where
  abbrev pub same_option : Option A → Option A → Bool
  same_option none none = true
  same_option (some x) (some y) = p.same x y
  same_option _ _ = false

  pub same_option_sound : (x y : Option A) → same_option x y ≡ true → x ≡ y
  same_option_sound none none h = refl
  same_option_sound none (some y) h = cc
  same_option_sound (some x) none h = cc
  same_option_sound (some x) (some y) h = ground (arith, p.same_sound x y, h)

  pub same_option_refl : (x : Option A) → same_option x x ≡ true
  same_option_refl none = refl
  same_option_refl (some x) = p.same_refl x

  abbrev pub option_equality : Equality (Option A)
  option_equality = record {
    same = same_option;
    same_sound = same_option_sound;
    same_refl = same_option_refl;
  }

module _ {ℓ κ} {K : Type ℓ} {V : Type κ} ⦃q : Equality K⦄ where
  unfoldable pub lookup : K → List (K × V) → Option V
  lookup k [] = none
  lookup k ((j, v) ∷ m) = if q.same j k then some v else lookup k m

  unfoldable pub store : K → V → List (K × V) → List (K × V)
  store k v [] = (k, v) ∷ []
  store k v ((j, w) ∷ m) = if q.same j k then (j, v) ∷ m else (j, w) ∷ store k v m

  pub lookup-store :
      (k j : K) (v : V) (m : List (K × V))
      → lookup j (store k v m) ≡ (if q.same k j then some v else lookup j m)
  unfolding lookup store
  lookup-store k j v [] = refl
  lookup-store k j v ((i, w) ∷ m) = ground (
    arith,
    q.same_sound k j,
    q.same_sound i k,
    q.same_sound i j,
    q.same_refl k,
    lookup-store k j v m,
  )

  pub length-store-le : (k : K) (v : V) (m : List (K × V)) → length (store k v m) ≤ length m + 1
  unfolding store
  length-store-le k v [] = omega arith
  length-store-le k v ((i, w) ∷ m) = ground (arith, length-store-le k v m)

  pub length-store_present :
      (k : K) (v w : V) (m : List (K × V)) → lookup k m ≡ some w → length (store k v m) ≡ length m
  unfolding lookup store
  length-store_present k v w [] h = cc
  length-store_present k v w ((i, u) ∷ m) h = ground (arith, length-store_present k v w m, h)
