-- ===== src/Common/Dict.antt =====
-- A Python dict with text keys: the entries in the order of their first insertion.
use Prim.Native.Nat.{◌+◌, ◌≤◌}
use Prim.Native.String.{String}
use mathlib.Core.Path.{◌≡◌, refl, subst}
use mathlib.Core.Logic.{inl, inr}
use mathlib.Core.Option.{Option, none, some}
use mathlib.Core.List.{List, [], ◌∷◌}
use native.Mathlib.Omega.{arith}
use text.Mathlib.TextEquality.{eq_iff}
use phlo_observe.Common.Tests.{str_eq, if◌then◌else◌, Bool-cases}
use phlo_observe.Common.Lists.{length, All}

abbrev pub Dict {ℓ} : Type ℓ → Type ℓ
Dict V = List (String × V)

module _ {ℓ} {V : Type ℓ} where
  unfoldable pub get : String → Dict V → Option V
  get k [] = none
  get k ((j, v) ∷ m) = if str_eq j k then some v else get k m

  unfoldable pub set : String → V → Dict V → Dict V
  set k v [] = (k, v) ∷ []
  set k v ((j, w) ∷ m) = if str_eq j k then (j, v) ∷ m else (j, w) ∷ set k v m

  unfoldable pub pop : String → Dict V → Dict V
  pop k [] = []
  pop k ((j, v) ∷ m) = if str_eq j k then m else (j, v) ∷ pop k m

  -- No key stands twice.
  abbrev pub Distinct : Dict V → Type ℓ
  Distinct [] = Unit
  Distinct ((k, v) ∷ m) = (get k m ≡ none) × Distinct m

  pub get-set :
      (k j : String) (v : V) (m : Dict V)
      → get j (set k v m) ≡ (if str_eq k j then some v else get j m)
  unfolding get set
  get-set k j v [] = refl
  get-set k j v ((i, w) ∷ m) = ground (arith, eq_iff k j, eq_iff i k, eq_iff i j, get-set k j v m)

  pub get-pop :
      (k j : String) (m : Dict V)
      → Distinct m
      → get j (pop k m) ≡ (if str_eq k j then none else get j m)
  unfolding get pop
  get-pop k j [] d = ground arith
  get-pop k j ((i, w) ∷ m) d =
      ground (arith, eq_iff k j, eq_iff i k, eq_iff i j, get-pop k j m, d.0)

  pub Distinct-set : (k : String) (v : V) (m : Dict V) → Distinct m → Distinct (set k v m)
  unfolding get set
  Distinct-set k v [] d = (refl, tt)
  Distinct-set k v ((i, w) ∷ m) d =
      ground (arith, get-set k i v m, eq_iff k i, eq_iff i k, Distinct-set k v m)

  pub Distinct-pop : (k : String) (m : Dict V) → Distinct m → Distinct (pop k m)
  unfolding get pop
  Distinct-pop k [] d = tt
  Distinct-pop k ((i, w) ∷ m) d = ground (arith, get-pop k i m, Distinct-pop k m)

  pub length-set-le : (k : String) (v : V) (m : Dict V) → length (set k v m) ≤ length m + 1
  unfolding set
  length-set-le k v [] = omega arith
  length-set-le k v ((i, w) ∷ m) = ground (arith, length-set-le k v m)

  pub length-set_present :
      (k : String) (v w : V) (m : Dict V) → get k m ≡ some w → length (set k v m) ≡ length m
  unfolding get set
  length-set_present k v w [] h = cc
  length-set_present k v w ((i, u) ∷ m) h = ground (arith, length-set_present k v w m)

  pub length-pop-le : (k : String) (m : Dict V) → length (pop k m) ≤ length m
  unfolding pop
  length-pop-le k [] = omega arith
  length-pop-le k ((i, w) ∷ m) = ground (arith, length-pop-le k m)

  pub pop-set : (k : String) (v : V) (m : Dict V) → pop k (set k v m) ≡ pop k m
  unfolding set pop
  pop-set k v [] = ground (arith, eq_iff k k)
  pop-set k v ((i, w) ∷ m) = ground (arith, pop-set k v m)

  module _ {κ} (P : V → Type κ) where
    abbrev pub AllValues : Dict V → Type κ
    AllValues = All (λ e. P e.1)

    pub AllValues-set :
        (k : String) (v : V) (m : Dict V) → P v → AllValues m → AllValues (set k v m)
    unfolding set
    AllValues-set k v [] p h = (p, tt)
    AllValues-set k v ((i, w) ∷ m) p h = elim (Bool-cases (str_eq i k)) [
      | inl same ↦ rw same (p, h.1)
      | inr other ↦ rw other (h.0, AllValues-set k v m p h.1)
    ]

    pub AllValues-pop : (k : String) (m : Dict V) → AllValues m → AllValues (pop k m)
    unfolding pop
    AllValues-pop k [] h = tt
    AllValues-pop k ((i, w) ∷ m) h = elim (Bool-cases (str_eq i k)) [
      | inl same ↦ rw same h.1
      | inr other ↦ rw other (h.0, AllValues-pop k m h.1)
    ]

    pub AllValues-get : (k : String) (v : V) (m : Dict V) → AllValues m → get k m ≡ some v → P v
    unfolding get
    AllValues-get k v [] h e = cc
    AllValues-get k v ((i, w) ∷ m) h e = elim (Bool-cases (str_eq i k)) [
      | inl same ↦ let here : w ≡ v = ground arith in subst P here h.0
      | inr other ↦ AllValues-get k v m h.1 (rw other at e)
    ]
