-- ===== src/Common/Stable.antt =====
-- Python's `sorted(…, key=…)`, which keeps the entries of equal keys in their order.
use Prim.Native.Nat.{ℕ, zero, suc}
use mathlib.Core.Path.{◌≡◌, subst}
use mathlib.Core.Logic.{◌⊎◌, inl, inr}
use mathlib.Core.Bool.{false}
use mathlib.Core.List.{List, [], ◌∷◌}
use phlo_observe.Common.Tests.{if◌then◌else◌, Bool-cases}
use phlo_observe.Common.Lists.{All, Any, take}
use phlo_observe.Common.Order.{TotalOrder, below, same, above, compared, less_asym}

module _ {ℓ κ} {K : Type ℓ} {A : Type κ} (o : TotalOrder K) (key : A → K) where
  unfoldable pub insert_by : A → List A → List A
  insert_by a [] = a ∷ []
  insert_by a (x ∷ xs) = if o.less (key x) (key a) then x ∷ insert_by a xs else a ∷ x ∷ xs

  unfoldable pub sort_by : List A → List A
  sort_by [] = []
  sort_by (a ∷ rest) = insert_by a (sort_by rest)

  -- The key of the second is not below that of the first.
  abbrev pub IsLevel : A → A → Type 0
  IsLevel a b = o.less (key b) (key a) ≡ false

  -- No entry stands before one of a lesser key.
  abbrev pub InOrder : List A → Type 0
  InOrder [] = Unit
  InOrder (a ∷ rest) = All (IsLevel a) rest × InOrder rest

  All-insert_by {μ} : (P : A → Type μ) (a : A) (l : List A) → P a → All P l → All P (insert_by a l)
  unfolding insert_by
  All-insert_by P a [] h all = (h, tt)
  All-insert_by P a (x ∷ xs) h all = elim (Bool-cases (o.less (key x) (key a))) [
    | inl lt ↦ rw lt (all.0, All-insert_by P a xs h all.1)
    | inr not_lt ↦ rw not_lt (h, all)
  ]

  pub All-sort_by {μ} : (P : A → Type μ) (l : List A) → All P l → All P (sort_by l)
  unfolding sort_by
  All-sort_by P [] all = tt
  All-sort_by P (a ∷ rest) all = All-insert_by P a (sort_by rest) all.0 (All-sort_by P rest all.1)

  -- What holds of all entries of the sorted list holds of all entries.
  All-of-insert_by {μ} :
      (P : A → Type μ) (a : A) (l : List A) → All P (insert_by a l) → P a × All P l
  unfolding insert_by
  All-of-insert_by P a [] all = (all.0, tt)
  All-of-insert_by P a (x ∷ xs) all = elim (Bool-cases (o.less (key x) (key a))) [
    | inl lt ↦
        let here : All P (x ∷ insert_by a xs) =
          subst (λ b. All P (if b then x ∷ insert_by a xs else a ∷ x ∷ xs)) lt all in
        let both = All-of-insert_by P a xs here.1 in (both.0, (here.0, both.1))
    | inr not_lt ↦ subst (λ b. All P (if b then x ∷ insert_by a xs else a ∷ x ∷ xs)) not_lt all
  ]

  pub All-of-sort_by {μ} : (P : A → Type μ) (l : List A) → All P (sort_by l) → All P l
  unfolding sort_by
  All-of-sort_by P [] all = tt
  All-of-sort_by P (a ∷ rest) all =
      let both = All-of-insert_by P a (sort_by rest) all in (both.0, All-of-sort_by P rest both.1)

  Any-insert_by : (P : A → Type 0) (a : A) (l : List A) → Any P (insert_by a l) → P a ⊎ Any P l
  unfolding insert_by
  Any-insert_by P a [] there = there
  Any-insert_by P a (x ∷ xs) there = elim (Bool-cases (o.less (key x) (key a))) [
    | inl lt ↦ elim (subst (λ b. Any P (if b then x ∷ insert_by a xs else a ∷ x ∷ xs)) lt there) [
      | inl here ↦ inr (inl here)
      | inr further ↦ elim (Any-insert_by P a xs further) [
        | inl new ↦ inl new
        | inr old ↦ inr (inr old)
      ]
    ]
    | inr not_lt ↦ subst (λ b. Any P (if b then x ∷ insert_by a xs else a ∷ x ∷ xs)) not_lt there
  ]

  pub Any-sort_by : (P : A → Type 0) (l : List A) → Any P (sort_by l) → Any P l
  unfolding sort_by
  Any-sort_by P [] there = there
  Any-sort_by P (a ∷ rest) there = elim (Any-insert_by P a (sort_by rest) there) [
    | inl here ↦ inl here
    | inr further ↦ inr (Any-sort_by P rest further)
  ]

  IsLevel-trans : (a b c : A) → IsLevel a b → IsLevel b c → IsLevel a c
  IsLevel-trans a b c h k = elim (compared ⦃o = o⦄ (key a) (key b)) [
    | below p q ↦ elim (Bool-cases (o.less (key c) (key a))) [
      | inl lt ↦ cc (o.less_trans (key c) (key a) (key b) lt p)
      | inr not_lt ↦ not_lt
    ]
    | same e ↦ rw e k
    | above p q ↦ cc
  ]

  All-IsLevel : (a x : A) (xs : List A) → IsLevel a x → All (IsLevel x) xs → All (IsLevel a) xs
  All-IsLevel a x [] h all = tt
  All-IsLevel a x (y ∷ ys) h all = (IsLevel-trans a x y h all.0, All-IsLevel a x ys h all.1)

  insert_by-InOrder : (a : A) (l : List A) → InOrder l → InOrder (insert_by a l)
  unfolding insert_by
  insert_by-InOrder a [] h = (tt, tt)
  insert_by-InOrder a (x ∷ xs) h = elim (Bool-cases (o.less (key x) (key a))) [
    | inl lt ↦ rw lt (
      All-insert_by (IsLevel x) a xs (less_asym ⦃o = o⦄ (key x) (key a) lt) h.0,
      insert_by-InOrder a xs h.1,
    )
    | inr not_lt ↦ rw not_lt ((not_lt, All-IsLevel a x xs not_lt h.0), h)
  ]

  pub sort_by-InOrder : (l : List A) → InOrder (sort_by l)
  unfolding sort_by
  sort_by-InOrder [] = tt
  sort_by-InOrder (a ∷ rest) = insert_by-InOrder a (sort_by rest) (sort_by-InOrder rest)

module _ {ℓ} {A : Type ℓ} where
  pub All-take {μ} : (P : A → Type μ) (n : ℕ) (l : List A) → All P l → All P (take n l)
  All-take P zero l all = tt
  All-take P (suc n) [] all = tt
  All-take P (suc n) (a ∷ rest) all = (all.0, All-take P n rest all.1)

module _ {ℓ κ} {K : Type ℓ} {A : Type κ} (o : TotalOrder K) (key : A → K) where
  pub take-InOrder : (n : ℕ) (l : List A) → InOrder o key l → InOrder o key (take n l)
  take-InOrder zero l h = tt
  take-InOrder (suc n) [] h = tt
  take-InOrder (suc n) (a ∷ rest) h =
      (All-take (IsLevel o key a) n rest h.0, take-InOrder n rest h.1)
