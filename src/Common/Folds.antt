-- ===== src/Common/Folds.antt =====
-- Folds over lists and their permutations.
use mathlib.Core.Path.{◌≡◌, refl, ◌∙◌, subst, ap}
use mathlib.Core.List.{List, [], ◌∷◌, Permᴰ}
use phlo_observe.Common.Lists.{All, length}
use Prim.Native.Nat.{ℕ, suc}

abbrev pub fold {ℓ κ} : {S : Type ℓ} {E : Type κ} → (S → E → S) → S → List E → S
fold step s [] = s
fold step s (e ∷ es) = fold step (step s e) es

-- Every two entries at different places stand in the relation.
abbrev pub AllPairs {ℓ κ} : {A : Type ℓ} → (A → A → Type κ) → List A → Type κ
AllPairs R [] = Unit
AllPairs R (x ∷ xs) = All (R x) xs × AllPairs R xs

All-perm {ℓ κ} : {A : Type ℓ} (P : A → Type κ) {l m : List A} → Permᴰ l m → All P l → All P m
All-perm P Permᴰ.nil h = h
All-perm P (Permᴰ.cons e p) h = (subst P e h.0, All-perm P p h.1)
All-perm P (Permᴰ.swap e f) h = (subst P f h.1.0, (subst P e h.0, h.1.1))
All-perm P (Permᴰ.trans p q) h = All-perm P q (All-perm P p h)

module _ {ℓ κ} {A : Type ℓ} (R : A → A → Type κ) (R_symm : (x y : A) → R x y → R y x) where
  AllPairs-perm : {l m : List A} → Permᴰ l m → AllPairs R l → AllPairs R m
  AllPairs-perm Permᴰ.nil h = h
  AllPairs-perm (Permᴰ.cons {l₂ = ys} e p) h =
      (subst (λ x. All (R x) ys) e (All-perm (R _) p h.0), AllPairs-perm p h.1)
  AllPairs-perm (Permᴰ.swap {a = a} {b = b} {a' = c} {l = l} e f) h = (
    (
      subst (λ x. R c x) e (subst (λ x. R x a) f (R_symm a b h.0.0)),
      subst (λ x. All (R x) l) f h.1.0,
    ),
    (subst (λ x. All (R x) l) e h.0.1, h.1.1),
  )
  AllPairs-perm (Permᴰ.trans p q) h = AllPairs-perm q (AllPairs-perm p h)

  length-perm : {l m : List A} → Permᴰ l m → length l ≡ length m
  length-perm Permᴰ.nil = refl
  length-perm (Permᴰ.cons e p) = ap suc (length-perm p)
  length-perm (Permᴰ.swap e f) = refl
  length-perm (Permᴰ.trans p q) = length-perm p ∙ length-perm q

  -- The invariant may speak of the number of steps that are still to come.
  module _ {ι θ} {S : Type ι} (step : S → A → S) (Inv : ℕ → S → Type θ)
      (keeps : (n : ℕ) (s : S) (e : A) → Inv (suc n) s → Inv n (step s e))
      (commutes : (n : ℕ) (s : S) (e f : A)
        → Inv (suc (suc n)) s
        → R e f
        → step (step s e) f ≡ step (step s f) e) where
    pub fold_perm :
        {l m : List A} (s : S)
        → Permᴰ l m
        → AllPairs R l
        → Inv (length l) s
        → fold step s l ≡ fold step s m
    fold_perm s Permᴰ.nil h i = refl
    fold_perm s (Permᴰ.cons {a = a} {l₁ = xs} {l₂ = ys} e p) h i =
        fold_perm (step s a) p h.1 (keeps (length xs) s a i) ∙ ap (λ x. fold step (step s x) ys) e
    fold_perm s (Permᴰ.swap {a = a} {b = b} {a' = c} {l = l} e f) h i =
        ap (λ t. fold step t l)
          (commutes (length l) s a b i h.0.0
            ∙ ap (λ x. step (step s x) a) f
            ∙ ap (λ x. step (step s c) x) e)
    fold_perm s (Permᴰ.trans p q) h i =
        fold_perm s p h i
        ∙ fold_perm s q (AllPairs-perm p h) (subst (λ n. Inv n s) (length-perm p) i)
