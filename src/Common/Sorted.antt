-- ===== src/Common/Sorted.antt =====
-- Strictly sorted lists over a total order: insertion of a key that may be there already, and the
-- first or last `n` entries after it.
use Prim.Native.Nat.{ℕ, zero, suc, ◌+◌, ◌-◌, ◌≤◌}
use mathlib.Core.Path.{◌≡◌, refl, ap, sym, ◌∙◌}
use mathlib.Core.Logic.{inl, inr}
use mathlib.Core.Bool.{true, false}
use mathlib.Core.List.{List, [], ◌∷◌}
use native.Mathlib.Omega.{arith}
use phlo_observe.Common.Tests.{ltb, ltb→lt, ltb-false→le, if◌then◌else◌, Bool-cases}
use phlo_observe.Common.Lists.{length, take, drop, All, take-take-suc, take_idem}
use phlo_observe.Common.Order.{TotalOrder, below, same, above, compared, less_asym}

module _ {ℓ} {A : Type ℓ} ⦃o : TotalOrder A⦄ where
  -- Insertion into a strictly sorted list, of a key that is kept once.
  unfoldable pub put : A → List A → List A
  put a [] = a ∷ []
  put a (x ∷ xs) = if o.less x a then x ∷ put a xs else if o.less a x then a ∷ x ∷ xs else x ∷ xs

  pub put-nil : (a : A) → put a [] ≡ a ∷ []
  unfolding put
  put-nil a = refl

  pub put_after : (a x : A) (xs : List A) → o.less x a ≡ true → put a (x ∷ xs) ≡ x ∷ put a xs
  unfolding put
  put_after a x xs h = rw h

  pub put_before :
      (a x : A) (xs : List A) → o.less x a ≡ false → o.less a x ≡ true → put a (x ∷ xs) ≡ a ∷ x ∷ xs
  unfolding put
  put_before a x xs h k = rw (h, k)

  pub put_here : (a : A) (xs : List A) → put a (a ∷ xs) ≡ a ∷ xs
  unfolding put
  put_here a xs = rw (o.less_irrefl a)

  pub put_comm : (a b : A) (l : List A) → put a (put b l) ≡ put b (put a l)
  unfolding put
  put_comm a b [] = ground (arith, o.less_connex a b, less_asym a b)
  put_comm a b (x ∷ xs) = ground (
    arith,
    put_comm a b xs,
    o.less_irrefl a,
    o.less_irrefl b,
    o.less_trans a x b,
    o.less_trans b x a,
    o.less_trans a b x,
    o.less_trans x a b,
    o.less_trans x b a,
    o.less_trans b a x,
    o.less_connex a b,
    o.less_connex a x,
    o.less_connex b x,
    less_asym a b,
    less_asym a x,
    less_asym b x,
  )

  take_cons_take : (n : ℕ) (x : A) (xs : List A) → take n (x ∷ take n xs) ≡ take n (x ∷ xs)
  take_cons_take zero x xs = refl
  take_cons_take (suc n) x xs = ap (◌∷◌ x) (take-take-suc n xs)

  pub take-put-take : (n : ℕ) (a : A) (l : List A) → take n (put a (take n l)) ≡ take n (put a l)
  unfolding put
  take-put-take zero a l = refl
  take-put-take (suc n) a [] = refl
  take-put-take (suc n) a (x ∷ xs) =
      ground (arith, take-put-take n a xs, take_cons_take n x xs, take_idem n xs)

  -- Strictly ascending.
  abbrev pub Ascending : List A → Type 0
  Ascending [] = Unit
  Ascending (x ∷ xs) = All (λ y. o.less x y ≡ true) xs × Ascending xs

  pub length-put-le : (a : A) (l : List A) → length (put a l) ≤ length l + 1
  unfolding put
  length-put-le a [] = omega arith
  length-put-le a (x ∷ xs) = ground (arith, length-put-le a xs)

  pub length-le-put : (a : A) (l : List A) → length l ≤ length (put a l)
  unfolding put
  length-le-put a [] = omega arith
  length-le-put a (x ∷ xs) = ground (arith, length-le-put a xs)

  All-below :
      (a x : A) (xs : List A)
      → o.less a x ≡ true
      → All (λ y. o.less x y ≡ true) xs
      → All (λ y. o.less a y ≡ true) xs
  All-below a x [] h all = tt
  All-below a x (y ∷ ys) h all = (o.less_trans a x y h all.0, All-below a x ys h all.1)

  All-put :
      (x a : A) (l : List A)
      → o.less x a ≡ true
      → All (λ y. o.less x y ≡ true) l
      → All (λ y. o.less x y ≡ true) (put a l)
  unfolding put
  All-put x a [] h all = (h, tt)
  All-put x a (y ∷ ys) h all = ground (arith, All-put x a ys)

  pub put-Ascending : (a : A) (l : List A) → Ascending l → Ascending (put a l)
  put-Ascending a [] h = unfold put in (tt, tt)
  put-Ascending a (x ∷ xs) h = elim (compared a x) [
    | below p q ↦ rw (put_before a x xs q p) ((p, All-below a x xs p h.0), h)
    | same e ↦ rw (e, put_here x xs) h
    | above p q ↦ rw (put_after a x xs q) (All-put x a xs q h.0, put-Ascending a xs h.1)
  ]

  -- A key below all others goes to the front.
  pub put_front : (a : A) (l : List A) → All (λ y. o.less a y ≡ true) l → put a l ≡ a ∷ l
  put_front a [] h = unfold put in refl
  put_front a (x ∷ xs) h = put_before a x xs (less_asym a x h.0) h.0

module _ {ℓ} {A : Type ℓ} where
  -- The last `n` entries.
  unfoldable pub take_last : ℕ → List A → List A
  take_last n [] = []
  take_last n (x ∷ xs) = if ltb (length xs) n then x ∷ xs else take_last n xs

  pub take_last_short : (n : ℕ) (l : List A) → length l ≤ n → take_last n l ≡ l
  unfolding take_last
  take_last_short n [] h = refl
  take_last_short n (x ∷ xs) h = ground arith

  pub take_last_long :
      (n : ℕ) (x : A) (xs : List A) → n ≤ length xs → take_last n (x ∷ xs) ≡ take_last n xs
  unfolding take_last
  take_last_long n x xs h = ground arith

  drop-nil : (n : ℕ) → drop {A = A} n [] ≡ []
  drop-nil zero = refl
  drop-nil (suc n) = refl

  pub take_last-drop : (n : ℕ) (l : List A) → drop (length l - n) l ≡ take_last n l
  unfolding take_last
  take_last-drop n [] = drop-nil (0 - n)
  take_last-drop n (x ∷ xs) = elim (Bool-cases (ltb (length xs) n)) [
    | inl short ↦
        let none_left : suc (length xs) - n ≡ 0 = omega (arith, ltb→lt (length xs) n) in
        rw (short, none_left)
    | inr long ↦
        let more_left : suc (length xs) - n ≡ suc (length xs - n) =
          omega (arith, ltb-false→le (length xs) n) in
        rw (long, more_left) (take_last-drop n xs)
  ]

  pub length-take_last : (n : ℕ) (l : List A) → length (take_last n l) ≤ n
  unfolding take_last
  length-take_last n [] = omega arith
  length-take_last n (x ∷ xs) = ground (arith, length-take_last n xs)

module _ {ℓ} {A : Type ℓ} ⦃o : TotalOrder A⦄ where
  take_last-put_long :
      (n : ℕ) (a x : A) (xs : List A)
      → Ascending (x ∷ xs)
      → n ≤ length xs
      → take_last n (put a xs) ≡ take_last n (put a (x ∷ xs))
  take_last-put_long n a x xs h le = elim (compared a x) [
    | below p q ↦
        rw (put_before a x xs q p, put_front a xs (All-below a x xs p h.0))
          (rw (take_last_long n a xs le, take_last_long n a (x ∷ xs) (omega arith))
            (sym (take_last_long n x xs le)))
    | same e ↦ rw (e, put_here x xs, put_front x xs h.0) refl
    | above p q ↦
        rw (put_after a x xs q)
          (sym (take_last_long n x (put a xs) (omega (arith, length-le-put a xs))))
  ]

  pub take_last-put-take_last :
      (n : ℕ) (a : A) (l : List A)
      → Ascending l
      → take_last n (put a (take_last n l)) ≡ take_last n (put a l)
  take_last-put-take_last n a [] h = unfold take_last in refl
  take_last-put-take_last n a (x ∷ xs) h = elim (Bool-cases (ltb (length xs) n)) [
    | inl short ↦ ap (λ l. take_last n (put a l)) (take_last_short n (x ∷ xs) (ltb→lt _ _ short))
    | inr long ↦
        let le : n ≤ length xs = ltb-false→le _ _ long in
        rw (take_last_long n x xs le)
          (take_last-put-take_last n a xs h.1 ∙ take_last-put_long n a x xs h le)
  ]

  All-take_last : (P : A → Type 0) (n : ℕ) (l : List A) → All P l → All P (take_last n l)
  unfolding take_last
  All-take_last P n [] h = tt
  All-take_last P n (x ∷ xs) h = elim (Bool-cases (ltb (length xs) n)) [
    | inl short ↦ rw short h
    | inr long ↦ rw long (All-take_last P n xs h.1)
  ]

  pub take_last-Ascending : (n : ℕ) (l : List A) → Ascending l → Ascending (take_last n l)
  unfolding take_last
  take_last-Ascending n [] h = tt
  take_last-Ascending n (x ∷ xs) h = elim (Bool-cases (ltb (length xs) n)) [
    | inl short ↦ rw short h
    | inr long ↦ rw long (take_last-Ascending n xs h.1)
  ]

  All-take : (P : A → Type 0) (n : ℕ) (l : List A) → All P l → All P (take n l)
  All-take P zero l h = tt
  All-take P (suc n) [] h = tt
  All-take P (suc n) (x ∷ xs) h = (h.0, All-take P n xs h.1)

  pub take-Ascending : (n : ℕ) (l : List A) → Ascending l → Ascending (take n l)
  take-Ascending zero l h = tt
  take-Ascending (suc n) [] h = tt
  take-Ascending (suc n) (x ∷ xs) h =
      (All-take (λ y. o.less x y ≡ true) n xs h.0, take-Ascending n xs h.1)
