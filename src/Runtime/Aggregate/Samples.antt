-- ===== src/Runtime/Aggregate/Samples.antt =====
-- What a bucket of aggregate.py holds of the samples of its series.
use phlo_observe.Common.{
  ℕ, ◌+◌, ◌≡◌, refl, sym, ap, ◌∙◌, true, false, Option, none, some, List, [], ◌∷◌, ◌++◌, ltb, arith,
  inl, inr, length, length-append, min, All, Any, Bool-cases,
}
use phlo_observe.Runtime.Aggregate.{Floats, Bucket, add, lower_of, upper_of, sampled, put_at}

module _ {V : Type 0} where
  abbrev pub IsIn : V → List V → Type 0
  IsIn v vs = Any (λ x. x ≡ v) vs

  IsIn-append : (v w : V) (vs : List V) → IsIn v vs → IsIn v (vs ++ w ∷ [])
  IsIn-append v w (x ∷ xs) (inl here) = inl here
  IsIn-append v w (x ∷ xs) (inr there) = inr (IsIn-append v w xs there)
  IsIn-append v w [] there = absurd there

  IsIn-last : (v : V) (vs : List V) → IsIn v (vs ++ v ∷ [])
  IsIn-last v [] = inl refl
  IsIn-last v (x ∷ xs) = inr (IsIn-last v xs)

  pub All-append-one {κ} :
      (P : V → Type κ) (v : V) (vs : List V) → All P vs → P v → All P (vs ++ v ∷ [])
  All-append-one P v [] all h = (h, tt)
  All-append-one P v (x ∷ xs) all h = (all.0, All-append-one P v xs all.1 h)

  All-weaken {κ μ} :
      (P : V → Type κ) (Q : V → Type μ) (vs : List V) → ((v : V) → P v → Q v) → All P vs → All Q vs
  All-weaken P Q [] f all = tt
  All-weaken P Q (x ∷ xs) f all = (f x all.0, All-weaken P Q xs f all.1)

  length-put_at : (n : ℕ) (v : V) (vs : List V) → length (put_at n v vs) ≡ length vs
  unfolding put_at
  length-put_at n v [] = refl
  length-put_at ℕ.zero v (x ∷ xs) = refl
  length-put_at (ℕ.suc n) v (x ∷ xs) = ap ℕ.suc (length-put_at n v xs)

  All-put_at :
      (P : V → Type 0) (n : ℕ) (v : V) (vs : List V) → P v → All P vs → All P (put_at n v vs)
  unfolding put_at
  All-put_at P n v [] h all = tt
  All-put_at P ℕ.zero v (x ∷ xs) h all = (h, all.1)
  All-put_at P (ℕ.suc n) v (x ∷ xs) h all = (all.0, All-put_at P n v xs h all.1)

module _ {V : Type 0} (floats : Floats V) where
  unfoldable pub sum_of : V → List V → V
  sum_of t [] = t
  sum_of t (v ∷ vs) = sum_of (floats.plus t v) vs

  -- The least of the samples, none of none.
  abbrev pub IsLeast : Option V → List V → Type 0
  IsLeast none vs = vs ≡ []
  IsLeast (some m) vs = IsIn m vs × All (λ v. floats.order.less v m ≡ false) vs

  abbrev pub IsGreatest : Option V → List V → Type 0
  IsGreatest none vs = vs ≡ []
  IsGreatest (some m) vs = IsIn m vs × All (λ v. floats.order.less m v ≡ false) vs

  pub record Represents (cap : ℕ) (b : Bucket V) (vs : List V) : Type 0 where
    pub seen : b.seen ≡ length vs
    pub total : b.total ≡ sum_of floats.zero_float vs
    pub least : IsLeast b.minimum vs
    pub greatest : IsGreatest b.maximum vs
    pub kept : length b.values ≡ min cap (length vs)
    pub genuine : All (λ v. IsIn v vs) b.values

  sum_of-append : (t v : V) (vs : List V) → sum_of t (vs ++ v ∷ []) ≡ floats.plus (sum_of t vs) v
  unfolding sum_of
  sum_of-append t v [] = refl
  sum_of-append t v (x ∷ xs) = sum_of-append (floats.plus t x) v xs

  not_below :
      (x v m : V)
      → floats.order.less v m ≡ true
      → floats.order.less x m ≡ false
      → floats.order.less x v ≡ false
  not_below x v m lt h = ground (arith, floats.order.less_trans x v m, lt, h)

  not_above :
      (x v m : V)
      → floats.order.less m v ≡ true
      → floats.order.less m x ≡ false
      → floats.order.less v x ≡ false
  not_above x v m lt h = ground (arith, floats.order.less_trans m v x, lt, h)

  lower_of-IsLeast :
      (m : Option V) (v : V) (vs : List V)
      → IsLeast m vs
      → IsLeast (some (lower_of floats m v)) (vs ++ v ∷ [])
  unfolding lower_of
  lower_of-IsLeast none v vs h = rw h (inl refl, (floats.order.less_irrefl v, tt))
  lower_of-IsLeast (some m) v vs h = elim (Bool-cases (floats.order.less v m)) [
    | inl lt ↦ rw lt (
      IsIn-last v vs,
      All-append-one (λ x. floats.order.less x v ≡ false) v vs
          (All-weaken _ _ vs (λ x g. not_below x v m lt g) h.1) (floats.order.less_irrefl v),
    )
    | inr not_lt ↦ rw not_lt (
      IsIn-append m v vs h.0,
      All-append-one (λ x. floats.order.less x m ≡ false) v vs h.1 not_lt,
    )
  ]

  upper_of-IsGreatest :
      (m : Option V) (v : V) (vs : List V)
      → IsGreatest m vs
      → IsGreatest (some (upper_of floats m v)) (vs ++ v ∷ [])
  unfolding upper_of
  upper_of-IsGreatest none v vs h = rw h (inl refl, (floats.order.less_irrefl v, tt))
  upper_of-IsGreatest (some m) v vs h = elim (Bool-cases (floats.order.less m v)) [
    | inl lt ↦ rw lt (
      IsIn-last v vs,
      All-append-one (λ x. floats.order.less v x ≡ false) v vs
          (All-weaken _ _ vs (λ x g. not_above x v m lt g) h.1) (floats.order.less_irrefl v),
    )
    | inr not_lt ↦ rw not_lt (
      IsIn-append m v vs h.0,
      All-append-one (λ x. floats.order.less m x ≡ false) v vs h.1 not_lt,
    )
  ]

  length-sampled :
      (cap slot n : ℕ) (v : V) (values : List V)
      → length values ≡ min cap n
      → length (sampled floats cap slot v values) ≡ min cap (n + 1)
  unfolding sampled
  length-sampled cap slot n v values h =
      ground (arith, length-append values (v ∷ []), length-put_at slot v values, h)

  sampled-IsIn :
      (cap slot : ℕ) (v : V) (values vs : List V)
      → All (λ x. IsIn x vs) values
      → All (λ x. IsIn x (vs ++ v ∷ [])) (sampled floats cap slot v values)
  unfolding sampled
  sampled-IsIn cap slot v values vs all =
      let wider : All (λ x. IsIn x (vs ++ v ∷ [])) values =
        All-weaken _ _ values (λ x h. IsIn-append x v vs h) all in
      elim (Bool-cases (ltb (length values) cap)) [
        | inl room ↦
            rw room (All-append-one (λ x. IsIn x (vs ++ v ∷ [])) v values wider (IsIn-last v vs))
        | inr full ↦ elim (Bool-cases (ltb slot cap)) [
          | inl chosen ↦
              rw (full, chosen)
                (All-put_at (λ x. IsIn x (vs ++ v ∷ [])) slot v values (IsIn-last v vs) wider)
          | inr passed ↦ rw (full, passed) wider
        ]
      ]

  pub add-Represents :
      (cap slot : ℕ) (b : Bucket V) (v : V) (vs : List V)
      → Represents cap b vs
      → Represents cap (add floats b v cap slot) (vs ++ v ∷ [])
  unfolding add
  add-Represents cap slot b v vs h = record {
    seen = omega (arith, h.seen, length-append vs (v ∷ []));
    total = ap (λ t. floats.plus t v) h.total ∙ sym (sum_of-append floats.zero_float v vs);
    least = lower_of-IsLeast b.minimum v vs h.least;
    greatest = upper_of-IsGreatest b.maximum v vs h.greatest;
    kept =
        length-sampled cap slot (length vs) v b.values h.kept
        ∙ omega (arith, length-append vs (v ∷ []));
    genuine = sampled-IsIn cap slot v b.values vs h.genuine;
  }
