-- ===== src/Common/Bounded.antt =====
-- A bounded deque: `deque(maxlen=n)` with `append`, which discards from the left.
use Prim.Native.Nat.{ℕ, ◌+◌, ◌-◌, ◌≤◌, zero, suc}
use mathlib.Core.Path.{◌≡◌, refl, ap, sym, ◌∙◌}
use mathlib.Core.List.{List, [], ◌∷◌, ◌++◌}
use native.Mathlib.Omega.{arith}
use phlo_observe.Common.Lists.{length, drop, length-append, length-drop}

module _ {ℓ} {A : Type ℓ} where
  -- The last `n` entries.
  abbrev pub last_entries : ℕ → List A → List A
  last_entries n xs = drop (length xs - n) xs

  abbrev pub push : ℕ → List A → A → List A
  push n xs x = last_entries n (xs ++ x ∷ [])

  pub length-last_entries : (n : ℕ) (xs : List A) → length (last_entries n xs) ≤ n
  length-last_entries n xs = omega (arith, length-drop (length xs - n) xs)

  drop-append : (k : ℕ) (xs ys : List A) → k ≤ length xs → drop k (xs ++ ys) ≡ drop k xs ++ ys
  drop-append zero xs ys h = refl
  drop-append (suc k) [] ys h = absurd (omega (arith, h))
  drop-append (suc k) (x ∷ xs) ys h = drop-append k xs ys (omega (arith, h))

  drop-nil : (k : ℕ) → drop {A = A} k [] ≡ []
  drop-nil zero = refl
  drop-nil (suc k) = refl

  drop-drop : (k j m : ℕ) (xs : List A) → m ≡ j + k → drop k (drop j xs) ≡ drop m xs
  drop-drop k zero m xs h = ap (λ i. drop i xs) (omega (arith, h))
  drop-drop k (suc j) m [] h = drop-nil k ∙ sym (drop-nil m)
  drop-drop k (suc j) zero (x ∷ xs) h = absurd (omega (arith, h))
  drop-drop k (suc j) (suc m) (x ∷ xs) h = drop-drop k j m xs (omega (arith, h))

  -- What has been discarded before makes no difference to a later cut.
  pub last-push :
      (n : ℕ) (xs ys : List A)
      → last_entries n (last_entries n xs ++ ys) ≡ last_entries n (xs ++ ys)
  last-push n xs ys =
      ap (λ l. drop (length (last_entries n xs ++ ys) - n) l)
        (sym (drop-append (length xs - n) xs ys (omega arith)))
      ∙ drop-drop (length (last_entries n xs ++ ys) - n) (length xs - n) (length (xs ++ ys) - n)
          (xs ++ ys)
          (omega (
            arith,
            length-append (last_entries n xs) ys,
            length-append xs ys,
            length-drop (length xs - n) xs,
          ))

  pub last-last : (n : ℕ) (xs : List A) → last_entries n (last_entries n xs) ≡ last_entries n xs
  last-last n xs = ap (λ k. drop k (last_entries n xs)) none_left
    where
      none_left : length (last_entries n xs) - n ≡ 0
      none_left = omega (arith, length-last_entries n xs)

  pub last_of_length-le : (n : ℕ) (xs : List A) → length xs ≤ n → last_entries n xs ≡ xs
  last_of_length-le n xs h = ap (λ k. drop k xs) all_left
    where
      all_left : length xs - n ≡ 0
      all_left = omega (arith, h)
