-- ===== src/StateEngine/Keys/Windows.antt =====
-- `_insert_sorted` and `_record` of state_engine.py.
use phlo_observe.Common.{
  ℕ, ◌≤◌, ◌≡◌, refl, ap, sym, ◌∙◌, true, false, List, [], ◌∷◌, arith, ltb, if◌then◌else◌,
  Bool-cases, inl, inr, length, take, All, TotalOrder, put, Ascending, take_last, take_last-drop,
  compared, below, same, above, put_here, put-nil, put_before, put_after, ltb-false→le,
  take_last_short, take_of_length-le, put_comm, take-put-take, take_last-put-take_last,
  put-Ascending, take-Ascending, take_last-Ascending, length-take_last, length-take, str_eq,
}
use phlo_observe.StateEngine.Event.{Event, Key, key_order, event_key}
use phlo_observe.StateEngine.Keys.{
  Keep, newest, earliest, contains, insort, trim, insert_sorted, record_event, max_derived_from,
}

module _ {ℓ} {A : Type ℓ} ⦃o : TotalOrder A⦄ where
  -- The entries that a full window keeps.
  pub retain : Keep → ℕ → List A → List A
  retain newest cap l = take_last cap l
  retain earliest cap l = take cap l

  pub record IsWindow (cap : ℕ) (l : List A) : Type 0 where
    pub ascending : Ascending l
    pub bounded : length l ≤ cap

  not_contains : (a : A) (l : List A) → All (λ y. o.less a y ≡ true) l → contains a l ≡ false
  unfolding contains
  not_contains a [] h = refl
  not_contains a (x ∷ xs) h = rw (h.0) (not_contains a xs h.1)

  above_rest :
      (a x : A) (xs : List A)
      → o.less a x ≡ true
      → All (λ y. o.less x y ≡ true) xs
      → All (λ y. o.less a y ≡ true) xs
  above_rest a x [] h all = tt
  above_rest a x (y ∷ ys) h all = (o.less_trans a x y h all.0, above_rest a x ys h all.1)

  -- On a sorted window, `insort` behind the membership test is `put`.
  put-insort :
      (a : A) (l : List A) → Ascending l → put a l ≡ (if contains a l then l else insort a l)
  unfolding contains insort
  put-insort a [] h = put-nil a
  put-insort a (x ∷ xs) h = elim (compared a x) [
    | below p q ↦ rw (put_before a x xs q p, not_contains a xs (above_rest a x xs p h.0), p) refl
    | same e ↦ rw (e, put_here x xs, o.less_irrefl x) refl
    | above p q ↦ rw (put_after a x xs q, put-insort a xs h.1, p, q) (ground arith)
  ]

  -- Insertion with the trimming, in one form.
  insert_sorted-retain :
      (keep : Keep) (cap : ℕ) (a : A) (l : List A)
      → IsWindow cap l
      → insert_sorted keep cap a l ≡ retain keep cap (put a l)
  unfolding insert_sorted trim retain
  insert_sorted-retain newest cap a l w = elim (Bool-cases (contains a l)) [
    | inl old ↦ rw (put-insort a l w.ascending, old) (sym (take_last_short cap l w.bounded))
    | inr new ↦
        rw (put-insort a l w.ascending, new)
          (elim (Bool-cases (ltb cap (length (insort a l)))) [
            | inl full ↦ rw full (take_last-drop cap (insort a l))
            | inr room ↦ rw room (sym (take_last_short cap (insort a l) (ltb-false→le _ _ room)))
          ])
  ]
  insert_sorted-retain earliest cap a l w = elim (Bool-cases (contains a l)) [
    | inl old ↦ rw (put-insort a l w.ascending, old) (sym (take_of_length-le cap l w.bounded))
    | inr new ↦
        rw (put-insort a l w.ascending, new)
          (elim (Bool-cases (ltb cap (length (insort a l)))) [
            | inl full ↦ rw full
            | inr room ↦ rw room (sym (take_of_length-le cap (insort a l) (ltb-false→le _ _ room)))
          ])
  ]

  retain-IsWindow :
      (keep : Keep) (cap : ℕ) (l : List A) → Ascending l → IsWindow cap (retain keep cap l)
  unfolding retain
  retain-IsWindow newest cap l h = record {
    ascending = take_last-Ascending cap l h;
    bounded = length-take_last cap l;
  }
  retain-IsWindow earliest cap l h = record {
    ascending = take-Ascending cap l h;
    bounded = omega (arith, length-take cap l);
  }

  -- An insertion into a window that is strictly sorted and within its bound keeps it so.
  pub insert_sorted-IsWindow :
      (keep : Keep) (cap : ℕ) (a : A) (l : List A)
      → IsWindow cap l
      → IsWindow cap (insert_sorted keep cap a l)
  insert_sorted-IsWindow keep cap a l w =
      rw (insert_sorted-retain keep cap a l w)
        (retain-IsWindow keep cap (put a l) (put-Ascending a l w.ascending))

  retain-put-retain :
      (keep : Keep) (cap : ℕ) (a : A) (l : List A)
      → Ascending l
      → retain keep cap (put a (retain keep cap l)) ≡ retain keep cap (put a l)
  unfolding retain
  retain-put-retain newest cap a l h = take_last-put-take_last cap a l h
  retain-put-retain earliest cap a l h = take-put-take cap a l

  insert_twice :
      (keep : Keep) (cap : ℕ) (a b : A) (l : List A)
      → IsWindow cap l
      → insert_sorted keep cap a (insert_sorted keep cap b l) ≡ retain keep cap (put a (put b l))
  insert_twice keep cap a b l w =
      insert_sorted-retain keep cap a _ (insert_sorted-IsWindow keep cap b l w)
      ∙ ap (λ m. retain keep cap (put a m)) (insert_sorted-retain keep cap b l w)
      ∙ retain-put-retain keep cap a (put b l) (put-Ascending b l w.ascending)

  -- Two insertions into a window, sorted and within its bound, give the same window in either order,
  -- also where it overflows.
  pub insert_sorted_comm :
      (keep : Keep) (cap : ℕ) (a b : A) (l : List A)
      → IsWindow cap l
      → insert_sorted keep cap a (insert_sorted keep cap b l)
        ≡ insert_sorted keep cap b (insert_sorted keep cap a l)
  insert_sorted_comm keep cap a b l w =
      insert_twice keep cap a b l w
      ∙ ap (retain keep cap) (put_comm a b l)
      ∙ sym (insert_twice keep cap b a l w)

-- The provenance window stays a window.
pub record_event-IsWindow :
    (e : Event) (keys : List Key)
    → IsWindow max_derived_from keys
    → IsWindow max_derived_from (record_event e keys)
unfolding record_event
record_event-IsWindow e keys w = elim (Bool-cases (str_eq e.event_id "")) [
  | inl absent ↦ rw absent w
  | inr present ↦ rw present (insert_sorted-IsWindow earliest max_derived_from (event_key e) keys w)
]

-- The provenance window does not depend on the order of two events.
pub record_event_comm :
    (e f : Event) (keys : List Key)
    → IsWindow max_derived_from keys
    → record_event e (record_event f keys) ≡ record_event f (record_event e keys)
unfolding record_event
record_event_comm e f keys w =
    ground (arith, insert_sorted_comm earliest max_derived_from (event_key e) (event_key f) keys w)
