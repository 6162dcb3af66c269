-- ===== src/Runtime/Worker/Batches.antt =====
-- The batches of the worker threads of backends.py: what becomes of a sequence's place when a thread
-- takes an event or hands its batch over.
use phlo_observe.Common.{
  ℕ, ◌≡◌, refl, sym, ap, ◌∙◌, subst, inl, inr, Bool, true, Option, none, some, List, [], ◌∷◌, ◌++◌,
  map, arith, length, Bool-cases, if◌then◌else◌, ◌==◌,
}
use phlo_observe.Runtime.Canonical.{CanonicalEvent}
use phlo_observe.Runtime.Worker.{Worker, mark_completed, head_of}
use phlo_observe.Runtime.Worker.Loop.{Pool, Taken, sequence_of, mark_each, with_batch, hand_over}
use phlo_observe.Runtime.Worker.Barrier.{
  Tracked, Placed, IsIn, count_ident, IsIn-append, IsIn-last, IsIn-remove_number,
  Placed-without_head, without_head,
}

module _ {S : Type 0} (append : S → Option ℕ → CanonicalEvent → S × Bool × ℕ) where
  -- The sequences that the threads hold.
  abbrev pub held : (ℕ → List Taken) → ℕ → List (Option ℕ)
  held batches k = map sequence_of (batches k)

  abbrev pub IsTracked : Pool S → Type 0
  IsTracked p = Tracked p.worker (held p.batches)

  map-append :
      (xs ys : List Taken) → map sequence_of (xs ++ ys) ≡ map sequence_of xs ++ map sequence_of ys
  map-append [] ys = refl
  map-append (x ∷ xs) ys = ap (◌∷◌ x.1) (map-append xs ys)

  pub record Marked (w w' : Worker S) (numbers : List (Option ℕ)) : Type 0 where
    pub flag : w'.telemetry_required ≡ w.telemetry_required
    pub items : w'.queue ≡ w.queue
    pub lists : w'.sequences ≡ w.sequences
    pub gone :
        (n : ℕ)
        → IsIn n w'.pending_sequences
        → IsIn n w.pending_sequences × (IsIn (some n) numbers → ⊥)

  mark_one-Marked : (w : Worker S) (s : Option ℕ) → Marked w (mark_completed append w s) (s ∷ [])
  unfolding mark_completed
  mark_one-Marked w none = record {
    flag = refl;
    items = refl;
    lists = refl;
    gone = λ n h. (h, λ there. elim there [ inl here ↦ cc | inr further ↦ further ]);
  }
  mark_one-Marked w (some s) = record {
    flag = refl;
    items = refl;
    lists = refl;
    gone = λ n h.
        let both = IsIn-remove_number n s w.pending_sequences h in
        (both.0, λ there. elim there [ inl here ↦ both.1 cc | inr further ↦ further ]);
  }

  pub mark_each-Marked :
      (w : Worker S) (numbers : List (Option ℕ)) → Marked w (mark_each append w numbers) numbers
  unfolding mark_each
  mark_each-Marked w [] = record {
    flag = refl;
    items = refl;
    lists = refl;
    gone = λ n h. (h, λ there. there);
  }
  mark_each-Marked w (s ∷ rest) =
      let one = mark_one-Marked w s in
      let more = mark_each-Marked (mark_completed append w s) rest in
      record {
        flag = more.flag ∙ one.flag;
        items = more.items ∙ one.items;
        lists = more.lists ∙ one.lists;
        gone = λ n h.
            let late = more.gone n h in
            let early = one.gone n late.0 in
            (
              early.0,
              λ there. elim there [ inl here ↦ early.1 (inl here) | inr further ↦ late.1 further ],
            );
      }

  -- A number that is not in the thread's batch keeps its place when the batch is emptied.
  Placed-emptied :
      (thread n : ℕ) (sequences : ℕ → List ℕ) (batches : ℕ → List Taken)
      → (IsIn (some n) (held batches thread) → ⊥)
      → Placed sequences (held batches) n
      → Placed sequences (held (with_batch append thread [] batches)) n
  Placed-emptied thread n sequences batches apart (inl waits) = inl waits
  Placed-emptied thread n sequences batches apart (inr (k, taken)) =
      elim (Bool-cases (k == thread)) [
        | inl same ↦
            let equal : k ≡ thread = ground (arith, same) in
            absurd (apart (subst (λ j. IsIn (some n) (held batches j)) equal taken))
        | inr other ↦ inr (
          k,
          subst (λ b. IsIn (some n) (map sequence_of (if b then [] else batches k))) (sym other)
              taken,
        )
      ]

  pub hand_over-IsTracked :
      (thread : ℕ) (p : Pool S) → IsTracked p → IsTracked (hand_over append thread p)
  unfolding hand_over
  hand_over-IsTracked thread p h =
      let marked = mark_each-Marked p.worker (map sequence_of (p.batches thread)) in
      record {
        patient = marked.flag ∙ h.patient;
        counted = λ i.
            ap (λ f. length (f i)) marked.lists
            ∙ h.counted i
            ∙ ap (count_ident i) (sym marked.items);
        placed = λ n there.
            let both = marked.gone n there in
            subst (λ f. Placed f (held (with_batch append thread [] p.batches)) n)
              (sym marked.lists)
              (Placed-emptied thread n p.worker.sequences p.batches both.1 (h.placed n both.0));
      }

  -- A batch that grows holds what it held.
  Placed-grown :
      (thread n : ℕ) (t : Taken) (sequences : ℕ → List ℕ) (batches : ℕ → List Taken)
      → Placed sequences (held batches) n
      → Placed sequences (held (with_batch append thread (batches thread ++ t ∷ []) batches)) n
  Placed-grown thread n t sequences batches (inl waits) = inl waits
  Placed-grown thread n t sequences batches (inr (k, taken)) = elim (Bool-cases (k == thread)) [
    | inl same ↦
        let equal : k ≡ thread = ground (arith, same) in
        inr (
          k,
          subst
              (λ b.
                IsIn (some n) (map sequence_of (if b then batches thread ++ t ∷ [] else batches k)))
              (sym same)
              (subst (IsIn (some n)) (sym (map-append (batches thread) (t ∷ []))) (
                IsIn-append (some n) (map sequence_of (batches thread)) (t.1 ∷ [])
                  (subst (λ j. IsIn (some n) (held batches j)) equal taken))),
        )
    | inr other ↦ inr (
      k,
      subst
          (λ b. IsIn (some n) (map sequence_of (if b then batches thread ++ t ∷ [] else batches k)))
          (sym other) taken,
    )
  ]

  -- The sequence that the thread takes is in its batch.
  Placed-taken :
      (thread n : ℕ) (e : CanonicalEvent) (sequences : ℕ → List ℕ) (batches : ℕ → List Taken)
      → Placed
          (without_head e.ident sequences)
          (held (with_batch append thread (batches thread ++ (e, some n) ∷ []) batches))
          n
  Placed-taken thread n e sequences batches =
      let itself : true ≡ (thread == thread) = ground arith in
      inr (
        thread,
        subst
            (λ b.
              IsIn (some n) (
                map sequence_of (if b then batches thread ++ (e, some n) ∷ [] else batches thread)))
            itself
            (subst (IsIn (some n)) (sym (map-append (batches thread) ((e, some n) ∷ [])))
              (IsIn-last (some n) (map sequence_of (batches thread)))),
      )

  pub Placed-take_event :
      (thread n : ℕ) (e : CanonicalEvent) (first : Option ℕ) (sequences : ℕ → List ℕ)
      (batches : ℕ → List Taken)
      → head_of (sequences e.ident) ≡ first
      → Placed sequences (held batches) n
      → Placed
          (without_head e.ident sequences)
          (held (with_batch append thread (batches thread ++ (e, first) ∷ []) batches))
          n
  Placed-take_event thread n e none sequences batches found h =
      Placed-without_head e.ident n sequences _ (λ s first. absurd (cc (found, first)))
        (Placed-grown thread n (e, none) sequences batches h)
  Placed-take_event thread n e (some s) sequences batches found h = elim (Bool-cases (s == n)) [
    | inl same ↦
        let equal : s ≡ n = ground (arith, same) in
        subst
          (λ m.
            Placed (without_head e.ident sequences)
              (held (with_batch append thread (batches thread ++ (e, some m) ∷ []) batches)) n)
          (sym equal) (Placed-taken thread n e sequences batches)
    | inr other ↦
        Placed-without_head e.ident n sequences _
          (λ r first equal.
            let s_r : s ≡ r = cc (found, first) in ground (arith, s_r, equal, other))
          (Placed-grown thread n (e, some s) sequences batches h)
  ]
