-- ===== src/Runtime/Worker/Quiet.antt =====
-- The worker loop of backends.py: a thread that works off the queue leaves nothing for `flush` to wait
-- for.
use phlo_observe.Common.{
  ℕ, suc, ◌≡◌, refl, sym, ap, ◌∙◌, subst, ◌⊎◌, inl, inr, Bool, true, false, Option, some, List, [],
  ◌∷◌, map, arith, length, Bool-cases, if◌then◌else◌, ◌==◌, All,
}
use phlo_observe.Runtime.Canonical.{CanonicalEvent}
use phlo_observe.Runtime.Worker.{Item, event, flush_request, stop, take_sequence}
use phlo_observe.Runtime.Worker.Loop.{
  Pool, Taken, sequence_of, hand_over, take_event, finish_request, on_item, without_first,
  next_item, get_item, end_round, turn, work_off, Reachable, is_waiting,
}
use phlo_observe.Runtime.Worker.Barrier.{IsIn, count_ident}
use phlo_observe.Runtime.Worker.Batches.{IsTracked, mark_each-Marked}
use phlo_observe.Runtime.Worker.Steps.{
  next_item-IsTracked, end_round-IsTracked, Reachable-IsTracked,
}

batch_cases : (b : List Taken) → (b ≡ []) ⊎ ((t : Taken) × ((ts : List Taken) × (b ≡ t ∷ ts)))
batch_cases [] = inl refl
batch_cases (t ∷ ts) = inr (t, (ts, refl))

nil_of : (l : List ℕ) → ((n : ℕ) → IsIn n l → ⊥) → l ≡ []
nil_of [] f = refl
nil_of (n ∷ ns) f = absurd (f n (inl refl))

length_nil : (l : List ℕ) → length l ≡ 0 → l ≡ []
length_nil [] h = refl
length_nil (n ∷ ns) h = absurd (omega (arith, h))

module _ {S : Type 0} (append : S → Option ℕ → CanonicalEvent → S × Bool × ℕ) where
  hand_over-queue :
      (thread : ℕ) (p : Pool S) → (hand_over append thread p).worker.queue ≡ p.worker.queue
  unfolding hand_over
  hand_over-queue thread p =
      (mark_each-Marked append p.worker (map sequence_of (p.batches thread))).items

  -- The other threads hold nothing.
  abbrev pub Alone : ℕ → Pool S → Type 0
  Alone thread p = (k : ℕ) → (k == thread) ≡ false → p.batches k ≡ []

  hand_over-Alone :
      (thread : ℕ) (p : Pool S) → Alone thread p → Alone thread (hand_over append thread p)
  unfolding hand_over
  hand_over-Alone thread p h k other = rw other (h k other)

  hand_over-own : (thread : ℕ) (p : Pool S) → (hand_over append thread p).batches thread ≡ []
  unfolding hand_over
  hand_over-own thread p = ground arith

  abbrev pub is_stop : Item → Bool
  is_stop stop = true
  is_stop _ = false

  record Worked (thread : ℕ) (items : List Item) (p : Pool S) : Type 0 where
    shape : p.worker.queue ≡ items
    tracked : IsTracked append p
    alone : Alone thread p

  next_item-Worked :
      (thread : ℕ) (p : Pool S) (x : Item) (items : List Item)
      → is_stop x ≡ false
      → Worked thread (x ∷ items) p
      → ((next_item append thread p (x ∷ items)).0 ≡ true)
        × Worked thread items (next_item append thread p (x ∷ items)).1
  next_item-Worked thread p (event e) items going h = (
    unfold next_item on_item in refl,
    record {
      shape = unfold next_item on_item take_event take_sequence in refl;
      tracked = next_item-IsTracked append thread p (event e ∷ items) h.shape h.tracked;
      alone = λ k other. unfold next_item on_item take_event in rw other (h.alone k other);
    },
  )
  next_item-Worked thread p (flush_request r d) items going h = (
    unfold next_item on_item in refl,
    record {
      shape =
          unfold next_item on_item finish_request in
          hand_over-queue thread (without_first append p items);
      tracked = next_item-IsTracked append thread p (flush_request r d ∷ items) h.shape h.tracked;
      alone =
          unfold next_item on_item finish_request in
          hand_over-Alone thread (without_first append p items) h.alone;
    },
  )
  next_item-Worked thread p stop items going h = absurd cc

  abbrev ended_by : ℕ → Pool S → List Taken → Pool S
  ended_by thread p b = elim b [ [] ↦ p | ◌∷◌ t ts ↦ hand_over append thread p ]

  end_round-idle : (thread : ℕ) (p : Pool S) → p.batches thread ≡ [] → end_round append thread p ≡ p
  unfolding end_round
  end_round-idle thread p idle = ap (ended_by thread p) idle

  end_round-busy :
      (thread : ℕ) (p : Pool S)
      → (t : Taken) × ((ts : List Taken) × (p.batches thread ≡ t ∷ ts))
      → end_round append thread p ≡ hand_over append thread p
  unfolding end_round
  end_round-busy thread p (t, (ts, busy)) = ap (ended_by thread p) busy

  end_round-Worked :
      (thread : ℕ) (items : List Item) (p : Pool S)
      → Worked thread items p
      → Worked thread items (end_round append thread p)
  end_round-Worked thread items p h = record {
    shape = elim (batch_cases (p.batches thread)) [
      | inl idle ↦ rw (end_round-idle thread p idle) h.shape
      | inr busy ↦ rw (end_round-busy thread p busy) (hand_over-queue thread p ∙ h.shape)
    ];
    tracked = end_round-IsTracked append thread p h.tracked;
    alone = elim (batch_cases (p.batches thread)) [
      | inl idle ↦ rw (end_round-idle thread p idle) h.alone
      | inr busy ↦ rw (end_round-busy thread p busy) (hand_over-Alone thread p h.alone)
    ];
  }

  end_round-own : (thread : ℕ) (p : Pool S) → (end_round append thread p).batches thread ≡ []
  end_round-own thread p = elim (batch_cases (p.batches thread)) [
    | inl idle ↦ rw (end_round-idle thread p idle) idle
    | inr busy ↦ rw (end_round-busy thread p busy) (hand_over-own thread p)
  ]

  Worked-either :
      (thread : ℕ) (items : List Item) (p : Pool S) (b : Bool)
      → Worked thread items p
      → Worked thread items (if b then end_round append thread p else p)
  Worked-either thread items p true h = end_round-Worked thread items p h
  Worked-either thread items p false h = h

  turn-Worked :
      (thread : ℕ) (p : Pool S) (x : Item) (items : List Item)
      → is_stop x ≡ false
      → Worked thread (x ∷ items) p
      → ((turn append thread p).0 ≡ true) × Worked thread items (turn append thread p).1
  unfolding turn get_item
  turn-Worked thread p x items going h =
      let got = next_item-Worked thread p x items going h in
      let here : get_item append thread p ≡ next_item append thread p (x ∷ items) =
        ap (next_item append thread p) h.shape in
      let after = subst (λ g. (g.0 ≡ true) × Worked thread items g.1) (sym here) got in
      (after.0, Worked-either thread items (get_item append thread p).1 _ after.1)

  -- Nothing is pending where no event is queued and no thread holds one.
  nothing_pending :
      (p : Pool S)
      → IsTracked append p
      → p.worker.queue ≡ []
      → ((k : ℕ) → p.batches k ≡ [])
      → p.worker.pending_sequences ≡ []
  nothing_pending p h empty idle = nil_of p.worker.pending_sequences (λ n there.
      elim (h.placed n there) [
        | inl (i, waits) ↦
            subst (IsIn n)
              (length_nil (p.worker.sequences i)
                (h.counted i ∙ ap (count_ident i) empty ∙ unfold count_ident in refl))
              waits
        | inr (k, taken) ↦ subst (λ b. IsIn (some n) (map sequence_of b)) (idle k) taken
      ])

  settled_round :
      (thread : ℕ) (p : Pool S)
      → Worked thread [] p
      → (end_round append thread p).worker.pending_sequences ≡ []
  settled_round thread p h =
      let last = end_round-Worked thread [] p h in
      nothing_pending (end_round append thread p) last.tracked last.shape (λ k.
        elim (Bool-cases (k == thread)) [
          | inl same ↦
              let equal : k ≡ thread = ground (arith, same) in
              ap (end_round append thread p).batches equal ∙ end_round-own thread p
          | inr other ↦ last.alone k other
        ])

  going_on :
      (thread n : ℕ) (p : Pool S)
      → (turn append thread p).0 ≡ true
      → work_off append thread (suc n) p ≡ work_off append thread n (turn append thread p).1
  unfolding work_off
  going_on thread n p h = rw h refl

  work_off-settled :
      (thread : ℕ) (items : List Item) (p : Pool S)
      → Worked thread items p
      → All (λ x. is_stop x ≡ false) items
      → (work_off append thread (length items) p).worker.pending_sequences ≡ []
  work_off-settled thread [] p h going = unfold work_off in settled_round thread p h
  work_off-settled thread (x ∷ items) p h going =
      let after = turn-Worked thread p x items going.0 h in
      ap (λ q. q.worker.pending_sequences) (going_on thread (length items) p after.0)
      ∙ work_off-settled thread items (turn append thread p).1 after.1 going.1

  -- From any state reached, by emissions, turns of threads and sentinels put, from one where each
  -- pending sequence belongs to a queued event or to a thread's batch, and telemetry is not required:
  -- if no stop is queued and the other threads hold nothing, a thread that takes as many turns as
  -- the queue has items leaves no sequence pending, so that `flush` has nothing to wait for.
  pub flush_settles :
      (thread : ℕ) (p q : Pool S)
      → IsTracked append p
      → Reachable append p q
      → All (λ x. is_stop x ≡ false) q.worker.queue
      → Alone thread q
      → (target : ℕ)
      → is_waiting append target
          (work_off append thread (length q.worker.queue) q).worker.pending_sequences
        ≡ false
  flush_settles thread p q h reached going alone target =
      let nothing =
        work_off-settled thread q.worker.queue q
          (record {
            shape = refl;
            tracked = Reachable-IsTracked append p q h reached;
            alone = alone;
          })
          going in
      rw nothing (unfold is_waiting in refl)
