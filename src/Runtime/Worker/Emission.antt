-- ===== src/Runtime/Worker/Emission.antt =====
-- `WorkerBackend.emit` of backends.py and the admission barrier: an emission keeps every pending
-- sequence with an event of the queue or of a thread's batch.
use phlo_observe.Common.{
  ℕ, suc, ◌≡◌, ◌≢◌, refl, sym, ap, ◌∙◌, subst, ◌⊎◌, inl, inr, Bool, false, Option, none, some, List,
  [], ◌∷◌, ◌++◌, arith, length, length-append, Bool-cases, if◌then◌else◌, ◌==◌,
}
use phlo_observe.Runtime.Canonical.{
  CanonicalEvent, is_critical, Delivery, debug, telemetry, critical,
}
use phlo_observe.Runtime.Worker.{
  Worker, event, Reply, is_full, admit, spool_event, spool_critical, count_drop, drop_noncritical,
  complete_evicted, take_sequence, mark_completed, discard, retry, emit_oldest, emit, evict, offer,
  drop_oldest, drop_newest, DropPolicy, head_of,
}
use phlo_observe.Runtime.Worker.Admission.{shortened, make_room_cases, emit_oldest_cases}
use phlo_observe.Runtime.Worker.Barrier.{
  Tracked, Placed, IsIn, count_ident, count_ident-append, IsIn-append, IsIn-last,
  IsIn-remove_number, length-tail_of, Placed-without_head, without_head, IsIn-if, count_ident-evict,
  Like,
}

module _ {S : Type 0} (append : S → Option ℕ → CanonicalEvent → S × Bool × ℕ)
    (held : ℕ → List (Option ℕ)) where
  -- The queue is short of one event of an identity, whose sequence is still listed.
  record Short (w : Worker S) (e : CanonicalEvent) : Type 0 where
    patient : w.telemetry_required ≡ false
    counted :
        (i : ℕ)
        → length (w.sequences i)
          ≡ (if i == e.ident then suc (count_ident i w.queue) else count_ident i w.queue)
    placed : (n : ℕ) → IsIn n w.pending_sequences → Placed w.sequences held n

  admit-Tracked :
      (w : Worker S) (e : CanonicalEvent) → Tracked w held → Tracked (admit append w e) held
  unfolding admit count_ident
  admit-Tracked w e h = record {
    patient = h.patient;
    counted = λ i. ground (
      arith,
      h.counted i,
      count_ident-append i w.queue (event e ∷ []),
      length-append (w.sequences i) (w.next_sequence ∷ []),
    );
    placed = λ n there. elim there [
      | inl fresh ↦ inl (
        e.ident,
        IsIn-if n (e.ident == e.ident) (w.sequences e.ident ++ w.next_sequence ∷ [])
            (w.sequences e.ident)
            (λ same.
              subst (λ m. IsIn m (w.sequences e.ident ++ w.next_sequence ∷ [])) fresh
                (IsIn-last w.next_sequence (w.sequences e.ident)))
            (λ other. absurd (ground (arith, other))),
      )
      | inr old ↦ elim (h.placed n old) [
        | inl (i, waits) ↦ inl (
          i,
          IsIn-if n (i == e.ident) (w.sequences i ++ w.next_sequence ∷ []) (w.sequences i)
              (λ same. IsIn-append n (w.sequences i) (w.next_sequence ∷ []) waits) (λ other. waits),
        )
        | inr taken ↦ inr taken
      ]
    ];
  }

  counted_after :
      (w : Worker S) (e : CanonicalEvent)
      → Short w e
      → (i : ℕ) → length (without_head e.ident w.sequences i) ≡ count_ident i w.queue
  counted_after w e h i =
      ground (arith, h.counted i, length-tail_of (w.sequences i) (count_ident i w.queue))

  -- The evicted event's sequence is taken and completed.
  completed :
      (w : Worker S) (e : CanonicalEvent) (sequence : Option ℕ)
      → head_of (w.sequences e.ident) ≡ sequence
      → Short w e
      → Tracked
          (mark_completed append
            (record w { sequences = without_head e.ident w.sequences })
            sequence)
          held
  unfolding mark_completed
  completed w e none found h = record {
    patient = h.patient;
    counted = counted_after w e h;
    placed = λ n there.
        Placed-without_head e.ident n w.sequences held (λ s first. absurd (cc (found, first)))
          (h.placed n there);
  }
  completed w e (some s) found h = record {
    patient = h.patient;
    counted = counted_after w e h;
    placed = λ n there.
        let kept = IsIn-remove_number n s w.pending_sequences there in
        Placed-without_head e.ident n w.sequences held
          (λ r first same. kept.1 (cc (found, first, same))) (h.placed n kept.0);
  }

  complete-Tracked :
      (w : Worker S) (e : CanonicalEvent) → Short w e → Tracked (complete_evicted append w e) held
  unfolding complete_evicted take_sequence
  complete-Tracked w e h = completed w e (head_of (w.sequences e.ident)) refl h

  kept : (w w' : Worker S) → Like w w' → Tracked w held → Tracked w' held
  kept w w' l h = record {
    patient = sym l.flag ∙ h.patient;
    counted = λ i. ap (λ f. length (f i)) (sym l.lists) ∙ h.counted i ∙ ap (count_ident i) l.items;
    placed = λ n there.
        subst (λ f. Placed f held n) l.lists (h.placed n (subst (IsIn n) (sym l.numbers) there));
  }

  kept-Short : (w w' : Worker S) (e : CanonicalEvent) → Like w w' → Short w e → Short w' e
  kept-Short w w' e l h = record {
    patient = sym l.flag ∙ h.patient;
    counted = λ i.
        ap (λ f. length (f i)) (sym l.lists)
        ∙ h.counted i
        ∙ ap (λ q. if i == e.ident then suc (count_ident i q) else count_ident i q) l.items;
    placed = λ n there.
        subst (λ f. Placed f held n) l.lists (h.placed n (subst (IsIn n) (sym l.numbers) there));
  }

  spool-Like : (w : Worker S) (e : CanonicalEvent) → Like w (spool_event append w e).1
  unfolding spool_event
  spool-Like w e = elim (Bool-cases (offer append w e).1) [
    | inl taken ↦ rw taken (record { flag = refl; items = refl; lists = refl; numbers = refl })
    | inr refused ↦ rw refused (record { flag = refl; items = refl; lists = refl; numbers = refl })
  ]

  drop-Like : (w : Worker S) (d : Delivery) → Like w (count_drop append w d)
  unfolding count_drop
  drop-Like w debug = record { flag = refl; items = refl; lists = refl; numbers = refl }
  drop-Like w telemetry = record { flag = refl; items = refl; lists = refl; numbers = refl }
  drop-Like w critical = record { flag = refl; items = refl; lists = refl; numbers = refl }

  spool-Tracked :
      (w : Worker S) (e : CanonicalEvent) → Tracked w held → Tracked (spool_event append w e).1 held
  spool-Tracked w e h = kept w (spool_event append w e).1 (spool-Like w e) h

  drop-Tracked :
      (w : Worker S) (d : Delivery) → Tracked w held → Tracked (count_drop append w d) held
  drop-Tracked w d h = kept w (count_drop append w d) (drop-Like w d) h

  discard_patient :
      (w : Worker S) (e : CanonicalEvent)
      → w.telemetry_required ≡ false
      → ((discard append w e).0 ≡ some (complete_evicted append (spool_event append w e).1 e))
        ⊎ ((discard append w e).0
            ≡ some (complete_evicted append (count_drop append w e.delivery) e))
  unfolding discard spool_event
  discard_patient w e patient = ground arith

  discard-Tracked :
      (w w' : Worker S) (e : CanonicalEvent)
      → Short w e
      → (discard append w e).0 ≡ some w'
      → Tracked w' held
  discard-Tracked w w' e h done = elim (discard_patient w e h.patient) [
    | inl spooled ↦
        subst (λ x. Tracked x held) (cc (spooled, done))
          (complete-Tracked (spool_event append w e).1 e (kept-Short w _ e (spool-Like w e) h))
    | inr dropped ↦
        subst (λ x. Tracked x held) (cc (dropped, done))
          (complete-Tracked (count_drop append w e.delivery) e
            (kept-Short w _ e (drop-Like w e.delivery) h))
  ]

  discard-never_none :
      (w : Worker S) (e : CanonicalEvent) → Short w e → (discard append w e).0 ≢ none
  discard-never_none w e h raised = elim (discard_patient w e h.patient) [
    | inl spooled ↦ cc (spooled, raised)
    | inr dropped ↦ cc (dropped, raised)
  ]

  shortened-Short :
      (w : Worker S) (e : CanonicalEvent)
      → (evict w.queue).0 ≡ some e
      → Tracked w held
      → Short (shortened append w) e
  unfolding shortened
  shortened-Short w e found h = record {
    patient = h.patient;
    counted = λ i. h.counted i ∙ count_ident-evict i w.queue e found;
    placed = h.placed;
  }

  retry-Tracked :
      (w : Worker S) (e : CanonicalEvent) → Tracked w held → Tracked (retry append w e).1 held
  unfolding retry spool_critical drop_noncritical
  retry-Tracked w e h = elim (Bool-cases (is_full append w)) [
    | inr room ↦ rw room (admit-Tracked w e h)
    | inl full ↦ rw full (elim (Bool-cases (is_critical e.delivery)) [
      | inl crit ↦ rw crit (spool-Tracked w e h)
      | inr plain ↦ rw plain (drop-Tracked w e.delivery h)
    ])
  ]

  oldest-Tracked :
      (w : Worker S) (e : CanonicalEvent) → Tracked w held → Tracked (emit_oldest append w e).1 held
  oldest-Tracked w e h = elim (make_room_cases append w) [
    | inl stays ↦ elim (emit_oldest_cases append w e) [
      | inl (raised, left) ↦ absurd (cc (raised, stays))
      | inr (w', roomy, left) ↦
          let same_one : w ≡ w' = cc (roomy, stays) in
          rw left (retry-Tracked w' e (subst (λ x. Tracked x held) same_one h))
    ]
    | inr (victim, found, made) ↦
        let short = shortened-Short w victim found h in
        elim (emit_oldest_cases append w e) [
          | inl (raised, left) ↦
              absurd (discard-never_none (shortened append w) victim short (cc (raised, made)))
          | inr (w', roomy, left) ↦ rw left (
              retry-Tracked w' e
                (discard-Tracked (shortened append w) w' victim short (cc (roomy, made))))
        ]
  ]

  pub emit-Tracked :
      (w : Worker S) (e : CanonicalEvent) → Tracked w held → Tracked (emit append w e).1 held
  unfolding emit spool_critical drop_noncritical
  emit-Tracked w e h = elim (Bool-cases (is_full append w)) [
    | inr room ↦ rw room (admit-Tracked w e h)
    | inl full ↦ rw full (elim (Bool-cases (is_critical e.delivery)) [
      | inl crit ↦ rw crit (spool-Tracked w e h)
      | inr plain ↦ rw plain (by_policy w.drop_policy)
    ])
  ]
    where
      by_policy :
          (p : DropPolicy)
          → Tracked
              (elim p as (λ q. Reply × Worker S) [
                | drop_oldest ↦ emit_oldest append w e
                | drop_newest ↦ drop_noncritical append w e.delivery
              ]).1
              held
      by_policy drop_oldest = oldest-Tracked w e h
      by_policy drop_newest = drop-Tracked w e.delivery h
