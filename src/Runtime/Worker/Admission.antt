-- ===== src/Runtime/Worker/Admission.antt =====
-- `WorkerBackend.emit` of backends.py and the counters of what becomes of an event.
use phlo_observe.Common.{
  ℕ, ◌+◌, ◌≡◌, refl, ◌⊎◌, inl, inr, Bool, true, false, Option, none, some, List, [], ◌∷◌, ap, ◌++◌,
  arith, length, length-append, Bool-cases, Option-cases, if◌then◌else◌,
}
use phlo_observe.Runtime.Canonical.{CanonicalEvent, is_critical, Delivery}
use phlo_observe.Runtime.Worker.{
  Worker, event, Reply, returned, telemetry_error, enqueued_result, spooled_result, dropped_result,
  is_full, admit, spool_event, append_each, offer, spool_critical, count_drop, drop_noncritical,
  complete_evicted, take_sequence, mark_completed, discard, make_room, retry, emit_oldest, emit,
  evict, drop_oldest, drop_newest, DropPolicy,
}
use phlo_observe.Runtime.Worker.Evict.{length-evict}

-- What the queue holds and what the counters say has become of the other events.
pub accounted : {S : Type 0} → Worker S → ℕ
accounted w =
    length w.queue
    + w.stats.dropped_debug
    + w.stats.dropped_telemetry
    + w.stats.spooled_events
    + w.stats.spool_errors

module _ {S : Type 0} (append : S → Option ℕ → CanonicalEvent → S × Bool × ℕ) where
  -- `noted` tells from the state of the spools how many errors they have counted themselves.
  abbrev pub Notes : (S → ℕ) → Type 0
  Notes noted =
      (s : S) (drain : Option ℕ) (e : CanonicalEvent)
      → noted (append s drain e).0 ≡ noted s + (append s drain e).2

  module _ (noted : S → ℕ) (notes : Notes noted) where
    -- The second worker has so many events more in account, but for the errors that the spools have
    -- counted themselves in between.
    abbrev Adds : ℕ → Worker S → Worker S → Type 0
    Adds n w w' = accounted w' + noted w.spool ≡ accounted w + n + noted w'.spool

    noted-each :
        (drains : List ℕ) (s : S) (e : CanonicalEvent)
        → noted (append_each append drains s e).0 ≡ noted s + (append_each append drains s e).2
    unfolding append_each
    noted-each [] s e = omega arith
    noted-each (drain ∷ drains) s e =
        omega (arith, notes s (some drain) e, noted-each drains (append s (some drain) e).0 e)

    noted-offer :
        (w : Worker S) (e : CanonicalEvent)
        → noted (offer append w e).0 ≡ noted w.spool + (offer append w e).2
    unfolding offer
    noted-offer w e = ground (arith, notes w.spool none e, noted-each w.remote_drains w.spool e)

    accounted-admit : (w : Worker S) (e : CanonicalEvent) → Adds 1 w (admit append w e)
    unfolding accounted admit
    accounted-admit w e = omega (arith, length-append w.queue (event e ∷ []))

    accounted-spool : (w : Worker S) (e : CanonicalEvent) → Adds 1 w (spool_event append w e).1
    unfolding accounted spool_event
    accounted-spool w e = ground (arith, noted-offer w e)

    accounted-drop : (w : Worker S) (d : Delivery) → Adds 1 w (count_drop append w d)
    unfolding accounted count_drop
    accounted-drop w d = ground arith

    accounted_complete :
        (w : Worker S) (e : CanonicalEvent) → Adds 0 w (complete_evicted append w e)
    unfolding accounted complete_evicted take_sequence mark_completed
    accounted_complete w e = ground arith

    -- Both ways out of `discard` have accounted for the evicted event.
    accounted-discard :
        (w : Worker S) (e : CanonicalEvent)
        → ((w' : Worker S) → (discard append w e).0 ≡ some w' → Adds 1 w w')
          × ((discard append w e).0 ≡ none → Adds 1 w (discard append w e).1)
    unfolding discard
    accounted-discard w e = (
      λ w' h. ground (
        arith,
        accounted-spool w e,
        accounted_complete (spool_event append w e).1 e,
        accounted_complete (count_drop append w e.delivery) e,
        accounted-drop w e.delivery,
      ),
      λ h. ground (arith, accounted-spool w e),
    )

  unfoldable pub shortened : Worker S → Worker S
  shortened w = record w { queue = (evict w.queue).1 }

  pub make_room_cases :
      (w : Worker S)
      → (make_room append w ≡ (some w, w))
        ⊎ ((e : CanonicalEvent) × ((evict w.queue).0 ≡ some e)
            × (make_room append w ≡ discard append (shortened w) e))
  unfolding make_room shortened
  make_room_cases w = ground arith

  raised_first :
      (w : Worker S) (e : CanonicalEvent)
      → (make_room append w).0 ≡ none
      → emit_oldest append w e ≡ (telemetry_error, (make_room append w).1)
  unfolding emit_oldest
  raised_first w e h = rw (h, emit_oldest)

  retried :
      (w : Worker S) (e : CanonicalEvent) (w' : Worker S)
      → (make_room append w).0 ≡ some w'
      → emit_oldest append w e ≡ retry append w' e
  unfolding emit_oldest
  retried w e w' h = rw (h, emit_oldest)

  pub emit_oldest_cases :
      (w : Worker S) (e : CanonicalEvent)
      → (((make_room append w).0 ≡ none)
          × (emit_oldest append w e ≡ (telemetry_error, (make_room append w).1)))
        ⊎ ((w' : Worker S) × ((make_room append w).0 ≡ some w')
            × (emit_oldest append w e ≡ retry append w' e))
  emit_oldest_cases w e = elim (Option-cases (make_room append w).0) [
    | inl raised ↦ inl (raised, raised_first w e raised)
    | inr (w', roomy) ↦ inr (w', roomy, retried w e w' roomy)
  ]

  module _ (noted : S → ℕ) (notes : Notes noted) where
    accounted-shortened :
        (w : Worker S) (e : CanonicalEvent)
        → (evict w.queue).0 ≡ some e
        → (accounted (shortened w) + 1 ≡ accounted w) × ((shortened w).spool ≡ w.spool)
    unfolding accounted shortened
    accounted-shortened w e h = (omega (arith, length-evict w.queue h), refl)

    accounted-make_room :
        (w : Worker S)
        → ((w' : Worker S) → (make_room append w).0 ≡ some w' → Adds noted notes 0 w w')
          × ((make_room append w).0 ≡ none → Adds noted notes 0 w (make_room append w).1)
    accounted-make_room w = elim (make_room_cases w) [
      | inl stays ↦ rw stays (λ w' h. ground arith, λ h. cc)
      | inr (e, found, left) ↦
          let less = accounted-shortened w e found in
          let both = accounted-discard noted notes (shortened w) e in
          rw left (
            λ w' h. omega (arith, both.0 w' h, less.0, ap noted less.1),
            λ h. omega (arith, both.1 h, less.0, ap noted less.1),
          )
    ]

    accounted-retry :
        (w : Worker S) (e : CanonicalEvent) → Adds noted notes 1 w (retry append w e).1
    unfolding retry spool_critical drop_noncritical
    accounted-retry w e = ground (
      arith,
      accounted-admit noted notes w e,
      accounted-spool noted notes w e,
      accounted-drop noted notes w e.delivery,
    )

    -- Did the call account for its event? It may fail to only by raising.
    abbrev pub Accounts : Worker S → Reply × Worker S → Type 0
    Accounts w r = Adds noted notes 1 w r.1 ⊎ ((r.0 ≡ telemetry_error) × Adds noted notes 0 w r.1)

    oldest-Accounts : (w : Worker S) (e : CanonicalEvent) → Accounts w (emit_oldest append w e)
    oldest-Accounts w e = elim (emit_oldest_cases w e) [
      | inl (raised, left) ↦ rw left (inr (refl, (accounted-make_room w).1 raised))
      | inr (w', roomy, left) ↦
          rw left (inl (omega (arith, accounted-retry w' e, (accounted-make_room w).0 w' roomy)))
    ]

    -- Beyond the errors that the spools count themselves during the call, one call of `emit` adds
    -- exactly one to what is queued, dropped with a count, spooled or counted as a spool error. Only a
    -- raised error, of the eviction before it, leaves its event out.
    pub emit-Accounts : (w : Worker S) (e : CanonicalEvent) → Accounts w (emit append w e)
    unfolding emit spool_critical drop_noncritical
    emit-Accounts w e = elim (Bool-cases (is_full append w)) [
      | inr room ↦ rw room (inl (accounted-admit noted notes w e))
      | inl full ↦ rw full (elim (Bool-cases (is_critical e.delivery)) [
        | inl crit ↦ rw crit (inl (accounted-spool noted notes w e))
        | inr plain ↦ rw plain (by_policy w.drop_policy)
      ])
    ]
      where
        by_policy :
            (p : DropPolicy)
            → Accounts w (elim p [
              | drop_oldest ↦ emit_oldest append w e
              | drop_newest ↦ drop_noncritical append w e.delivery
            ])
        by_policy drop_oldest = oldest-Accounts w e
        by_policy drop_newest = inl (accounted-drop noted notes w e.delivery)

  -- A critical event is queued; or the spool has taken it; or the spool has refused it, which the
  -- error counter shows by one more than what the spools have counted themselves, and the caller gets
  -- a refusal or the raised error.
  pub emit_critical :
      (w : Worker S) (e : CanonicalEvent)
      → is_critical e.delivery ≡ true
      → ((emit append w e).0 ≡ returned enqueued_result)
          × ((emit append w e).1.queue ≡ w.queue ++ event e ∷ [])
        ⊎ ((offer append w e).1 ≡ true)
          × ((emit append w e).0 ≡ returned spooled_result)
          × ((emit append w e).1.spool ≡ (offer append w e).0)
          × ((emit append w e).1.queue ≡ w.queue)
        ⊎ ((offer append w e).1 ≡ false)
          × ((emit append w e).0 ≡ (
              if w.telemetry_required
              then telemetry_error
              else returned (dropped_result "queue_full_spool_unavailable")))
          × ((emit append w e).1.stats.spool_errors
              ≡ w.stats.spool_errors + (offer append w e).2 + 1)
  unfolding emit admit spool_critical spool_event
  emit_critical w e h = ground arith
