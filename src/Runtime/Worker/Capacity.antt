-- ===== src/Runtime/Worker/Capacity.antt =====
-- `WorkerBackend.emit` of backends.py and the length of the queue.
use phlo_observe.Common.{
  ℕ, ◌≤◌, ◌<◌, ◌≡◌, ◌⊎◌, inl, inr, Bool, false, Option, none, some, [], ◌∷◌, arith, length,
  length-append, Bool-cases,
}
use phlo_observe.Runtime.Canonical.{CanonicalEvent, is_critical, Delivery}
use phlo_observe.Runtime.Worker.{
  Worker, event, Reply, is_full, admit, spool_event, spool_critical, count_drop, drop_noncritical,
  complete_evicted, take_sequence, mark_completed, discard, make_room, retry, emit_oldest, emit,
  evict, drop_oldest, drop_newest, DropPolicy,
}
use phlo_observe.Runtime.Worker.Evict.{length-evict}
use phlo_observe.Runtime.Worker.Admission.{shortened, make_room_cases, emit_oldest_cases}

module _ {S : Type 0} (append : S → Option ℕ → CanonicalEvent → S × Bool × ℕ) where
  -- The queue is within its capacity, which is finite.
  abbrev pub IsWithin : Worker S → Type 0
  IsWithin w = (0 < w.capacity) × (length w.queue ≤ w.capacity)

  room_left :
      (w : Worker S) → 0 < w.capacity → is_full append w ≡ false → length w.queue < w.capacity
  unfolding is_full
  room_left w h e = ground arith

  admit-IsWithin :
      (w : Worker S) (e : CanonicalEvent)
      → 0 < w.capacity
      → is_full append w ≡ false
      → IsWithin (admit append w e)
  unfolding admit
  admit-IsWithin w e h room =
      (h, omega (arith, length-append w.queue (event e ∷ []), room_left w h room))

  spool-IsWithin :
      (w : Worker S) (e : CanonicalEvent) → IsWithin w → IsWithin (spool_event append w e).1
  unfolding spool_event
  spool-IsWithin w e h = ground arith

  drop-IsWithin : (w : Worker S) (d : Delivery) → IsWithin w → IsWithin (count_drop append w d)
  unfolding count_drop
  drop-IsWithin w d h = ground arith

  complete-IsWithin :
      (w : Worker S) (e : CanonicalEvent) → IsWithin w → IsWithin (complete_evicted append w e)
  unfolding complete_evicted take_sequence mark_completed
  complete-IsWithin w e h = ground arith

  retry-IsWithin : (w : Worker S) (e : CanonicalEvent) → IsWithin w → IsWithin (retry append w e).1
  unfolding retry spool_critical drop_noncritical
  retry-IsWithin w e h = elim (Bool-cases (is_full append w)) [
    | inr room ↦ rw room (admit-IsWithin w e h.0 room)
    | inl full ↦ rw full (elim (Bool-cases (is_critical e.delivery)) [
      | inl crit ↦ rw crit (spool-IsWithin w e h)
      | inr plain ↦ rw plain (drop-IsWithin w e.delivery h)
    ])
  ]

  -- Both states that `discard` can leave.
  abbrev BothWithin : Option (Worker S) × Worker S → Type 0
  BothWithin r = ((w' : Worker S) → r.0 ≡ some w' → IsWithin w') × (r.0 ≡ none → IsWithin r.1)

  discard_cases :
      (w : Worker S) (e : CanonicalEvent)
      → (discard append w e ≡ (none, (spool_event append w e).1))
        ⊎ (discard append w e ≡ (
          some (complete_evicted append (spool_event append w e).1 e),
          (spool_event append w e).1,
        ))
        ⊎ (discard append w e
            ≡ (some (complete_evicted append (count_drop append w e.delivery) e), w))
  unfolding discard
  discard_cases w e = ground arith

  some-Within : (x : Worker S) (y : Worker S) → IsWithin x → BothWithin (some x, y)
  some-Within x y h = (λ w' p. ground arith, λ p. cc)

  discard-IsWithin :
      (w : Worker S) (e : CanonicalEvent) → IsWithin w → BothWithin (discard append w e)
  discard-IsWithin w e h = elim (discard_cases w e) [
    | inl raised ↦ rw raised (λ w' p. cc, λ p. spool-IsWithin w e h)
    | inr (inl spooled) ↦ rw spooled (
        some-Within _ (spool_event append w e).1
          (complete-IsWithin (spool_event append w e).1 e (spool-IsWithin w e h)))
    | inr (inr dropped) ↦ rw dropped (
        some-Within _ w
          (complete-IsWithin (count_drop append w e.delivery) e (drop-IsWithin w e.delivery h)))
  ]

  shortened-IsWithin :
      (w : Worker S) (e : CanonicalEvent)
      → (evict w.queue).0 ≡ some e
      → IsWithin w
      → IsWithin (shortened append w)
  unfolding shortened
  shortened-IsWithin w e found h = (h.0, omega (arith, length-evict w.queue found, h.1))

  make_room-IsWithin : (w : Worker S) → IsWithin w → BothWithin (make_room append w)
  make_room-IsWithin w h = elim (make_room_cases append w) [
    | inl stays ↦ rw stays (some-Within w w h)
    | inr (e, found, left) ↦
        rw left (discard-IsWithin (shortened append w) e (shortened-IsWithin w e found h))
  ]

  oldest-IsWithin :
      (w : Worker S) (e : CanonicalEvent) → IsWithin w → IsWithin (emit_oldest append w e).1
  oldest-IsWithin w e h = elim (emit_oldest_cases append w e) [
    | inl (raised, left) ↦ rw left ((make_room-IsWithin w h).1 raised)
    | inr (w', roomy, left) ↦ rw left (retry-IsWithin w' e ((make_room-IsWithin w h).0 w' roomy))
  ]

  -- No call of `emit` lets a queue of finite capacity, and within it, grow past that capacity.
  pub emit-IsWithin :
      (w : Worker S) (e : CanonicalEvent) → IsWithin w → IsWithin (emit append w e).1
  unfolding emit spool_critical drop_noncritical
  emit-IsWithin w e h = elim (Bool-cases (is_full append w)) [
    | inr room ↦ rw room (admit-IsWithin w e h.0 room)
    | inl full ↦ rw full (elim (Bool-cases (is_critical e.delivery)) [
      | inl crit ↦ rw crit (spool-IsWithin w e h)
      | inr plain ↦ rw plain (by_policy w.drop_policy)
    ])
  ]
    where
      by_policy :
          (p : DropPolicy)
          → IsWithin
              (elim p as (λ q. Reply × Worker S) [
                | drop_oldest ↦ emit_oldest append w e
                | drop_newest ↦ drop_noncritical append w e.delivery
              ]).1
      by_policy drop_oldest = oldest-IsWithin w e h
      by_policy drop_newest = drop-IsWithin w e.delivery h
