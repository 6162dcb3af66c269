-- ===== src/Runtime/Worker.antt =====
-- backends.py of observe_core: the admission side of `WorkerBackend` (emit, eviction, admission
-- sequences) and `DrainDelivery.spool_event`. The spool stands behind an interface. A method returns
-- its reply beside the new state, and what was written before an exception stays written.
pub mod Scan
pub mod Evict
pub mod Admission
pub mod Capacity
pub mod Loop
pub mod Barrier
pub mod Emission
pub mod Batches
pub mod Steps
pub mod Quiet
mod Tests
use phlo_observe.Common.{
  ℕ, suc, ◌+◌, String, Bool, true, false, ◌&&◌, Option, none, some, List, [], ◌∷◌, ◌++◌, ◌==◌, ltb,
  leb, if◌then◌else◌, length,
}
use phlo_observe.Runtime.Canonical.{
  CanonicalEvent, Delivery, debug, telemetry, critical, is_critical,
}

-- What stands in the queue: events and the control sentinels. A flush request has a number and says
-- whether to flush the drains.
pub data Item : Type 0 where
  event : CanonicalEvent → Item
  flush_request : ℕ → Bool → Item
  stop : Item

pub data DropPolicy : Type 0 where
  drop_oldest drop_newest : DropPolicy

pub record EmitResult : Type 0 where
  pub accepted : Bool
  pub enqueued : Bool
  pub spooled : Bool
  pub dropped : Bool
  pub reason : Option String

pub data Reply : Type 0 where
  returned : EmitResult → Reply
  telemetry_error : Reply

pub record Counts : Type 0 where
  pub enqueued : ℕ
  pub dropped_debug : ℕ
  pub dropped_telemetry : ℕ
  pub spooled_events : ℕ
  pub spool_errors : ℕ

-- `sequences` is `_sequences_by_event`: an identity without an entry has the empty list.
pub record Worker (S : Type 0) : Type 0 where
  pub capacity : ℕ
  pub drop_policy : DropPolicy
  pub telemetry_required : Bool
  pub remote_drains : List ℕ
  pub queue : List Item
  pub next_sequence : ℕ
  pub pending_sequences : List ℕ
  pub sequences : ℕ → List ℕ
  pub stats : Counts
  pub spool : S

abbrev pub enqueued_result : EmitResult
enqueued_result = record {
  accepted = true;
  enqueued = true;
  spooled = false;
  dropped = false;
  reason = none;
}

abbrev pub spooled_result : EmitResult
spooled_result = record {
  accepted = true;
  enqueued = false;
  spooled = true;
  dropped = false;
  reason = none;
}

abbrev pub dropped_result : String → EmitResult
dropped_result reason = record {
  accepted = false;
  enqueued = false;
  spooled = false;
  dropped = true;
  reason = some reason;
}

abbrev pub evict_scan_limit : ℕ
evict_scan_limit = 256

-- The scan of `_evict_oldest_event` over the first `budget` items from index `i` on.
pub find_victim : ℕ → ℕ → Option ℕ → List Item → Option ℕ
find_victim ℕ.zero i critical_index items = critical_index
find_victim (suc n) i critical_index [] = critical_index
find_victim (suc n) i critical_index (event e ∷ items) =
    let later =
      find_victim n (i + 1) (elim critical_index [ none ↦ some i | some c ↦ some c ]) items in
    if is_critical e.delivery then later else some i
find_victim (suc n) i critical_index (_ ∷ items) = find_victim n (i + 1) critical_index items

-- `items[index]` with `del items[index]`.
pub take_at : ℕ → List Item → Option Item × List Item
take_at n [] = (none, [])
take_at ℕ.zero (x ∷ xs) = (some x, xs)
take_at (suc n) (x ∷ xs) = let (y, rest) = take_at n xs in (y, x ∷ rest)

abbrev as_event : Option Item → Option CanonicalEvent
as_event (some (event e)) = some e
as_event _ = none

pub evict : List Item → Option CanonicalEvent × List Item
evict items = elim (find_victim evict_scan_limit 0 none items) [
  | none ↦ (none, items)
  | some index ↦ (let (item, rest) = take_at index items in (as_event item, rest))
]

pub remove_number : ℕ → List ℕ → List ℕ
remove_number n [] = []
remove_number n (m ∷ ms) = let rest = remove_number n ms in if n == m then rest else m ∷ rest

pub tail_of : List ℕ → List ℕ
tail_of [] = []
tail_of (n ∷ ns) = ns

pub head_of : List ℕ → Option ℕ
head_of [] = none
head_of (n ∷ ns) = some n

-- `append` is `_spool_for` and `Spool.append` of the spool a destination names: `none` is the shared
-- spool, `some` a remote drain's own. It answers false also where there is no such spool. The number
-- beside the answer is what the attempt itself has added to `spool_errors`, the counter that the
-- spools and `_spool_for` share with `spool_event`.
module _ {S : Type 0} (append : S → Option ℕ → CanonicalEvent → S × Bool × ℕ) where
  pub is_full : Worker S → Bool
  is_full w = ltb 0 w.capacity && leb w.capacity (length w.queue)

  pub admit : Worker S → CanonicalEvent → Worker S
  admit w e = record w {
    queue = w.queue ++ event e ∷ [];
    next_sequence = w.next_sequence + 1;
    pending_sequences = w.next_sequence ∷ w.pending_sequences;
    sequences = λ i. if i == e.ident then w.sequences i ++ w.next_sequence ∷ [] else w.sequences i;
    stats = record w.stats { enqueued = w.stats.enqueued + 1 };
  }

  pub take_sequence : Worker S → CanonicalEvent → Option ℕ × Worker S
  unfolding head_of tail_of
  take_sequence w e = (
    head_of (w.sequences e.ident),
    record w { sequences = λ i. if i == e.ident then tail_of (w.sequences i) else w.sequences i },
  )

  pub mark_completed : Worker S → Option ℕ → Worker S
  unfolding remove_number
  mark_completed w none = w
  mark_completed w (some sequence) = record w {
    pending_sequences = remove_number sequence w.pending_sequences;
  }

  -- Every destination is offered the event; all of them have to take it.
  pub append_each : List ℕ → S → CanonicalEvent → S × Bool × ℕ
  append_each [] s e = (s, true, 0)
  append_each (drain ∷ drains) s e =
      let (s', taken, errors) = append s (some drain) e in
      let (s'', others, more) = append_each drains s' e in (s'', taken && others, errors + more)

  pub offer : Worker S → CanonicalEvent → S × Bool × ℕ
  offer w e = elim w.remote_drains [
    | [] ↦ append w.spool none e
    | ◌∷◌ drain drains ↦ append_each (drain ∷ drains) w.spool e
  ]

  -- `spool_event`: `none` is a raised TelemetryError.
  pub spool_event : Worker S → CanonicalEvent → Option Bool × Worker S
  spool_event w e =
      let (spool, accepted, errors) = offer w e in
      if accepted
      then (
        some true,
        record w {
          spool = spool;
          stats = record w.stats {
            spooled_events = w.stats.spooled_events + 1;
            spool_errors = w.stats.spool_errors + errors;
          };
        },
      )
      else (
        if w.telemetry_required then none else some false,
        record w {
          spool = spool;
          stats = record w.stats { spool_errors = w.stats.spool_errors + errors + 1 };
        },
      )

  abbrev spool_reply : Option Bool → Reply
  spool_reply none = telemetry_error
  spool_reply (some true) = returned spooled_result
  spool_reply (some false) = returned (dropped_result "queue_full_spool_unavailable")

  pub spool_critical : Worker S → CanonicalEvent → Reply × Worker S
  spool_critical w e = let (r, w') = spool_event w e in (spool_reply r, w')

  pub count_drop : Worker S → Delivery → Worker S
  count_drop w debug = record w {
    stats = record w.stats { dropped_debug = w.stats.dropped_debug + 1 };
  }
  count_drop w _ = record w {
    stats = record w.stats { dropped_telemetry = w.stats.dropped_telemetry + 1 };
  }

  -- `_drop_noncritical` and the result after it.
  pub drop_noncritical : Worker S → Delivery → Reply × Worker S
  drop_noncritical w delivery = (
    if w.telemetry_required then telemetry_error else returned (dropped_result "queue_full"),
    count_drop w delivery,
  )

  pub complete_evicted : Worker S → CanonicalEvent → Worker S
  complete_evicted w e = let (sequence, w') = take_sequence w e in mark_completed w' sequence

  -- What becomes of an evicted event; `none` is a raised TelemetryError, which leaves at once.
  pub discard : Worker S → CanonicalEvent → Option (Worker S) × Worker S
  discard w evicted =
      if is_critical evicted.delivery
      then (let (r, w') = spool_event w evicted in
          elim r [ none ↦ (none, w') | some _ ↦ (some (complete_evicted w' evicted), w') ])
      else (some (complete_evicted (count_drop w evicted.delivery) evicted), w)

  pub make_room : Worker S → Option (Worker S) × Worker S
  make_room w =
      let (victim, rest) = evict w.queue in
      elim victim [
        | none ↦ (some w, w)
        | some evicted ↦ discard (record w { queue = rest }) evicted
      ]

  -- The second `put_nowait`, of an event that is not critical.
  pub retry : Worker S → CanonicalEvent → Reply × Worker S
  retry w e =
      if is_full w
      then (if is_critical e.delivery then spool_critical w e else drop_noncritical w e.delivery)
      else (returned enqueued_result, admit w e)

  pub emit_oldest : Worker S → CanonicalEvent → Reply × Worker S
  emit_oldest w e =
      let (roomy, w') = make_room w in
      elim roomy [ none ↦ (telemetry_error, w') | some w'' ↦ retry w'' e ]

  pub emit : Worker S → CanonicalEvent → Reply × Worker S
  emit w e =
      if is_full w
      then (if is_critical e.delivery then spool_critical w e else (elim w.drop_policy [
        | drop_oldest ↦ emit_oldest w e
        | drop_newest ↦ drop_noncritical w e.delivery
      ]))
      else (returned enqueued_result, admit w e)
