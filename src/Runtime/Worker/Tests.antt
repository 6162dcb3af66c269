-- ===== src/Runtime/Worker/Tests.antt =====
-- The worker loop on a concrete pool of one thread.
use phlo_observe.Common.{ℕ, ◌≡◌, refl, Bool, false, Option, none, [], ◌∷◌, length, All, map}
use phlo_observe.Runtime.Canonical.{CanonicalEvent, telemetry, success}
use phlo_observe.Runtime.Worker.{
  Worker, flush_request, drop_oldest, emit, admit, take_sequence, mark_completed, head_of, tail_of,
  is_full,
}
use phlo_observe.Runtime.Worker.Loop.{
  Pool, hand_over, take_event, finish_request, on_item, next_item, get_item, end_round, turn,
  work_off, mark_each, put_item, emit_event, emitted, requested, Reachable, start, next, is_waiting,
}
use phlo_observe.Runtime.Worker.Barrier.{count_ident}
use phlo_observe.Runtime.Worker.Batches.{IsTracked}
use phlo_observe.Runtime.Worker.Quiet.{flush_settles, is_stop, Alone}

abbrev loaded : CanonicalEvent
loaded = record {
  ident = 4;
  event = "asset.loaded";
  outcome = success;
  delivery = telemetry;
  run_id = none;
  duration_ms = none;
  payload = [];
}

abbrev refuses : ℕ → Option ℕ → CanonicalEvent → ℕ × Bool × ℕ
refuses spool drain e = (spool, false, 1)

abbrev idle_worker : Worker ℕ
idle_worker = record {
  capacity = 8;
  drop_policy = drop_oldest;
  telemetry_required = false;
  remote_drains = [];
  queue = [];
  next_sequence = 0;
  pending_sequences = [];
  sequences = λ i. [];
  stats = record {
    enqueued = 0;
    dropped_debug = 0;
    dropped_telemetry = 0;
    spooled_events = 0;
    spool_errors = 0;
  };
  spool = 0;
}

abbrev idle_pool : Pool ℕ
idle_pool = record {
  worker = idle_worker;
  batches = λ k. [];
  batch_size = 2;
  delivered = [];
  drain_flushes = 0;
  flushes = 0;
  finished = [];
}

abbrev asked : Pool ℕ
asked = put_item refuses (emit_event refuses idle_pool loaded) (flush_request 1 false)

-- The thread hands the event over and ends the request.
delivered_test : map (λ b. length b) (work_off refuses 0 2 asked).delivered ≡ 1 ∷ []
unfolding work_off turn get_item next_item on_item take_event take_sequence finish_request hand_over
    mark_each end_round put_item emit_event emit admit is_full mark_completed head_of tail_of
delivered_test = refl

idle-IsTracked : IsTracked refuses idle_pool
unfolding count_ident
idle-IsTracked = record { patient = refl; counted = λ i. refl; placed = λ n there. absurd there }

asked-Reachable : Reachable refuses idle_pool asked
asked-Reachable =
    next (emit_event refuses idle_pool loaded) asked
      (next idle_pool (emit_event refuses idle_pool loaded) start (emitted loaded))
      (requested 1 false)

asked_going : All (λ x. is_stop refuses x ≡ false) asked.worker.queue
unfolding put_item emit_event emit admit is_full
asked_going = (refl, (refl, tt))

asked-Alone : Alone refuses 0 asked
unfolding put_item emit_event
asked-Alone k other = refl

flush_settles_example :
    is_waiting refuses 1
      (work_off refuses 0 (length asked.worker.queue) asked).worker.pending_sequences
    ≡ false
flush_settles_example =
    flush_settles refuses 0 idle_pool asked idle-IsTracked asked-Reachable asked_going asked-Alone 1
