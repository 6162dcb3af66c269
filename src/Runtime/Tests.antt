-- ===== src/Runtime/Tests.antt =====
-- Tests of the runtime's model, and the theorems at concrete queues, buffers and events.
use phlo_observe.Common.{
  str_eq, ap, ℕ, ◌+◌, ◌≡◌, refl, ◌≢◌, Bool, true, false, Option, some, List, [], ◌∷◌, ◌++◌, arith,
  String, ◌⊎◌,
}
use phlo_observe.Common.Dict
use phlo_observe.Common.Dict.{Dict, Distinct}
use phlo_observe.Runtime.Canonical.{
  CanonicalEvent, Delivery, Outcome, is_critical, telemetry, critical, failure, success,
}
use phlo_observe.Runtime.Tail.{TailSampler, held, process, flush_expired}
use phlo_observe.Runtime.Tail.Process.{Fate, process-Fate}
use phlo_observe.Runtime.Tail.Bounds.{IsBounded, process-IsBounded}
use phlo_observe.Runtime.Tail.Flush.{fresh_only, get-flush_expired}
use phlo_observe.Runtime.Worker.{
  Worker, Item, event, flush_request, drop_oldest, returned, enqueued_result, spooled_result,
  dropped_result, emit, evict, offer,
}
use phlo_observe.Runtime.Worker.Evict.{Evicted, evict-Evicted}
use phlo_observe.Runtime.Worker.Admission.{Accounts, emit-Accounts, emit_critical}
use phlo_observe.Runtime.Worker.Capacity.{IsWithin, emit-IsWithin}

abbrev note : ℕ → String → Outcome → Delivery → CanonicalEvent
note n name outcome delivery = record {
  ident = n;
  event = name;
  outcome = outcome;
  delivery = delivery;
  run_id = some "r1";
  duration_ms = some 3;
  payload = [];
}

abbrev started : CanonicalEvent
started = note 1 "run.started" success telemetry

abbrev failed : CanonicalEvent
failed = note 2 "run.failed" failure telemetry

abbrev urgent : CanonicalEvent
urgent = note 3 "run.failed" failure critical

abbrev one_run : TailSampler
one_run = record {
  min_duration_ms = 1000;
  max_runs = 2;
  max_run_events = 4;
  max_age_seconds = 60;
  terminal_events = [];
  stats = record { buffered = 1; flushed = 0; reduced = 0; released = 0 };
  buffers = ("r1", record { events = started ∷ []; updated_at = 10 }) ∷ [];
}

runs_apart : ◌≢◌ {A = String} "r1" "r2"
runs_apart p = (let bad : false ≡ true = ap (λ s. str_eq s "r2") p in cc)

process-Fate_example :
    Fate one_run "r1" failed (process one_run 12 failed)
    × (held (process one_run 12 failed).0 "r2" ≡ held one_run "r2")
unfolding Dict.get
process-Fate_example = process-Fate one_run 12 "r1" "r2" failed (refl, tt) refl runs_apart

one_run-IsBounded : IsBounded one_run
unfolding Dict.get
one_run-IsBounded = record { distinct = (refl, tt); runs = omega arith; sizes = (omega arith, tt) }

process-IsBounded_example : IsBounded (process one_run 12 failed).0
process-IsBounded_example = process-IsBounded one_run 12 failed one_run-IsBounded

get-flush_expired_example :
    Dict.get "r1" (flush_expired one_run 100).0.buffers
    ≡ fresh_only one_run 100 (Dict.get "r1" one_run.buffers)
unfolding Dict.get
get-flush_expired_example = get-flush_expired one_run 100 "r1" (refl, tt)

abbrev mixed_items : List Item
mixed_items = flush_request 7 false ∷ event urgent ∷ event started ∷ []

evict-Evicted_example : Evicted mixed_items (evict mixed_items).0 (evict mixed_items).1
evict-Evicted_example = evict-Evicted mixed_items

-- A spool that counts what it takes and never refuses.
abbrev counting : ℕ → Option ℕ → CanonicalEvent → ℕ × Bool × ℕ
counting n drain e = (n + 1, true, 0)

abbrev full_worker : Worker ℕ
full_worker = record {
  capacity = 3;
  drop_policy = drop_oldest;
  telemetry_required = false;
  remote_drains = 4 ∷ 5 ∷ [];
  queue = mixed_items;
  next_sequence = 2;
  pending_sequences = 1 ∷ 0 ∷ [];
  sequences = λ i. [];
  stats = record {
    enqueued = 2;
    dropped_debug = 0;
    dropped_telemetry = 0;
    spooled_events = 0;
    spool_errors = 0;
  };
  spool = 0;
}

-- Spools that refuse every event, and count an error of their own each time.
abbrev refusing : ℕ → Option ℕ → CanonicalEvent → ℕ × Bool × ℕ
refusing n drain e = (n + 1, false, 1)

emit-Accounts_example :
    Accounts refusing (λ n. n) (λ n drain e. refl) full_worker (emit refusing full_worker urgent)
emit-Accounts_example = emit-Accounts refusing (λ n. n) (λ n drain e. refl) full_worker urgent

critical_urgent : is_critical urgent.delivery ≡ true
unfolding is_critical
critical_urgent = refl

emit_critical_example :
    ((emit counting full_worker urgent).0 ≡ returned enqueued_result)
      × ((emit counting full_worker urgent).1.queue ≡ mixed_items ++ event urgent ∷ [])
    ⊎ ((offer counting full_worker urgent).1 ≡ true)
      × ((emit counting full_worker urgent).0 ≡ returned spooled_result)
      × ((emit counting full_worker urgent).1.spool ≡ (offer counting full_worker urgent).0)
      × ((emit counting full_worker urgent).1.queue ≡ mixed_items)
    ⊎ ((offer counting full_worker urgent).1 ≡ false)
      × ((emit counting full_worker urgent).0
          ≡ returned (dropped_result "queue_full_spool_unavailable"))
      × ((emit counting full_worker urgent).1.stats.spool_errors
          ≡ 0 + (offer counting full_worker urgent).2 + 1)
emit_critical_example = emit_critical counting full_worker urgent critical_urgent

emit-IsWithin_example : IsWithin counting (emit counting full_worker failed).1
emit-IsWithin_example = emit-IsWithin counting full_worker failed (omega arith, omega arith)
