-- ===== src/Runtime/Tail.antt =====
-- tail.py of observe_core: the bounded per-run buffers of the tail sampler. An operation takes the
-- monotonic clock's reading and returns the events that it hands to `emit`, in order.
pub mod Process
pub mod Bounds
pub mod Flush
use phlo_observe.Common.{
  ℕ, ◌+◌, ◌-◌, String, Bool, true, false, ◌||◌, Option, none, some, List, [], ◌∷◌, ◌++◌, str_eq,
  ltb, leb, if◌then◌else◌, length, ends_with,
}
use phlo_observe.Common.Dict
use phlo_observe.Common.Dict.{Dict}
use phlo_observe.Runtime.Canonical.{CanonicalEvent, is_failure}

pub record RunBuffer : Type 0 where
  pub events : List CanonicalEvent
  pub updated_at : ℕ

-- The counters of `TelemetryStats` that the sampler touches.
pub record TailCounts : Type 0 where
  pub buffered : ℕ
  pub flushed : ℕ
  pub reduced : ℕ
  pub released : ℕ

pub record TailSampler : Type 0 where
  pub min_duration_ms : ℕ
  pub max_runs : ℕ
  pub max_run_events : ℕ
  pub max_age_seconds : ℕ
  pub terminal_events : List String
  pub stats : TailCounts
  pub buffers : Dict RunBuffer

abbrev pub Emitted : Type 0
Emitted = TailSampler × List CanonicalEvent

-- A run identifier that Python counts as true.
abbrev pub run_of : CanonicalEvent → Option String
run_of e = elim e.run_id [ none ↦ none | some r ↦ if str_eq r "" then none else some r ]

listed : String → List String → Bool
listed name [] = false
listed name (t ∷ ts) = str_eq name t || listed name ts

pub is_terminal : TailSampler → CanonicalEvent → Bool
unfolding listed
is_terminal t e =
    listed e.event t.terminal_events
    || (ends_with ".completed" e.event
        || (ends_with ".failed" e.event || ends_with ".cancelled" e.event))

abbrev at_least_ms : ℕ → Option ℕ → Bool
at_least_ms bound none = false
at_least_ms bound (some duration) = leb bound duration

-- `_interesting`, of the last event of a buffer.
pub is_interesting : TailSampler → CanonicalEvent → Bool
is_interesting t last = is_failure last.outcome || at_least_ms t.min_duration_ms last.duration_ms

pub count_buffered : TailSampler → TailSampler
count_buffered t = record t { stats = record t.stats { buffered = t.stats.buffered + 1 } }

pub count_flushed : TailSampler → TailSampler
count_flushed t = record t { stats = record t.stats { flushed = t.stats.flushed + 1 } }

pub count_reduced : TailSampler → TailSampler
count_reduced t = record t { stats = record t.stats { reduced = t.stats.reduced + 1 } }

pub count_released : TailSampler → TailSampler
count_released t = record t { stats = record t.stats { released = t.stats.released + 1 } }

abbrev buffered_events : Option RunBuffer → List CanonicalEvent
buffered_events none = []
buffered_events (some b) = b.events

-- The events that are held for a run.
pub held : TailSampler → String → List CanonicalEvent
held t run = buffered_events (Dict.get run t.buffers)

-- `_release`: forget the run and emit what was held.
unfoldable pub release : String → TailSampler → Emitted
unfolding held
release run t = (record t { buffers = Dict.pop run t.buffers }, held t run)

pub drop_run : String → TailSampler → TailSampler
drop_run run t = record t { buffers = Dict.pop run t.buffers }

-- The end of `process`, once the event has been appended to its run's buffer.
pub settle : String → CanonicalEvent → ℕ → TailSampler → Emitted
settle run e size t =
    if ltb t.max_run_events size
    then (let (t', out) = release run t in (count_released t', out))
    else if is_terminal t e
    then (if is_interesting t e
        then (let (t', out) = release run t in (count_flushed t', out))
        else (count_reduced (drop_run run t), []))
    else (t, [])

pub append_event : TailSampler → ℕ → String → CanonicalEvent → TailSampler
append_event t now run e = record t {
  buffers = Dict.set run (record { events = held t run ++ e ∷ []; updated_at = now }) t.buffers;
}

pub buffer_event : TailSampler → ℕ → String → CanonicalEvent → Emitted
buffer_event t now run e =
    settle run e (length (held t run) + 1) (count_buffered (append_event t now run e))

pub process_run : TailSampler → ℕ → String → CanonicalEvent → Emitted
process_run t now run e = elim (Dict.get run t.buffers) [
  | none ↦ if leb t.max_runs (length t.buffers) then (t, e ∷ []) else buffer_event t now run e
  | some b ↦ buffer_event t now run e
]

pub process : TailSampler → ℕ → CanonicalEvent → Emitted
process t now e = elim (run_of e) [ none ↦ (t, e ∷ []) | some run ↦ process_run t now run e ]

-- Is the buffer idle for longer than the age bound?
pub is_stale : TailSampler → ℕ → RunBuffer → Bool
is_stale t now b = ltb t.max_age_seconds (now - b.updated_at)

pub stale_runs : TailSampler → ℕ → Dict RunBuffer → List String
stale_runs t now [] = []
stale_runs t now ((run, b) ∷ m) =
    if is_stale t now b then run ∷ stale_runs t now m else stale_runs t now m

pub flush_runs : List String → TailSampler → Emitted
flush_runs [] t = (t, [])
flush_runs (run ∷ runs) t =
    let (t', out) = release run t in
    let (t'', rest) = flush_runs runs (count_flushed t') in (t'', out ++ rest)

pub flush_expired : TailSampler → ℕ → TailSampler × (List CanonicalEvent × ℕ)
flush_expired t now =
    let stale = stale_runs t now t.buffers in
    let (t', out) = flush_runs stale t in (t', (out, length stale))

pub release_runs : List String → TailSampler → Emitted
release_runs [] t = (t, [])
release_runs (run ∷ runs) t =
    let (t', out) = release run t in let (t'', rest) = release_runs runs t' in (t'', out ++ rest)

pub keys_of : Dict RunBuffer → List String
keys_of [] = []
keys_of ((run, b) ∷ m) = run ∷ keys_of m

pub flush_all : TailSampler → TailSampler × (List CanonicalEvent × ℕ)
flush_all t =
    let runs = keys_of t.buffers in
    let (t', out) = release_runs runs t in (count_flushed t', (out, length runs))

pub buffered_runs : TailSampler → ℕ
buffered_runs t = length t.buffers
