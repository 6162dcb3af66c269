-- ===== src/StateEngine/Run.antt =====
-- The run reducer of state_engine.py: `new_run_state` and `apply_run_event`.
pub mod Fields
pub mod Order
pub mod Status
use phlo_observe.Common.{
  ℕ, ◌+◌, String, Bool, true, false, ◌||◌, Option, none, some, List, [], ◌∷◌, if◌then◌else◌,
  TotalOrder, ltb, leb, str_order, put, length,
}
use phlo_observe.StateEngine.Event.{
  Event, Key, Time, Outcome, Severity, warn, error, critical, time_order, key_order, event_key,
  is_one_of, non_empty, or_else,
}
use phlo_observe.StateEngine.Keys.{Latest, unset, set_latest, record_event}

-- The statuses of `_STATUS_PRECEDENCE`.
pub data RunStatus : Type 0 where
  unknown queued running degraded partial cancelled success succeeded failure failed : RunStatus

pub precedence : RunStatus → ℕ
precedence RunStatus.unknown = 0
precedence RunStatus.queued = 0
precedence RunStatus.running = 1
precedence RunStatus.degraded = 2
precedence RunStatus.partial = 2
precedence RunStatus.cancelled = 3
precedence RunStatus.success = 4
precedence RunStatus.succeeded = 4
precedence RunStatus.failure = 5
precedence RunStatus.failed = 5

pub record RunState : Type 0 where
  pub run_id : String
  pub job_name : Latest Key String
  pub service_name : Latest Key String
  pub environment : Latest Key String
  pub status : RunStatus
  pub started_at : Option Time
  pub ended_at : Option Time
  pub duration_ms : Latest Key ℕ
  pub trigger : Latest Key String
  pub event_count : ℕ
  pub error_count : ℕ
  pub warning_count : ℕ
  pub branch : Latest Key String
  pub asset_keys : List String
  pub derived_keys : List Key
  pub min_started : Option Time
  pub first_key : Option Key
  pub first_fallback : Option Time

abbrev pub new_run_state : String → RunState
new_run_state run_id = record {
  run_id = run_id;
  job_name = unset;
  service_name = unset;
  environment = unset;
  status = RunStatus.unknown;
  started_at = none;
  ended_at = none;
  duration_ms = unset;
  trigger = unset;
  event_count = 0;
  error_count = 0;
  warning_count = 0;
  branch = unset;
  asset_keys = [];
  derived_keys = [];
  min_started = none;
  first_key = none;
  first_fallback = none;
}

abbrev pub terminal_run_events : List String
terminal_run_events = "pipeline.run" ∷ "dlt.pipeline.run" ∷ "dbt.invocation" ∷ []

abbrev pub max_summary_assets : ℕ
max_summary_assets = 1000

unfoldable pub is_terminal : Event → Bool
is_terminal e = is_one_of terminal_run_events e.event

-- `outcome in (None, "unknown")` means that the run has started.
pub new_status : Option Outcome → RunStatus
new_status none = RunStatus.running
new_status (some Outcome.unknown) = RunStatus.running
new_status (some Outcome.success) = RunStatus.success
new_status (some Outcome.failure) = RunStatus.failure
new_status (some Outcome.cancelled) = RunStatus.cancelled
new_status (some Outcome.partial) = RunStatus.partial

pub is_known : Option Outcome → Bool
is_known none = false
is_known (some Outcome.unknown) = false
is_known _ = true

abbrev is_severe : Option Severity → Bool
is_severe (some error) = true
is_severe (some critical) = true
is_severe _ = false

abbrev is_warn : Option Severity → Bool
is_warn (some warn) = true
is_warn _ = false

pub counts_error : Event → Bool
counts_error e = e.has_error || is_severe e.severity

pub counts_warning : Event → Bool
unfolding counts_error
counts_warning e = if counts_error e then false else is_warn e.severity

-- The set of asset keys is kept sorted, so that equal sets are equal lists.
pub add_asset : Option String → List String → List String
add_asset none keys = keys
add_asset (some k) keys = if ltb (length keys) max_summary_assets then put k keys else keys

pub status_after : Event → RunStatus → RunStatus
status_after e old =
    if is_terminal e
    then (if leb (precedence old) (precedence (new_status e.outcome))
        then new_status e.outcome
        else old)
    else if ltb (precedence old) (precedence RunStatus.running)
    then RunStatus.running
    else old

abbrev latest_end : Option Time → Option Time → Option Time
latest_end old none = old
latest_end none (some end) = some end
latest_end (some old) (some end) = if ltb old end then some end else some old

pub ended_after : Event → Option Time → Option Time
ended_after e old =
    if is_terminal e
    then (if is_known e.outcome then latest_end old (or_else e.ended_at e.observed_at) else old)
    else old

pub min_started_after : Option Time → Option Time → Option Time
min_started_after none old = old
min_started_after (some started) none = some started
min_started_after (some started) (some old) = if ltb started old then some started else some old

-- Is the event the earliest so far?
abbrev pub is_first : {K : Type 0} ⦃o : TotalOrder K⦄ → K → Option K → Bool
is_first key none = true
is_first ⦃o⦄ key (some old) = o.less key old

-- What the earliest event says of the start when it has no `started_at`.
pub fallback_of : Event → Option Time
fallback_of e = elim e.started_at [ none ↦ e.observed_at | some _ ↦ none ]

-- `min` over the candidates that are there.
pub earliest_of : Option Time → Option Time → Option Time
earliest_of none b = b
earliest_of (some a) none = some a
earliest_of (some a) (some b) = if ltb b a then some b else some a

pub apply_run_event : RunState → Event → RunState
apply_run_event s e =
    let key = event_key e in
    let terminal = is_terminal e in
    let first = is_first key s.first_key in
    let min_started : Option Time = min_started_after e.started_at s.min_started in
    let first_fallback : Option Time = if first then fallback_of e else s.first_fallback in
    record s {
      derived_keys = record_event e s.derived_keys;
      event_count = s.event_count + 1;
      error_count = if counts_error e then s.error_count + 1 else s.error_count;
      warning_count = if counts_warning e then s.warning_count + 1 else s.warning_count;
      asset_keys = add_asset (non_empty e.correlation.asset_key) s.asset_keys;
      branch = set_latest (non_empty e.correlation.branch) key s.branch;
      job_name = set_latest (non_empty e.correlation.job_id) key s.job_name;
      service_name = set_latest (non_empty e.service_name) key s.service_name;
      environment = set_latest (non_empty e.environment) key s.environment;
      status = status_after e s.status;
      ended_at = ended_after e s.ended_at;
      duration_ms = if terminal then set_latest e.duration_ms key s.duration_ms else s.duration_ms;
      trigger =
          if terminal then set_latest (non_empty e.attributes.trigger) key s.trigger else s.trigger;
      min_started = min_started;
      first_key = if first then some key else s.first_key;
      first_fallback = first_fallback;
      started_at = earliest_of min_started first_fallback;
    }
