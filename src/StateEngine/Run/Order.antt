-- ===== src/StateEngine/Run/Order.antt =====
-- `apply_run_event` of state_engine.py, folded over sequences of events.
use mathlib.Core.List.{Permᴰ}
use phlo_observe.Common.{
  ◌≡◌, refl, sym, ◌∙◌, ◌≢◌, ◌≤◌, ◌+◌, ℕ, suc, List, AllPairs, fold, fold_perm, length, arith,
  if◌then◌else◌, Bool, true, false, Option,
}
use phlo_observe.StateEngine.Event.{Event, Key, time_order, key_order, event_key, non_empty, Time}
use phlo_observe.StateEngine.Keys.{max_derived_from, set_latest, Latest}
use phlo_observe.StateEngine.Keys.Windows.{IsWindow, record_event-IsWindow, record_event_comm}
use phlo_observe.StateEngine.Keys.Writers.{set_latest_comm}
use phlo_observe.StateEngine.Asset.Order.{Apart}
use phlo_observe.StateEngine.Run.{
  RunState, apply_run_event, max_summary_assets, is_terminal, counts_error, counts_warning,
  fallback_of, earliest_of,
}
use phlo_observe.StateEngine.Run.Fields

-- The bookkeeping of a state that the reducer has built, with `n` more events to come: the
-- provenance window is in order, and the summary of assets has room for all that they may bring.
pub record HasRoom (n : ℕ) (s : RunState) : Type 0 where
  pub derived_window : IsWindow max_derived_from s.derived_keys
  pub room : length s.asset_keys + n ≤ max_summary_assets

pub apply-HasRoom :
    (n : ℕ) (s : RunState) (e : Event) → HasRoom (suc n) s → HasRoom n (apply_run_event s e)
unfolding apply_run_event
apply-HasRoom n s e h = record {
  derived_window = record_event-IsWindow e s.derived_keys h.derived_window;
  room =
      omega
        (arith, h.room, Fields.length-add_asset (non_empty e.correlation.asset_key) s.asset_keys);
}

counter_comm :
    (p q : Bool) (n : ℕ)
    → (if p then (if q then n + 1 else n) + 1 else (if q then n + 1 else n))
      ≡ (if q then (if p then n + 1 else n) + 1 else (if p then n + 1 else n))
counter_comm p q n = ground arith

gated_comm :
    {A : Type 0} (p q : Bool) (v w : Option A) (k j : Key) (cell : Latest Key A)
    → k ≢ j
    → (if p
        then set_latest v k (if q then set_latest w j cell else cell)
        else (if q then set_latest w j cell else cell))
      ≡ (if q
          then set_latest w j (if p then set_latest v k cell else cell)
          else (if p then set_latest v k cell else cell))
gated_comm true true v w k j cell apart = set_latest_comm v w k j cell apart
gated_comm true false v w k j cell apart = refl
gated_comm false q v w k j cell apart = refl

-- Two events at different positions give the same run state in either order, while the summary has
-- room for their assets.
module _ (n : ℕ) (s : RunState) (e f : Event) (h : HasRoom (suc (suc n)) s)
    (apart : Apart e f) where
  flipped : event_key f ≢ event_key e
  flipped p = apart (sym p)

  first_comm :
      ◌≡◌ {A = Option Key × Option Time}
        (
          (apply_run_event (apply_run_event s e) f).first_key,
          (apply_run_event (apply_run_event s e) f).first_fallback,
        )
        (
          (apply_run_event (apply_run_event s f) e).first_key,
          (apply_run_event (apply_run_event s f) e).first_fallback,
        )
  unfolding apply_run_event
  first_comm =
      Fields.first_fields (event_key f) (event_key e) (fallback_of f) (fallback_of e)
        s.first_fallback s.first_key
      ∙ Fields.first_comm (event_key f) (event_key e) (fallback_of f) (fallback_of e)
          (s.first_key, s.first_fallback) flipped
      ∙ sym (
          Fields.first_fields (event_key e) (event_key f) (fallback_of e) (fallback_of f)
            s.first_fallback s.first_key)

  min_comm :
      (apply_run_event (apply_run_event s e) f).min_started
      ≡ (apply_run_event (apply_run_event s f) e).min_started
  unfolding apply_run_event
  min_comm = Fields.min_started_comm f.started_at e.started_at s.min_started

  apply_comm : apply_run_event (apply_run_event s e) f ≡ apply_run_event (apply_run_event s f) e
  unfolding apply_run_event
  apply_comm = λ i. record {
    run_id = s.run_id;
    job_name =
        set_latest_comm (non_empty f.correlation.job_id) (non_empty e.correlation.job_id) _ _
          s.job_name flipped i;
    service_name =
        set_latest_comm (non_empty f.service_name) (non_empty e.service_name) _ _ s.service_name
          flipped i;
    environment =
        set_latest_comm (non_empty f.environment) (non_empty e.environment) _ _ s.environment
          flipped i;
    status = Fields.status_comm f e s.status i;
    started_at = earliest_of (min_comm i) (first_comm i).1;
    ended_at = Fields.ended_comm f e s.ended_at i;
    duration_ms =
        gated_comm (is_terminal f) (is_terminal e) f.duration_ms e.duration_ms _ _ s.duration_ms
          flipped i;
    trigger =
        gated_comm (is_terminal f) (is_terminal e) (non_empty f.attributes.trigger)
          (non_empty e.attributes.trigger) _ _ s.trigger flipped i;
    event_count = s.event_count + 1 + 1;
    error_count = counter_comm (counts_error f) (counts_error e) s.error_count i;
    warning_count = counter_comm (counts_warning f) (counts_warning e) s.warning_count i;
    branch =
        set_latest_comm (non_empty f.correlation.branch) (non_empty e.correlation.branch) _ _
          s.branch flipped i;
    asset_keys =
        Fields.add_asset_comm (non_empty f.correlation.asset_key)
          (non_empty e.correlation.asset_key) s.asset_keys (omega (arith, h.room)) i;
    derived_keys = record_event_comm f e s.derived_keys h.derived_window i;
    min_started = min_comm i;
    first_key = (first_comm i).0;
    first_fallback = (first_comm i).1;
  }

-- From a state whose provenance window is strictly ascending and within its bound, and whose asset
-- summary, with one key more for each of the events, would stay within its 1000 keys, events at
-- different positions give the same state in whatever order they are folded.
pub run_fold-perm :
    {events replayed : List Event} (s : RunState)
    → HasRoom (length events) s
    → AllPairs Apart events
    → Permᴰ events replayed
    → fold apply_run_event s events ≡ fold apply_run_event s replayed
run_fold-perm s h apart p =
    fold_perm Apart (λ e f d q. d (sym q)) apply_run_event HasRoom apply-HasRoom apply_comm s p
      apart h
