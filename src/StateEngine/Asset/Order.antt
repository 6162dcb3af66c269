-- ===== src/StateEngine/Asset/Order.antt =====
-- `apply_asset_event` of state_engine.py, folded over sequences of events.
use mathlib.Core.List.{Permᴰ}
use phlo_observe.Common.{◌≡◌, sym, ◌≢◌, List, AllPairs, fold, fold_perm}
use phlo_observe.StateEngine.Event.{Event, time_order, key_order, event_key, event_time}
use phlo_observe.StateEngine.Keys.{max_derived_from}
use phlo_observe.StateEngine.Keys.Windows.{IsWindow, record_event-IsWindow, record_event_comm}
use phlo_observe.StateEngine.Keys.Writers.{set_latest_comm}
use phlo_observe.StateEngine.Asset.{
  AssetState, apply_asset_event, asset_status, max_materialize_times,
}
use phlo_observe.StateEngine.Asset.Fields

-- The bookkeeping of a state that the reducer has built.
pub record IsFolded (s : AssetState) : Type 0 where
  pub status_agrees : s.status ≡ asset_status s
  pub times_window : IsWindow max_materialize_times s.materialize_times
  pub derived_window : IsWindow max_derived_from s.derived_keys

-- Events at different positions of the fold order.
abbrev pub Apart : Event → Event → Type 0
Apart e f = event_key e ≢ event_key f

pub apply-IsFolded : (s : AssetState) (e : Event) → IsFolded s → IsFolded (apply_asset_event s e)
apply-IsFolded s e h = record {
  status_agrees = Fields.status-apply s e h.status_agrees;
  times_window = rw (Fields.times-apply s e) (Fields.times-IsWindow _ _ _ h.times_window);
  derived_window = rw (Fields.derived-apply s e) (record_event-IsWindow e _ h.derived_window);
}

module _ (s : AssetState) (e f : Event) (h : IsFolded s) where
  times_comm :
      (apply_asset_event (apply_asset_event s e) f).materialize_times
      ≡ (apply_asset_event (apply_asset_event s f) e).materialize_times
  times_comm =
      rw
        (
          Fields.times-apply (apply_asset_event s e) f,
          Fields.times-apply s e,
          Fields.times-apply (apply_asset_event s f) e,
          Fields.times-apply s f,
        )
        (Fields.times_comm _ _ _ _ _ h.times_window)

  failure_comm :
      (apply_asset_event (apply_asset_event s e) f).last_failure
      ≡ (apply_asset_event (apply_asset_event s f) e).last_failure
  failure_comm =
      rw
        (
          Fields.failure-apply (apply_asset_event s e) f,
          Fields.failure-apply s e,
          Fields.failure-apply (apply_asset_event s f) e,
          Fields.failure-apply s f,
        )
        (Fields.failure_comm _ _ _ _ _)

  success_comm :
      (apply_asset_event (apply_asset_event s e) f).last_materialized_at
      ≡ (apply_asset_event (apply_asset_event s f) e).last_materialized_at
  success_comm =
      rw
        (
          Fields.success-apply (apply_asset_event s e) f,
          Fields.success-apply s e,
          Fields.success-apply (apply_asset_event s f) e,
          Fields.success-apply s f,
        )
        (Fields.success_comm _ _ _)

  seen_comm :
      (apply_asset_event (apply_asset_event s e) f).last_event_at
      ≡ (apply_asset_event (apply_asset_event s f) e).last_event_at
  seen_comm =
      rw
        (
          Fields.seen-apply (apply_asset_event s e) f,
          Fields.seen-apply s e,
          Fields.seen-apply (apply_asset_event s f) e,
          Fields.seen-apply s f,
        )
        (Fields.later_if_any_comm s.last_event_at (event_time e) (event_time f))

  derived_comm :
      (apply_asset_event (apply_asset_event s e) f).derived_keys
      ≡ (apply_asset_event (apply_asset_event s f) e).derived_keys
  derived_comm =
      rw
        (
          Fields.derived-apply (apply_asset_event s e) f,
          Fields.derived-apply s e,
          Fields.derived-apply (apply_asset_event s f) e,
          Fields.derived-apply s f,
        )
        (record_event_comm f e s.derived_keys h.derived_window)

  freshness_comm :
      Apart e f
      → (apply_asset_event (apply_asset_event s e) f).freshness_sla_seconds
        ≡ (apply_asset_event (apply_asset_event s f) e).freshness_sla_seconds
  freshness_comm apart =
      rw
        (
          Fields.freshness-apply (apply_asset_event s e) f,
          Fields.freshness-apply s e,
          Fields.freshness-apply (apply_asset_event s f) e,
          Fields.freshness-apply s f,
        )
        (set_latest_comm _ _ _ _ _ (λ p. apart (sym p)))

  status_comm :
      (apply_asset_event (apply_asset_event s e) f).status
      ≡ (apply_asset_event (apply_asset_event s f) e).status
  unfolding asset_status
  status_comm = cc (
    (apply-IsFolded (apply_asset_event s e) f (apply-IsFolded s e h)).status_agrees,
    (apply-IsFolded (apply_asset_event s f) e (apply-IsFolded s f h)).status_agrees,
    times_comm,
    failure_comm,
  )

  -- Two events at different positions give the same asset state in either order.
  pub apply_comm :
      Apart e f
      → apply_asset_event (apply_asset_event s e) f ≡ apply_asset_event (apply_asset_event s f) e
  apply_comm apart = λ i. record {
    status = status_comm i;
    last_materialized_at = success_comm i;
    last_event_at = seen_comm i;
    freshness_sla_seconds = freshness_comm apart i;
    derived_keys = derived_comm i;
    materialize_times = times_comm i;
    last_failure = failure_comm i;
  }

-- From a state that a fold can reach, with its status and windows in order, events at different
-- positions give the same state in whatever order they are folded.
pub asset_fold-perm :
    {events replayed : List Event} (s : AssetState)
    → IsFolded s
    → AllPairs Apart events
    → Permᴰ events replayed
    → fold apply_asset_event s events ≡ fold apply_asset_event s replayed
asset_fold-perm s h apart p =
    fold_perm Apart (λ e f d q. d (sym q)) apply_asset_event (λ n. IsFolded) (λ n. apply-IsFolded)
      (λ n. apply_comm) s p apart h
