-- ===== src/StateEngine/Tests.antt =====
-- Tests of the state engine's model, and the theorems at concrete events.
use mathlib.Core.List.{Permᴰ}
use phlo_observe.Common.{
  ℕ, ◌≡◌, refl, ap, ◌≢◌, inl, false, none, some, [], ◌∷◌, arith, String, fold, nat_order, ◌≤◌, ◌+◌,
}
use phlo_observe.StateEngine.Event.{
  Event, Correlation, Attributes, Outcome, success, failure, event_key, event_time, verb_of,
  is_one_of, key_order,
}
use phlo_observe.StateEngine.Keys.{record_event, newest, insert_sorted}
use phlo_observe.StateEngine.Keys.Windows.{IsWindow, insert_sorted-IsWindow, insert_sorted_comm}
use phlo_observe.StateEngine.Asset.{
  AssetState, new_asset_state, apply_asset_event, recovering, asset_status,
}
use phlo_observe.StateEngine.Asset.{materialized_before}
use phlo_observe.StateEngine.Asset.AsOf.{FoundAt, materialized_before-FoundAt}
use phlo_observe.StateEngine.Asset.Order.{IsFolded, asset_fold-perm}
use phlo_observe.StateEngine.Run.{RunStatus, new_run_state, apply_run_event, is_terminal}
use phlo_observe.StateEngine.Run.Order.{HasRoom, run_fold-perm}
use phlo_observe.StateEngine.Run.Status.{status_of, FailsRun, status-fold_failure, counters-fold}

abbrev no_correlation : Correlation
no_correlation = record {
  run_id = none;
  job_id = none;
  asset_key = some "a";
  branch = none;
  table = none;
  snapshot_id = none;
}

abbrev no_attributes : Attributes
no_attributes = record {
  trigger = none;
  freshness_sla_seconds = some 60;
  base_branch = none;
  target = none;
  snapshot_id = none;
}

abbrev event_at : ℕ → String → String → Outcome → Event
event_at t id name outcome = record {
  event_id = id;
  event = name;
  observed_at = some t;
  started_at = none;
  ended_at = none;
  outcome = some outcome;
  severity = none;
  has_error = false;
  duration_ms = some 5;
  correlation = no_correlation;
  attributes = no_attributes;
  service_name = some "svc";
  environment = none;
  source_producer = none;
  source_adapter = none;
  entities = [];
}

abbrev loaded : Event
loaded = event_at 20 "e2" "asset.materialize" success

abbrev broke : Event
broke = event_at 10 "e1" "asset.materialize" failure

verb_of_test : verb_of "asset.materialize" ≡ "materialize"
unfolding verb_of
verb_of_test = refl

-- A failure that arrives late, after a newer success.
late_failure : (fold apply_asset_event new_asset_state (loaded ∷ broke ∷ [])).status ≡ recovering
unfolding apply_asset_event asset_status event_key event_time record_event insert_sorted verb_of
    is_one_of
late_failure = refl

keys_apart : event_key loaded ≢ event_key broke
unfolding event_key event_time
keys_apart p = omega (arith, ap (λ k. k.0) p)

new_asset-IsFolded : IsFolded new_asset_state
unfolding asset_status
new_asset-IsFolded = record {
  status_agrees = refl;
  times_window = record { ascending = tt; bounded = omega arith };
  derived_window = record { ascending = tt; bounded = omega arith };
}

asset_fold-perm_example :
    fold apply_asset_event new_asset_state (loaded ∷ broke ∷ [])
    ≡ fold apply_asset_event new_asset_state (broke ∷ loaded ∷ [])
asset_fold-perm_example =
    asset_fold-perm new_asset_state new_asset-IsFolded ((keys_apart, tt), (tt, tt))
      (Permᴰ.swap {l = []} refl refl)

abbrev run_failed : Event
run_failed = event_at 10 "e1" "pipeline.run" failure

abbrev run_done : Event
run_done = event_at 20 "e2" "pipeline.run" success

run_keys_apart : event_key run_failed ≢ event_key run_done
unfolding event_key event_time
run_keys_apart p = omega (arith, ap (λ k. k.0) p)

new_run-HasRoom : HasRoom 2 (new_run_state "r")
new_run-HasRoom = record {
  derived_window = record { ascending = tt; bounded = omega arith };
  room = omega arith;
}

run_fold-perm_example :
    fold apply_run_event (new_run_state "r") (run_failed ∷ run_done ∷ [])
    ≡ fold apply_run_event (new_run_state "r") (run_done ∷ run_failed ∷ [])
run_fold-perm_example =
    run_fold-perm (new_run_state "r") new_run-HasRoom ((run_keys_apart, tt), (tt, tt))
      (Permᴰ.swap {l = []} refl refl)

run_failed-FailsRun : FailsRun run_failed
unfolding is_terminal is_one_of
run_failed-FailsRun = (refl, refl)

status-fold_failure_example :
    status_of (new_run_state "r") (run_failed ∷ run_done ∷ []) ≡ RunStatus.failure
status-fold_failure_example =
    status-fold_failure (new_run_state "r") (run_failed ∷ run_done ∷ []) (λ p. cc)
      (inl run_failed-FailsRun)

counters-fold_example :
    ((fold apply_run_event (new_run_state "r") (run_failed ∷ run_done ∷ [])).event_count ≡ 0 + 2)
    × ((fold apply_run_event (new_run_state "r") (run_failed ∷ run_done ∷ [])).error_count
          + (fold apply_run_event (new_run_state "r") (run_failed ∷ run_done ∷ [])).warning_count
        ≤ 0 + 0 + 2)
counters-fold_example = counters-fold (new_run_state "r") (run_failed ∷ run_done ∷ [])

window : IsWindow {A = ℕ} 2 (3 ∷ 5 ∷ [])
window = record { ascending = ((refl, tt), (tt, tt)); bounded = omega arith }

insert_sorted-IsWindow_example : IsWindow {A = ℕ} 2 (insert_sorted newest 2 4 (3 ∷ 5 ∷ []))
insert_sorted-IsWindow_example = insert_sorted-IsWindow newest 2 4 (3 ∷ 5 ∷ []) window

insert_sorted_comm_example :
    insert_sorted {A = ℕ} newest 2 4 (insert_sorted newest 2 6 (3 ∷ 5 ∷ []))
    ≡ insert_sorted newest 2 6 (insert_sorted newest 2 4 (3 ∷ 5 ∷ []))
insert_sorted_comm_example = insert_sorted_comm newest 2 4 6 (3 ∷ 5 ∷ []) window

insert_sorted_test : insert_sorted {A = ℕ} newest 2 4 (3 ∷ 5 ∷ []) ≡ 4 ∷ 5 ∷ []
unfolding insert_sorted
insert_sorted_test = refl

abbrev loaded_twice : AssetState
loaded_twice = record new_asset_state { materialize_times = (10, "e1") ∷ (20, "e2") ∷ [] }

materialized_before-FoundAt_example :
    FoundAt (15, "e3") loaded_twice.materialize_times (materialized_before loaded_twice (15, "e3"))
materialized_before-FoundAt_example =
    materialized_before-FoundAt loaded_twice (15, "e3") ((refl, tt), (tt, tt))
