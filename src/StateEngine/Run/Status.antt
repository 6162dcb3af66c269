-- ===== src/StateEngine/Run/Status.antt =====
-- `apply_run_event` of state_engine.py: status precedence, counters and the start of a run.
use phlo_observe.Common.{
  ◌≡◌, refl, ap, ◌≤◌, ◌+◌, inl, inr, sym, ◌∙◌, ◌≢◌, List, [], ◌∷◌, fold, length, arith, true, some,
  Any,
}
use phlo_observe.StateEngine.Event.{Event, failure}
use phlo_observe.StateEngine.Run.{
  RunState, RunStatus, precedence, new_status, apply_run_event, is_terminal, status_after,
  counts_warning,
}

abbrev pub status_of : RunState → List Event → RunStatus
status_of s events = (fold apply_run_event s events).status

status-apply : (s : RunState) (e : Event) → (apply_run_event s e).status ≡ status_after e s.status
unfolding apply_run_event
status-apply s e = refl

precedence_rises : (e : Event) (old : RunStatus) → precedence old ≤ precedence (status_after e old)
unfolding status_after
precedence_rises e old = ground arith

-- The status never falls below what any prefix of the events established.
pub precedence-fold :
    (s : RunState) (events : List Event) → precedence s.status ≤ precedence (status_of s events)
precedence-fold s [] = omega arith
precedence-fold s (e ∷ events) = omega (
  arith,
  precedence_rises e s.status,
  precedence-fold (apply_run_event s e) events,
  ap precedence (status-apply s e),
)

-- The event ends its run with a failure.
abbrev pub FailsRun : Event → Type 0
FailsRun e = (is_terminal e ≡ true) × (e.outcome ≡ some failure)

failure_stays :
    (e : Event) (old : RunStatus) → old ≡ RunStatus.failure → status_after e old ≡ RunStatus.failure
unfolding status_after precedence new_status
failure_stays e old h = ground arith

failure_enters :
    (e : Event) (old : RunStatus)
    → FailsRun e
    → old ≢ RunStatus.failed
    → status_after e old ≡ RunStatus.failure
unfolding status_after precedence new_status
failure_enters e old h fresh = ground arith

never_failed :
    (e : Event) (old : RunStatus) → old ≢ RunStatus.failed → status_after e old ≢ RunStatus.failed
unfolding status_after precedence new_status
never_failed e old h = ground arith

failure_kept :
    (s : RunState) (events : List Event)
    → s.status ≡ RunStatus.failure
    → status_of s events ≡ RunStatus.failure
failure_kept s [] h = h
failure_kept s (e ∷ events) h =
    failure_kept (apply_run_event s e) events (status-apply s e ∙ failure_stays e s.status h)

-- One failed terminal event among the folded ones, early or late, makes the run a failure, if it did
-- not start with the status `failed`, which no event sets.
pub status-fold_failure :
    (s : RunState) (events : List Event)
    → s.status ≢ RunStatus.failed
    → Any FailsRun events
    → status_of s events ≡ RunStatus.failure
status-fold_failure s [] fresh any = elim any [ ]
status-fold_failure s (e ∷ events) fresh (inl fails) =
    failure_kept (apply_run_event s e) events
      (status-apply s e ∙ failure_enters e s.status fails fresh)
status-fold_failure s (e ∷ events) fresh (inr later) =
    status-fold_failure (apply_run_event s e) events
      (λ p. never_failed e s.status fresh (sym (status-apply s e) ∙ p)) later

counters-apply :
    (s : RunState) (e : Event)
    → ((apply_run_event s e).event_count ≡ s.event_count + 1)
      × ((apply_run_event s e).error_count + (apply_run_event s e).warning_count
          ≤ s.error_count + s.warning_count + 1)
unfolding apply_run_event counts_warning
counters-apply s e = (refl, ground arith)

-- Every event is counted once, and in at most one of the two severity counters.
pub counters-fold :
    (s : RunState) (events : List Event)
    → ((fold apply_run_event s events).event_count ≡ s.event_count + length events)
      × ((fold apply_run_event s events).error_count + (fold apply_run_event s events).warning_count
          ≤ s.error_count + s.warning_count + length events)
counters-fold s [] = (omega arith, omega arith)
counters-fold s (e ∷ events) =
    let rest = counters-fold (apply_run_event s e) events in
    let step = counters-apply s e in (omega (arith, rest.0, step.0), omega (arith, rest.1, step.1))
