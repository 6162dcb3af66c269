-- ===== src/Runtime/Tail/Bounds.antt =====
-- `TailSampler.process` of tail.py and the sizes of the buffers.
use phlo_observe.Common.{
  ℕ, ◌+◌, ◌≤◌, ◌≡◌, refl, subst, inl, inr, String, [], ◌∷◌, ◌++◌, arith, ltb, ltb-false→le,
  leb-false→lt, sym, length, length-append, Bool-cases, Option-cases,
}
use phlo_observe.Common.Dict
use phlo_observe.Common.Dict.{
  Dict, Distinct, get-set, get-pop, Distinct-set, Distinct-pop, length-set-le, length-set_present,
  length-pop-le, AllValues, AllValues-set, AllValues-pop, AllValues-get,
}
use phlo_observe.Runtime.Canonical.{CanonicalEvent}
use phlo_observe.Runtime.Tail.{
  TailSampler, RunBuffer, run_of, held, release, drop_run, settle, append_event, buffer_event,
  process_run, process, is_terminal, is_interesting, count_buffered, count_flushed, count_reduced,
  count_released,
}
use phlo_observe.Runtime.Tail.Process.{grown_Distinct, process_cases, process-run, process_absent}

-- At most `max_runs` buffers, one for each run, each with at most `max_run_events` events.
pub record IsBounded (t : TailSampler) : Type 0 where
  pub distinct : Distinct t.buffers
  pub runs : length t.buffers ≤ t.max_runs
  pub sizes : AllValues (λ b. length b.events ≤ t.max_run_events) t.buffers

abbrev Fits : TailSampler → RunBuffer → Type 0
Fits t b = length b.events ≤ t.max_run_events

module _ (run : String) (e : CanonicalEvent) (size : ℕ) (t : TailSampler) where
  settle-Distinct : Distinct t.buffers → Distinct (settle run e size t).0.buffers
  unfolding settle release drop_run count_flushed count_reduced count_released
  settle-Distinct d = ground (arith, Distinct-pop run t.buffers d, d)

  settle-length : length (settle run e size t).0.buffers ≤ length t.buffers
  unfolding settle release drop_run count_flushed count_reduced count_released
  settle-length = ground (arith, length-pop-le run t.buffers)

  settle_same :
      ((settle run e size t).0.max_runs ≡ t.max_runs)
      × ((settle run e size t).0.max_run_events ≡ t.max_run_events)
  unfolding settle release drop_run count_flushed count_reduced count_released
  settle_same = ground arith

  settle-Fits :
      AllValues (Fits t) (Dict.pop run t.buffers)
      → (size ≤ t.max_run_events → AllValues (Fits t) t.buffers)
      → AllValues (Fits t) (settle run e size t).0.buffers
  unfolding settle release drop_run count_flushed count_reduced count_released
  settle-Fits popped kept = elim (Bool-cases (ltb t.max_run_events size)) [
    | inl over ↦ rw over popped
    | inr fits ↦
        let all = kept (ltb-false→le t.max_run_events size fits) in
        rw fits (elim (Bool-cases (is_terminal t e)) [
          | inl ended ↦ rw ended (elim (Bool-cases (is_interesting t e)) [
            | inl kept ↦ rw kept popped
            | inr boring ↦ rw boring popped
          ])
          | inr goes_on ↦ rw goes_on all
        ])
  ]

module _ (t : TailSampler) (now : ℕ) (run : String) (e : CanonicalEvent) (h : IsBounded t) where
  grown : TailSampler
  grown = count_buffered (append_event t now run e)

  grown-buffers :
      grown.buffers
      ≡ Dict.set run (record { events = held t run ++ e ∷ []; updated_at = now }) t.buffers
  unfolding grown append_event count_buffered
  grown-buffers = refl

  buffer-Fits : AllValues (Fits t) (buffer_event t now run e).0.buffers
  unfolding buffer_event grown append_event count_buffered
  buffer-Fits =
      settle-Fits run e (length (held t run) + 1) grown
        (rw
          (Dict.pop-set run (record { events = held t run ++ e ∷ []; updated_at = now }) t.buffers)
          (AllValues-pop (Fits t) run t.buffers h.sizes))
        (λ fits.
          AllValues-set (Fits t) run _ t.buffers
            (omega (arith, length-append (held t run) (e ∷ []), fits)) h.sizes)

  buffer-IsBounded : length grown.buffers ≤ t.max_runs → IsBounded (buffer_event t now run e).0
  unfolding buffer_event grown append_event count_buffered
  buffer-IsBounded room = record {
    distinct =
        settle-Distinct run e (length (held t run) + 1) grown
          (grown_Distinct t now run e h.distinct);
    runs = omega (arith, settle-length run e (length (held t run) + 1) grown, same.0, room);
    sizes =
        subst (λ n. AllValues (λ b. length b.events ≤ n) (buffer_event t now run e).0.buffers)
          (sym same.1) buffer-Fits;
  }
    where
      same :
          ((buffer_event t now run e).0.max_runs ≡ t.max_runs)
          × ((buffer_event t now run e).0.max_run_events ≡ t.max_run_events)
      same = settle_same run e (length (held t run) + 1) grown

  run-IsBounded : IsBounded (process_run t now run e).0
  unfolding grown append_event count_buffered
  run-IsBounded = elim (process_cases t now run e h.distinct) [
    | inl (fresh, passed) ↦ rw passed h
    | inr (inl (room, buffered)) ↦ rw buffered (
        buffer-IsBounded (
          omega (
            arith,
            length-set-le run (record { events = held t run ++ e ∷ []; updated_at = now })
                t.buffers,
            leb-false→lt t.max_runs (length t.buffers),
          )))
    | inr (inr (b, found, buffered)) ↦ rw buffered (
        buffer-IsBounded (
          omega (
            arith,
            length-set_present run (record { events = held t run ++ e ∷ []; updated_at = now }) b
                t.buffers found,
            h.runs,
          )))
  ]

-- Of bounded buffers, whatever event comes, at most `max_runs` runs stay buffered, none twice, and
-- none with more than `max_run_events` events.
pub process-IsBounded :
    (t : TailSampler) (now : ℕ) (e : CanonicalEvent) → IsBounded t → IsBounded (process t now e).0
process-IsBounded t now e h = elim (Option-cases (run_of e)) [
  | inl absent ↦ rw (process_absent t now e absent) h
  | inr (run, named) ↦ rw (process-run t now run e named) (run-IsBounded t now run e h)
]
