-- ===== src/Runtime/Tail/Process.antt =====
-- `TailSampler.process` of tail.py, with `_release` and `_interesting`.
use mathlib.Core.List.{append-nil}
use text.Mathlib.TextPositions.{eq_refl}
use phlo_observe.Common.{
  ℕ, ◌+◌, ◌≡◌, subst, ◌∙◌, ◌≢◌, ◌⊎◌, inl, inr, true, false, String, none, some, [], ◌∷◌, ◌++◌,
  arith, eq_iff, leb, length,
}
use phlo_observe.Common.Dict
use phlo_observe.Common.Dict.{
  Dict, Distinct, get-set, get-pop, Distinct-set, Distinct-pop, length-set-le, length-set_present,
  length-pop-le, AllValues, AllValues-set, AllValues-pop, AllValues-get,
}
use phlo_observe.Runtime.Canonical.{CanonicalEvent}
use phlo_observe.Runtime.Tail.{
  TailSampler, RunBuffer, Emitted, run_of, held, release, drop_run, settle, append_event,
  buffer_event, process_run, process, is_terminal, is_interesting, count_buffered, count_flushed,
  count_reduced, count_released,
}

pub held-append :
    (t : TailSampler) (now : ℕ) (run : String) (e : CanonicalEvent)
    → held (count_buffered (append_event t now run e)) run ≡ held t run ++ e ∷ []
unfolding held append_event count_buffered
held-append t now run e = ground (
  arith,
  get-set run run (record { events = held t run ++ e ∷ []; updated_at = now }) t.buffers,
  eq_refl run,
)

-- What `settle` may do with a run whose buffered events end with `e`.
module _ (run : String) (e : CanonicalEvent) (size : ℕ) (t : TailSampler)
    (d : Distinct t.buffers) where
  held-drop : held (drop_run run t) run ≡ []
  unfolding held drop_run
  held-drop = ground (arith, get-pop run run t.buffers d, eq_refl run)

  settle_cases :
      ((settle run e size t).1 ++ held (settle run e size t).0 run ≡ held t run)
      ⊎ ((is_terminal t e ≡ true)
          × (is_interesting t e ≡ false)
          × ((settle run e size t).1 ≡ [])
          × (held (settle run e size t).0 run ≡ []))
  unfolding settle release drop_run count_flushed count_reduced count_released
  settle_cases = ground (arith, get-pop run run t.buffers d, eq_refl run, append-nil (held t run))

  settle_other : (other : String) → run ≢ other → held (settle run e size t).0 other ≡ held t other
  unfolding settle release drop_run count_flushed count_reduced count_released
  settle_other other apart = ground (arith, get-pop run other t.buffers d, eq_iff run other)

-- Nothing is lost of the run: what was held and the event are emitted in order or still held; or
-- the run has ended without being interesting, and all of it is dropped.
abbrev pub Fate : TailSampler → String → CanonicalEvent → Emitted → Type 0
Fate t run e r =
    (r.1 ++ held r.0 run ≡ held t run ++ e ∷ [])
    ⊎ ((is_terminal t e ≡ true) × (is_interesting t e ≡ false) × (r.1 ≡ []) × (held r.0 run ≡ []))

module _ (t : TailSampler) (now : ℕ) (run : String) (e : CanonicalEvent)
    (d : Distinct t.buffers) where
  pub grown_Distinct : Distinct (count_buffered (append_event t now run e)).buffers
  unfolding append_event count_buffered
  grown_Distinct = Distinct-set run _ t.buffers d

  buffer-Fate : Fate t run e (buffer_event t now run e)
  unfolding buffer_event append_event count_buffered is_terminal is_interesting
  buffer-Fate =
      subst
        (λ l.
          ((buffer_event t now run e).1 ++ held (buffer_event t now run e).0 run ≡ l)
          ⊎ ((is_terminal t e ≡ true)
              × (is_interesting t e ≡ false)
              × ((buffer_event t now run e).1 ≡ [])
              × (held (buffer_event t now run e).0 run ≡ [])))
        (held-append t now run e)
        (settle_cases run e (length (held t run) + 1) (count_buffered (append_event t now run e))
          grown_Distinct)

  held-append_other :
      (other : String)
      → run ≢ other
      → held (count_buffered (append_event t now run e)) other ≡ held t other
  unfolding held append_event count_buffered
  held-append_other other apart = ground (
    arith,
    get-set run other (record { events = held t run ++ e ∷ []; updated_at = now }) t.buffers,
    eq_iff run other,
  )

  buffer_other :
      (other : String) → run ≢ other → held (buffer_event t now run e).0 other ≡ held t other
  unfolding buffer_event
  buffer_other other apart =
      settle_other run e (length (held t run) + 1) (count_buffered (append_event t now run e))
        grown_Distinct other apart
      ∙ held-append_other other apart

  held_fresh : Dict.get run t.buffers ≡ none → held t run ≡ []
  unfolding held
  held_fresh fresh = rw fresh

  pub process_cases :
      ((Dict.get run t.buffers ≡ none) × (process_run t now run e ≡ (t, e ∷ [])))
      ⊎ ((leb t.max_runs (length t.buffers) ≡ false)
          × (process_run t now run e ≡ buffer_event t now run e))
      ⊎ ((b : RunBuffer) × (Dict.get run t.buffers ≡ some b)
          × (process_run t now run e ≡ buffer_event t now run e))
  unfolding process_run
  process_cases = ground arith

  process_run-Fate : Fate t run e (process_run t now run e)
  process_run-Fate = elim process_cases [
    | inl (fresh, passed) ↦ rw passed (inl (rw (held_fresh fresh)))
    | inr (inl (room, buffered)) ↦ rw buffered buffer-Fate
    | inr (inr (b, found, buffered)) ↦ rw buffered buffer-Fate
  ]

  process_run_other :
      (other : String) → run ≢ other → held (process_run t now run e).0 other ≡ held t other
  process_run_other other apart = elim process_cases [
    | inl (fresh, passed) ↦ rw passed
    | inr (inl (room, buffered)) ↦ rw buffered (buffer_other other apart)
    | inr (inr (b, found, buffered)) ↦ rw buffered (buffer_other other apart)
  ]

pub process-run :
    (t : TailSampler) (now : ℕ) (run : String) (e : CanonicalEvent)
    → run_of e ≡ some run
    → process t now e ≡ process_run t now run e
unfolding process
process-run t now run e h = ground arith

pub process_absent :
    (t : TailSampler) (now : ℕ) (e : CanonicalEvent)
    → run_of e ≡ none
    → process t now e ≡ (t, e ∷ [])
unfolding process
process_absent t now e h = ground arith

-- With one buffer for each run, one call for an event of a run loses nothing of that run but a boring
-- run at its end, and touches no other run.
pub process-Fate :
    (t : TailSampler) (now : ℕ) (run other : String) (e : CanonicalEvent)
    → Distinct t.buffers
    → run_of e ≡ some run
    → run ≢ other
    → Fate t run e (process t now e) × (held (process t now e).0 other ≡ held t other)
process-Fate t now run other e d h apart =
    rw (process-run t now run e h)
      (process_run-Fate t now run e d, process_run_other t now run e d other apart)
