-- ===== src/Runtime/Tail/Flush.antt =====
-- `flush_all` and `flush_expired` of tail.py.
use text.Mathlib.TextPositions.{eq_refl}
use phlo_observe.Common.{
  ℕ, ◌≡◌, refl, ap, Bool, false, String, Option, none, some, List, [], ◌∷◌, ◌++◌, arith, eq_iff,
  str_eq, length, if◌then◌else◌,
}
use phlo_observe.Common.Dict
use phlo_observe.Common.Dict.{Dict, Distinct, get-pop, Distinct-pop}
use phlo_observe.Runtime.Canonical.{CanonicalEvent}
use phlo_observe.Runtime.Tail.{
  TailSampler, RunBuffer, release, count_flushed, listed, is_stale, stale_runs, flush_runs,
  flush_expired, release_runs, keys_of, flush_all,
}

-- All buffered events, run by run in the order of the buffers.
pub all_events : Dict RunBuffer → List CanonicalEvent
all_events [] = []
all_events ((run, b) ∷ m) = b.events ++ all_events m

release-head :
    (run : String) (b : RunBuffer) (m : Dict RunBuffer) (t : TailSampler)
    → release run (record t { buffers = (run, b) ∷ m }) ≡ (record t { buffers = m }, b.events)
unfolding release Dict.get Dict.pop
release-head run b m t = ground (arith, eq_refl run)

release_all :
    (m : Dict RunBuffer) (t : TailSampler)
    → release_runs (keys_of m) (record t { buffers = m })
      ≡ (record t { buffers = [] }, all_events m)
unfolding release_runs keys_of all_events
release_all [] t = refl
release_all ((run, b) ∷ m) t = rw (release-head run b m t, release_all m t)

length-keys : (m : Dict RunBuffer) → length (keys_of m) ≡ length m
unfolding keys_of
length-keys [] = refl
length-keys ((run, b) ∷ m) = omega (arith, length-keys m)

-- A final flush emits every buffered event, run by run in order, reports the number of runs, and
-- leaves no buffer.
pub flush_all_lem :
    (t : TailSampler)
    → ((flush_all t).0.buffers ≡ []) × ((flush_all t).1 ≡ (all_events t.buffers, length t.buffers))
unfolding flush_all count_flushed
flush_all_lem t =
    rw (release_all t.buffers t) (refl, ap (λ n. (all_events t.buffers, n)) (length-keys t.buffers))

module _ (j : String) where
  get-release :
      (run : String) (t : TailSampler)
      → Distinct t.buffers
      → Dict.get j (count_flushed (release run t).0).buffers
        ≡ (if str_eq run j then none else Dict.get j t.buffers)
  unfolding release count_flushed
  get-release run t d = get-pop run j t.buffers d

  Distinct-release :
      (run : String) (t : TailSampler)
      → Distinct t.buffers
      → Distinct (count_flushed (release run t).0).buffers
  unfolding release count_flushed
  Distinct-release run t d = Distinct-pop run t.buffers d

  get-flush_runs :
      (runs : List String) (t : TailSampler)
      → Distinct t.buffers
      → Dict.get j (flush_runs runs t).0.buffers
        ≡ (if listed j runs then none else Dict.get j t.buffers)
  unfolding flush_runs listed
  get-flush_runs [] t d = refl
  get-flush_runs (run ∷ runs) t d = ground (
    arith,
    get-flush_runs runs (count_flushed (release run t).0),
    Distinct-release run t d,
    get-release run t d,
    eq_iff run j,
    eq_iff j run,
  )

  stale_at : TailSampler → ℕ → Option RunBuffer → Bool
  stale_at t now none = false
  stale_at t now (some b) = is_stale t now b

  listed-stale :
      (t : TailSampler) (now : ℕ) (m : Dict RunBuffer)
      → Distinct m
      → listed j (stale_runs t now m) ≡ stale_at t now (Dict.get j m)
  unfolding stale_runs listed stale_at Dict.get
  listed-stale t now [] d = refl
  listed-stale t now ((run, b) ∷ m) d =
      ground (arith, listed-stale t now m, eq_iff run j, eq_iff j run, d.0)

-- What an age flush leaves of a run: a fresh buffer as it was, nothing of a stale one.
pub fresh_only : TailSampler → ℕ → Option RunBuffer → Option RunBuffer
fresh_only t now none = none
fresh_only t now (some b) = if is_stale t now b then none else some b

-- Of buffers with different runs, an age flush removes exactly the runs that are idle for longer than the bound.
pub get-flush_expired :
    (t : TailSampler) (now : ℕ) (run : String)
    → Distinct t.buffers
    → Dict.get run (flush_expired t now).0.buffers ≡ fresh_only t now (Dict.get run t.buffers)
unfolding flush_expired fresh_only stale_at
get-flush_expired t now run d =
    ground (
      arith,
      get-flush_runs run (stale_runs t now t.buffers) t d,
      listed-stale run t now t.buffers d,
    )
