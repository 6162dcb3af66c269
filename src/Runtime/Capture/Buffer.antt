-- ===== src/Runtime/Capture/Buffer.antt =====
-- `CaptureBackend.emit` of backends.py over a sequence of events.
use mathlib.Core.List.{append_assoc, append-nil}
use phlo_observe.Common.{
  ℕ, ◌+◌, ◌-◌, ◌≤◌, ◌≡◌, sym, ap, ◌∙◌, false, List, [], ◌∷◌, ◌++◌, arith, fold, last_entries,
  last-push, last_of_length-le, length, length-drop, length-append,
}
use phlo_observe.Runtime.Canonical.{CanonicalEvent}
use phlo_observe.Runtime.Capture.{CaptureBackend, emit, count_overflow}

abbrev pub after_emitting : CaptureBackend → CanonicalEvent → CaptureBackend
after_emitting b e = (emit b e).1

-- What is held and what is counted as dropped.
abbrev pub held_or_dropped : CaptureBackend → ℕ
held_or_dropped b = length b.events + b.stats.dropped_debug + b.stats.dropped_telemetry

-- An open buffer within its capacity.
pub record IsOpen (b : CaptureBackend) : Type 0 where
  pub open_still : b.closed ≡ false
  pub within : length b.events ≤ b.capacity

emit_same :
    (b : CaptureBackend) (e : CanonicalEvent)
    → b.closed ≡ false
    → ((emit b e).1.events ≡ last_entries b.capacity (b.events ++ e ∷ []))
      × ((emit b e).1.capacity ≡ b.capacity)
      × ((emit b e).1.closed ≡ false)
      × ((emit b e).1.stats.enqueued ≡ b.stats.enqueued + 1)
unfolding emit count_overflow
emit_same b e h = ground (arith, h)

emit_held :
    (b : CaptureBackend) (e : CanonicalEvent)
    → IsOpen b
    → held_or_dropped (emit b e).1 ≡ held_or_dropped b + 1
unfolding emit count_overflow
emit_held b e h = ground (
  arith,
  h.open_still,
  h.within,
  length-drop (length (b.events ++ e ∷ []) - b.capacity) (b.events ++ e ∷ []),
  length-append b.events (e ∷ []),
)

emit-IsOpen : (b : CaptureBackend) (e : CanonicalEvent) → IsOpen b → IsOpen (emit b e).1
emit-IsOpen b e h =
    let same = emit_same b e h.open_still in
    record {
      open_still = same.2;
      within = omega (
        arith,
        ap length same.0,
        same.1,
        length-drop (length (b.events ++ e ∷ []) - b.capacity) (b.events ++ e ∷ []),
      );
    }

-- After any sequence of calls, an open buffer within its capacity holds the last events of all that it was given, at
-- most its capacity of them, in order; and every event is held or counted as dropped, once.
pub capture-fold :
    (b : CaptureBackend) (es : List CanonicalEvent)
    → IsOpen b
    → ((fold after_emitting b es).events ≡ last_entries b.capacity (b.events ++ es))
      × (held_or_dropped (fold after_emitting b es) ≡ held_or_dropped b + length es)
capture-fold b [] h = (
  sym (
      ap (last_entries b.capacity) (append-nil b.events)
      ∙ last_of_length-le b.capacity b.events h.within),
  omega arith,
)
capture-fold b (e ∷ es) h =
    let same = emit_same b e h.open_still in
    let rest = capture-fold (after_emitting b e) es (emit-IsOpen b e h) in
    (
      rest.0
          ∙ ap (λ n. last_entries n ((emit b e).1.events ++ es)) same.1
          ∙ ap (λ l. last_entries b.capacity (l ++ es)) same.0
          ∙ last-push b.capacity (b.events ++ e ∷ []) es
          ∙ ap (last_entries b.capacity) (append_assoc b.events (e ∷ []) es),
      omega (arith, rest.1, emit_held b e h),
    )
