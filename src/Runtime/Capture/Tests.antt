-- ===== src/Runtime/Capture/Tests.antt =====
-- The theorem on the capture backend at a concrete buffer.
use phlo_observe.Common.{ℕ, ◌+◌, ◌≡◌, refl, none, [], ◌∷◌, ◌++◌, arith, fold, last_entries}
use phlo_observe.Runtime.Canonical.{CanonicalEvent, Delivery, Outcome}
use phlo_observe.Runtime.Capture.{new_capture}
use phlo_observe.Runtime.Capture.Buffer.{after_emitting, held_or_dropped, IsOpen, capture-fold}

abbrev note : ℕ → CanonicalEvent
note n = record {
  ident = n;
  event = "run.started";
  outcome = Outcome.success;
  delivery = Delivery.debug;
  run_id = none;
  duration_ms = none;
  payload = [];
}

new-IsOpen : IsOpen (new_capture 1)
unfolding new_capture
new-IsOpen = record { open_still = refl; within = omega arith }

capture-fold_example :
    ((fold after_emitting (new_capture 1) (note 1 ∷ note 2 ∷ [])).events
      ≡ last_entries (new_capture 1).capacity ((new_capture 1).events ++ note 1 ∷ note 2 ∷ []))
    × (held_or_dropped (fold after_emitting (new_capture 1) (note 1 ∷ note 2 ∷ []))
        ≡ held_or_dropped (new_capture 1) + 2)
capture-fold_example = capture-fold (new_capture 1) (note 1 ∷ note 2 ∷ []) new-IsOpen
