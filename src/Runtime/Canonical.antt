-- ===== src/Runtime/Canonical.antt =====
-- drains/base.py and models.py of observe_core: a finalized event, as far as sampling, queueing and
-- spooling read it.
use phlo_observe.Common.{ℕ, String, Bool, true, false, Option, List}

pub data Delivery : Type 0 where
  debug telemetry critical : Delivery

pub data Outcome : Type 0 where
  success failure cancelled partial unknown : Outcome

-- `ident` is Python's `id` of the object; durations are counted in a fixed unit.
pub record CanonicalEvent : Type 0 where
  pub ident : ℕ
  pub event : String
  pub outcome : Outcome
  pub delivery : Delivery
  pub run_id : Option String
  pub duration_ms : Option ℕ
  pub payload : List ℕ

unfoldable pub is_critical : Delivery → Bool
is_critical critical = true
is_critical _ = false

unfoldable pub is_failure : Outcome → Bool
is_failure failure = true
is_failure _ = false
