-- ===== src/Runtime/Capture.antt =====
-- `CaptureBackend` of backends.py: a bounded buffer of the newest events.
pub mod Buffer
mod Tests
use phlo_observe.Common.{
  ℕ, ◌+◌, Bool, true, false, Option, none, some, List, [], ◌∷◌, ◌==◌, if◌then◌else◌, push, length,
}
use phlo_observe.Runtime.Canonical.{CanonicalEvent, Delivery, debug}
use phlo_observe.Runtime.Worker.{EmitResult, dropped_result}

pub record CaptureCounts : Type 0 where
  pub enqueued : ℕ
  pub dropped_debug : ℕ
  pub dropped_telemetry : ℕ
  pub flushes : ℕ

pub record CaptureBackend : Type 0 where
  pub capacity : ℕ
  pub stats : CaptureCounts
  pub events : List CanonicalEvent
  pub closed : Bool

pub record CaptureHealth : Type 0 where
  pub queue_depth : ℕ
  pub queue_capacity : ℕ
  pub workers_alive : Bool

pub new_capture : ℕ → CaptureBackend
new_capture capacity = record {
  capacity = capacity;
  stats = record { enqueued = 0; dropped_debug = 0; dropped_telemetry = 0; flushes = 0 };
  events = [];
  closed = false;
}

-- The counter of an overflow goes by the class of the event that comes in.
pub count_overflow : Delivery → CaptureCounts → CaptureCounts
count_overflow debug c = record c { dropped_debug = c.dropped_debug + 1 }
count_overflow _ c = record c { dropped_telemetry = c.dropped_telemetry + 1 }

pub emit : CaptureBackend → CanonicalEvent → EmitResult × CaptureBackend
emit b e =
    let overflow = length b.events == b.capacity in
    let counted : CaptureCounts = record b.stats { enqueued = b.stats.enqueued + 1 } in
    if b.closed then (dropped_result "closed", b) else (
      record { accepted = true; enqueued = false; spooled = false; dropped = false; reason = none },
      record b {
        events = push b.capacity b.events e;
        stats = if overflow then count_overflow e.delivery counted else counted;
      },
    )

pub clear : CaptureBackend → CaptureBackend
clear b = record b { events = [] }

pub flush : CaptureBackend → Bool × CaptureBackend
flush b = (true, record b { stats = record b.stats { flushes = b.stats.flushes + 1 } })

pub health : CaptureBackend → CaptureHealth
health b = record {
  queue_depth = length b.events;
  queue_capacity = b.capacity;
  workers_alive = true;
}

pub close : CaptureBackend → CaptureBackend
close b = record b { closed = true }
