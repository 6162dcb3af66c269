-- ===== src/Runtime/Deliver.antt =====
-- `DrainDelivery.deliver` of backends.py: a batch handed to every drain, and the critical events of
-- a batch that a remote drain has rejected. What a drain does with a batch and what the spools do
-- with an event are parameters; a flag beside the state tells a raised exception. `last_ok_at` and
-- `last_error`, which only the health surface reads, are left out.
pub mod Isolation
mod Tests
use phlo_observe.Common.{
  ℕ, ◌+◌, Bool, true, false, ◌&&◌, Option, none, some, List, [], ◌∷◌, if◌then◌else◌, length,
}
use phlo_observe.Runtime.Canonical.{CanonicalEvent, is_critical}

pub record Drain : Type 0 where
  pub number : ℕ
  pub is_remote : Bool
  pub spool_on_failure : Bool

-- What `drain.emit_batch` does: it returns; or it raises; or it raises KeyboardInterrupt or SystemExit.
pub data Handover : Type 0 where
  handed rejected interrupted : Handover

pub record DeliveryCounts : Type 0 where
  pub emitted_events : ℕ
  pub emitted_batches : ℕ
  pub drain_errors : ℕ
  pub spooled_events : ℕ
  pub spool_errors : ℕ

-- `world` is the state of the drains' destinations.
pub record DrainDelivery (D S : Type 0) : Type 0 where
  pub drains : List Drain
  pub telemetry_required : Bool
  pub world : D
  pub spool : S
  pub stats : DeliveryCounts

-- `append` is as in the worker: the number is what the attempt itself has added to `spool_errors`.
module _ {D S : Type 0} (emit_batch : ℕ → D → List CanonicalEvent → D × Handover)
    (append : S → Option ℕ → CanonicalEvent → S × Bool × ℕ) where
  -- `spool_event(event, drain)`
  pub spool_to : Drain → DrainDelivery D S → CanonicalEvent → Bool × DrainDelivery D S
  spool_to drain d e =
      let (spool, accepted, errors) = append d.spool (some drain.number) e in
      if accepted
      then (
        false,
        record d {
          spool = spool;
          stats = record d.stats {
            spooled_events = d.stats.spooled_events + 1;
            spool_errors = d.stats.spool_errors + errors;
          };
        },
      )
      else (
        d.telemetry_required,
        record d {
          spool = spool;
          stats = record d.stats { spool_errors = d.stats.spool_errors + errors + 1 };
        },
      )

  pub spool_one : Drain → DrainDelivery D S → CanonicalEvent → Bool × DrainDelivery D S
  spool_one drain d e = if is_critical e.delivery then spool_to drain d e else (false, d)

  pub spool_criticals : Drain → DrainDelivery D S → List CanonicalEvent → Bool × DrainDelivery D S
  spool_criticals drain d [] = (false, d)
  spool_criticals drain d (e ∷ es) =
      let (raised, d') = spool_one drain d e in
      let rest = spool_criticals drain d' es in if raised then (true, d') else rest

  pub accepted_by : DrainDelivery D S → D → List CanonicalEvent → DrainDelivery D S
  accepted_by d world batch = record d {
    world = world;
    stats = record d.stats { emitted_events = d.stats.emitted_events + length batch };
  }

  pub rejected_by : DrainDelivery D S → D → DrainDelivery D S
  rejected_by d world = record d {
    world = world;
    stats = record d.stats { drain_errors = d.stats.drain_errors + 1 };
  }

  pub reject : List CanonicalEvent → DrainDelivery D S → Drain → Bool × DrainDelivery D S
  reject batch d drain =
      if drain.is_remote && drain.spool_on_failure
      then spool_criticals drain d batch
      else (false, d)

  pub deliver_one : List CanonicalEvent → DrainDelivery D S → Drain → Bool × DrainDelivery D S
  deliver_one batch d drain =
      let (world, answer) = emit_batch drain.number d.world batch in
      elim answer [
        | handed ↦ (false, accepted_by d world batch)
        | rejected ↦ reject batch (rejected_by d world) drain
        | interrupted ↦ (true, record d { world = world })
      ]

  pub deliver_each : List CanonicalEvent → DrainDelivery D S → List Drain → Bool × DrainDelivery D S
  deliver_each batch d [] = (false, d)
  deliver_each batch d (drain ∷ drains) =
      let (raised, d') = deliver_one batch d drain in
      let rest = deliver_each batch d' drains in if raised then (true, d') else rest

  pub count_batch : DrainDelivery D S → DrainDelivery D S
  count_batch d = record d {
    stats = record d.stats { emitted_batches = d.stats.emitted_batches + 1 };
  }

  pub deliver : DrainDelivery D S → List CanonicalEvent → Bool × DrainDelivery D S
  deliver d [] = (false, d)
  deliver d (e ∷ es) =
      let (raised, d') = deliver_each (e ∷ es) d d.drains in
      if raised then (true, d') else (false, count_batch d')
