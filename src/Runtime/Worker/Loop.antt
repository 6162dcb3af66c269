-- ===== src/Runtime/Worker/Loop.antt =====
-- The worker side of `WorkerBackend` in backends.py: `_worker_loop` item by item, and what `flush` and
-- `close` put into the queue. Several threads share the queue and the admission barrier; each has a
-- batch of its own. What is handed to `DrainDelivery.deliver` is kept as a log of batches.
use phlo_observe.Common.{
  ℕ, ◌+◌, Bool, true, false, Option, List, [], ◌∷◌, ◌++◌, map, ◌==◌, ltb, leb, if◌then◌else◌,
  length, ◌≡◌,
}
use phlo_observe.Runtime.Canonical.{CanonicalEvent}
use phlo_observe.Runtime.Worker.{
  Worker, Item, event, flush_request, stop, take_sequence, mark_completed, emit,
}

-- An event that a thread has taken, with its admission sequence.
abbrev pub Taken : Type 0
Taken = CanonicalEvent × Option ℕ

abbrev pub sequence_of : Taken → Option ℕ
sequence_of t = t.1

abbrev pub event_of : Taken → CanonicalEvent
event_of t = t.0

-- `batches` is what each thread, by its number, holds; `finished` are the requests whose `done` is set.
pub record Pool (S : Type 0) : Type 0 where
  pub worker : Worker S
  pub batches : ℕ → List Taken
  pub batch_size : ℕ
  pub delivered : List (List CanonicalEvent)
  pub drain_flushes : ℕ
  pub flushes : ℕ
  pub finished : List ℕ

module _ {S : Type 0} (append : S → Option ℕ → CanonicalEvent → S × Bool × ℕ) where
  -- `_mark_completed` of a list.
  unfoldable pub mark_each : Worker S → List (Option ℕ) → Worker S
  mark_each w [] = w
  mark_each w (sequence ∷ rest) = mark_each (mark_completed append w sequence) rest

  abbrev pub with_batch : ℕ → List Taken → (ℕ → List Taken) → ℕ → List Taken
  with_batch thread batch batches = λ k. if k == thread then batch else batches k

  -- `deliver`, `_mark_completed` and the new batch.
  unfoldable pub hand_over : ℕ → Pool S → Pool S
  hand_over thread p = record p {
    worker = mark_each p.worker (map sequence_of (p.batches thread));
    delivered = p.delivered ++ map event_of (p.batches thread) ∷ [];
    batches = with_batch thread [] p.batches;
  }

  unfoldable pub take_event : ℕ → Pool S → CanonicalEvent → Pool S
  take_event thread p e = record p {
    worker = (take_sequence append p.worker e).1;
    batches =
        with_batch thread (p.batches thread ++ (e, (take_sequence append p.worker e).0) ∷ [])
          p.batches;
  }

  unfoldable pub finish_request : ℕ → Bool → Pool S → Pool S
  finish_request number drains p = record p {
    drain_flushes = if drains then p.drain_flushes + 1 else p.drain_flushes;
    flushes = p.flushes + 1;
    finished = number ∷ p.finished;
  }

  -- What a thread does with the item it got; false where it ends.
  unfoldable pub on_item : ℕ → Pool S → Item → Bool × Pool S
  on_item thread p (event e) = (true, take_event thread p e)
  on_item thread p (flush_request number drains) =
      (true, finish_request number drains (hand_over thread p))
  on_item thread p stop =
      let settled = hand_over thread p in
      (false, record settled { drain_flushes = settled.drain_flushes + 1 })

  abbrev pub without_first : Pool S → List Item → Pool S
  without_first p items = record p { worker = record p.worker { queue = items } }

  unfoldable pub next_item : ℕ → Pool S → List Item → Bool × Pool S
  next_item thread p [] = (true, p)
  next_item thread p (x ∷ items) = on_item thread (without_first p items) x

  -- One `get` of the inner loop, where there is an item.
  unfoldable pub get_item : ℕ → Pool S → Bool × Pool S
  get_item thread p = next_item thread p p.worker.queue

  -- What follows the inner loop, which a full batch, the deadline or an empty queue ends.
  unfoldable pub end_round : ℕ → Pool S → Pool S
  end_round thread p = elim (p.batches thread) [ [] ↦ p | ◌∷◌ t ts ↦ hand_over thread p ]

  -- One turn of the inner loop, and what follows it where the batch is full.
  unfoldable pub turn : ℕ → Pool S → Bool × Pool S
  turn thread p =
      let got = get_item thread p in
      (
        got.0,
        if leb p.batch_size (length (got.1.batches thread)) then end_round thread got.1 else got.1,
      )

  -- A thread on its own, for a number of turns and to the end of the round then; it stops where it
  -- gets the stop sentinel.
  unfoldable pub work_off : ℕ → ℕ → Pool S → Pool S
  work_off thread ℕ.zero p = end_round thread p
  work_off thread (ℕ.suc n) p =
      let rest = work_off thread n (turn thread p).1 in
      if (turn thread p).0 then rest else (turn thread p).1

  -- `flush` and `close` put a sentinel.
  unfoldable pub put_item : Pool S → Item → Pool S
  put_item p x = record p { worker = record p.worker { queue = p.worker.queue ++ x ∷ [] } }

  unfoldable pub emit_event : Pool S → CanonicalEvent → Pool S
  emit_event p e = record p { worker = (emit append p.worker e).1 }

  -- One step of some thread or caller.
  pub data Step (p : Pool S) : Pool S → Type 0 where
    emitted : (e : CanonicalEvent) → Step p (emit_event p e)
    got :
        (thread : ℕ)
        → ltb (length (p.batches thread)) p.batch_size ≡ true
        → Step p (get_item thread p).1
    ended : (thread : ℕ) → Step p (end_round thread p)
    requested : (number : ℕ) (drains : Bool) → Step p (put_item p (flush_request number drains))
    closed : Step p (put_item p stop)

  pub data Reachable (p : Pool S) : Pool S → Type 0 where
    start : Reachable p p
    next : (q r : Pool S) → Reachable p q → Step q r → Reachable p r

  -- Does `flush` still wait for an event admitted before the target?
  unfoldable pub is_waiting : ℕ → List ℕ → Bool
  is_waiting target [] = false
  is_waiting target (n ∷ ns) = if ltb n target then true else is_waiting target ns
