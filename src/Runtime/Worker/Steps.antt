-- ===== src/Runtime/Worker/Steps.antt =====
-- The worker loop of backends.py and the admission barrier: what each step keeps.
use phlo_observe.Common.{ℕ, ◌≡◌, refl, ap, ◌∙◌, Bool, Option, List, [], ◌∷◌, arith, length}
use phlo_observe.Runtime.Canonical.{CanonicalEvent}
use phlo_observe.Runtime.Worker.{Item, event, flush_request, stop, take_sequence, head_of}
use phlo_observe.Runtime.Worker.Loop.{
  Pool, hand_over, take_event, finish_request, on_item, without_first, next_item, get_item,
  end_round, put_item, emit_event, Step, emitted, got, ended, requested, closed, Reachable, start,
  next,
}
use phlo_observe.Runtime.Worker.Barrier.{
  count_ident, count_ident-append, length-tail_of, without_head,
}
use phlo_observe.Runtime.Worker.Emission.{emit-Tracked}
use phlo_observe.Runtime.Worker.Batches.{held, IsTracked, hand_over-IsTracked, Placed-take_event}

module _ {S : Type 0} (append : S → Option ℕ → CanonicalEvent → S × Bool × ℕ) where
  counted_got :
      (i : ℕ) (sequences : ℕ → List ℕ) (e : CanonicalEvent) (items : List Item)
      → length (sequences i) ≡ count_ident i (event e ∷ items)
      → length (without_head e.ident sequences i) ≡ count_ident i items
  unfolding count_ident
  counted_got i sequences e items h =
      ground (arith, h, length-tail_of (sequences i) (count_ident i items))

  -- The queue of the worker is known.
  get_event-IsTracked :
      (thread : ℕ) (p : Pool S) (e : CanonicalEvent) (items : List Item)
      → p.worker.queue ≡ event e ∷ items
      → IsTracked append p
      → IsTracked append (take_event append thread (without_first append p items) e)
  unfolding take_event take_sequence
  get_event-IsTracked thread p e items shape h = record {
    patient = h.patient;
    counted =
        λ i. counted_got i p.worker.sequences e items (h.counted i ∙ ap (count_ident i) shape);
    placed = λ n there.
        Placed-take_event append thread n e (head_of (p.worker.sequences e.ident))
          p.worker.sequences p.batches refl (h.placed n there);
  }

  get_sentinel-IsTracked :
      (p : Pool S) (x : Item) (items : List Item)
      → ((i : ℕ) → count_ident i (x ∷ items) ≡ count_ident i items)
      → p.worker.queue ≡ x ∷ items
      → IsTracked append p
      → IsTracked append (without_first append p items)
  get_sentinel-IsTracked p x items no_event shape h = record {
    patient = h.patient;
    counted = λ i. h.counted i ∙ ap (count_ident i) shape ∙ no_event i;
    placed = h.placed;
  }

  pub next_item-IsTracked :
      (thread : ℕ) (p : Pool S) (items : List Item)
      → p.worker.queue ≡ items
      → IsTracked append p
      → IsTracked append (next_item append thread p items).1
  unfolding next_item on_item finish_request
  next_item-IsTracked thread p [] shape h = h
  next_item-IsTracked thread p (event e ∷ items) shape h =
      get_event-IsTracked thread p e items shape h
  next_item-IsTracked thread p (flush_request r d ∷ items) shape h =
      let settled = hand_over-IsTracked append thread (without_first append p items) (
        get_sentinel-IsTracked p (flush_request r d) items (λ i. unfold count_ident in refl) shape
          h) in
      record { patient = settled.patient; counted = settled.counted; placed = settled.placed }
  next_item-IsTracked thread p (stop ∷ items) shape h =
      let settled =
        hand_over-IsTracked append thread (without_first append p items)
          (get_sentinel-IsTracked p stop items (λ i. unfold count_ident in refl) shape h) in
      record { patient = settled.patient; counted = settled.counted; placed = settled.placed }

  get_item-IsTracked :
      (thread : ℕ) (p : Pool S) → IsTracked append p → IsTracked append (get_item append thread p).1
  unfolding get_item
  get_item-IsTracked thread p h = next_item-IsTracked thread p p.worker.queue refl h

  pub end_round-IsTracked :
      (thread : ℕ) (p : Pool S) → IsTracked append p → IsTracked append (end_round append thread p)
  unfolding end_round
  end_round-IsTracked thread p h =
      elim (p.batches thread)
        as (λ b. IsTracked append (elim b [ [] ↦ p | ◌∷◌ t ts ↦ hand_over append thread p ])) [
          | [] ↦ h
          | ◌∷◌ t ts ↦ hand_over-IsTracked append thread p h
        ]

  put_item-IsTracked :
      (p : Pool S) (x : Item)
      → ((i : ℕ) → count_ident i (x ∷ []) ≡ 0)
      → IsTracked append p
      → IsTracked append (put_item append p x)
  unfolding put_item
  put_item-IsTracked p x no_event h = record {
    patient = h.patient;
    counted =
        λ i. omega (arith, h.counted i, count_ident-append i p.worker.queue (x ∷ []), no_event i);
    placed = h.placed;
  }

  emit_event-IsTracked :
      (p : Pool S) (e : CanonicalEvent)
      → IsTracked append p
      → IsTracked append (emit_event append p e)
  unfolding emit_event
  emit_event-IsTracked p e h = emit-Tracked append (held append p.batches) p.worker e h

  Step-IsTracked : (p q : Pool S) → Step append p q → IsTracked append p → IsTracked append q
  Step-IsTracked p _ (emitted e) h = emit_event-IsTracked p e h
  Step-IsTracked p _ (got thread room) h = get_item-IsTracked thread p h
  Step-IsTracked p _ (ended thread) h = end_round-IsTracked thread p h
  Step-IsTracked p _ (requested r d) h =
      put_item-IsTracked p (flush_request r d) (λ i. unfold count_ident in refl) h
  Step-IsTracked p _ closed h = put_item-IsTracked p stop (λ i. unfold count_ident in refl) h

  pub Reachable-IsTracked :
      (p q : Pool S) → IsTracked append p → Reachable append p q → IsTracked append q
  Reachable-IsTracked p _ h start = h
  Reachable-IsTracked p _ h (next q r before step) =
      Step-IsTracked q r step (Reachable-IsTracked p q h before)
