-- ===== src/Runtime/Deliver/Isolation.antt =====
-- `DrainDelivery.deliver` of backends.py where telemetry is not required.
use phlo_observe.Common.{
  ℕ, ◌+◌, ◌≡◌, refl, ap, ◌∙◌, Bool, true, false, ◌&&◌, Option, some, List, [], ◌∷◌, arith,
  if◌then◌else◌, fold, Bool-cases, inl, inr, ◌≢◌,
}
use phlo_observe.Runtime.Canonical.{CanonicalEvent, is_critical}
use phlo_observe.Runtime.Deliver.{
  Drain, DrainDelivery, Handover, handed, rejected, interrupted, spool_to, spool_one,
  spool_criticals, accepted_by, rejected_by, reject, deliver_one, deliver_each, count_batch,
  deliver,
}

module _ {D S : Type 0} (emit_batch : ℕ → D → List CanonicalEvent → D × Handover)
    (append : S → Option ℕ → CanonicalEvent → S × Bool × ℕ) where
  -- What the destinations become when every drain gets the batch.
  abbrev pub hand_over : List CanonicalEvent → D → Drain → D
  hand_over batch world drain = (emit_batch drain.number world batch).0

  -- The spools, the events that they have taken, and the errors counted: what is told of them.
  pub record Ledger : Type 0 where
    pub spools : S
    pub taken : ℕ
    pub errors : ℕ

  abbrev pub ledger_of : DrainDelivery D S → Ledger
  ledger_of d = record {
    spools = d.spool;
    taken = d.stats.spooled_events;
    errors = d.stats.spool_errors;
  }

  -- One event written down for a drain: a refused one counts as an error beside those of the spool.
  abbrev pub write_down : ℕ → Ledger → CanonicalEvent → Ledger
  write_down number l e =
      if is_critical e.delivery
      then (let (spools, accepted, errors) = append l.spools (some number) e in
          record {
            spools = spools;
            taken = l.taken + (if accepted then 1 else 0);
            errors = l.errors + errors + (if accepted then 0 else 1);
          })
      else l

  abbrev pub is_owed : Handover → Drain → Bool
  is_owed rejected drain = drain.is_remote && drain.spool_on_failure
  is_owed _ drain = false

  -- What a drain's answer to the batch costs the spools: each critical event of a batch that a remote
  -- drain with the spool option rejects is written down once, in the order of the batch.
  abbrev pub written_for : List CanonicalEvent → Handover → Drain → Ledger → Ledger
  written_for batch answer drain l =
      if is_owed answer drain then fold (write_down drain.number) l batch else l

  -- The drains get the batch one after the other.
  pub ledger_after : List CanonicalEvent → D → Ledger → List Drain → Ledger
  ledger_after batch world l [] = l
  ledger_after batch world l (drain ∷ drains) =
      ledger_after batch (hand_over batch world drain)
        (written_for batch (emit_batch drain.number world batch).1 drain l) drains

  -- A step that raises nothing, and leaves these destinations and this ledger.
  pub record Served (world : D) (ledger : Ledger) (r : Bool × DrainDelivery D S) : Type 0 where
    pub quiet : r.0 ≡ false
    pub relaxed : r.1.telemetry_required ≡ false
    pub reached : r.1.world ≡ world
    pub written : ledger_of r.1 ≡ ledger

  module _ (d : DrainDelivery D S) (h : d.telemetry_required ≡ false) where
    one-Served :
        (drain : Drain) (e : CanonicalEvent)
        → Served d.world
            (write_down drain.number (ledger_of d) e)
            (spool_one emit_batch append drain d e)
    unfolding spool_one spool_to
    one-Served drain e = elim (Bool-cases (is_critical e.delivery)) [
      | inr plain ↦ rw plain (record { quiet = refl; relaxed = h; reached = refl; written = refl })
      | inl crit ↦ elim (Bool-cases (append d.spool (some drain.number) e).1) [
        | inl taken ↦
            rw (crit, taken)
              (record { quiet = refl; relaxed = h; reached = refl; written = ground arith })
        | inr refused ↦
            rw (crit, refused)
              (record { quiet = h; relaxed = h; reached = refl; written = ground arith })
      ]
    ]

  criticals-Served :
      (drain : Drain) (d : DrainDelivery D S) (es : List CanonicalEvent)
      → d.telemetry_required ≡ false
      → Served d.world
          (fold (write_down drain.number) (ledger_of d) es)
          (spool_criticals emit_batch append drain d es)
  unfolding spool_criticals
  criticals-Served drain d [] h = record {
    quiet = refl;
    relaxed = h;
    reached = refl;
    written = refl;
  }
  criticals-Served drain d (e ∷ es) h =
      let one = one-Served d h drain e in
      let rest = criticals-Served drain (spool_one emit_batch append drain d e).1 es one.relaxed in
      rw one.quiet (record {
        quiet = rest.quiet;
        relaxed = rest.relaxed;
        reached = rest.reached ∙ one.reached;
        written = rest.written ∙ ap (λ l. fold (write_down drain.number) l es) one.written;
      })

  reply_to :
      DrainDelivery D S → D → List CanonicalEvent → Handover → Drain → Bool × DrainDelivery D S
  reply_to d world batch answer drain = elim answer [
    | handed ↦ (false, accepted_by emit_batch append d world batch)
    | rejected ↦ reject emit_batch append batch (rejected_by emit_batch append d world) drain
    | interrupted ↦ (true, record d { world = world })
  ]

  reply_to-Served :
      (d : DrainDelivery D S) (world : D) (batch : List CanonicalEvent) (answer : Handover)
      (drain : Drain)
      → answer ≢ interrupted
      → d.telemetry_required ≡ false
      → Served world
          (written_for batch answer drain (ledger_of d))
          (reply_to d world batch answer drain)
  unfolding reply_to accepted_by reject rejected_by
  reply_to-Served d world batch handed drain calm h = record {
    quiet = refl;
    relaxed = h;
    reached = refl;
    written = refl;
  }
  reply_to-Served d world batch rejected drain calm h =
      elim (Bool-cases (drain.is_remote && drain.spool_on_failure)) [
        | inl spools ↦
            rw spools (criticals-Served drain (rejected_by emit_batch append d world) batch h)
        | inr local ↦
            rw local (record { quiet = refl; relaxed = h; reached = refl; written = refl })
      ]
  reply_to-Served d world batch interrupted drain calm h = absurd (calm refl)

  one_drain-Served :
      (batch : List CanonicalEvent) (d : DrainDelivery D S) (drain : Drain)
      → (emit_batch drain.number d.world batch).1 ≢ interrupted
      → d.telemetry_required ≡ false
      → Served
          (hand_over batch d.world drain)
          (written_for batch (emit_batch drain.number d.world batch).1 drain (ledger_of d))
          (deliver_one emit_batch append batch d drain)
  unfolding deliver_one reply_to
  one_drain-Served batch d drain calm h =
      let (world, answer) = emit_batch drain.number d.world batch in
      reply_to-Served d world batch answer drain calm h

  -- No drain answers the batch with KeyboardInterrupt or SystemExit.
  abbrev pub IsCalm : List CanonicalEvent → Type 0
  IsCalm batch = (number : ℕ) (world : D) → (emit_batch number world batch).1 ≢ interrupted

  each-Served :
      (batch : List CanonicalEvent) (d : DrainDelivery D S) (drains : List Drain)
      → IsCalm batch
      → d.telemetry_required ≡ false
      → Served
          (fold (hand_over batch) d.world drains)
          (ledger_after batch d.world (ledger_of d) drains)
          (deliver_each emit_batch append batch d drains)
  unfolding deliver_each ledger_after
  each-Served batch d [] calm h = record {
    quiet = refl;
    relaxed = h;
    reached = refl;
    written = refl;
  }
  each-Served batch d (drain ∷ drains) calm h =
      let one = one_drain-Served batch d drain (calm drain.number d.world) h in
      let d' = (deliver_one emit_batch append batch d drain).1 in
      let rest = each-Served batch d' drains calm one.relaxed in
      rw one.quiet (record {
        quiet = rest.quiet;
        relaxed = rest.relaxed;
        reached = rest.reached ∙ ap (λ w. fold (hand_over batch) w drains) one.reached;
        written =
            rest.written
            ∙ ap (λ w. ledger_after batch w (ledger_of d') drains) one.reached
            ∙ ap (λ l. ledger_after batch (hand_over batch d.world drain) l drains) one.written;
      })

  -- Where telemetry is not required and no drain raises KeyboardInterrupt or SystemExit, delivering a
  -- batch raises nothing; every drain is handed the batch, whatever the drains before it did; and the
  -- spools, the count of spooled events and the count of errors are those after each critical event
  -- that a remote drain with the spool option rejects has been offered once to that drain's spool, the
  -- drains in their order, the events in the order of the batch, and nothing else.
  pub deliver-Served :
      (d : DrainDelivery D S) (e : CanonicalEvent) (es : List CanonicalEvent)
      → IsCalm (e ∷ es)
      → d.telemetry_required ≡ false
      → Served
          (fold (hand_over (e ∷ es)) d.world d.drains)
          (ledger_after (e ∷ es) d.world (ledger_of d) d.drains)
          (deliver emit_batch append d (e ∷ es))
  unfolding deliver count_batch
  deliver-Served d e es calm h =
      let each = each-Served (e ∷ es) d d.drains calm h in
      rw each.quiet (record {
        quiet = refl;
        relaxed = each.relaxed;
        reached = each.reached;
        written = each.written;
      })
