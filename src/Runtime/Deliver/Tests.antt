-- ===== src/Runtime/Deliver/Tests.antt =====
-- The theorem on delivery at two concrete drains.
use phlo_observe.Common.{
  ℕ, suc, ◌+◌, ◌≡◌, refl, Bool, true, false, Option, none, List, [], ◌∷◌, fold, ◌≢◌,
}
use phlo_observe.Runtime.Canonical.{CanonicalEvent, Delivery, Outcome, is_critical}
use phlo_observe.Runtime.Deliver.{
  DrainDelivery, Handover, handed, rejected, interrupted, deliver, deliver_each, deliver_one,
  reject, rejected_by, accepted_by, spool_criticals, spool_one, spool_to, count_batch,
}
use phlo_observe.Runtime.Deliver.Isolation.{
  Served, hand_over, ledger_after, ledger_of, deliver-Served,
}

-- The drain of number 0 rejects everything; each of the others counts its batches.
abbrev first_fails : ℕ → ℕ → List CanonicalEvent → ℕ × Handover
first_fails ℕ.zero batches batch = (batches, rejected)
first_fails n batches batch = (batches + 1, handed)

first_fails-IsCalm :
    (number batches : ℕ) (batch : List CanonicalEvent)
    → (first_fails number batches batch).1 ≢ interrupted
first_fails-IsCalm ℕ.zero batches batch = λ p. cc
first_fails-IsCalm (suc n) batches batch = λ p. cc

-- Every other attempt is refused, with an error of the spool's own.
abbrev counting : ℕ → Option ℕ → CanonicalEvent → ℕ × Bool × ℕ
counting ℕ.zero drain e = (1, true, 0)
counting n drain e = (n + 1, false, 1)

abbrev urgent : CanonicalEvent
urgent = record {
  ident = 1;
  event = "run.failed";
  outcome = Outcome.failure;
  delivery = Delivery.critical;
  run_id = none;
  duration_ms = none;
  payload = [];
}

abbrev two_drains : DrainDelivery ℕ ℕ
two_drains = record {
  drains =
      record { number = 0; is_remote = true; spool_on_failure = true }
      ∷ record { number = 1; is_remote = false; spool_on_failure = true }
      ∷ [];
  telemetry_required = false;
  world = 0;
  spool = 0;
  stats = record {
    emitted_events = 0;
    emitted_batches = 0;
    drain_errors = 0;
    spooled_events = 0;
    spool_errors = 0;
  };
}

-- The spool has taken the first event and refused the second, with two errors counted.
delivered_test :
    ledger_of first_fails counting
      (deliver first_fails counting two_drains (urgent ∷ urgent ∷ [])).1
    ≡ record { spools = 2; taken = 1; errors = 2 }
unfolding deliver deliver_each deliver_one reject rejected_by accepted_by spool_criticals spool_one
    spool_to count_batch is_critical
delivered_test = refl

deliver-Served_example :
    Served first_fails counting
      (fold (hand_over first_fails counting (urgent ∷ urgent ∷ [])) 0 two_drains.drains)
      (ledger_after first_fails counting
        (urgent ∷ urgent ∷ [])
        0
        (ledger_of first_fails counting two_drains)
        two_drains.drains)
      (deliver first_fails counting two_drains (urgent ∷ urgent ∷ []))
deliver-Served_example =
    deliver-Served first_fails counting two_drains urgent (urgent ∷ [])
      (λ number world. first_fails-IsCalm number world (urgent ∷ urgent ∷ [])) refl
