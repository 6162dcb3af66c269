-- ===== src/Runtime/Sampling/Log.antt =====
-- The decision log of `PolicySampler` of sampling.py.
use mathlib.Core.List.{append_assoc, append-nil}
use phlo_observe.Common.{
  ℕ, ◌≡◌, sym, ap, ◌∙◌, String, List, [], ◌∷◌, ◌++◌, map, fold, last_entries, last-push, last-last,
}
use phlo_observe.Runtime.Sampling.{SamplingContext, evaluate}
use phlo_observe.Runtime.Sampling.Policy.{PolicySampler, decide}

module _ (hash : List String → ℕ) where
  abbrev pub after_deciding : PolicySampler → SamplingContext → PolicySampler
  after_deciding p ctx = (decide hash p ctx).1

  -- From a log within its size, after any sequence of calls, the log holds the last decisions, those it
  -- had and those that `_evaluate` makes of the calls, up to its size and in the order they were made.
  pub decisions-fold :
      (p : PolicySampler) (ctxs : List SamplingContext)
      → p.decisions ≡ last_entries p.decision_log_size p.decisions
      → (fold after_deciding p ctxs).decisions
        ≡ last_entries p.decision_log_size (p.decisions ++ map (evaluate hash p.base p.rules) ctxs)
  unfolding decide
  decisions-fold p [] full =
      full ∙ ap (last_entries p.decision_log_size) (sym (append-nil p.decisions))
  decisions-fold p (ctx ∷ ctxs) full =
      let made = evaluate hash p.base p.rules ctx in
      decisions-fold (after_deciding p ctx) ctxs
        (sym (last-last p.decision_log_size (p.decisions ++ made ∷ [])))
      ∙ last-push p.decision_log_size (p.decisions ++ made ∷ [])
          (map (evaluate hash p.base p.rules) ctxs)
      ∙ ap (last_entries p.decision_log_size)
          (append_assoc p.decisions (made ∷ []) (map (evaluate hash p.base p.rules) ctxs))
