-- ===== src/Runtime/Sampling/Policy.antt =====
-- sampling.py: `PolicySampler` with its decision log, and the rules that the settings give.
use phlo_observe.Common.{
  ℕ, ◌+◌, String, Bool, false, Option, none, some, List, [], ◌∷◌, str_eq, if◌then◌else◌, ◌>>=◌,
  push, length,
}
use phlo_observe.Runtime.Canonical.{Outcome, is_failure}
use phlo_observe.Runtime.Sampling.{
  Severity, Sampler, SamplingRule, SamplingContext, SamplingDecision, evaluate,
}

-- A rule as the settings give it, before the names of enumeration members are looked up.
pub record RuleSettings : Type 0 where
  pub name : Option String
  pub event : Option String
  pub severity : Option String
  pub outcome : Option String
  pub min_duration_ms : Option ℕ
  pub environment : Option String
  pub service : Option String
  pub queue_pressure : Option ℕ
  pub rate : Option ℕ
  pub keep : Option Bool
  pub allow_critical : Option Bool

unfoldable pub severity_named : String → Option Severity
severity_named s =
    if str_eq s "trace"
    then some Severity.trace
    else if str_eq s "debug"
    then some Severity.debug
    else if str_eq s "info"
    then some Severity.info
    else if str_eq s "warn"
    then some Severity.warn
    else if str_eq s "error"
    then some Severity.error
    else if str_eq s "critical"
    then some Severity.critical
    else none

unfoldable pub outcome_named : String → Option Outcome
outcome_named s =
    if str_eq s "success"
    then some Outcome.success
    else if str_eq s "failure"
    then some Outcome.failure
    else if str_eq s "cancelled"
    then some Outcome.cancelled
    else if str_eq s "partial"
    then some Outcome.partial
    else if str_eq s "unknown"
    then some Outcome.unknown
    else none

-- `Enum(value) if value else None`, where an unknown name raises: the outer `none`.
abbrev named_or_absent : {A : Type 0} → (String → Option A) → Option String → Option (Option A)
named_or_absent named none = some none
named_or_absent named (some s) =
    let found = named s in
    if str_eq s "" then some none else elim found [ none ↦ none | some a ↦ some (some a) ]

-- `SamplingRule.from_dict`; `none` is a raised ValueError. The source reads no `allow_critical`,
-- so that field keeps its default.
unfoldable pub rule_from : String → RuleSettings → Option Severity → Option Outcome → SamplingRule
rule_from name d severity outcome = record {
  name = name;
  event = d.event;
  severity = severity;
  outcome = outcome;
  min_duration_ms = d.min_duration_ms;
  environment = d.environment;
  service = d.service;
  queue_pressure = d.queue_pressure;
  rate = d.rate;
  keep = d.keep;
  allow_critical = false;
}

unfoldable pub from_dict : RuleSettings → Option SamplingRule
from_dict d = do
  name ← d.name
  severity ← named_or_absent severity_named d.severity
  outcome ← named_or_absent outcome_named d.outcome
  some (rule_from name d severity outcome)

unfoldable pub rules_from : List RuleSettings → Option (List SamplingRule)
rules_from [] = some []
rules_from (d ∷ ds) = do rule ← from_dict d; rules ← rules_from ds; some (rule ∷ rules)

pub record PolicySampler : Type 0 where
  pub base : Sampler
  pub rules : List SamplingRule
  pub decision_log_size : ℕ
  pub decisions : List SamplingDecision
  pub error_window : List Bool

-- `PolicySampler.from_settings`
unfoldable pub from_settings : Sampler → List RuleSettings → Option PolicySampler
from_settings base dicts = do
  rules ← rules_from dicts
  some (record {
    base = base;
    rules = rules;
    decision_log_size = 1000;
    decisions = [];
    error_window = [];
  })

pub note_outcome : PolicySampler → Outcome → PolicySampler
note_outcome p outcome = record p { error_window = push 512 p.error_window (is_failure outcome) }

failures_in : List Bool → ℕ
failures_in [] = 0
failures_in (b ∷ bs) = let n = failures_in bs in if b then n + 1 else n

-- `recent_error_rate`, as the two numbers of its fraction.
pub recent_error_rate : PolicySampler → ℕ × ℕ
recent_error_rate p = (failures_in p.error_window, length p.error_window)

unfoldable pub decide :
    (List String → ℕ) → PolicySampler → SamplingContext → SamplingDecision × PolicySampler
decide hash p ctx =
    let decision = evaluate hash p.base p.rules ctx in
    (decision, record p { decisions = push p.decision_log_size p.decisions decision })
