-- ===== src/Runtime/Sampling.antt =====
-- sampling.py of observe_core: base rates, policy rules and their evaluation. A
-- rate or a fraction is counted in units of 2^-64, the resolution of `deterministic_fraction`.
pub mod Policy
pub mod Rules
pub mod Log
mod Tests
use Prim.Native.Char.{code}
use phlo_observe.Common.{
  ℕ, ◌+◌, ◌*◌, String, Bool, true, false, ◌&&◌, ◌||◌, not, Option, none, some, List, [], ◌∷◌, ◌==◌,
  str_eq, ltb, leb, if◌then◌else◌, ◌>>=◌, push, length,
}
use phlo_observe.Runtime.Canonical.{Delivery, Outcome, is_critical, is_failure}

pub data Severity : Type 0 where
  trace debug info warn error critical : Severity

pub severity_order : Severity → ℕ
severity_order Severity.trace = 10
severity_order Severity.debug = 20
severity_order Severity.info = 30
severity_order Severity.warn = 40
severity_order Severity.error = 50
severity_order Severity.critical = 60

abbrev pub whole : ℕ
whole = 18_446_744_073_709_551_616

pub record Sampler : Type 0 where
  pub debug_rate : ℕ
  pub telemetry_rate : ℕ

pub record SamplingRule : Type 0 where
  pub name : String
  pub event : Option String
  pub severity : Option Severity
  pub outcome : Option Outcome
  pub min_duration_ms : Option ℕ
  pub environment : Option String
  pub service : Option String
  pub queue_pressure : Option ℕ
  pub rate : Option ℕ
  pub keep : Option Bool
  pub allow_critical : Bool

pub record SamplingContext : Type 0 where
  pub event : String
  pub delivery : Delivery
  pub severity : Severity
  pub outcome : Outcome
  pub duration_ms : Option ℕ
  pub service : Option String
  pub environment : Option String
  pub sample_key : Option String
  pub queue_depth : ℕ
  pub queue_capacity : ℕ

pub data Reason : Type 0 where
  failures_retained critical_never_sampled rule_keep_drop base_rate : Reason
  rule_rate : ℕ → Reason

pub record SamplingDecision : Type 0 where
  pub keep : Bool
  pub rule : Option String
  pub reason : Reason

-- `.*` of a full match: any run of characters without a line break.
any_run : (String → Bool) → String → Bool
any_run rest String.[] = rest String.[]
any_run rest (String.◌∷◌ c s) =
    let deeper = any_run rest s in rest (String.◌∷◌ c s) || (not (code c == b'\n') && deeper)

one_char : ℕ → (String → Bool) → String → Bool
one_char n rest String.[] = false
one_char n rest (String.◌∷◌ c s) = (code c == n) && rest s

-- The pattern of a rule: `*` stands for any run, every other character for itself.
pub glob : String → String → Bool
glob String.[] s = str_eq s ""
glob (String.◌∷◌ p ps) s =
    let rest : String → Bool = λ t. glob ps t in
    if code p == b'*' then any_run rest s else one_char (code p) rest s

abbrev wanted {ℓ} : {A : Type ℓ} → (A → Bool) → Option A → Bool
wanted test none = true
wanted test (some a) = test a

abbrev same_text : Option String → String → Bool
same_text none t = false
same_text (some s) t = str_eq s t

abbrev slow_enough : Option ℕ → ℕ → Bool
slow_enough none bound = false
slow_enough (some duration) bound = leb bound duration

pub outcome_code : Outcome → ℕ
outcome_code Outcome.success = 0
outcome_code Outcome.failure = 1
outcome_code Outcome.cancelled = 2
outcome_code Outcome.partial = 3
outcome_code Outcome.unknown = 4

-- `queue_depth / queue_capacity >= pressure`, multiplied out.
pub pressed : SamplingContext → ℕ → Bool
pressed ctx pressure =
    ltb 0 ctx.queue_capacity && leb (pressure * ctx.queue_capacity) (ctx.queue_depth * whole)

pub matches : SamplingRule → SamplingContext → Bool
unfolding glob severity_order outcome_code pressed
matches rule ctx =
    wanted (λ p. glob p ctx.event) rule.event
    && (wanted (λ floor. leb (severity_order floor) (severity_order ctx.severity)) rule.severity
        && (wanted (λ o. outcome_code ctx.outcome == outcome_code o) rule.outcome
            && (wanted (slow_enough ctx.duration_ms) rule.min_duration_ms
                && (wanted (same_text ctx.environment) rule.environment
                    && (wanted (same_text ctx.service) rule.service
                        && wanted (pressed ctx) rule.queue_pressure)))))

abbrev pub clamp : ℕ → ℕ
clamp rate = if ltb whole rate then whole else rate

pub any_named : String → List SamplingRule → Bool
any_named name [] = false
any_named name (rule ∷ rules) = str_eq rule.name name || any_named name rules

-- `next(..., None)` over the rules that match.
pub first_match : SamplingContext → List SamplingRule → Option SamplingRule
first_match ctx [] = none
first_match ctx (rule ∷ rules) =
    let rest = first_match ctx rules in if matches rule ctx then some rule else rest

abbrev pub allows : Option SamplingRule → Bool
allows none = false
allows (some rule) = rule.allow_critical

abbrev pub key_text : Option String → String
key_text none = ""
key_text (some k) = k

-- `hash` is the fraction that sha256 gives of the parts.
module _ (hash : List String → ℕ) where
  pub rate_of : Sampler → Delivery → ℕ
  rate_of s Delivery.debug = clamp s.debug_rate
  rate_of s Delivery.telemetry = clamp s.telemetry_rate
  rate_of s Delivery.critical = whole

  pub should_keep : Sampler → Delivery → String → Option String → Bool
  should_keep s delivery event sample_key =
      let rate = rate_of s delivery in
      if leb whole rate
      then true
      else if rate == 0
      then false
      else ltb (hash (event ∷ key_text sample_key ∷ [])) rate

  -- What one rule of the loop decides, if it does.
  pub rule_decision : SamplingRule → SamplingContext → Option SamplingDecision
  rule_decision rule ctx =
      if str_eq rule.name "drop_failures"
      then none
      else if matches rule ctx
      then (elim rule.keep [
        | some keep ↦ some (record { keep = keep; rule = some rule.name; reason = rule_keep_drop })
        | none ↦ elim rule.rate [
          | none ↦ none
          | some rate ↦ some (record {
            keep = ltb (hash (ctx.event ∷ key_text ctx.sample_key ∷ rule.name ∷ [])) (clamp rate);
            rule = some rule.name;
            reason = rule_rate (clamp rate);
          })
        ]
      ])
      else none

  pub base_decision : Sampler → SamplingContext → SamplingDecision
  base_decision s ctx = record {
    keep = should_keep s ctx.delivery ctx.event ctx.sample_key;
    rule = none;
    reason = base_rate;
  }

  pub by_rules : Sampler → List SamplingRule → SamplingContext → SamplingDecision
  by_rules s [] ctx = base_decision s ctx
  by_rules s (rule ∷ rules) ctx =
      let rest = by_rules s rules ctx in
      elim (rule_decision rule ctx) [ none ↦ rest | some decision ↦ decision ]

  pub evaluate : Sampler → List SamplingRule → SamplingContext → SamplingDecision
  evaluate s rules ctx =
      if is_failure ctx.outcome && not (any_named "drop_failures" rules)
      then record { keep = true; rule = none; reason = failures_retained }
      else if is_critical ctx.delivery && not (allows (first_match ctx rules))
      then record { keep = true; rule = none; reason = critical_never_sampled }
      else by_rules s rules ctx
