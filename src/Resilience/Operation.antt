-- ===== src/Resilience/Operation.antt =====
-- Run of backend/internal/pkg/resilience/resilience.go: one call, with the breaker that it shares
-- taken as it finds it. What other callers do to the breaker is the subject of Breaker.
pub mod Retries
use multi_plantform_poster.Base.{
  ℕ, zero, suc, ◌+◌, Bool, true, false, not, Option, none, some, List, [], ◌∷◌, ◌==◌, if◌then◌else◌,
}
use multi_plantform_poster.Fault.{Fault, circuit_open, wrap, retryable_error}
use multi_plantform_poster.Resilience.Breaker.{CircuitBreaker, allow, record_result}
use multi_plantform_poster.Resilience.Policy.{Policy, next_backoff}

-- What the loop meets at each attempt, from 1: the error of the operation, the error of the sleep
-- after it, and the clock that the breaker reads when the attempt is recorded.
pub record Environment : Type 0 where
  pub operation : ℕ → Option Fault
  pub sleep : ℕ → Option Fault
  pub clock : ℕ → ℕ

pub record Outcome : Type 0 where
  pub error : Option Fault
  pub breaker : CircuitBreaker
  pub last : ℕ  -- the number of the last attempt, 0 if none was made
  pub sleeps : List ℕ  -- the delays slept, in order

abbrev slept : ℕ → Outcome → Outcome
slept delay o = record o { sleeps = delay ∷ o.sleeps }

module _ (env : Environment) (p : Policy) where
  stop : Option Fault → ℕ → Bool → CircuitBreaker → Outcome
  stop error attempt success b = record {
    error = error;
    breaker = record_result (env.clock attempt) success b;
    last = attempt;
    sleeps = [];
  }

  -- The body of the loop after a failed attempt; `next` is the rest of the loop.
  retry : ℕ → ℕ → Fault → CircuitBreaker → Outcome → Outcome
  unfolding stop
  retry attempt backoff e b next =
      if not (retryable_error e)
      then stop (some e) attempt true b
      else if attempt == p.max_attempts
      then stop (some e) attempt false b
      else elim (env.sleep attempt) [
        | some e' ↦ slept backoff (stop (some e') attempt false b)
        | none ↦ slept backoff next
      ]

  -- The loop, by the number of rounds left; `lastErr` is what is returned when none is left.
  pub attempts : ℕ → ℕ → ℕ → Option Fault → CircuitBreaker → Outcome
  unfolding retry
  attempts zero attempt backoff last_err b = stop last_err attempt false b
  attempts (suc rounds) attempt backoff last_err b = elim (env.operation attempt) [
    | none ↦ stop none attempt true b
    | some e ↦
        let next = attempts rounds (suc attempt) (next_backoff backoff p.max_backoff) (some e) b in
        retry attempt backoff e b next
  ]

  -- Run, on a normalised policy and its breaker, at the time `now`.
  unfoldable pub run : ℕ → CircuitBreaker → Outcome
  unfolding attempts
  run now b =
      let (b', passed) = allow now b in
      let rest = attempts p.max_attempts 1 p.initial_backoff none b' in
      if passed
      then rest
      else record { error = some (wrap p.name circuit_open); breaker = b'; last = 0; sleeps = [] }
