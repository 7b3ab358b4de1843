-- ===== src/RedisDegrade.antt =====
-- Guard of backend/internal/pkg/redisdegrade/redisdegrade.go: calls of Redis behind a breaker. The
-- configuration is given; the observer of metrics changes nothing that is modelled. What the
-- operation of a call comes to is given with the call.
pub mod Calls
use multi_plantform_poster.Base.{
  ℕ, Bool, true, false, not, ◌||◌, Option, none, some, List, [], ◌∷◌, ◌++◌, ℤ, if◌then◌else◌,
}
use multi_plantform_poster.Base.Text.{Text, codes, to_lower}
use multi_plantform_poster.Fault.{
  Fault, circuit_open, wrap, is_canceled, is_deadline_exceeded, is_redis_nil, is_circuit_open,
  error_text, contains_any,
}
use multi_plantform_poster.Resilience.Breaker.{
  CircuitBreaker, CircuitState, new_circuit_breaker, allow_ptr, record_ptr, state_ptr,
}

pub record Guard : Type 0 where
  pub group : Text
  pub enabled : Bool
  pub breaker : Option CircuitBreaker

-- NewGuard, of a configuration
unfoldable pub new_guard : Text → Bool → ℤ → ℤ → Guard
new_guard group enabled threshold cool_down = record {
  group = group;
  enabled = enabled;
  breaker = if not enabled then none else some (new_circuit_breaker threshold cool_down);
}

-- Guard.State
unfoldable pub state : Option Guard → CircuitState
state none = state_ptr none
state (some g) = state_ptr g.breaker

abbrev redis_fragments : List Text
redis_fragments =
    codes "loading redis is loading the dataset in memory"
    ∷ codes "masterdown"
    ∷ codes "readonly"
    ∷ codes "timeout"
    ∷ codes "timed out"
    ∷ codes "pool timeout"
    ∷ codes "connection refused"
    ∷ codes "connection reset"
    ∷ codes "connection closed"
    ∷ codes "broken pipe"
    ∷ codes "no route to host"
    ∷ codes "network is unreachable"
    ∷ codes "eof"
    ∷ codes "i/o timeout"
    ∷ []

-- retryableRedisError
unfoldable pub retryable_redis_error : Option Fault → Bool
retryable_redis_error none = false
retryable_redis_error (some e) =
    if is_redis_nil e || is_circuit_open e
    then false
    else if is_canceled e
    then false
    else if is_deadline_exceeded e
    then true
    else contains_any (to_lower (error_text e)) redis_fragments

-- ShouldDegrade
unfoldable pub should_degrade : Option Fault → Bool
unfolding retryable_redis_error
should_degrade none = false
should_degrade (some e) = if is_circuit_open e then true else retryable_redis_error (some e)

-- Whether a result counts as a success, by the switch of Guard.record.
abbrev pub is_success : Option Fault → Bool
is_success none = true
is_success (some e) = if is_redis_nil e then true else not (retryable_redis_error (some e))

-- Guard.record, of a guard that is not nil
record_error : ℕ → Option Fault → Guard → Guard
record_error now e g = record g { breaker = record_ptr now (is_success e) g.breaker }

-- What a caller gets: the value of the operation, or none for the zero value of a refused call.
pub record Answer (A : Type 0) : Type 0 where
  pub value : Option A
  pub error : Option Fault

module _ {A : Type 0} where
  abbrev refused : Guard → Answer A
  refused g = record {
    value = none;
    error = some (wrap (codes "redis degraded for " ++ g.group) circuit_open);
  }

  -- Call and CallWork, at the time `now`, on an operation that comes to `value` and `e` at `done`.
  unfoldable pub call : ℕ → ℕ → A → Option Fault → Option Guard → Option Guard × Answer A
  unfolding record_error
  call now done value e none = (none, record { value = some value; error = e })
  call now done value e (some g) =
      if not g.enabled
      then (some g, record { value = some value; error = e })
      else let (b, admitted) = allow_ptr now g.breaker in
        let g' = record g { breaker = b } in
        if not admitted
        then (some g', refused g)
        else (some (record_error done e g'), record { value = some value; error = e })
