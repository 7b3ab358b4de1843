-- ===== src/Resilience/Breaker.antt =====
-- CircuitBreaker of backend/internal/pkg/resilience/resilience.go. Each method holds the mutex
-- from its first statement to its last, so it is one step. Times are numbers (nanoseconds), and
-- the clock that `b.now` reads is an argument.
pub mod Invariant
pub mod Probing
use multi_plantform_poster.Base.{
  ℕ, zero, suc, ◌+◌, ◌*◌, Bool, true, false, Option, none, some, List, [], ◌∷◌, ℤ, positive_or, leb,
  if◌then◌else◌,
}

pub data CircuitState : Type 0 where
  circuit_closed circuit_open circuit_half_open : CircuitState

-- `name` is only read by the registry, see Policy.
pub record CircuitBreaker : Type 0 where
  pub failure_threshold : ℕ
  pub open_after : ℕ
  pub state : CircuitState
  pub failures : ℕ
  pub opened_at : ℕ
  pub half_open_in_flight : Bool

abbrev pub second : ℕ
second = 1000000000

-- NewCircuitBreaker
unfoldable pub new_circuit_breaker : ℤ → ℤ → CircuitBreaker
new_circuit_breaker failure_threshold open_after = record {
  failure_threshold = positive_or 1 failure_threshold;
  open_after = positive_or (30 * second) open_after;
  state = circuit_closed;
  failures = 0;
  opened_at = 0;
  half_open_in_flight = false;
}

-- Allow, on a breaker that is not nil; `false` stands for ErrCircuitOpen. The test
-- `now - openedAt >= openAfter` is written as a sum, since `-` on ℕ stops at 0.
allow_in : CircuitState → ℕ → CircuitBreaker → CircuitBreaker × Bool
allow_in circuit_closed now b = (b, true)
allow_in circuit_open now b =
    if leb (b.opened_at + b.open_after) now
    then (record b { state = circuit_half_open; half_open_in_flight = true }, true)
    else (b, false)
allow_in circuit_half_open now b =
    if b.half_open_in_flight then (b, false) else (record b { half_open_in_flight = true }, true)

unfoldable pub allow : ℕ → CircuitBreaker → CircuitBreaker × Bool
unfolding allow_in
allow now b = allow_in b.state now b

-- the unexported `open`
open_circuit : ℕ → CircuitBreaker → CircuitBreaker
open_circuit now b = record b { state = circuit_open; opened_at = now; half_open_in_flight = false }

-- `time.Time{}` is read as time 0.
close_circuit : CircuitBreaker → CircuitBreaker
close_circuit b = record b { state = circuit_closed; failures = 0; opened_at = 0 }

record_in : CircuitState → ℕ → Bool → CircuitBreaker → CircuitBreaker
unfolding open_circuit close_circuit
record_in circuit_half_open now success b =
    let b' = record b { half_open_in_flight = false } in
    if success then close_circuit b' else open_circuit now b'
record_in circuit_open now success b = if success then close_circuit b else b
record_in circuit_closed now success b =
    if success
    then record b { failures = 0 }
    else let b' = record b { failures = b.failures + 1 } in
      if leb b.failure_threshold (b.failures + 1) then open_circuit now b' else b'

-- Record, on a breaker that is not nil.
unfoldable pub record_result : ℕ → Bool → CircuitBreaker → CircuitBreaker
unfolding record_in
record_result now success b = record_in b.state now success b

-- The methods on a pointer that may be nil.
unfoldable pub allow_ptr : ℕ → Option CircuitBreaker → Option CircuitBreaker × Bool
unfolding allow
allow_ptr now none = (none, true)
allow_ptr now (some b) = let (b', admitted) = allow now b in (some b', admitted)

unfoldable pub record_ptr : ℕ → Bool → Option CircuitBreaker → Option CircuitBreaker
unfolding record_result
record_ptr now success none = none
record_ptr now success (some b) = some (record_result now success b)

unfoldable pub state_ptr : Option CircuitBreaker → CircuitState
state_ptr none = circuit_closed
state_ptr (some b) = b.state

-- What callers do to a breaker that they share, each call at its time.
pub data Call : Type 0 where
  allows : ℕ → Call
  records : ℕ → Bool → Call

unfoldable pub step : CircuitBreaker → Call → CircuitBreaker
unfolding allow record_result
step b (allows now) = (allow now b).0
step b (records now success) = record_result now success b

unfoldable pub run_calls : CircuitBreaker → List Call → CircuitBreaker
unfolding step
run_calls b [] = b
run_calls b (c ∷ cs) = run_calls (step b c) cs

-- How many of the callers that ask at the given times are let through.
unfoldable pub admitted : CircuitBreaker → List ℕ → ℕ
unfolding allow
admitted b [] = 0
admitted b (now ∷ times) =
    let (b', passed) = allow now b in
    let rest = admitted b' times in if passed then suc rest else rest

-- Failures recorded one after the other at the given times.
unfoldable pub record_failures : CircuitBreaker → List ℕ → CircuitBreaker
unfolding record_result
record_failures b [] = b
record_failures b (now ∷ times) = record_failures (record_result now false b) times
