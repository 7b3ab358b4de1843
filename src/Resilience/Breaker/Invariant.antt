-- ===== src/Resilience/Breaker/Invariant.antt =====
-- What holds of a breaker between two calls, and what it takes to open one.
use multi_plantform_poster.Base.{
  ℕ, zero, suc, ◌+◌, ◌≤◌, ◌<◌, ◌≡◌, true, false, List, [], ◌∷◌, ℤ, pos, negsuc, arith, length, ◌==◌,
  if◌then◌else◌,
}
use multi_plantform_poster.Resilience.Breaker.{
  CircuitState, CircuitBreaker, circuit_closed, circuit_open, circuit_half_open, Call, allows,
  records, new_circuit_breaker, record_result, step, run_calls, record_failures,
}

-- What each state says of the count of failures and of the probe.
abbrev pub InState : CircuitState → CircuitBreaker → Type 0
InState circuit_closed b = (b.failures < b.failure_threshold) × (b.half_open_in_flight ≡ false)
InState circuit_open b = (b.failures ≡ b.failure_threshold) × (b.half_open_in_flight ≡ false)
InState circuit_half_open b = (b.failures ≡ b.failure_threshold) × (b.half_open_in_flight ≡ true)

pub record IsSound (b : CircuitBreaker) : Type 0 where
  pub positive : 0 < b.failure_threshold
  pub delay : 0 < b.open_after
  pub in_state : InState b.state b

new_circuit_breaker-IsSound : (threshold delay : ℤ) → IsSound (new_circuit_breaker threshold delay)
unfolding new_circuit_breaker
new_circuit_breaker-IsSound (pos zero) (pos zero) = ground arith
new_circuit_breaker-IsSound (pos zero) (pos (suc n)) = ground arith
new_circuit_breaker-IsSound (pos zero) (negsuc n) = ground arith
new_circuit_breaker-IsSound (pos (suc m)) (pos zero) = ground arith
new_circuit_breaker-IsSound (pos (suc m)) (pos (suc n)) = ground arith
new_circuit_breaker-IsSound (pos (suc m)) (negsuc n) = ground arith
new_circuit_breaker-IsSound (negsuc m) (pos zero) = ground arith
new_circuit_breaker-IsSound (negsuc m) (pos (suc n)) = ground arith
new_circuit_breaker-IsSound (negsuc m) (negsuc n) = ground arith

pub step-IsSound : (b : CircuitBreaker) (c : Call) → IsSound b → IsSound (step b c)
unfolding step
step-IsSound b (allows now) h = ground arith
step-IsSound b (records now success) h = ground arith

run_calls-IsSound : (b : CircuitBreaker) (cs : List Call) → IsSound b → IsSound (run_calls b cs)
unfolding run_calls
run_calls-IsSound b [] h = h
run_calls-IsSound b (c ∷ cs) h = run_calls-IsSound (step b c) cs (step-IsSound b c h)

-- After any calls on a new breaker, made in any order and at any times: a closed breaker has
-- fewer failures than its threshold, an open or half-open one has exactly as many, and a probe is
-- in flight exactly while the breaker is half-open.
pub run_calls_from_new :
    (threshold delay : ℤ) (cs : List Call)
    → IsSound (run_calls (new_circuit_breaker threshold delay) cs)
run_calls_from_new threshold delay cs =
    run_calls-IsSound _ cs (new_circuit_breaker-IsSound threshold delay)

abbrev pub last_or : ℕ → List ℕ → ℕ
last_or d [] = d
last_or d (t ∷ ts) = last_or t ts

-- From a closed breaker, a row of failures that does not pass the threshold is counted; the breaker
-- opens exactly if the last of them reaches the threshold, and then at the time of that failure.
pub record_failures-threshold :
    (b : CircuitBreaker) (t : ℕ) (times : List ℕ)
    → b.state ≡ circuit_closed
    → b.failures + suc (length times) ≤ b.failure_threshold
    → let b' = record_failures b (t ∷ times) in
      let full = b.failures + suc (length times) == b.failure_threshold in
      (b'.failures ≡ b.failures + suc (length times))
      × (b'.state ≡ (if full then circuit_open else circuit_closed))
      × (b'.opened_at ≡ (if full then last_or t times else b.opened_at))
unfolding record_failures record_result
record_failures-threshold b t [] closed h = ground arith
record_failures-threshold b t (u ∷ ts) closed h =
    ground (arith, record_failures-threshold (record_result t false b) u ts)
