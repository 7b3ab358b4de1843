-- ===== src/Tests/Resilient.antt =====
-- The breaker, and calls under a policy.
use multi_plantform_poster.Base.{
  ◌≡◌, refl, true, false, none, some, List, [], ◌∷◌, ◌==◌, arith, if◌then◌else◌, length, pos, inl,
}
use multi_plantform_poster.Base.Text.{codes}
use multi_plantform_poster.Fault.{deadline_exceeded, redis_nil, canceled}
use multi_plantform_poster.Resilience.Breaker.{
  CircuitBreaker, CircuitState, circuit_closed, new_circuit_breaker, allow, Call, allows, records,
  run_calls, record_failures,
}
use multi_plantform_poster.Resilience.Breaker.Invariant.{
  IsSound, run_calls_from_new, record_failures-threshold,
}
use multi_plantform_poster.Resilience.Policy.{Policy, IsNormal}
use multi_plantform_poster.Resilience.Operation.{Environment, run}
use multi_plantform_poster.Resilience.Operation.Retries.{Spec, delays, run-Spec, run-delays}
use multi_plantform_poster.Resilience.RoundTrip.{
  Request, no_body, other_method, response, round_trip,
}
use multi_plantform_poster.Resilience.RoundTrip.Responses.{
  Settles, round_trip-Settles, round_trip_unsafe_once,
}
use multi_plantform_poster.RedisDegrade.{Guard, state, retryable_redis_error, call}
use multi_plantform_poster.RedisDegrade.Calls.{Calls, failing_call_opens}

abbrev fresh : CircuitBreaker
fresh = record {
  failure_threshold = 2;
  open_after = 10;
  state = circuit_closed;
  failures = 0;
  opened_at = 0;
  half_open_in_flight = false;
}

abbrev tripped : CircuitBreaker
tripped = record fresh { state = CircuitState.circuit_open; failures = 2; opened_at = 5 }

abbrev calls : List Call
calls = records 1 false ∷ records 2 false ∷ allows 3 ∷ []

run_calls_from_new_example : IsSound (run_calls (new_circuit_breaker (pos 2) (pos 10)) calls)
run_calls_from_new_example = run_calls_from_new (pos 2) (pos 10) calls

record_failures-threshold_example :
    let b' = record_failures fresh (3 ∷ 4 ∷ []) in
    (b'.failures ≡ 2) × (b'.state ≡ CircuitState.circuit_open) × (b'.opened_at ≡ 4)
record_failures-threshold_example = record_failures-threshold fresh 3 (4 ∷ []) refl (omega arith)

abbrev policy : Policy
policy = record {
  name = codes "p";
  max_attempts = 3;
  initial_backoff = 4;
  max_backoff = 10;
  failure_threshold = 2;
  open_after = 10;
}

policy-IsNormal : IsNormal policy
policy-IsNormal = record { attempts = omega arith; backoffs = omega arith }

-- The first attempt runs out of time, the second succeeds.
abbrev env : Environment
env = record {
  operation = λ i. if i == 1 then some deadline_exceeded else none;
  sleep = λ i. none;
  clock = λ i. i;
}

run-Spec_example : Spec env policy (allow 1 fresh).0 1 (run env policy 1 fresh)
unfolding allow
run-Spec_example = run-Spec env policy 1 fresh policy-IsNormal refl

run-delays_example :
    (run env policy 1 fresh).sleeps ≡ delays env policy 0 (length (run env policy 1 fresh).sleeps)
run-delays_example = run-delays env policy 1 fresh policy-IsNormal (omega arith)

abbrev web : multi_plantform_poster.Resilience.RoundTrip.Environment
web = record {
  exchange = λ i. record { status = some 503; error = none };
  sleep = λ i. none;
  clock = λ i. i;
}

abbrev post : Request
post = record { method = other_method (codes "POST"); body = no_body }

round_trip-Settles_example :
    Settles web policy true post (allow 1 fresh).0 0 (round_trip web policy true post 1 fresh)
unfolding allow
round_trip-Settles_example =
    round_trip-Settles web policy true post 1 fresh (λ i. inl refl) policy-IsNormal refl

round_trip_unsafe_once_example :
    let o = round_trip web policy false post 1 fresh in
    (o.last ≡ 1) × (o.closed ≡ []) × (o.returned ≡ response web 1) × (o.error ≡ none)
unfolding allow
round_trip_unsafe_once_example =
    round_trip_unsafe_once web policy post (codes "POST") 1 fresh policy-IsNormal refl refl

abbrev guard : Guard
guard = record { group = codes "rate_limit"; enabled = true; breaker = some fresh }

abbrev refusing : Guard
refusing = record guard { breaker = some tripped }

abbrev nearly : CircuitBreaker
nearly = record fresh { failures = 1 }

abbrev nearly_guard : Guard
nearly_guard = record guard { breaker = some nearly }

failing_call_opens_example :
    let g' = (call 1 2 tt (some deadline_exceeded) (some nearly_guard)).0 in
    (state g' ≡ CircuitState.circuit_open) × ((call 5 6 tt none g').1.value ≡ none)
unfolding retryable_redis_error
failing_call_opens_example =
    failing_call_opens 1 2 5 6 (some deadline_exceeded) none nearly_guard nearly refl refl refl refl
      refl (omega arith)

abbrev misses : Calls
misses = (1, (2, some redis_nil)) ∷ (3, (4, none)) ∷ (5, (6, some canceled)) ∷ []
