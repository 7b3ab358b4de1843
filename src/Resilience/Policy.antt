-- ===== src/Resilience/Policy.antt =====
-- The policies of backend/internal/pkg/resilience/resilience.go, how they are normalised, the
-- registry of breakers by name, and the growth of the backoff. Durations are nanoseconds.
use multi_plantform_poster.Base.{
  ℕ, zero, suc, ◌*◌, ◌^◌, ◌≤◌, ◌≡◌, Option, none, some, List, [], ◌∷◌, ℤ, pos, negsuc, positive_or,
  clip, max, min, ap, ◌<◌, ltb, leb, ◌==◌, if◌then◌else◌, arith,
}
use native.Mathlib.Nat.{pow-suc}
use multi_plantform_poster.Base.Text.{Text, codes, text_eq, text_eq_refl}
use multi_plantform_poster.Resilience.Breaker.{CircuitBreaker, new_circuit_breaker, second}

-- OperationPolicy, and HTTPPolicy less `RetryUnsafeMethods`. The `Sleep` of a policy is an
-- argument of the loops.
pub record RawPolicy : Type 0 where
  pub name : Text
  pub max_attempts : ℤ
  pub initial_backoff : ℤ
  pub max_backoff : ℤ
  pub failure_threshold : ℤ
  pub open_after : ℤ

-- A normalised policy has no negative number.
pub record Policy : Type 0 where
  pub name : Text
  pub max_attempts : ℕ
  pub initial_backoff : ℕ
  pub max_backoff : ℕ
  pub failure_threshold : ℕ
  pub open_after : ℕ

abbrev pub millisecond : ℕ
millisecond = 1000000

pub default_http_policy : Text → RawPolicy
default_http_policy name = record {
  name = name;
  max_attempts = pos 3;
  initial_backoff = pos (200 * millisecond);
  max_backoff = pos (2 * second);
  failure_threshold = pos 5;
  open_after = pos (30 * second);
}

unfoldable pub default_operation_policy : Text → RawPolicy
default_operation_policy name = record {
  name = name;
  max_attempts = pos 2;
  initial_backoff = pos (500 * millisecond);
  max_backoff = pos (2 * second);
  failure_threshold = pos 3;
  open_after = pos (60 * second);
}

name_or : Text → Text → Text
name_or d [] = d
name_or d (c ∷ cs) = c ∷ cs

-- `policy.MaxBackoff < policy.InitialBackoff` is tested after the initial backoff is clipped, so
-- the larger of the two is left.
normalize : Text → RawPolicy → Policy
unfolding name_or
normalize d p = record {
  name = name_or d p.name;
  max_attempts = positive_or 1 p.max_attempts;
  initial_backoff = clip p.initial_backoff;
  max_backoff = max (clip p.max_backoff) (clip p.initial_backoff);
  failure_threshold = positive_or 1 p.failure_threshold;
  open_after = positive_or (30 * second) p.open_after;
}

unfoldable pub normalize_http_policy : RawPolicy → Policy
unfolding normalize
normalize_http_policy p = normalize (codes "external") p

unfoldable pub normalize_operation_policy : RawPolicy → Policy
unfolding normalize
normalize_operation_policy p = normalize (codes "external-operation") p

pub record IsNormal (p : Policy) : Type 0 where
  pub attempts : 1 ≤ p.max_attempts
  pub backoffs : p.initial_backoff ≤ p.max_backoff

positive_or-pos : (d : ℕ) (n : ℤ) → 1 ≤ d → 1 ≤ positive_or d n
positive_or-pos d (pos zero) h = h
positive_or-pos d (pos (suc n)) h = omega arith
positive_or-pos d (negsuc n) h = h

pub normalize_operation_policy-IsNormal : (p : RawPolicy) → IsNormal (normalize_operation_policy p)
unfolding normalize_operation_policy
normalize_operation_policy-IsNormal p = record {
  attempts = positive_or-pos 1 p.max_attempts (omega arith);
  backoffs = omega arith;
}

pub normalize_http_policy-IsNormal : (p : RawPolicy) → IsNormal (normalize_http_policy p)
unfolding normalize_http_policy
normalize_http_policy-IsNormal p = record {
  attempts = positive_or-pos 1 p.max_attempts (omega arith);
  backoffs = omega arith;
}

-- nextBackoff. A product of 2 ^ 63 or more wraps to a negative int64, which both `sleepContext`
-- and the next call of nextBackoff take for no delay: it is written 0.
unfoldable pub next_backoff : ℕ → ℕ → ℕ
next_backoff current limit =
    if current == 0
    then 0
    else if leb (2 ^ 63) (current * 2)
    then 0
    else if ltb limit (current * 2)
    then limit
    else current * 2

-- `breakers.byName`. A breaker is shared by all that ask for its name.

pub find_breaker : Text → List (Text × CircuitBreaker) → Option CircuitBreaker
find_breaker name [] = none
find_breaker name ((n, b) ∷ rest) =
    let later = find_breaker name rest in if text_eq n name then some b else later

-- breakerFor and breakerForOperation
pub breaker_for :
    Policy → List (Text × CircuitBreaker) → CircuitBreaker × List (Text × CircuitBreaker)
unfolding find_breaker
breaker_for p registry = elim (find_breaker p.name registry) [
  | some b ↦ (b, registry)
  | none ↦
      let b = new_circuit_breaker (pos p.failure_threshold) (pos p.open_after) in
      (b, (p.name, b) ∷ registry)
]

-- Two policies of one name share one breaker, and the settings of the first one count: what the
-- second call returns is what the first one returned, and it leaves the registry as it was.
pub breaker_for_shared :
    (p q : Policy) (registry : List (Text × CircuitBreaker))
    → q.name ≡ p.name
    → breaker_for q (breaker_for p registry).1 ≡ breaker_for p registry
unfolding breaker_for
breaker_for_shared p q registry e = ground (arith, text_eq_refl p.name)

-- The delays of a policy by their numbers: doubled from the first, up to the limit.
abbrev pub delay_at : ℕ → ℕ → ℕ → ℕ
delay_at initial limit i = min (initial * 2 ^ i) limit

next_backoff-min :
    (x limit : ℕ) → limit < 2 ^ 62 → next_backoff (min x limit) limit ≡ min (x * 2) limit
unfolding next_backoff
next_backoff-min x limit h = ground arith

pub next_backoff-delay_at :
    (initial limit i : ℕ)
    → limit < 2 ^ 62
    → next_backoff (delay_at initial limit i) limit ≡ delay_at initial limit (suc i)
next_backoff-delay_at initial limit i h =
    rw (next_backoff-min (initial * 2 ^ i) limit h)
      (omega (arith, ap (λ (t : ℕ). initial * t) (pow-suc 2 i)))
