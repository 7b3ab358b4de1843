-- ===== src/RedisDegrade/Calls.antt =====
-- What calls through a guard come to.
use multi_plantform_poster.Base.{
  ℕ, ◌+◌, ◌<◌, ◌≡◌, refl, ap, ◌⊎◌, inl, inr, Bool, true, false, Option, none, some, List, [], ◌∷◌,
  ℤ, arith, All, Bool-cases,
}
use multi_plantform_poster.Base.Text.{Text}
use multi_plantform_poster.Fault.{Fault}
use multi_plantform_poster.Resilience.Breaker.{
  CircuitBreaker, CircuitState, circuit_closed, new_circuit_breaker, allow, record_result,
  allow_ptr, record_ptr, state_ptr,
}
use multi_plantform_poster.RedisDegrade.{
  Guard, new_guard, state, retryable_redis_error, should_degrade, is_success, call,
}

allow_refused :
    (now : ℕ) (b : Option CircuitBreaker) → (allow_ptr now b).1 ≡ false → (allow_ptr now b).0 ≡ b
unfolding allow_ptr allow
allow_refused now none h = cc
allow_refused now (some b) h = ground arith

-- A call either runs its operation and returns what that comes to, or returns an error that
-- ShouldDegrade tells of, without a value and without any change to the guard.
call_degrades :
    {A : Type 0} (now done : ℕ) (value : A) (e : Option Fault) (guard : Option Guard)
    → let (guard', answer) = call now done value e guard in
      ((answer.value ≡ some value) × (answer.error ≡ e))
      ⊎ ((answer.value ≡ none) × (should_degrade answer.error ≡ true) × (guard' ≡ guard))
unfolding call should_degrade
call_degrades now done value e none = inl (refl, refl)
call_degrades now done value e (some g) = elim (Bool-cases g.enabled) [
  | inr off ↦ rw off (inl (refl, refl))
  | inl on ↦ elim (Bool-cases (allow_ptr now g.breaker).1) [
    | inl a ↦ rw (on, a) (inl (refl, refl))
    | inr a ↦
        rw (on, a)
          (inr (
            refl,
            refl,
            ap (λ b. some (record g { enabled = true; breaker = b }))
                (allow_refused now g.breaker a),
          ))
  ]
]

-- The calls of one guard: when each starts and ends, and the error of its operation.
abbrev pub Calls : Type 0
Calls = List (ℕ × (ℕ × Option Fault))

pub run_guarded : Option Guard → Calls → Option Guard
run_guarded g [] = g
run_guarded g ((now, (done, e)) ∷ cs) = run_guarded (call now done tt e g).0 cs

success : (e : Option Fault) → retryable_redis_error e ≡ false → is_success e ≡ true
success none h = refl
success (some e) h = ground arith

record_closed :
    (now done : ℕ) (b : Option CircuitBreaker)
    → state_ptr b ≡ circuit_closed
    → state_ptr (record_ptr done true (allow_ptr now b).0) ≡ circuit_closed
unfolding state_ptr record_ptr allow_ptr allow record_result
record_closed now done none h = refl
record_closed now done (some b) h = ground arith

allow_closed :
    (now : ℕ) (b : Option CircuitBreaker)
    → state_ptr b ≡ circuit_closed
    → state_ptr (allow_ptr now b).0 ≡ circuit_closed
unfolding state_ptr allow_ptr allow
allow_closed now none h = refl
allow_closed now (some b) h = ground arith

call_closed :
    (now done : ℕ) (e : Option Fault) (g : Option Guard)
    → retryable_redis_error e ≡ false
    → state g ≡ circuit_closed
    → state (call now done tt e g).0 ≡ circuit_closed
unfolding call state
call_closed now done e none r h = h
call_closed now done e (some g) r h = elim (Bool-cases g.enabled) [
  | inr off ↦ rw off h
  | inl on ↦ elim (Bool-cases (allow_ptr now g.breaker).1) [
    | inl a ↦ rw (on, a, success e r) (record_closed now done g.breaker h)
    | inr a ↦ rw (on, a) (allow_closed now g.breaker h)
  ]
]

run_closed :
    (cs : Calls) (g : Option Guard)
    → All (λ c. retryable_redis_error c.1.1 ≡ false) cs
    → state g ≡ circuit_closed
    → state (run_guarded g cs) ≡ circuit_closed
unfolding run_guarded
run_closed [] g r h = h
run_closed ((now, (done, e)) ∷ cs) g r h =
    run_closed cs (call now done tt e g).0 r.1 (call_closed now done e g r.0 h)

new-closed :
    (group : Text) (enabled : Bool) (threshold cool_down : ℤ)
    → state (some (new_guard group enabled threshold cool_down)) ≡ circuit_closed
unfolding new_guard state state_ptr new_circuit_breaker
new-closed group enabled threshold cool_down = ground arith

-- Failures of Redis degrade it: an enabled guard whose breaker is closed, one failure short of its
-- threshold, is open after a call that counts as a failure, and a call that follows before the
-- cool-down is over is refused, without running its operation.
pub failing_call_opens :
    (now done later done' : ℕ) (e e' : Option Fault) (g : Guard) (b : CircuitBreaker)
    → g.enabled ≡ true
    → g.breaker ≡ some b
    → b.state ≡ circuit_closed
    → b.failure_threshold ≡ b.failures + 1
    → is_success e ≡ false
    → later < done + b.open_after
    → let g' = (call now done tt e (some g)).0 in
      (state g' ≡ CircuitState.circuit_open) × ((call later done' tt e' g').1.value ≡ none)
unfolding call state state_ptr allow_ptr record_ptr allow record_result
failing_call_opens now done later done' e e' g b on h c t f l = ground arith

-- Errors that do not tell of a failing Redis never degrade it: after any calls through a new guard
-- whose operations succeed, miss a key (redis.Nil), are canceled or fail for other reasons that are
-- not retryable, the state is closed.
pub benign_calls_closed :
    (group : Text) (enabled : Bool) (threshold cool_down : ℤ) (cs : Calls)
    → All (λ c. retryable_redis_error c.1.1 ≡ false) cs
    → state (run_guarded (some (new_guard group enabled threshold cool_down)) cs) ≡ circuit_closed
benign_calls_closed group enabled threshold cool_down cs r =
    run_closed cs (some (new_guard group enabled threshold cool_down)) r
      (new-closed group enabled threshold cool_down)
