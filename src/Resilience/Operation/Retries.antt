-- ===== src/Resilience/Operation/Retries.antt =====
-- What a whole call of Run does: when it stops, what it returns, what it tells the breaker and how
-- long it sleeps.
use multi_plantform_poster.Base.{
  ℕ, zero, suc, ◌+◌, ◌≤◌, ◌<◌, ◌≡◌, refl, ◌≢◌, ◌⊎◌, inl, inr, Bool, true, false, not, Option, none,
  some, List, [], ◌∷◌, arith, ◌^◌, length, Option-cases, Bool-cases,
}
use multi_plantform_poster.Fault.{Fault, circuit_open, wrap, retryable_error}
use multi_plantform_poster.Resilience.Breaker.{CircuitBreaker, allow, record_result}
use multi_plantform_poster.Resilience.Policy.{
  Policy, IsNormal, next_backoff, delay_at, next_backoff-delay_at,
}
use multi_plantform_poster.Resilience.Operation.{Environment, Outcome, attempts, run}

-- An attempt that is not to be repeated: it succeeded, or its error is no passing one.
abbrev pub is_settled : Option Fault → Bool
is_settled none = true
is_settled (some e) = not (retryable_error e)

-- Why the attempt numbered `n` is the last, and what is then returned.
abbrev pub Ends : Environment → Policy → ℕ → Option Fault → Type 0
Ends env p n r =
    ((is_settled (env.operation n) ≡ true) × (r ≡ env.operation n))
    ⊎ ((is_settled (env.operation n) ≡ false)
        × (((n ≡ p.max_attempts) × (r ≡ env.operation n))
            ⊎ ((n < p.max_attempts) × (env.sleep n ≢ none) × (r ≡ env.sleep n))))

-- The attempts from `i` to the one before `n` failed in passing, and the sleep after each went
-- through.
abbrev pub Retried : Environment → ℕ → ℕ → Type 0
Retried env i zero = Unit {0}
Retried env i (suc n) =
    (is_settled (env.operation i) ≡ false) × (env.sleep i ≡ none) × Retried env (suc i) n

pub record Spec (env : Environment) (p : Policy) (b : CircuitBreaker) (i : ℕ) (o : Outcome)
    : Type 0 where
  pub retries : ℕ
  pub last_lem : o.last ≡ i + retries
  pub bounded : o.last ≤ p.max_attempts
  pub retried : Retried env i retries
  pub ends : Ends env p o.last o.error
  pub recorded : o.breaker ≡ record_result (env.clock o.last) (is_settled (env.operation o.last)) b

delay_at_zero : (initial limit : ℕ) → initial ≤ limit → initial ≡ delay_at initial limit 0
delay_at_zero initial limit h = omega arith

module _ (env : Environment) (p : Policy) where
  stop-Spec :
      (i : ℕ) (b : CircuitBreaker) (o : Outcome)
      → i ≤ p.max_attempts
      → o.last ≡ i
      → Ends env p i o.error
      → o.breaker ≡ record_result (env.clock i) (is_settled (env.operation i)) b
      → Spec env p b i o
  stop-Spec i b o le l e r = record {
    retries = 0;
    last_lem = omega arith;
    bounded = omega arith;
    retried = tt;
    ends = rw l e;
    recorded = rw l r;
  }

  next-Spec :
      (i backoff : ℕ) (b : CircuitBreaker) (o : Outcome)
      → is_settled (env.operation i) ≡ false
      → env.sleep i ≡ none
      → Spec env p b (suc i) o
      → Spec env p b i (record o { sleeps = backoff ∷ o.sleeps })
  next-Spec i backoff b o f s h = record {
    retries = suc h.retries;
    last_lem = omega (arith, h.last_lem);
    bounded = h.bounded;
    retried = (f, s, h.retried);
    ends = h.ends;
    recorded = h.recorded;
  }

  attempts-slept :
      (rounds i backoff : ℕ) (e : Option Fault) (x : Fault) (b : CircuitBreaker)
      → env.operation i ≡ some x
      → retryable_error x ≡ true
      → i < p.max_attempts
      → env.sleep i ≡ none
      → let next = attempts env p rounds (suc i) (next_backoff backoff p.max_backoff) (some x) b in
        attempts env p (suc rounds) i backoff e b ≡ record next { sleeps = backoff ∷ next.sleeps }
  unfolding attempts
  attempts-slept rounds i backoff e x b d y lt s = ground arith

  attempts-Spec :
      (rounds i backoff : ℕ) (e : Option Fault) (b : CircuitBreaker)
      → i + rounds ≡ p.max_attempts
      → Spec env p b i (attempts env p (suc rounds) i backoff e b)
  unfolding attempts
  attempts-Spec zero i backoff e b h =
      stop-Spec i b _ (omega arith) (ground arith) (ground arith) (ground arith)
  attempts-Spec (suc rounds) i backoff e b h =
      let ih =
        attempts-Spec rounds (suc i) (next_backoff backoff p.max_backoff) (env.operation i) b
          (omega arith) in
      elim (Option-cases (env.operation i)) [
        | inl d ↦ stop-Spec i b _ (omega arith) (ground arith) (ground arith) (ground arith)
        | inr (x, d) ↦ elim (Bool-cases (retryable_error x)) [
          | inr y ↦ stop-Spec i b _ (omega arith) (ground arith) (ground arith) (ground arith)
          | inl y ↦ elim (Option-cases (env.sleep i)) [
            | inr (z, s) ↦
                stop-Spec i b _ (omega arith) (ground arith) (ground arith) (ground arith)
            | inl s ↦
                rw (attempts-slept (suc rounds) i backoff e x b d y (omega arith) s)
                  (next-Spec i backoff b _ (ground arith) s (rw d at ih))
          ]
        ]
      ]

  attempts_from-Spec :
      (rounds i backoff : ℕ) (e : Option Fault) (b : CircuitBreaker)
      → 1 ≤ rounds
      → i + rounds ≡ suc p.max_attempts
      → Spec env p b i (attempts env p rounds i backoff e b)
  attempts_from-Spec zero i backoff e b h k = elim h [ ]
  attempts_from-Spec (suc rounds) i backoff e b h k =
      attempts-Spec rounds i backoff e b (omega arith)

  -- Run, if the breaker lets it through, makes attempts 1, 2, … up to one numbered `last`, which is
  -- at most MaxAttempts. Each attempt before the last failed in passing and was slept after. The
  -- last one is settled (a success, or an error that is not retryable), or is the MaxAttempts-th,
  -- or is followed by a sleep that fails; its own error, or that of the sleep, is returned. The
  -- breaker gets exactly one record: a success exactly if the last attempt is settled.
  pub run-Spec :
      (now : ℕ) (b : CircuitBreaker)
      → IsNormal p
      → (allow now b).1 ≡ true
      → Spec env p (allow now b).0 1 (run env p now b)
  unfolding run
  run-Spec now b n h =
      rw h (attempts_from-Spec p.max_attempts 1 p.initial_backoff none _ n.attempts (omega arith))

  -- The delays with the numbers `k`, `k + 1`, … of the policy.
  abbrev pub delays : ℕ → ℕ → List ℕ
  delays k zero = []
  delays k (suc n) = delay_at p.initial_backoff p.max_backoff k ∷ delays (suc k) n

  attempts-delays :
      (rounds i k : ℕ) (e : Option Fault) (b : CircuitBreaker)
      → p.max_backoff < 2 ^ 62
      → let o = attempts env p rounds i (delay_at p.initial_backoff p.max_backoff k) e b in
        o.sleeps ≡ delays k (length o.sleeps)
  unfolding attempts
  attempts-delays zero i k e b h = refl
  attempts-delays (suc rounds) i k e b h = elim (Option-cases (env.operation i)) [
    | inl d ↦ ground arith
    | inr (x, d) ↦ ground (
      arith,
      attempts-delays rounds (suc i) (suc k) (some x) b h,
      next_backoff-delay_at p.initial_backoff p.max_backoff k h,
    )
  ]

  -- The delays slept are those of the policy in order: the initial one doubled each time, up to
  -- MaxBackoff (of less than 2 ^ 62 ns, so that no product wraps).
  pub run-delays :
      (now : ℕ) (b : CircuitBreaker)
      → IsNormal p
      → p.max_backoff < 2 ^ 62
      → (run env p now b).sleeps ≡ delays 0 (length (run env p now b).sleeps)
  unfolding run
  run-delays now b n h = ground (
    arith,
    n.backoffs,
    delay_at_zero p.initial_backoff p.max_backoff n.backoffs,
    attempts-delays p.max_attempts 1 0 none (allow now b).0 h,
  )

  -- Refused by the breaker, Run makes no attempt, sleeps never, leaves the breaker as it was and
  -- returns ErrCircuitOpen under the policy's name.
  pub run_refused :
      (now : ℕ) (b : CircuitBreaker)
      → (allow now b).1 ≡ false
      → ((run env p now b).error ≡ some (wrap p.name circuit_open))
        × ((run env p now b).breaker ≡ b)
        × ((run env p now b).last ≡ 0)
        × ((run env p now b).sleeps ≡ [])
  unfolding run allow
  run_refused now b h = ground arith
