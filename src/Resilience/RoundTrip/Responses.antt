-- ===== src/Resilience/RoundTrip/Responses.antt =====
-- No response of the base round tripper is lost, requests that must not be repeated are sent once,
-- and the breaker is told of each call once.
use multi_plantform_poster.Base.{
  ℕ, zero, suc, ◌+◌, ◌≤◌, ◌≡◌, refl, sym, ◌≢◌, ◌⊎◌, inl, inr, Bool, ◌||◌, true, false, not, Option,
  none, some, List, [], ◌++◌, arith, ◌==◌, ◌<◌, Option-cases, Bool-cases,
}
use multi_plantform_poster.Base.Text.{Text}
use multi_plantform_poster.Fault.{Fault}
use mathlib.Core.List.{append-nil}
use multi_plantform_poster.Resilience.Breaker.{CircuitBreaker, allow, record_result}
use multi_plantform_poster.Resilience.Policy.{Policy, IsNormal, next_backoff}
use multi_plantform_poster.Resilience.RoundTrip.{
  Environment, Request, Outcome, other_method, response, opt_list, failed_http_attempt, rounds_from,
  round, close_body, clone_request_for_attempt, finish, after_loop, retryable_http_failure,
  round_trip,
}

-- The responses to the requests `suc i` to `i + n`.
abbrev pub responses : Environment → ℕ → ℕ → List ℕ
responses env i zero = []
responses env i (suc n) = opt_list (response env (suc i)) ++ responses env (suc i) n

-- Documented of http.RoundTripper: an error comes with no response.
abbrev pub IsRoundTripper : Environment → Type 0
IsRoundTripper env = (i : ℕ) → ((env.exchange i).error ≡ none) ⊎ ((env.exchange i).status ≡ none)

module _ (env : Environment) (p : Policy) (unsafe : Bool) (req : Request) where
  -- Every response is closed or returned, once; the breaker is told of the last request.
  pub record Settles (b : CircuitBreaker) (i : ℕ) (o : Outcome) : Type 0 where
    pub sent : ℕ
    pub last_lem : o.last ≡ i + sent
    pub bounded : o.last ≤ p.max_attempts
    pub all_settled : o.closed ++ opt_list o.returned ≡ responses env i sent
    pub recorded :
        o.breaker
        ≡ record_result (env.clock o.last) (not (failed_http_attempt (env.exchange o.last))) b

  stop-Settles :
      (i : ℕ) (b : CircuitBreaker) (o : Outcome)
      → i ≤ p.max_attempts
      → o.last ≡ i
      → o.closed ++ opt_list o.returned ≡ []
      → o.breaker ≡ record_result (env.clock i) (not (failed_http_attempt (env.exchange i))) b
      → Settles b i o
  stop-Settles i b o le l c r = record {
    sent = 0;
    last_lem = omega arith;
    bounded = omega arith;
    all_settled = c;
    recorded = rw l r;
  }

  sent-Settles :
      (i : ℕ) (b : CircuitBreaker) (o : Outcome)
      → suc i ≤ p.max_attempts
      → o.last ≡ suc i
      → o.closed ++ opt_list o.returned ≡ opt_list (response env (suc i))
      → o.breaker
        ≡ record_result (env.clock (suc i)) (not (failed_http_attempt (env.exchange (suc i)))) b
      → Settles b i o
  sent-Settles i b o le l c r = record {
    sent = 1;
    last_lem = omega arith;
    bounded = omega arith;
    all_settled = rw c (sym (append-nil _));
    recorded = rw l r;
  }

  next-Settles :
      (i : ℕ) (b : CircuitBreaker) (o : Outcome)
      → Settles b (suc i) o
      → Settles b i (close_body (response env (suc i)) o)
  next-Settles i b o h = record {
    sent = suc h.sent;
    last_lem = ground (arith, h.last_lem);
    bounded = ground (arith, h.bounded);
    all_settled = ground (arith, h.all_settled);
    recorded = ground (arith, h.recorded);
  }

  -- The last request before the one numbered `suc i` failed, if there was one.
  abbrev Failed : ℕ → Type 0
  Failed i = (i ≡ 0) ⊎ (failed_http_attempt (env.exchange i) ≡ true)

  clone_first : (i : ℕ) (e : Fault) → clone_request_for_attempt req (suc i) ≡ some e → i ≢ 0
  unfolding clone_request_for_attempt
  clone_first i e h = ground arith

  retryable-failed :
      (i : ℕ)
      → retryable_http_failure req (env.exchange i) unsafe ≡ true
      → failed_http_attempt (env.exchange i) ≡ true
  unfolding retryable_http_failure
  retryable-failed i h = ground arith

  round-next :
      (i : ℕ) (failed : Bool) (b : CircuitBreaker) (next : Outcome)
      → clone_request_for_attempt req (suc i) ≡ none
      → retryable_http_failure req (env.exchange (suc i)) unsafe ≡ true
      → (suc i == p.max_attempts) ≡ false
      → env.sleep (suc i) ≡ none
      → round env p unsafe req i failed next b ≡ close_body (response env (suc i)) next
  unfolding round
  round-next i failed b next c y m s = rw (c, round, y, m, s)

  after_loop-Settles :
      (i : ℕ) (failed : Bool) (b : CircuitBreaker)
      → IsRoundTripper env
      → suc i ≤ p.max_attempts
      → failed_http_attempt (env.exchange (suc i)) ≡ true
      → let x = env.exchange (suc i) in
        Settles b i (
          after_loop env p unsafe req
            (suc i)
            (failed || failed_http_attempt x)
            (response env (suc i))
            x.error
            b)
  unfolding after_loop
  after_loop-Settles i failed b t le fails =
      sent-Settles i b _ le (ground arith) (ground (arith, t (suc i))) (ground arith)

  interrupted-Settles :
      (i : ℕ) (e : Fault) (b : CircuitBreaker)
      → suc i ≤ p.max_attempts
      → failed_http_attempt (env.exchange (suc i)) ≡ true
      → Settles b i (
          close_body (response env (suc i)) (finish env p unsafe req (suc i) false none (some e) b))
  unfolding finish
  interrupted-Settles i e b le fails =
      sent-Settles i b _ le (ground arith) (ground arith) (ground arith)

  -- One round of the loop, with what the rounds after it give.
  round-Settles :
      (i : ℕ) (failed : Bool) (b : CircuitBreaker) (next : Outcome)
      → IsRoundTripper env
      → suc i ≤ p.max_attempts
      → Failed i
      → (suc i < p.max_attempts
          → failed_http_attempt (env.exchange (suc i)) ≡ true
          → Settles b (suc i) next)
      → Settles b i (round env p unsafe req i failed next b)
  unfolding round
  round-Settles i failed b next t le f n =
      let x = env.exchange (suc i) in
      elim (Option-cases (clone_request_for_attempt req (suc i))) [
        | inr (e, c) ↦
            rw (c, round)
              (stop-Settles i b _ (omega arith) refl refl (ground (arith, clone_first i e c)))
        | inl c ↦ elim (Bool-cases (retryable_http_failure req x unsafe)) [
          | inr y ↦ rw (c, round, y) (sent-Settles i b _ le refl refl refl)
          | inl y ↦
              let fails = retryable-failed (suc i) y in
              elim (Bool-cases (suc i == p.max_attempts)) [
                | inl m ↦ rw (c, round, y, m) (after_loop-Settles i failed b t le fails)
                | inr m ↦ elim (Option-cases (env.sleep (suc i))) [
                  | inl s ↦
                      rw (round-next i failed b next c y m s)
                        (next-Settles i b next (n (ground arith) fails))
                  | inr (e, s) ↦ rw (c, round, y, m, s) (interrupted-Settles i e b le fails)
                ]
              ]
        ]
      ]

  rounds_from-Settles :
      (rounds i backoff : ℕ) (failed : Bool) (resp : Option ℕ) (e : Option Fault)
      (b : CircuitBreaker)
      → IsRoundTripper env
      → 1 ≤ rounds
      → i + rounds ≡ p.max_attempts
      → Failed i
      → Settles b i (rounds_from env p unsafe req rounds i backoff failed resp e b)
  unfolding rounds_from
  rounds_from-Settles zero i backoff failed resp e b t h k f = elim h [ ]
  rounds_from-Settles (suc zero) i backoff failed resp e b t h k f =
      round-Settles i failed b _ t (omega arith) f (λ lt _. absurd (omega arith))
  rounds_from-Settles (suc (suc rounds)) i backoff failed resp e b t h k f =
      let x = env.exchange (suc i) in
      round-Settles i failed b _ t (omega arith) f (λ lt fails.
        rounds_from-Settles (suc rounds) (suc i) (next_backoff backoff p.max_backoff)
          (failed || failed_http_attempt x) (response env (suc i)) x.error b t (omega arith)
          (omega arith) (inr fails))

  -- Over a base that keeps the contract of http.RoundTripper, a call that the breaker lets through
  -- sends at most MaxAttempts requests; each response that comes is either closed or returned, and
  -- once; and the breaker gets one record, a success exactly if the last request did not fail.
  pub round_trip-Settles :
      (now : ℕ) (b : CircuitBreaker)
      → IsRoundTripper env
      → IsNormal p
      → (allow now b).1 ≡ true
      → Settles (allow now b).0 0 (round_trip env p unsafe req now b)
  unfolding round_trip
  round_trip-Settles now b t n h = rw h (
      rounds_from-Settles p.max_attempts 0 p.initial_backoff false none none _ t n.attempts
        (omega arith) (inl refl))

-- A request that the breaker admits, whose method is not GET, HEAD, OPTIONS or TRACE, is sent exactly
-- once under a policy that is normalised and without RetryUnsafeMethods, whatever comes back, and that
-- answer is returned as it came.
pub round_trip_unsafe_once :
    (env : Environment) (p : Policy) (req : Request) (name : Text) (now : ℕ) (b : CircuitBreaker)
    → IsNormal p
    → req.method ≡ other_method name
    → (allow now b).1 ≡ true
    → let o = round_trip env p false req now b in
      (o.last ≡ 1)
      × (o.closed ≡ [])
      × (o.returned ≡ response env 1)
      × (o.error ≡ (env.exchange 1).error)
unfolding round_trip
round_trip_unsafe_once env p req name now b n m h = rw h (once p.max_attempts n.attempts)
  where
    once :
        (rounds : ℕ)
        → 1 ≤ rounds
        → let o =
            rounds_from env p false req rounds 0 p.initial_backoff false none none
              (allow now b).0 in
          (o.last ≡ 1)
          × (o.closed ≡ [])
          × (o.returned ≡ response env 1)
          × (o.error ≡ (env.exchange 1).error)
    once zero h = elim h [ ]
    once (suc rounds) h = ground arith
