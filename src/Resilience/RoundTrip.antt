-- ===== src/Resilience/RoundTrip.antt =====
-- ResilientRoundTripper.RoundTrip of backend/internal/pkg/resilience/resilience.go. The base round
-- tripper is a parameter: what it answers to the attempts 1, 2, …
pub mod Responses
use multi_plantform_poster.Base.{
  ℕ, zero, suc, Bool, true, false, not, ◌||◌, Option, none, some, List, [], ◌∷◌, leb, ◌==◌,
  if◌then◌else◌,
}
use multi_plantform_poster.Base.Text.{Text, codes}
use multi_plantform_poster.Fault.{Fault, circuit_open, plain, wrap}
use multi_plantform_poster.Resilience.Breaker.{CircuitBreaker, allow, record_result}
use multi_plantform_poster.Resilience.Policy.{Policy, next_backoff}

pub data Method : Type 0 where
  get head options trace : Method
  other_method : Text → Method

-- The body of a request: none, one that can be sent once, or one with a `GetBody`, which gives an
-- error or not at each attempt.
pub data Body : Type 0 where
  no_body once_body : Body
  replayed : (ℕ → Option Fault) → Body

pub record Request : Type 0 where
  pub method : Method
  pub body : Body

-- What the base round tripper answers: the status of a response, if there is one, and an error.
pub record Exchange : Type 0 where
  pub status : Option ℕ
  pub error : Option Fault

pub record Environment : Type 0 where
  pub exchange : ℕ → Exchange
  pub sleep : ℕ → Option Fault
  pub clock : ℕ → ℕ

-- A response is named by the number of its attempt.
pub record Outcome : Type 0 where
  pub returned : Option ℕ
  pub error : Option Fault
  pub breaker : CircuitBreaker
  pub last : ℕ  -- how many requests were sent
  pub closed : List ℕ  -- the responses whose body was closed, in order

-- cloneRequestForAttempt
clone_request_for_attempt : Request → ℕ → Option Fault
clone_request_for_attempt req attempt = if attempt == 1 then none else elim req.body [
  | no_body ↦ none
  | once_body ↦ some (plain (codes "request body cannot be replayed for retry"))
  | replayed get_body ↦ get_body attempt
]

-- failedHTTPAttempt; 429 and 500 are http.StatusTooManyRequests and http.StatusInternalServerError.
unfoldable pub failed_http_attempt : Exchange → Bool
failed_http_attempt x = elim x.error [
  | some e ↦ true
  | none ↦ elim x.status [ none ↦ true | some code ↦ code == 429 || leb 500 code ]
]

-- methodAllowsRetry, by the `RetryUnsafeMethods` of the policy.
unfoldable pub method_allows_retry : Method → Bool → Bool
method_allows_retry (other_method name) retry_unsafe_methods = retry_unsafe_methods
method_allows_retry safe retry_unsafe_methods = true

-- retryableHTTPFailure
retryable_http_failure : Request → Exchange → Bool → Bool
unfolding method_allows_retry failed_http_attempt
retryable_http_failure req x retry_unsafe_methods =
    if not (method_allows_retry req.method retry_unsafe_methods)
    then false
    else failed_http_attempt x

-- The response of an attempt, if it has one.
abbrev pub response : Environment → ℕ → Option ℕ
response env attempt = elim (env.exchange attempt).status [ none ↦ none | some code ↦ some attempt ]

abbrev pub opt_list : Option ℕ → List ℕ
opt_list none = []
opt_list (some n) = n ∷ []

abbrev close_body : Option ℕ → Outcome → Outcome
close_body none o = o
close_body (some n) o = record o { closed = n ∷ o.closed }

module _ (env : Environment) (p : Policy) (retry_unsafe_methods : Bool) (req : Request) where
  -- A return after the request numbered `attempt`; the clock is read as after that attempt.
  finish : ℕ → Bool → Option ℕ → Option Fault → CircuitBreaker → Outcome
  finish attempt success returned error b = record {
    returned = returned;
    error = error;
    breaker = record_result (env.clock attempt) success b;
    last = attempt;
    closed = [];
  }

  -- Behind the loop.
  after_loop : ℕ → Bool → Option ℕ → Option Fault → CircuitBreaker → Outcome
  unfolding finish
  after_loop attempt failed last_resp last_err b = elim last_err [
    | some e ↦ finish attempt (not failed) none (some e) b
    | none ↦ finish attempt (not failed) last_resp none b
  ]

  -- The body of the loop at the attempt `suc done`; `next` is the rest of the loop, `failed` the
  -- variable of the source.
  round : ℕ → Bool → Outcome → CircuitBreaker → Outcome
  unfolding after_loop
  round done failed next b =
      let attempt = suc done in
      let x = env.exchange attempt in
      let resp = response env attempt in
      elim (clone_request_for_attempt req attempt) [
        | some e ↦ finish done false none (some e) b
        | none ↦
            if not (retryable_http_failure req x retry_unsafe_methods)
            then finish attempt (not (failed_http_attempt x)) resp x.error b
            else if attempt == p.max_attempts
            then after_loop attempt (failed || failed_http_attempt x) resp x.error b
            else close_body resp (elim (env.sleep attempt) [
              | some e ↦ finish attempt false none (some e) b
              | none ↦ next
            ])
      ]

  -- The loop, by the number of rounds left; `lastErr` and `lastResp` are set by each round.
  pub rounds_from : ℕ → ℕ → ℕ → Bool → Option ℕ → Option Fault → CircuitBreaker → Outcome
  unfolding round
  rounds_from zero done backoff failed last_resp last_err b =
      after_loop done failed last_resp last_err b
  rounds_from (suc rounds) done backoff failed last_resp last_err b =
      let x = env.exchange (suc done) in
      let next =
        rounds_from rounds (suc done) (next_backoff backoff p.max_backoff)
          (failed || failed_http_attempt x) (response env (suc done)) x.error b in
      round done failed next b

  -- RoundTrip at the time `now`, on a normalised policy and its breaker.
  unfoldable pub round_trip : ℕ → CircuitBreaker → Outcome
  unfolding rounds_from clone_request_for_attempt retryable_http_failure
  round_trip now b =
      let (b', passed) = allow now b in
      let rest = rounds_from p.max_attempts 0 p.initial_backoff false none none b' in
      if passed then rest else record {
        returned = none;
        error = some (wrap p.name circuit_open);
        breaker = b';
        last = 0;
        closed = [];
      }
