-- ===== src/Fault.antt =====
-- Go errors as the resilience packages read them: the sentinel errors that `errors.Is` looks for,
-- errors made of a text, and `fmt.Errorf("%s: %w")`. Also RetryableError of
-- backend/internal/pkg/resilience/resilience.go.
use multi_plantform_poster.Base.{Bool, true, false, ◌||◌, List, [], ◌∷◌, ◌++◌, if◌then◌else◌}
use multi_plantform_poster.Base.Text.{Text, codes, contains, to_lower}

pub data Fault : Type 0 where
  canceled : Fault  -- context.Canceled
  deadline_exceeded : Fault  -- context.DeadlineExceeded
  redis_nil : Fault  -- redis.Nil
  circuit_open : Fault  -- ErrCircuitOpen
  plain : Text → Fault
  wrap : Text → Fault → Fault

-- The error at the end of the chain of `Unwrap`.
abbrev pub cause : Fault → Fault
cause (wrap prefix e) = cause e
cause e = e

abbrev pub is_canceled : Fault → Bool
is_canceled e = elim (cause e) [ canceled ↦ true | _ ↦ false ]

abbrev pub is_deadline_exceeded : Fault → Bool
is_deadline_exceeded e = elim (cause e) [ deadline_exceeded ↦ true | _ ↦ false ]

abbrev pub is_redis_nil : Fault → Bool
is_redis_nil e = elim (cause e) [ redis_nil ↦ true | _ ↦ false ]

abbrev pub is_circuit_open : Fault → Bool
is_circuit_open e = elim (cause e) [ circuit_open ↦ true | _ ↦ false ]

-- err.Error()
pub error_text : Fault → Text
error_text canceled = codes "context canceled"
error_text deadline_exceeded = codes "context deadline exceeded"
error_text redis_nil = codes "redis: nil"
error_text circuit_open = codes "circuit breaker open"
error_text (plain message) = message
error_text (wrap prefix e) = prefix ++ codes ": " ++ error_text e

pub contains_any : Text → List Text → Bool
contains_any message [] = false
contains_any message (fragment ∷ rest) = contains message fragment || contains_any message rest

abbrev retryable_fragments : List Text
retryable_fragments =
    codes "timeout"
    ∷ codes "timed out"
    ∷ codes "temporary"
    ∷ codes "connection refused"
    ∷ codes "connection reset"
    ∷ codes "bad gateway"
    ∷ codes "service unavailable"
    ∷ codes "gateway timeout"
    ∷ codes "too many requests"
    ∷ codes "returned 429"
    ∷ codes "returned 500"
    ∷ codes "returned 502"
    ∷ codes "returned 503"
    ∷ codes "returned 504"
    ∷ codes "status 429"
    ∷ codes "status 500"
    ∷ codes "status 502"
    ∷ codes "status 503"
    ∷ codes "status 504"
    ∷ []

-- RetryableError of an error that is not nil.
unfoldable pub retryable_error : Fault → Bool
unfolding error_text contains_any contains to_lower
retryable_error e =
    if is_canceled e || is_circuit_open e
    then false
    else if is_deadline_exceeded e
    then true
    else contains_any (to_lower (error_text e)) retryable_fragments
