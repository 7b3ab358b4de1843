-- ===== src/RateLimit.antt =====
-- The rate limiter of backend/internal/middleware/rate_limit.go: the buckets of a request, their
-- counters on Redis behind the guard of RedisDegrade, and what becomes of the request. The buckets of
-- a request are given; the response's headers and body are left out. All times here are in
-- milliseconds, and all scripts of one request see the time of the request.
pub mod Counting
pub mod Window
pub mod Buckets
pub mod Users
use multi_plantform_poster.Base.{
  ℕ, ◌+◌, ◌-◌, ◌*◌, ◌<◌, ◌≤◌, ◌≡◌, Bool, true, false, not, ◌&&◌, ◌||◌, Option, none, some, List, [],
  ◌∷◌, ◌++◌, ◌==◌, ltb, if◌then◌else◌, keep_if,
}
use multi_plantform_poster.Base.Text.{
  Text, codes, text_eq, to_lower, trim_space, contains, starts_with,
}
use multi_plantform_poster.Fault.{Fault}
use multi_plantform_poster.RedisDegrade.{Guard, Answer, call, should_degrade}
use multi_plantform_poster.RedisKey.{part}
use multi_plantform_poster.Resilience.Breaker.{second}
use mathlib.Core.List.{reverse}

-- Redis at a time, with the commands of the script: the value of a counter is none while its key is not
-- there, and PTTL is none for a negative answer.
pub record Counters : Type 1 where
  pub Keys : Type 0
  pub value : Keys → Text → ℕ → Option ℕ
  pub incr : Text → ℕ → Keys → Keys × ℕ
  pub pexpire : Text → ℕ → ℕ → Keys → Keys × ℕ
  pub pttl : Keys → Text → ℕ → Option ℕ

-- A counter that has counted to `n` from nothing, and what a counter has counted.
abbrev pub held : ℕ → Option ℕ
held n = if n == 0 then none else some n

abbrev pub count_of : Option ℕ → ℕ
count_of none = 0
count_of (some n) = n

-- From `now` to the deadline the counter of the key has counted to `n`.
abbrev pub Lasts : (r : Counters) → r.Keys → Text → ℕ → ℕ → ℕ → Type 0
Lasts r s key now n deadline = (t : ℕ) → now ≤ t → t < deadline → r.value s key t ≡ held n

-- INCR counts up and keeps the deadline, PEXPIRE keeps the value up to a new one, and neither touches
-- another key.
pub record CountersLaws (r : Counters) : Type 0 where
  pub incr_value :
      (s : r.Keys) (key : Text) (now : ℕ) → (r.incr key now s).1 ≡ count_of (r.value s key now) + 1
  pub incr_lasts :
      (s : r.Keys) (key : Text) (now n deadline : ℕ)
      → now < deadline
      → Lasts r s key now n deadline
      → Lasts r (r.incr key now s).0 key now (n + 1) deadline
  pub incr_other :
      (s : r.Keys) (key other : Text) (now t : ℕ)
      → text_eq other key ≡ false
      → now ≤ t
      → r.value (r.incr key now s).0 other t ≡ r.value s other t
  pub pexpire_lasts :
      (s : r.Keys) (key : Text) (ttl now n : ℕ)
      → r.value s key now ≡ held n
      → Lasts r (r.pexpire key ttl now s).0 key now n (now + ttl)
  pub pexpire_other :
      (s : r.Keys) (key other : Text) (ttl now t : ℕ)
      → text_eq other key ≡ false
      → now ≤ t
      → r.value (r.pexpire key ttl now s).0 other t ≡ r.value s other t

-- rateLimitBucket; a limit or window that is not positive is 0.
pub record Bucket : Type 0 where
  pub name : Text
  pub scope : Text
  pub identifier : Text
  pub category : Text
  pub limit : ℕ
  pub window : ℕ

-- rateLimitResult
pub record LimitResult : Type 0 where
  pub bucket : Bucket
  pub current : ℕ
  pub remaining : ℕ
  pub retry_after : ℕ
  pub exceeded : Bool

trim_left_colons : Text → Text
trim_left_colons [] = []
trim_left_colons (x ∷ xs) = let rest = trim_left_colons xs in if x == b':' then rest else x ∷ xs

-- sanitizeRateLimitKeyPart, whose text is that of Part of rediskey.
abbrev sanitize_rate_limit_key_part : Text → Text
sanitize_rate_limit_key_part = part

unfoldable pub rate_limit_redis_key : Text → Bucket → Text
unfolding trim_left_colons part
rate_limit_redis_key prefix b =
    reverse (trim_left_colons (reverse prefix))
    ++ (b':'
        ∷ (sanitize_rate_limit_key_part b.scope
            ++ (b':'
                ∷ (sanitize_rate_limit_key_part b.identifier
                    ++ (b':'
                        ∷ (sanitize_rate_limit_key_part b.category
                            ++ (b':' ∷ sanitize_rate_limit_key_part b.name)))))))

-- enabledRateLimitBuckets
unfoldable pub enabled_rate_limit_buckets : List Bucket → List Bucket
enabled_rate_limit_buckets bs = keep_if (λ b. ltb 0 b.limit && ltb 0 b.window) bs

abbrev has_suffix : Text → Text → Bool
has_suffix s suffix = starts_with (reverse s) (reverse suffix)

pub data Category : Type 0 where
  ai publish browser_session general : Category

-- rateLimitCategory
unfoldable pub rate_limit_category : Text → Text → Category
unfolding to_lower contains starts_with
rate_limit_category method route =
    let lowered = to_lower route in
    let posted = text_eq method (codes "POST") in
    if contains lowered (codes "/ai/")
    then ai
    else if posted && has_suffix lowered (codes "/publish")
    then publish
    else if posted && contains lowered (codes "/browser-session")
    then browser_session
    else general

-- What happens to one evaluation of the script: whether it fails, with or without effect, and when the
-- guard learns of it.
pub record Eval : Type 0 where
  pub error : Option Fault
  pub applied : Bool
  pub done : ℕ

abbrev has_effect : Eval → Bool
has_effect e = elim e.error [ none ↦ true | some f ↦ e.applied ]

pub data Checked : Type 0 where
  exceeds : LimitResult → Checked
  passes : Option LimitResult → Checked
  fails : Fault → Checked

module _ (r : Counters) where
  abbrev first_expires : Text → ℕ → ℕ → r.Keys × ℕ → r.Keys
  first_expires key window now (s, current) =
      if current == 1 then (r.pexpire key window now s).0 else s

  abbrev ttl_or : ℕ → Option ℕ → ℕ
  ttl_or window none = window
  ttl_or window (some ttl) = ttl

  -- redisRateLimitScript: the keys behind it, the count and the time to live.
  unfoldable pub script : Text → ℕ → ℕ → r.Keys → r.Keys × (ℕ × ℕ)
  script key window now s =
      let counted = r.incr key now s in
      let s' = first_expires key window now counted in
      (s', (counted.1, ttl_or window (r.pttl s' key now)))

  abbrev keys_behind : Eval → Option (ℕ × ℕ) → r.Keys → r.Keys → r.Keys
  keys_behind e none s s' = s
  keys_behind e (some v) s s' = if has_effect e then s' else s

  -- incrementRateLimitBucket
  unfoldable pub increment :
      Option Guard → Eval → Text → ℕ → ℕ → r.Keys → (Option Guard × r.Keys) × Answer (ℕ × ℕ)
  unfolding script call
  increment g e key window now s =
      let (s', counted) = script key window now s in
      let (g', a) = call now e.done counted e.error g in ((g', keys_behind e a.value s s'), a)

  abbrev result_of : Bucket → ℕ × ℕ → LimitResult
  result_of b (current, ttl) = record {
    bucket = b;
    current = current;
    remaining = b.limit - current;
    retry_after = ttl;
    exceeded = ltb b.limit current;
  }

  -- `selected.Bucket.Limit == 0` tells that nothing is selected yet, since no enabled bucket has that
  -- limit.
  abbrev select : Option LimitResult → LimitResult → Option LimitResult
  select none new = some new
  select (some old) new = if ltb new.remaining old.remaining then some new else some old

  abbrev zero_or : Option (ℕ × ℕ) → ℕ × ℕ
  zero_or none = (0, 0)
  zero_or (some v) = v

  -- A bucket that is known to be exceeded ends the check, and so does an error.
  abbrev within :
      Bool
      → LimitResult
      → Option Guard × r.Keys
      → (LimitResult → (Option Guard × r.Keys) × Checked)
      → (Option Guard × r.Keys) × Checked
  within true result st next = (st, exceeds result)
  within false result st next = next result

  abbrev judge :
      Option Fault
      → LimitResult
      → Option Guard × r.Keys
      → (LimitResult → (Option Guard × r.Keys) × Checked)
      → (Option Guard × r.Keys) × Checked
  judge (some e) result st next = (st, fails e)
  judge none result st next = within result.exceeded result st next

  -- checkRateLimitBuckets at the time `now`; `evals` says of each key what becomes of its script.
  unfoldable pub check_rate_limit_buckets :
      Text
      → ℕ
      → (Text → Eval)
      → Option LimitResult
      → List Bucket
      → Option Guard × r.Keys
      → (Option Guard × r.Keys) × Checked
  unfolding increment rate_limit_redis_key
  check_rate_limit_buckets prefix now evals selected [] s = (s, passes selected)
  check_rate_limit_buckets prefix now evals selected (b ∷ bs) (g, s) =
      let key = rate_limit_redis_key prefix b in
      let (s', a) = increment g (evals key) key b.window now s in
      judge a.error (result_of b (zero_or a.value)) s'
        λ result. check_rate_limit_buckets prefix now evals (select selected result) bs s'

-- What ApplicationRateLimiter makes of the check: 429, 503, or the next handler.
pub data Decision : Type 0 where
  rate_limited unavailable degraded allowed : Decision

abbrev pub decide : Bool → Checked → Decision
decide fail_open (exceeds r) = rate_limited
decide fail_open (passes r) = allowed
decide fail_open (fails e) = if fail_open && should_degrade (some e) then degraded else unavailable
