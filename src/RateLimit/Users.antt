-- ===== src/RateLimit/Users.antt =====
-- What the limit of a user's requests to all routes comes to.
use multi_plantform_poster.Base.{
  ℕ, ◌+◌, ◌<◌, ◌≤◌, ◌≡◌, refl, inl, inr, Bool, true, ◌&&◌, Option, List, [], ◌∷◌, ◌++◌, arith,
  Bool-cases, ltb, All, map,
}
use multi_plantform_poster.Base.Text.{Text, codes, to_upper}
use multi_plantform_poster.RedisDegrade.{Guard}
use multi_plantform_poster.RateLimit.{
  Counters, CountersLaws, Lasts, Bucket, Category, Eval, rate_limit_category,
  enabled_rate_limit_buckets, rate_limit_redis_key,
}
use multi_plantform_poster.RateLimit.Window.{
  IsWide, Has, Request, AreRequests, count_allowed, count_allowed_bound,
}
use multi_plantform_poster.RateLimit.Buckets.{
  minute, Quota, RateLimitConfig, category_buckets, further_buckets, general_user_bucket,
  all_buckets, tenant_id_of, route_of, rate_limit_buckets_for,
}

-- A request of a user: when it is checked, the tenant of its token, its method, its path as a
-- pattern and as a text, and what becomes of the scripts of its keys.
pub record Call : Type 0 where
  pub now : ℕ
  pub tenant : Text
  pub method : Text
  pub path : Text
  pub url_path : Text
  pub evals : Text → Eval

abbrev pub request_of : RateLimitConfig → Text → Call → Request
request_of config user_id c = record {
  now = c.now;
  buckets = rate_limit_buckets_for config user_id c.tenant c.method c.path c.url_path;
  evals = c.evals;
}

-- The requests come in the order of time, from `now` on and before the deadline.
abbrev pub AreWithin : ℕ → ℕ → List Call → Type 0
AreWithin now deadline [] = Unit
AreWithin now deadline (c ∷ cs) = (now ≤ c.now) × (c.now < deadline) × AreWithin c.now deadline cs

abbrev IsLong : Bucket → Type 0
IsLong b = minute ≤ b.window

category_buckets-IsLong :
    (name category : Text) (q : Quota) (user_id tenant_id : Text)
    → All IsLong (category_buckets name category q user_id tenant_id)
category_buckets-IsLong name category q user_id tenant_id =
    (omega arith, (omega arith, (omega arith, (omega arith, tt))))

further_buckets-IsLong :
    (config : RateLimitConfig) (c : Category) (user_id tenant_id : Text)
    → All IsLong (further_buckets config c user_id tenant_id)
further_buckets-IsLong config Category.ai user_id tenant_id =
    category_buckets-IsLong (codes "ai") (codes "ai") config.ai user_id tenant_id
further_buckets-IsLong config Category.publish user_id tenant_id =
    category_buckets-IsLong (codes "publish") (codes "publish") config.publish user_id tenant_id
further_buckets-IsLong config Category.browser_session user_id tenant_id =
    category_buckets-IsLong (codes "browser-session") (codes "browser_session")
      config.browser_session user_id tenant_id
further_buckets-IsLong config Category.general user_id tenant_id = tt

all_buckets-IsLong :
    (config : RateLimitConfig) (user_id tenant_id interface_id : Text) (c : Category)
    → All IsLong (all_buckets config user_id tenant_id interface_id c)
all_buckets-IsLong config user_id tenant_id interface_id c = (
  omega arith,
  (omega arith, (omega arith, (omega arith, further_buckets-IsLong config c user_id tenant_id))),
)

enabled_rate_limit_buckets-IsWide :
    (key prefix : Text) (now deadline : ℕ) (bs : List Bucket)
    → deadline ≤ now + minute
    → All IsLong bs
    → All (IsWide key prefix now deadline) (enabled_rate_limit_buckets bs)
unfolding enabled_rate_limit_buckets
enabled_rate_limit_buckets-IsWide key prefix now deadline [] h a = tt
enabled_rate_limit_buckets-IsWide key prefix now deadline (b ∷ bs) h (long, a) =
    let rest = enabled_rate_limit_buckets-IsWide key prefix now deadline bs h a in
    elim (Bool-cases (ltb 0 b.limit && ltb 0 b.window)) [
      | inl e ↦ rw e ((λ same. omega arith), rest)
      | inr e ↦ rw e rest
    ]

module _ (config : RateLimitConfig) (user_id tenant method path url_path : Text) where
  rate_limit_buckets_for-IsWide :
      (key prefix : Text) (now deadline : ℕ)
      → deadline ≤ now + minute
      → All
          (IsWide key prefix now deadline)
          (rate_limit_buckets_for config user_id tenant method path url_path)
  unfolding rate_limit_buckets_for
  rate_limit_buckets_for-IsWide key prefix now deadline h =
      let route = route_of path url_path in
      let tenant_id = tenant_id_of tenant in
      let interface_id = to_upper method ++ (b':' ∷ route) in
      let category = rate_limit_category (to_upper method) route in
      enabled_rate_limit_buckets-IsWide key prefix now deadline
        (all_buckets config user_id tenant_id interface_id category) h
        (all_buckets-IsLong config user_id tenant_id interface_id category)

  rate_limit_buckets_for-Has :
      0 < config.general_user_per_minute
      → Has
          (general_user_bucket config user_id)
          (rate_limit_buckets_for config user_id tenant method path url_path)
  unfolding rate_limit_buckets_for enabled_rate_limit_buckets
  rate_limit_buckets_for-Has h =
      let positive : ltb 0 config.general_user_per_minute ≡ true = ground (arith, h) in
      rw positive (inl refl)

AreWithin-AreRequests :
    (r : Counters) (prefix : Text) (fail_open : Bool) (config : RateLimitConfig) (user_id : Text)
    (start now : ℕ) (cs : List Call)
    → 0 < config.general_user_per_minute
    → start ≤ now
    → AreWithin now (start + minute) cs
    → AreRequests r prefix fail_open
        (general_user_bucket config user_id)
        now
        (start + minute)
        (map (request_of config user_id) cs)
AreWithin-AreRequests r prefix fail_open config user_id start now [] h le a = tt
AreWithin-AreRequests r prefix fail_open config user_id start now (c ∷ cs) h le (later, less, a) = (
  later,
  less,
  rate_limit_buckets_for-Has config user_id c.tenant c.method c.path c.url_path h,
  rate_limit_buckets_for-IsWide config user_id c.tenant c.method c.path c.url_path _ prefix c.now
      (start + minute) (omega arith),
  AreWithin-AreRequests r prefix fail_open config user_id start c.now cs h (omega arith) a,
)

-- Of the requests of a user that come within a minute, which begins without a counter of the user's
-- requests to all routes, at most GeneralUserPerMinute are allowed by the counters, where that limit
-- is positive: whatever their tenants, methods and routes are, which scripts fail, with or without
-- effect, and which calls the guard refuses. A request that is let through because the limiter is
-- degraded does not count as allowed. Redis obeys its laws.
pub user_requests_bound :
    (r : Counters)
    → CountersLaws r
    → (prefix : Text) (fail_open : Bool) (config : RateLimitConfig) (user_id : Text)
      (cs : List Call) (start : ℕ) (g : Option Guard) (s : r.Keys)
    → 0 < config.general_user_per_minute
    → AreWithin start (start + minute) cs
    → Lasts r s
        (rate_limit_redis_key prefix (general_user_bucket config user_id))
        start
        0
        (start + minute)
    → count_allowed r prefix fail_open (map (request_of config user_id) cs) (g, s)
      ≤ config.general_user_per_minute
user_requests_bound r laws prefix fail_open config user_id cs start g s h a l =
    count_allowed_bound r laws prefix fail_open (map (request_of config user_id) cs)
      (general_user_bucket config user_id) start g s
      (AreWithin-AreRequests r prefix fail_open config user_id start start cs h (omega arith) a) l
