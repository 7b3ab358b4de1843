-- ===== src/RateLimit/Buckets.antt =====
-- rateLimitBucketsFor of backend/internal/middleware/rate_limit.go. The claims of the token are given:
-- the user's id as the text of a uuid, and the tenant's.
use multi_plantform_poster.Base.{ℕ, ◌*◌, List, [], ◌∷◌, ◌++◌, if◌then◌else◌}
use multi_plantform_poster.Base.Text.{Text, codes, text_eq, to_upper, trim_space}
use multi_plantform_poster.RateLimit.{
  Bucket, Category, rate_limit_category, enabled_rate_limit_buckets,
}

abbrev pub minute : ℕ
minute = 60 * 1000

abbrev pub day : ℕ
day = 24 * (60 * minute)

-- The limits of a kind of request.
pub record Quota : Type 0 where
  pub user_per_minute : ℕ
  pub tenant_per_minute : ℕ
  pub user_per_day : ℕ
  pub tenant_per_day : ℕ

-- RateLimitConfig, its limits; a limit that is not positive is 0.
pub record RateLimitConfig : Type 0 where
  pub general_user_per_minute : ℕ
  pub general_tenant_per_minute : ℕ
  pub interface_user_per_minute : ℕ
  pub interface_tenant_per_minute : ℕ
  pub ai : Quota
  pub publish : Quota
  pub browser_session : Quota

-- newRateLimitBucket
abbrev pub new_rate_limit_bucket : Text → Text → Text → Text → ℕ → ℕ → Bucket
new_rate_limit_bucket name scope identifier category limit window = record {
  name = name;
  scope = scope;
  identifier = identifier;
  category = category;
  limit = limit;
  window = window;
}

abbrev user_scope : Text
user_scope = codes "user"

abbrev tenant_scope : Text
tenant_scope = codes "tenant"

-- The four buckets of a category, whose names begin with `name`.
abbrev pub category_buckets : Text → Text → Quota → Text → Text → List Bucket
category_buckets name category q user_id tenant_id =
    new_rate_limit_bucket (name ++ codes ":minute:user") user_scope user_id category
      q.user_per_minute minute
    ∷ new_rate_limit_bucket (name ++ codes ":minute:tenant") tenant_scope tenant_id category
        q.tenant_per_minute minute
    ∷ new_rate_limit_bucket (name ++ codes ":day:user") user_scope user_id category q.user_per_day
        day
    ∷ new_rate_limit_bucket (name ++ codes ":day:tenant") tenant_scope tenant_id category
        q.tenant_per_day day
    ∷ []

-- The switch on the category.
abbrev pub further_buckets : RateLimitConfig → Category → Text → Text → List Bucket
further_buckets config Category.ai user_id tenant_id =
    category_buckets (codes "ai") (codes "ai") config.ai user_id tenant_id
further_buckets config Category.publish user_id tenant_id =
    category_buckets (codes "publish") (codes "publish") config.publish user_id tenant_id
further_buckets config Category.browser_session user_id tenant_id =
    category_buckets (codes "browser-session") (codes "browser_session") config.browser_session
      user_id tenant_id
further_buckets config Category.general user_id tenant_id = []

abbrev pub general_user_bucket : RateLimitConfig → Text → Bucket
general_user_bucket config user_id =
    new_rate_limit_bucket (codes "general:minute:user") user_scope user_id (codes "general")
      config.general_user_per_minute minute

-- The buckets before those that are not enabled are dropped.
abbrev pub all_buckets : RateLimitConfig → Text → Text → Text → Category → List Bucket
all_buckets config user_id tenant_id interface_id category =
    general_user_bucket config user_id
    ∷ new_rate_limit_bucket (codes "general:minute:tenant") tenant_scope tenant_id (codes "general")
        config.general_tenant_per_minute minute
    ∷ new_rate_limit_bucket (codes "interface:minute:user:" ++ interface_id) user_scope user_id
        (codes "interface") config.interface_user_per_minute minute
    ∷ new_rate_limit_bucket (codes "interface:minute:tenant:" ++ interface_id) tenant_scope
        tenant_id (codes "interface") config.interface_tenant_per_minute minute
    ∷ further_buckets config category user_id tenant_id

-- The tenant of the token, or defaultRateLimitTenantID.
abbrev pub tenant_id_of : Text → Text
tenant_id_of tenant =
    let trimmed = trim_space tenant in if text_eq trimmed [] then codes "default" else trimmed

abbrev pub route_of : Text → Text → Text
route_of path url_path = if text_eq path [] then url_path else path

unfoldable pub rate_limit_buckets_for :
    RateLimitConfig → Text → Text → Text → Text → Text → List Bucket
unfolding enabled_rate_limit_buckets rate_limit_category
rate_limit_buckets_for config user_id tenant method path url_path =
    let upper = to_upper method in
    let route = route_of path url_path in
    enabled_rate_limit_buckets (
      all_buckets config user_id (tenant_id_of tenant) (upper ++ (b':' ∷ route))
        (rate_limit_category upper route))
