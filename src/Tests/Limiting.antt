-- ===== src/Tests/Limiting.antt =====
-- A Redis of counters, which obeys the laws, and a bucket of two requests a minute.
use multi_plantform_poster.Base.{
  List, map, map, ℕ, ◌+◌, ◌-◌, ◌<◌, ◌≤◌, ◌≡◌, refl, inl, true, Option, none, some, [], ◌∷◌, arith,
  ltb, if◌then◌else◌,
}
use multi_plantform_poster.Base.Text.{Text, codes, text_eq, text_eq_refl, to_lower, trim_space}
use multi_plantform_poster.RateLimit.{
  Counters, CountersLaws, held, count_of, Bucket, Eval, check_rate_limit_buckets, increment, script,
}
use multi_plantform_poster.RateLimit.Buckets.{Quota, RateLimitConfig}
use multi_plantform_poster.RateLimit.Users.{Call, request_of, user_requests_bound}
use multi_plantform_poster.RateLimit.Window.{Request, count_allowed, count_allowed_bound}

data Cell : Type 0 where
  empty : Cell
  forever : ℕ → Cell
  until : ℕ → ℕ → Cell

abbrev live : Cell → ℕ → Option ℕ
live empty t = none
live (forever n) t = some n
live (until n deadline) t = if ltb t deadline then some n else none

abbrev incr_cell : Cell → ℕ → Cell
incr_cell empty now = forever 1
incr_cell (forever n) now = forever (n + 1)
incr_cell (until n deadline) now = if ltb now deadline then until (n + 1) deadline else forever 1

abbrev expire_cell : Cell → ℕ → ℕ → Cell
expire_cell empty ttl now = empty
expire_cell (forever n) ttl now = until n (now + ttl)
expire_cell (until n deadline) ttl now = if ltb now deadline then until n (now + ttl) else empty

abbrev left : Cell → ℕ → Option ℕ
left empty now = none
left (forever n) now = none
left (until n deadline) now = if ltb now deadline then some (deadline - now) else none

abbrev keep : Text → Cell → (Text → Cell) → Text → Cell
keep key c s other = if text_eq other key then c else s other

abbrev counters : Counters
counters = record {
  Keys = Text → Cell;
  value = λ s key t. live (s key) t;
  incr = λ key now s. (keep key (incr_cell (s key) now) s, count_of (live (s key) now) + 1);
  pexpire = λ key ttl now s. (keep key (expire_cell (s key) ttl now) s, 1);
  pttl = λ s key now. left (s key) now;
}

incr_cell-live :
    (c : Cell) (now n deadline : ℕ)
    → now < deadline
    → ((t : ℕ) → now ≤ t → t < deadline → live c t ≡ held n)
    → (t : ℕ) → now ≤ t
    → t < deadline
    → live (incr_cell c now) t ≡ held (n + 1)
incr_cell-live empty now n deadline h l t a b = let at = l t a b in ground (arith, at)
incr_cell-live (forever m) now n deadline h l t a b = let at = l t a b in ground (arith, at)
incr_cell-live (until m d) now n deadline h l t a b =
    let at = l t a b in let first = l now (omega arith) h in ground (arith, at, first)

expire_cell-live :
    (c : Cell) (ttl now n : ℕ)
    → live c now ≡ held n
    → (t : ℕ) → now ≤ t
    → t < now + ttl
    → live (expire_cell c ttl now) t ≡ held n
expire_cell-live empty ttl now n h t a b = h
expire_cell-live (forever m) ttl now n h t a b = ground (arith, h)
expire_cell-live (until m d) ttl now n h t a b = ground (arith, h)

counters-laws : CountersLaws counters
counters-laws = record {
  incr_value = λ s key now. refl;
  incr_lasts = λ s key now n deadline h l t a b.
      rw (text_eq_refl key) (incr_cell-live (s key) now n deadline h l t a b);
  incr_other = λ s key other now t apart a. rw apart refl;
  pexpire_lasts =
      λ s key ttl now n h t a b. rw (text_eq_refl key) (expire_cell-live (s key) ttl now n h t a b);
  pexpire_other = λ s key other ttl now t apart a. rw apart refl;
}

abbrev two_a_minute : Bucket
two_a_minute = record {
  name = codes "user";
  scope = codes "user";
  identifier = codes "7";
  category = codes "general";
  limit = 2;
  window = 60000;
}

abbrev fine : Text → Eval
fine key = record { error = none; applied = true; done = 0 }

abbrev at : ℕ → Request
at now = record { now = now; buckets = two_a_minute ∷ []; evals = fine }

abbrev nothing : Text → Cell
nothing key = empty

three_requests :
    count_allowed counters (codes "rl") true (at 10 ∷ at 20 ∷ at 30 ∷ []) (none, nothing) ≡ 2
unfolding count_allowed check_rate_limit_buckets increment script text_eq to_lower trim_space
three_requests = refl

after_the_window :
    count_allowed counters (codes "rl") true (at 10 ∷ at 20 ∷ at 60010 ∷ []) (none, nothing) ≡ 3
unfolding count_allowed check_rate_limit_buckets increment script text_eq to_lower trim_space
after_the_window = refl

count_allowed_bound_example :
    count_allowed counters (codes "rl") true (at 10 ∷ at 20 ∷ at 30 ∷ []) (none, nothing) ≤ 2
count_allowed_bound_example =
    count_allowed_bound counters counters-laws (codes "rl") true (at 10 ∷ at 20 ∷ at 30 ∷ [])
      two_a_minute 10 none nothing
      (
        omega arith,
        omega arith,
        inl refl,
        (λ e. omega arith, tt),
        (
          omega arith,
          omega arith,
          inl refl,
          (λ e. omega arith, tt),
          (omega arith, omega arith, inl refl, (λ e. omega arith, tt), tt),
        ),
      )
      (λ t a b. refl)

abbrev generous : Quota
generous = record {
  user_per_minute = 100;
  tenant_per_minute = 100;
  user_per_day = 100;
  tenant_per_day = 100;
}

abbrev config : RateLimitConfig
config = record {
  general_user_per_minute = 2;
  general_tenant_per_minute = 100;
  interface_user_per_minute = 100;
  interface_tenant_per_minute = 100;
  ai = generous;
  publish = generous;
  browser_session = generous;
}

abbrev posted : Text → ℕ → Call
posted route now = record {
  now = now;
  tenant = [];
  method = codes "post";
  path = route;
  url_path = route;
  evals = fine;
}

abbrev calls : List Call
calls = posted (codes "/p/publish") 10 ∷ posted (codes "/ai/x") 20 ∷ posted (codes "/p") 30 ∷ []

user_requests_bound_example :
    count_allowed counters
      (codes "rl")
      true
      (map (request_of config (codes "7")) calls)
      (none, nothing)
    ≤ 2
user_requests_bound_example =
    user_requests_bound counters counters-laws (codes "rl") true config (codes "7") calls 10 none
      nothing (omega arith)
      (omega arith, omega arith, (omega arith, omega arith, (omega arith, omega arith, tt)))
      (λ t a b. refl)
