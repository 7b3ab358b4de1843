-- ===== src/RateLimit/Window.antt =====
-- How many requests a bucket lets through in one window.
use multi_plantform_poster.Base.{
  ℕ, ◌+◌, ◌-◌, ◌<◌, ◌≤◌, ◌≡◌, refl, sym, ap, subst, ◌∙◌, inl, inr, ◌⊎◌, Bool, true, false, Option,
  none, List, [], ◌∷◌, arith, Bool-cases, if◌then◌else◌, All,
}
use multi_plantform_poster.Base.Text.{Text, text_eq, text_eq_refl}
use multi_plantform_poster.RedisDegrade.{Guard}
use multi_plantform_poster.RateLimit.{
  Counters, CountersLaws, Lasts, Bucket, LimitResult, rate_limit_redis_key, Eval, Checked, exceeds,
  passes, fails, increment, result_of, zero_or, select, check_rate_limit_buckets, Decision, allowed,
  decide,
}
use multi_plantform_poster.RateLimit.Counting.{
  Counts, increment-Counts, increment_ran_as, judge-Counts, judge_passes, below,
}

-- No bucket of this key ends its window before the deadline.
abbrev pub IsWide : Text → Text → ℕ → ℕ → Bucket → Type 0
IsWide key prefix now deadline b =
    text_eq key (rate_limit_redis_key prefix b) ≡ true → deadline ≤ now + b.window

-- The bucket is one of the request's.
abbrev pub Has : Bucket → List Bucket → Type 0
Has b [] = ⊥
Has b (x ∷ xs) = (b ≡ x) ⊎ Has b xs

module _ (r : Counters) (laws : CountersLaws r) (key prefix : Text) (now deadline : ℕ)
    (evals : Text → Eval) where
  check-Counts :
      (selected : Option LimitResult) (bs : List Bucket) (g : Option Guard) (s : r.Keys) (n : ℕ)
      → now < deadline
      → All (IsWide key prefix now deadline) bs
      → Lasts r s key now n deadline
      → Counts r laws key
          (check_rate_limit_buckets r prefix now evals selected bs (g, s)).0.1
          now
          n
          deadline
  unfolding check_rate_limit_buckets
  check-Counts selected [] g s n h w l = (n, omega arith, l)
  check-Counts selected (b ∷ bs) g s n h w l =
      let k = rate_limit_redis_key prefix b in
      let ((g', s'), a) = increment r g (evals k) k b.window now s in
      let res = result_of r b (zero_or r a.value) in
      let (m, le, lasts) =
        increment-Counts r laws key g (evals k) k b.window now n deadline s h w.0 l in
      let (m', le', lasts') = check-Counts (select r selected res) bs g' s' m h w.1 lasts in
      judge-Counts r laws key a.error res.exceeded res (g', s') _ now n deadline refl (m, le, lasts)
        (m', omega arith, lasts')

  -- A request that passes has counted up the counter of each of its buckets, and found it below the
  -- limit.
  check_passes :
      (selected : Option LimitResult) (bs : List Bucket) (b : Bucket) (g : Option Guard)
      (s : r.Keys) (n : ℕ) {last : Option LimitResult}
      → now < deadline
      → All (IsWide key prefix now deadline) bs
      → Lasts r s key now n deadline
      → Has b bs
      → rate_limit_redis_key prefix b ≡ key
      → (check_rate_limit_buckets r prefix now evals selected bs (g, s)).1 ≡ passes last
      → (n < b.limit)
        × Counts r laws key
            (check_rate_limit_buckets r prefix now evals selected bs (g, s)).0.1
            now
            (n + 1)
            deadline
  unfolding check_rate_limit_buckets
  check_passes selected [] b g s n h w l e k p = elim e [ ]
  check_passes selected (x ∷ bs) b g s n h w l (inl e) k p =
      let kx = rate_limit_redis_key prefix x in
      let same : key ≡ kx = sym k ∙ ap (rate_limit_redis_key prefix) e in
      let wide = w.0 (subst (λ y. text_eq key y ≡ true) same (text_eq_refl key)) in
      let ((g', s'), a) = increment r g (evals kx) kx x.window now s in
      let res = result_of r x (zero_or r a.value) in
      let (fine, under, on) = judge_passes r laws key a.error res.exceeded res (g', s') _ refl p in
      let (count, lasts) =
        increment_ran_as r laws key g kx x.window now n deadline evals s same h wide l fine in
      let (m', le', lasts') = check-Counts (select r selected res) bs g' s' (n + 1) h w.1 lasts in
      (rw e (below r laws key x.limit n (zero_or r a.value).0 under count), rw on (m', le', lasts'))
  check_passes selected (x ∷ bs) b g s n h w l (inr e) k p =
      let kx = rate_limit_redis_key prefix x in
      let ((g', s'), a) = increment r g (evals kx) kx x.window now s in
      let res = result_of r x (zero_or r a.value) in
      let (m, le, lasts) =
        increment-Counts r laws key g (evals kx) kx x.window now n deadline s h w.0 l in
      let (fine, under, on) = judge_passes r laws key a.error res.exceeded res (g', s') _ refl p in
      let (less, (m', le', lasts')) =
        check_passes (select r selected res) bs b g' s' m h w.1 lasts e k
          (sym (ap (λ y. y.1) on) ∙ p) in
      (omega arith, rw on (m', omega arith, lasts'))

-- A request: when it is checked, its buckets, and what becomes of the scripts of its keys.
pub record Request : Type 0 where
  pub now : ℕ
  pub buckets : List Bucket
  pub evals : Text → Eval

abbrev pub is_allowed : Decision → Bool
is_allowed allowed = true
is_allowed _ = false

module _ (r : Counters) (prefix : Text) (fail_open : Bool) where
  -- How many of the requests, one after another, are allowed by what the counters say.
  unfoldable pub count_allowed : List Request → Option Guard × r.Keys → ℕ
  count_allowed [] s = 0
  count_allowed (q ∷ qs) s =
      let (s', checked) = check_rate_limit_buckets r prefix q.now q.evals none q.buckets s in
      let rest = count_allowed qs s' in
      if is_allowed (decide fail_open checked) then rest + 1 else rest

  -- The requests come in the order of time, from `now` on and before the deadline, each with the bucket,
  -- and no bucket under its key has a shorter window than it.
  abbrev pub AreRequests : Bucket → ℕ → ℕ → List Request → Type 0
  AreRequests b now deadline [] = Unit
  AreRequests b now deadline (q ∷ qs) =
      (now ≤ q.now)
      × (q.now < deadline)
      × Has b q.buckets
      × All (IsWide (rate_limit_redis_key prefix b) prefix q.now deadline) q.buckets
      × AreRequests b q.now deadline qs

module _ (r : Counters) (laws : CountersLaws r) (prefix : Text) (fail_open : Bool) where
  allowed_passes :
      (c : Checked)
      → is_allowed (decide fail_open c) ≡ true
      → (last : Option LimitResult) × (c ≡ passes last)
  allowed_passes (exceeds x) h = cc
  allowed_passes (passes last) h = (last, refl)
  allowed_passes (fails e) h = let no : ⊥ = ground arith in elim no [ ]

  allowed_under :
      (qs : List Request) (b : Bucket) (now n deadline : ℕ) (g : Option Guard) (s : r.Keys)
      → AreRequests r prefix fail_open b now deadline qs
      → Lasts r s (rate_limit_redis_key prefix b) now n deadline
      → count_allowed r prefix fail_open qs (g, s) ≤ b.limit - n
  unfolding count_allowed
  allowed_under [] b now n deadline g s a l = omega arith
  allowed_under (q ∷ qs) b now n deadline g s (later, h, has, wide, rest) l =
      let key = rate_limit_redis_key prefix b in
      let ((g', s'), checked) =
        check_rate_limit_buckets r prefix q.now q.evals none q.buckets (g, s) in
      let l' : Lasts r s key q.now n deadline = λ t from until. l t (omega arith) until in
      let (m, le, lasts) =
        check-Counts r laws key prefix q.now deadline q.evals none q.buckets g s n h wide l' in
      elim (Bool-cases (is_allowed (decide fail_open checked))) [
        | inr e ↦
            let under = allowed_under qs b q.now m deadline g' s' rest lasts in
            ground (arith, under, le, e)
        | inl e ↦
            let (last, passed) = allowed_passes checked e in
            let (less, (m', le', lasts')) =
              check_passes r laws key prefix q.now deadline q.evals none q.buckets b g s n
                {last = last} h wide l' has refl passed in
            let under = allowed_under qs b q.now m' deadline g' s' rest lasts' in
            ground (arith, under, le', less, e)
      ]

-- Of the requests that have a bucket and come within one of its windows, which begins without the
-- bucket's counter, at most the bucket's limit are allowed by the counters, whatever scripts fail, with
-- or without effect, and whatever calls the guard refuses; a request that is let through because the
-- limiter is degraded does not count as allowed. No bucket under the same key has a window that ends
-- earlier, and Redis obeys its laws.
pub count_allowed_bound :
    (r : Counters)
    → CountersLaws r
    → (prefix : Text) (fail_open : Bool) (qs : List Request) (b : Bucket) (start : ℕ)
      (g : Option Guard) (s : r.Keys)
    → AreRequests r prefix fail_open b start (start + b.window) qs
    → Lasts r s (rate_limit_redis_key prefix b) start 0 (start + b.window)
    → count_allowed r prefix fail_open qs (g, s) ≤ b.limit
count_allowed_bound r laws prefix fail_open qs b start g s h l =
    omega (arith, allowed_under r laws prefix fail_open qs b start 0 (start + b.window) g s h l)
