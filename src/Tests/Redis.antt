-- ===== src/Tests/Redis.antt =====
-- A Redis of leases, which obeys the laws.
use multi_plantform_poster.Base.{ℕ, ◌+◌, refl, Bool, true, false, Option, none, some, arith}
use multi_plantform_poster.Base.Text.{Text}
use multi_plantform_poster.Publish.Lock.{Redis, RedisLaws}
use multi_plantform_poster.Publish.Lock.Ownership.{Leases, owner_at, put}

abbrev set_if_free : Option Text → Text → Text → ℕ → Leases → Leases × Bool
set_if_free none key value deadline s =
    (put key (some (record { owner = value; deadline = deadline })) s, true)
set_if_free (some holder) key value deadline s = (s, false)

abbrev expire_if_held : Option Text → Text → ℕ → Leases → Leases × ℕ
expire_if_held none key deadline s = (s, 0)
expire_if_held (some holder) key deadline s =
    (put key (some (record { owner = holder; deadline = deadline })) s, 1)

abbrev pub leases : Redis
leases = record {
  Keys = Leases;
  get = λ s k t. owner_at (s k) t;
  set_nx = λ k v ttl now s. set_if_free (owner_at (s k) now) k v (now + ttl) s;
  pexpire = λ k ttl now s. expire_if_held (owner_at (s k) now) k (now + ttl) s;
  del = λ k now s. (put k none s, 1);
}

pub leases-laws : RedisLaws leases
leases-laws = record {
  get_earlier = λ s key value t t' h e. ground arith;
  set_nx_free = λ s key value ttl now h e. rw e (refl, λ k t le. ground arith);
  set_nx_held = λ s key value holder ttl now e. rw e refl;
  pexpire_held = λ s key holder ttl now h e. rw e (refl, λ k t le. ground arith);
  del_get = λ s key now k t h. ground arith;
}
