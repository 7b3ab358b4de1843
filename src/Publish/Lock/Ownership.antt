-- ===== src/Publish/Lock/Ownership.antt =====
-- What the lock promises: a table of leases, each with one owner and a deadline.
use multi_plantform_poster.Base.{
  ℕ, ◌+◌, ◌<◌, ◌≤◌, true, false, Option, none, some, List, [], ◌∷◌, ◌≡◌, refl, ap, arith,
  Option-cases, inl, inr, ◌⊎◌, Bool-cases, if◌then◌else◌, ◌==◌,
}
use multi_plantform_poster.Base.Text.{Text, text_eq, text_eq_refl, text_eq→eq}
use multi_plantform_poster.Store.{Result, World, query, execute, ◌>>=◌, pure, next_fault}
use multi_plantform_poster.Publish.Lock.{
  Redis, RedisLaws, until, is_held_by, or_empty, refresh_script, release_script, acquire_lock,
  lock_value, refresh_lock, release_lock, Command, acquires, reads, refreshes, releases, Reply,
  says, holds, done, time_of, perform, perform_all,
}

pub record Lease : Type 0 where
  pub owner : Text
  pub deadline : ℕ

-- The leases, by key.
abbrev pub Leases : Type 0
Leases = Text → Option Lease

-- The owner of a lease, while it lasts.
abbrev pub owner_at : Option Lease → ℕ → Option Text
owner_at none now = none
owner_at (some l) now = until l.owner l.deadline now

abbrev pub put : Text → Option Lease → Leases → Leases
put key lease ls = λ k. if text_eq k key then lease else ls k

abbrev pub grant : Option Text → Text → Text → ℕ → Leases → Leases × Reply
grant none key value deadline ls =
    (put key (some (record { owner = value; deadline = deadline })) ls, says true)
grant (some holder) key value deadline ls = (ls, says false)

-- What each command does to the leases: a free key is granted, a lease is prolonged or given back by
-- its owner alone.
unfoldable pub step : Command → Leases → Leases × Reply
step (acquires key value ttl now) ls = grant (owner_at (ls key) now) key value (now + ttl) ls
step (reads key now) ls = (ls, holds (or_empty (owner_at (ls key) now)))
step (refreshes key value ttl now) ls =
    if is_held_by value (owner_at (ls key) now)
    then (put key (some (record { owner = value; deadline = now + ttl })) ls, says true)
    else (ls, says false)
step (releases key value now) ls =
    if is_held_by value (owner_at (ls key) now) then (put key none ls, done) else (ls, done)

unfoldable pub lease_all : List Command → World Leases → List (Result Reply)
unfolding step
lease_all [] w = []
lease_all (c ∷ cs) w = let (reply, w') = execute (step c) w in reply ∷ lease_all cs w'

-- The commands come in the order of time, from `now` on, and no time to live is 0.
abbrev pub HasLife : Command → Type 0
HasLife (acquires key value ttl now) = 0 < ttl
HasLife (reads key now) = Unit
HasLife (refreshes key value ttl now) = 0 < ttl
HasLife (releases key value now) = Unit

abbrev pub IsTimed : ℕ → List Command → Type 0
IsTimed now [] = Unit
IsTimed now (c ∷ cs) = (now ≤ time_of c) × HasLife c × IsTimed (time_of c) cs

pub holder_cases :
    (value : Text) (o : Option Text) → (o ≡ some value) ⊎ (is_held_by value o ≡ false)
holder_cases value none = inr refl
holder_cases value (some holder) = elim (Bool-cases (text_eq holder value)) [
  | inl e ↦ inl (ap some (text_eq→eq holder value e))
  | inr e ↦ inr e
]

module _ (r : Redis) where
  -- From `now` on, Redis says of each key what its lease says.
  abbrev pub Represents : ℕ → r.Keys → Leases → Type 0
  Represents now s ls = (k : Text) (t : ℕ) → now ≤ t → r.get s k t ≡ owner_at (ls k) t

  -- What a command does to the keys of Redis.
  run : Command → r.Keys → r.Keys × Reply
  run (acquires key value ttl now) s = let (s', b) = r.set_nx key value ttl now s in (s', says b)
  run (reads key now) s = (s, holds (or_empty (r.get s key now)))
  run (refreshes key value ttl now) s =
      let (s', n) = refresh_script r key value ttl now s in (s', says (n == 1))
  run (releases key value now) s = let (s', n) = release_script r key value now s in (s', done)

  perform-run : (c : Command) (w : World r.Keys) → perform r c w ≡ execute (run c) w
  unfolding perform acquire_lock lock_value refresh_lock release_lock run execute query ◌>>=◌ pure
  perform-run (acquires key value ttl now) w = ground arith
  perform-run (reads key now) w = ground arith
  perform-run (refreshes key value ttl now) w = ground arith
  perform-run (releases key value now) w = ground arith

  module _ (laws : RedisLaws r) where
    still : (now at t : ℕ) → now ≤ at → at ≤ t → now ≤ t
    still now at t h e = omega arith

    run-step :
        (c : Command) (now : ℕ) (s : r.Keys) (ls : Leases)
        → now ≤ time_of c
        → HasLife c
        → Represents now s ls
        → ((run c s).1 ≡ (step c ls).1) × Represents (time_of c) (run c s).0 (step c ls).0
    unfolding run step refresh_script release_script
    run-step (acquires key value ttl at) now s ls h l rep = elim (Option-cases (r.get s key at)) [
      | inl free ↦
          let (granted, after) = laws.set_nx_free s key value ttl at l free in
          (
            ground (arith, rep key at h),
            λ k t e. ground (arith, rep key at h, rep k t (still now at t h e), after k t e),
          )
      | inr (holder, held) ↦
          let kept = laws.set_nx_held s key value holder ttl at held in
          (
            ground (arith, rep key at h),
            λ k t e. ground (arith, rep key at h, rep k t (still now at t h e)),
          )
    ]
    run-step (reads key at) now s ls h l rep =
        (ap (λ o. holds (or_empty o)) (rep key at h), λ k t e. rep k t (still now at t h e))
    run-step (refreshes key value ttl at) now s ls h l rep =
        elim (holder_cases value (r.get s key at)) [
          | inl held ↦
              let (one, after) = laws.pexpire_held s key value ttl at l held in
              let mine = text_eq_refl value in
              (
                ground (arith, rep key at h),
                λ k t e. ground (arith, rep key at h, rep k t (still now at t h e), after k t e),
              )
          | inr other ↦ (
            ground (arith, rep key at h),
            λ k t e. ground (arith, rep key at h, rep k t (still now at t h e)),
          )
        ]
    run-step (releases key value at) now s ls h l rep =
        elim (Bool-cases (is_held_by value (r.get s key at))) [
          | inl held ↦ (
            ground (arith, rep key at h),
            λ k t e.
                ground
                  (arith, rep key at h, rep k t (still now at t h e), laws.del_get s key at k t e),
          )
          | inr other ↦ (
            ground (arith, rep key at h),
            λ k t e. ground (arith, rep key at h, rep k t (still now at t h e)),
          )
        ]

    execute-step :
        (c : Command) (now : ℕ) (w : World r.Keys) (v : World Leases)
        → now ≤ time_of c
        → HasLife c
        → Represents now w.tables v.tables
        → w.faults ≡ v.faults
        → let (reply, w') = execute (run c) w in
          let (reply', v') = execute (step c) v in
          (reply ≡ reply') × (w'.faults ≡ v'.faults) × Represents (time_of c) w'.tables v'.tables
    unfolding execute
    execute-step c now w v h l rep f =
        let (same, rep') = run-step c now w.tables v.tables h l rep in
        elim (Bool-cases (next_fault v.faults).0) [
          | inl b ↦ (
            ground arith,
            ground arith,
            λ k t e. ground (arith, rep k t (still now (time_of c) t h e)),
          )
          | inr b ↦ (ground arith, ground arith, λ k t e. ground (arith, rep' k t e))
        ]

    -- Whatever commands any clients send in the order of time, and whichever of them fail, the replies
    -- are those of a table of leases: a free key is granted to who asks, and only its owner prolongs or
    -- gives back a lease. Redis obeys its laws, starts as the leases say, and no time to live is 0.
    pub perform_all-leases :
        (cs : List Command) (now : ℕ) (w : World r.Keys) (v : World Leases)
        → IsTimed now cs
        → Represents now w.tables v.tables
        → w.faults ≡ v.faults
        → perform_all r cs w ≡ lease_all cs v
    unfolding perform_all lease_all
    perform_all-leases [] now w v h rep f = refl
    perform_all-leases (c ∷ cs) now w v h rep f =
        let (same, f', rep') = execute-step c now w v h.0 h.1 rep f in
        let rest =
          perform_all-leases cs (time_of c) (execute (run c) w).1 (execute (step c) v).1 h.2 rep'
            f' in
        rw (perform-run c w) (rw same (ap (λ rs. (execute (step c) v).0 ∷ rs) rest))
