-- ===== src/Publish/Lock.antt =====
-- The lock of a publication on Redis: AcquireLock, LockValue, RefreshLock and ReleaseLock of
-- backend/internal/services/publish/queue.go. Redis itself is a parameter, with the documented
-- behaviour of the commands as its laws.
pub mod Ownership
pub mod Exclusion
use multi_plantform_poster.Base.{
  ℕ, ◌+◌, ◌<◌, ◌≤◌, Bool, true, false, Option, none, some, List, [], ◌∷◌, ◌≡◌, ◌==◌, ltb,
  if◌then◌else◌,
}
use multi_plantform_poster.Base.Text.{Text, text_eq}
use multi_plantform_poster.Store.{Result, ok, World, Action, query, execute, ◌>>=◌, pure}

-- Redis at a time: the keys it holds, and the commands that the lock uses. A time to live and a time
-- are in the same unit.
pub record Redis : Type 1 where
  pub Keys : Type 0
  pub get : Keys → Text → ℕ → Option Text  -- GET, none for redis.Nil
  pub set_nx : Text → Text → ℕ → ℕ → Keys → Keys × Bool  -- SET key value NX with a time to live
  pub pexpire : Text → ℕ → ℕ → Keys → Keys × ℕ  -- PEXPIRE key
  pub del : Text → ℕ → Keys → Keys × ℕ  -- DEL key

-- What a key says from a write of it on: the value up to its deadline.
abbrev pub until : Text → ℕ → ℕ → Option Text
until value deadline t = if ltb t deadline then some value else none

-- A key that is there was there before, unless it was written; SET NX writes a key that is free and no other, PEXPIRE gives a key that is held a new deadline, DEL
-- frees a key; none of them touches another key.
pub record RedisLaws (r : Redis) : Type 0 where
  pub get_earlier :
      (s : r.Keys) (key value : Text) (t t' : ℕ)
      → t ≤ t'
      → r.get s key t' ≡ some value
      → r.get s key t ≡ some value
  pub set_nx_free :
      (s : r.Keys) (key value : Text) (ttl now : ℕ)
      → 0 < ttl
      → r.get s key now ≡ none
      → ((r.set_nx key value ttl now s).1 ≡ true)
        × ((k : Text) (t : ℕ)
            → now ≤ t
            → r.get (r.set_nx key value ttl now s).0 k t
              ≡ (if text_eq k key then until value (now + ttl) t else r.get s k t))
  pub set_nx_held :
      (s : r.Keys) (key value holder : Text) (ttl now : ℕ)
      → r.get s key now ≡ some holder
      → r.set_nx key value ttl now s ≡ (s, false)
  pub pexpire_held :
      (s : r.Keys) (key holder : Text) (ttl now : ℕ)
      → 0 < ttl
      → r.get s key now ≡ some holder
      → ((r.pexpire key ttl now s).1 ≡ 1)
        × ((k : Text) (t : ℕ)
            → now ≤ t
            → r.get (r.pexpire key ttl now s).0 k t
              ≡ (if text_eq k key then until holder (now + ttl) t else r.get s k t))
  pub del_get :
      (s : r.Keys) (key : Text) (now : ℕ) (k : Text) (t : ℕ)
      → now ≤ t
      → r.get (r.del key now s).0 k t ≡ (if text_eq k key then none else r.get s k t)

abbrev pub or_empty : Option Text → Text
or_empty none = []
or_empty (some v) = v

-- redis.call("GET", KEYS[1]) == ARGV[1]
abbrev pub is_held_by : Text → Option Text → Bool
is_held_by value none = false
is_held_by value (some holder) = text_eq holder value

module _ (r : Redis) where
  unfoldable pub acquire_lock : Text → Text → ℕ → ℕ → Action r.Keys Bool
  acquire_lock key value ttl now = execute (r.set_nx key value ttl now)

  unfoldable pub lock_value : Text → ℕ → Action r.Keys Text
  lock_value key now = query (λ s. ok (or_empty (r.get s key now)))

  -- refreshLockScript
  unfoldable pub refresh_script : Text → Text → ℕ → ℕ → r.Keys → r.Keys × ℕ
  refresh_script key value ttl now s =
      if is_held_by value (r.get s key now) then r.pexpire key ttl now s else (s, 0)

  unfoldable pub refresh_lock : Text → Text → ℕ → ℕ → Action r.Keys Bool
  unfolding refresh_script
  refresh_lock key value ttl now =
      execute (λ s. let (s', n) = refresh_script key value ttl now s in (s', n == 1))

  -- releaseLockScript
  unfoldable pub release_script : Text → Text → ℕ → r.Keys → r.Keys × ℕ
  release_script key value now s =
      if is_held_by value (r.get s key now) then r.del key now s else (s, 0)

  unfoldable pub release_lock : Text → Text → ℕ → Action r.Keys (Unit {0})
  unfolding release_script
  release_lock key value now =
      execute (λ s. let (s', n) = release_script key value now s in (s', tt))

-- The commands of any clients, each at its time.
pub data Command : Type 0 where
  acquires : Text → Text → ℕ → ℕ → Command
  reads : Text → ℕ → Command
  refreshes : Text → Text → ℕ → ℕ → Command
  releases : Text → Text → ℕ → Command

pub data Reply : Type 0 where
  says : Bool → Reply
  holds : Text → Reply
  done : Reply

abbrev pub time_of : Command → ℕ
time_of (acquires key value ttl now) = now
time_of (reads key now) = now
time_of (refreshes key value ttl now) = now
time_of (releases key value now) = now

module _ (r : Redis) where
  unfoldable pub perform : Command → Action r.Keys Reply
  unfolding acquire_lock lock_value refresh_lock release_lock
  perform (acquires key value ttl now) = do b ← acquire_lock r key value ttl now; pure (says b)
  perform (reads key now) = do v ← lock_value r key now; pure (holds v)
  perform (refreshes key value ttl now) = do b ← refresh_lock r key value ttl now; pure (says b)
  perform (releases key value now) = do u ← release_lock r key value now; pure done

  -- The replies of the commands, one after another, errors included.
  unfoldable pub perform_all : List Command → World r.Keys → List (Result Reply)
  unfolding perform
  perform_all [] w = []
  perform_all (c ∷ cs) w = let (reply, w') = perform c w in reply ∷ perform_all cs w'
