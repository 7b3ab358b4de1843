-- ===== src/StreamGate.antt =====
-- backend/internal/pkg/streamgate/streamgate.go: limits on the streams that are open at once, for a
-- user, a tenant, an address and in all. This is the limiter without Redis, whose store is in
-- memory. Each method of the store holds its mutex throughout. Times are nanoseconds; `hash_ip` is
-- the SHA-256 of the trimmed address.
pub mod Bounds
use multi_plantform_poster.Base.{
  ℕ, ◌+◌, Bool, true, false, not, ◌&&◌, ◌||◌, Option, none, some, List, [], ◌∷◌, ℤ, pos, negsuc,
  clip, ltb, leb, ◌==◌, if◌then◌else◌, count_if, keep_if,
}
use multi_plantform_poster.Base.Text.{Text, codes, text_eq, trim_space}

-- Limits as configured, before normalizeLimits.
pub record RawLimits : Type 0 where
  pub user : ℤ
  pub tenant : ℤ
  pub ip : ℤ
  pub global : ℤ
  pub ttl : ℤ

-- 0 stands for no limit; a `ttl` of 0 stands for one that is not positive.
pub record Limits : Type 0 where
  pub user : ℕ
  pub tenant : ℕ
  pub ip : ℕ
  pub global : ℕ
  pub ttl : ℕ

pub record RawConfig : Type 0 where
  pub enabled : Bool
  pub prefix : Text
  pub ai : RawLimits
  pub browser : RawLimits

pub record Config : Type 0 where
  pub enabled : Bool
  pub prefix : Text
  pub ai : Limits
  pub browser : Limits

pub record AcquireRequest : Type 0 where
  pub kind : Text
  pub user_id : ℕ
  pub tenant_id : Text
  pub ip : Text

pub data Scope : Type 0 where
  user tenant ip global : Scope

-- `memoryConn`; of its request only these fields are read.
pub record MemoryConn : Type 0 where
  pub kind : Text
  pub user_id : ℕ
  pub tenant_id : Text
  pub ip_hash : Text
  pub expires_at : ℕ

-- The map `conns`, from connection ids.
abbrev pub Store : Type 0
Store = List (ℕ × MemoryConn)

-- What a caller gets: a lease, with the id that its release removes (none for the empty lease), a
-- LimitError, or the error of `randomID`.
pub data Answer : Type 0 where
  leased : Option ℕ → Answer
  limited : Scope → Answer
  no_random_id : Answer

-- normalizeLimits
normalize_limits : RawLimits → Limits
normalize_limits l = record {
  user = clip l.user;
  tenant = clip l.tenant;
  ip = clip l.ip;
  global = clip l.global;
  ttl = clip l.ttl;
}

abbrev is_blank : Text → Bool
is_blank s = text_eq (trim_space s) []

-- normalizeConfig
unfoldable pub normalize_config : RawConfig → Config
unfolding normalize_limits
normalize_config c = record {
  enabled = c.enabled;
  prefix = if is_blank c.prefix then codes "mpp:stream" else c.prefix;
  ai = normalize_limits c.ai;
  browser = normalize_limits c.browser;
}

-- limitsFor
unfoldable pub limits_for : Config → Text → Limits
limits_for c kind = if text_eq kind (codes "browser") then c.browser else c.ai

-- `!conn.expiresAt.After(now)`
abbrev pub is_expired : ℕ → ℕ × MemoryConn → Bool
is_expired now (id, c) = leb c.expires_at now

-- memoryStore.prune
unfoldable pub prune : ℕ → Store → Store
prune now s = keep_if (λ e. not (is_expired now e)) s

-- The connections that a limit of the given kind counts.
abbrev pub of_user : Text → ℕ → ℕ × MemoryConn → Bool
of_user kind user_id (id, c) = text_eq c.kind kind && (c.user_id == user_id)

abbrev pub of_tenant : Text → Text → ℕ × MemoryConn → Bool
of_tenant kind tenant_id (id, c) = text_eq c.kind kind && text_eq c.tenant_id tenant_id

abbrev pub of_ip : Text → Text → ℕ × MemoryConn → Bool
of_ip kind ip_hash (id, c) = text_eq c.kind kind && text_eq c.ip_hash ip_hash

abbrev pub of_kind : Text → ℕ × MemoryConn → Bool
of_kind kind (id, c) = text_eq c.kind kind

-- `limit > 0 && count >= limit`
abbrev pub is_full : ℕ → ℕ → Bool
is_full limit count = ltb 0 limit && leb limit count

-- delete(s.conns, connID), and memoryStore.release
unfoldable pub release : ℕ → Store → Store
release id s = keep_if (λ e. not (e.0 == id)) s

-- s.conns[connID] = conn
unfoldable pub put : ℕ → MemoryConn → Store → Store
unfolding release
put id c s = (id, c) ∷ release id s

-- The first limit that the request meets, in the order of the tests of memoryStore.acquire.
unfoldable pub full_scope : AcquireRequest → Text → Limits → Store → Option Scope
full_scope req ip_hash limits s =
    if is_full limits.user (count_if (of_user req.kind req.user_id) s)
    then some user
    else if is_full limits.tenant (count_if (of_tenant req.kind req.tenant_id) s)
    then some tenant
    else if is_full limits.ip (count_if (of_ip req.kind ip_hash) s)
    then some ip
    else if is_full limits.global (count_if (of_kind req.kind) s)
    then some global
    else none

-- The calls that callers make, each at its time: an acquire with the id drawn for it, and the
-- release of a lease.
pub data Call : Type 0 where
  acquires : AcquireRequest → Option ℕ → ℕ → Call
  releases : ℕ → Call

module _ (hash_ip : Text → Text) where
  -- memoryStore.acquire
  unfoldable pub acquire_memory : AcquireRequest → Limits → ℕ → ℕ → ℕ → Store → Store × Option Scope
  acquire_memory req limits conn_id now expires_at s =
      let s' = prune now s in
      let conn : MemoryConn = record {
        kind = req.kind;
        user_id = req.user_id;
        tenant_id = req.tenant_id;
        ip_hash = hash_ip req.ip;
        expires_at = expires_at;
      } in
      elim (full_scope req (hash_ip req.ip) limits s') [
        | some scope ↦ (s', some scope)
        | none ↦ (put conn_id conn s', none)
      ]

  abbrev answer_of : ℕ → Store × Option Scope → Store × Answer
  answer_of id (s, some scope) = (s, limited scope)
  answer_of id (s, none) = (s, leased (some id))

  -- Limiter.Acquire of a limiter without Redis; `random_id` is what `randomID` gives.
  unfoldable pub acquire : Config → AcquireRequest → Option ℕ → ℕ → Store → Store × Answer
  acquire config req random_id now s =
      let limits = limits_for config req.kind in
      if not config.enabled
      then (s, leased none)
      else if limits.ttl == 0
      then (s, leased none)
      else elim random_id [
        | none ↦ (s, no_random_id)
        | some id ↦ answer_of id (acquire_memory req limits id now (now + limits.ttl) s)
      ]

  pub step : Config → Store → Call → Store
  step config s (acquires req random_id now) = (acquire config req random_id now s).0
  step config s (releases id) = release id s

  unfoldable pub run : Config → Store → List Call → Store
  unfolding step acquire acquire_memory limits_for prune put release full_scope
  run config s [] = s
  run config s (c ∷ cs) = run config (step config s c) cs
