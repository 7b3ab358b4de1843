-- ===== src/StreamGate/Bounds.antt =====
-- The limits hold.
use multi_plantform_poster.Base.{
  subst, ℕ, ◌+◌, ◌≤◌, ◌<◌, ◌≡◌, ◌⊎◌, inl, inr, Bool, true, false, not, ◌||◌, Option, none, some,
  List, [], ◌∷◌, arith, count_if, keep_if, ◌==◌, Bool-cases, Option-cases,
}
use multi_plantform_poster.Base.Text.{Text, text_eq→eq}
use multi_plantform_poster.StreamGate.{
  Config, Limits, AcquireRequest, MemoryConn, Scope, user, tenant, ip, global, Store, limited,
  limits_for, prune, put, release, of_user, of_tenant, of_ip, of_kind, is_full, is_expired,
  acquire_memory, full_scope, acquire, Call, acquires, releases, step, run,
}

module _ {A : Type 0} where
  count_if-keep_if : (p q : A → Bool) (xs : List A) → count_if p (keep_if q xs) ≤ count_if p xs
  count_if-keep_if p q [] = omega arith
  count_if-keep_if p q (x ∷ xs) = ground (arith, count_if-keep_if p q xs)

-- A count keeps to its limit, if there is one.
abbrev pub Within : ℕ → ℕ → Type 0
Within limit count = (limit ≡ 0) ⊎ (count ≤ limit)

-- Within the limits of its kind, no user, tenant or address has too many connections, nor has the
-- kind as a whole.
pub record IsBounded (config : Config) (s : Store) : Type 0 where
  pub users :
      (kind : Text) (user_id : ℕ)
      → Within (limits_for config kind).user (count_if (of_user kind user_id) s)
  pub tenants :
      (kind tenant_id : Text)
      → Within (limits_for config kind).tenant (count_if (of_tenant kind tenant_id) s)
  pub ips :
      (kind ip_hash : Text) → Within (limits_for config kind).ip (count_if (of_ip kind ip_hash) s)
  pub kinds : (kind : Text) → Within (limits_for config kind).global (count_if (of_kind kind) s)

Within-mono : (limit m n : ℕ) → m ≤ n → Within limit n → Within limit m
Within-mono limit m n h (inl e) = inl e
Within-mono limit m n h (inr e) = inr (omega arith)

Within-is_full : (limit n : ℕ) → is_full limit n ≡ false → Within limit (n + 1)
Within-is_full limit n h = ground arith

keep_if-IsBounded :
    (config : Config) (q : ℕ × MemoryConn → Bool) (s : Store)
    → IsBounded config s
    → IsBounded config (keep_if q s)
keep_if-IsBounded config q s b = record {
  users = λ k u. Within-mono _ _ _ (count_if-keep_if (of_user k u) q s) (b.users k u);
  tenants = λ k t. Within-mono _ _ _ (count_if-keep_if (of_tenant k t) q s) (b.tenants k t);
  ips = λ k i. Within-mono _ _ _ (count_if-keep_if (of_ip k i) q s) (b.ips k i);
  kinds = λ k. Within-mono _ _ _ (count_if-keep_if (of_kind k) q s) (b.kinds k);
}

-- A connection more: counted by a test `p` that it passes only if `p` still had room.
Within-put :
    (limit : ℕ) (p : ℕ × MemoryConn → Bool) (id : ℕ) (c : MemoryConn) (s : Store)
    → Within limit (count_if p s)
    → (p (id, c) ≡ true → is_full limit (count_if p s) ≡ false)
    → Within limit (count_if p (put id c s))
unfolding put release
Within-put limit p id c s w room =
    let fewer = count_if-keep_if p (λ e. not (e.0 == id)) s in
    elim (Bool-cases (p (id, c))) [
      | inl e ↦
          rw e (Within-mono limit _ _ (omega (arith, fewer)) (Within-is_full limit _ (room e)))
      | inr e ↦ rw e (Within-mono limit _ _ fewer w)
    ]

prune-IsBounded :
    (config : Config) (now : ℕ) (s : Store) → IsBounded config s → IsBounded config (prune now s)
unfolding prune
prune-IsBounded config now s b = keep_if-IsBounded config (λ e. not (is_expired now e)) s b

full_scope-none :
    (req : AcquireRequest) (ip_hash : Text) (limits : Limits) (s : Store)
    → full_scope req ip_hash limits s ≡ none
    → (is_full limits.user (count_if (of_user req.kind req.user_id) s) ≡ false)
      × (is_full limits.tenant (count_if (of_tenant req.kind req.tenant_id) s) ≡ false)
      × (is_full limits.ip (count_if (of_ip req.kind ip_hash) s) ≡ false)
      × (is_full limits.global (count_if (of_kind req.kind) s) ≡ false)
unfolding full_scope
full_scope-none req ip_hash limits s h = ground arith

abbrev pub limit_of : Limits → Scope → ℕ
limit_of l user = l.user
limit_of l tenant = l.tenant
limit_of l ip = l.ip
limit_of l global = l.global

abbrev pub count_of : AcquireRequest → Text → Store → Scope → ℕ
count_of req ip_hash s user = count_if (of_user req.kind req.user_id) s
count_of req ip_hash s tenant = count_if (of_tenant req.kind req.tenant_id) s
count_of req ip_hash s ip = count_if (of_ip req.kind ip_hash) s
count_of req ip_hash s global = count_if (of_kind req.kind) s

module _ (hash_ip : Text → Text) (config : Config) where
  -- An admitted connection had room in each of its four counts.
  put-IsBounded :
      (id : ℕ) (c : MemoryConn) (s : Store)
      → IsBounded config s
      → is_full (limits_for config c.kind).user (count_if (of_user c.kind c.user_id) s) ≡ false
      → is_full (limits_for config c.kind).tenant (count_if (of_tenant c.kind c.tenant_id) s)
        ≡ false
      → is_full (limits_for config c.kind).ip (count_if (of_ip c.kind c.ip_hash) s) ≡ false
      → is_full (limits_for config c.kind).global (count_if (of_kind c.kind) s) ≡ false
      → IsBounded config (put id c s)
  put-IsBounded id c s b fu ft fi fg = record {
    users = λ k u. Within-put _ (of_user k u) id c s (b.users k u) λ h.
        let ek = text_eq→eq c.kind k (ground (arith, h)) in
        let eu : c.user_id ≡ u = ground (arith, h) in
        subst (λ v. is_full (limits_for config v).user (count_if (of_user v u) s) ≡ false) ek
          (subst
            (λ v. is_full (limits_for config c.kind).user (count_if (of_user c.kind v) s) ≡ false)
            eu fu);
    tenants = λ k t. Within-put _ (of_tenant k t) id c s (b.tenants k t) λ h.
        let ek = text_eq→eq c.kind k (ground (arith, h)) in
        let et = text_eq→eq c.tenant_id t (ground (arith, h)) in
        subst (λ v. is_full (limits_for config v).tenant (count_if (of_tenant v t) s) ≡ false) ek
          (subst
            (λ v.
              is_full (limits_for config c.kind).tenant (count_if (of_tenant c.kind v) s) ≡ false)
            et ft);
    ips = λ k i. Within-put _ (of_ip k i) id c s (b.ips k i) λ h.
        let ek = text_eq→eq c.kind k (ground (arith, h)) in
        let ei = text_eq→eq c.ip_hash i (ground (arith, h)) in
        subst (λ v. is_full (limits_for config v).ip (count_if (of_ip v i) s) ≡ false) ek
          (subst (λ v. is_full (limits_for config c.kind).ip (count_if (of_ip c.kind v) s) ≡ false)
            ei fi);
    kinds = λ k. Within-put _ (of_kind k) id c s (b.kinds k) λ h.
        subst (λ v. is_full (limits_for config v).global (count_if (of_kind v) s) ≡ false)
          (text_eq→eq c.kind k h) fg;
  }

  acquire_memory-IsBounded :
      (req : AcquireRequest) (id now expires_at : ℕ) (s : Store)
      → IsBounded config s
      → IsBounded config
          (acquire_memory hash_ip req (limits_for config req.kind) id now expires_at s).0
  unfolding acquire_memory
  acquire_memory-IsBounded req id now expires_at s b =
      elim (Option-cases
        (full_scope req (hash_ip req.ip) (limits_for config req.kind) (prune now s))) [
          | inr (scope, e) ↦ rw (e, acquire_memory) pruned
          | inl e ↦
              let rooms =
                full_scope-none req (hash_ip req.ip) (limits_for config req.kind) (prune now s) e in
              rw (e, acquire_memory)
                (put-IsBounded id _ (prune now s) pruned rooms.0 rooms.1 rooms.2 rooms.3)
        ]
    where
      pruned : IsBounded config (prune now s)
      pruned = prune-IsBounded config now s b

  acquire_cases :
      (req : AcquireRequest) (random_id : Option ℕ) (now : ℕ) (s : Store)
      → ((acquire hash_ip config req random_id now s).0 ≡ s)
        ⊎ ((id : ℕ) × ((acquire hash_ip config req random_id now s).0
              ≡ (acquire_memory hash_ip req
                  (limits_for config req.kind)
                  id
                  now
                  (now + (limits_for config req.kind).ttl)
                  s).0))
  unfolding acquire
  acquire_cases req none now s = inl (ground arith)
  acquire_cases req (some id) now s =
      elim (Bool-cases (not config.enabled || ((limits_for config req.kind).ttl == 0))) [
        | inl e ↦ inl (ground arith)
        | inr e ↦ inr (id, ground arith)
      ]

  step-IsBounded :
      (s : Store) (c : Call) → IsBounded config s → IsBounded config (step hash_ip config s c)
  unfolding step release
  step-IsBounded s (releases id) b = keep_if-IsBounded config (λ e. not (e.0 == id)) s b
  step-IsBounded s (acquires req random_id now) b = elim (acquire_cases req random_id now s) [
    | inl e ↦ rw e b
    | inr (id, e) ↦ rw e (acquire_memory-IsBounded req id now _ s b)
  ]

  run-IsBounded :
      (s : Store) (cs : List Call) → IsBounded config s → IsBounded config (run hash_ip config s cs)
  unfolding run
  run-IsBounded s [] b = b
  run-IsBounded s (c ∷ cs) b = run-IsBounded (step hash_ip config s c) cs (step-IsBounded s c b)

  -- Whatever calls are made on an empty store, in any order and at any times, and whatever ids are
  -- drawn: no user, tenant or address has more open streams of a kind than its limit, and no kind
  -- has more in all, where the limit is not 0.
  pub run_from_empty : (cs : List Call) → IsBounded config (run hash_ip config [] cs)
  run_from_empty cs = run-IsBounded [] cs (record {
    users = λ k u. inr (omega arith);
    tenants = λ k t. inr (omega arith);
    ips = λ k i. inr (omega arith);
    kinds = λ k. inr (omega arith);
  })

  -- A request is limited only by a limit that is met: the scope that it is refused for has a limit,
  -- and as many connections of the request's kind as that, none of which has expired. A refusal
  -- removes expired connections and nothing else.
  pub acquire_refused :
      (req : AcquireRequest) (random_id : Option ℕ) (now : ℕ) (s : Store) (scope : Scope)
      → (acquire hash_ip config req random_id now s).1 ≡ limited scope
      → (0 < limit_of (limits_for config req.kind) scope)
        × (limit_of (limits_for config req.kind) scope
            ≤ count_of req (hash_ip req.ip) (prune now s) scope)
        × ((acquire hash_ip config req random_id now s).0 ≡ prune now s)
  unfolding acquire acquire_memory full_scope
  acquire_refused req none now s scope h = ground arith
  acquire_refused req (some id) now s scope h = ground arith
