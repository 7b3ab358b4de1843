-- ===== src/Publish/Lock/Exclusion.antt =====
-- One client at a time holds the lock of a publication.
use multi_plantform_poster.Base.{
  ℕ, ◌+◌, ◌<◌, true, false, some, List, [], ◌∷◌, ◌≡◌, refl, ap, sym, ◌∙◌, arith, inl, inr,
  Bool-cases, Option-cases, if◌then◌else◌,
}
use multi_plantform_poster.Base.Text.{Text, text_eq, text_eq_refl, text_eq→eq}
use multi_plantform_poster.Store.{Result, ok, err, World, execute, database_error}
use multi_plantform_poster.Publish.Lock.{
  Redis, RedisLaws, Command, acquires, reads, refreshes, releases, Reply, says, time_of,
  perform_all,
}
use multi_plantform_poster.Publish.Lock.Ownership.{
  Lease, Leases, owner_at, step, lease_all, IsTimed, Represents, perform_all-leases,
}

-- The command is none of the owner's.
abbrev pub IsOther : Text → Command → Type 0
IsOther owner (acquires key value ttl now) = text_eq owner value ≡ false
IsOther owner (reads key now) = Unit
IsOther owner (refreshes key value ttl now) = text_eq owner value ≡ false
IsOther owner (releases key value now) = text_eq owner value ≡ false

-- The commands come before the deadline, and none is the owner's.
abbrev pub AreOthers : Text → ℕ → List Command → Type 0
AreOthers owner deadline [] = Unit
AreOthers owner deadline (c ∷ cs) =
    (time_of c < deadline) × IsOther owner c × AreOthers owner deadline cs

-- How many of the commands were told that they have now acquired, or prolonged, the lock.
unfoldable pub count_granted : Text → List Command → List (Result Reply) → ℕ
count_granted key (acquires k value ttl now ∷ cs) (ok (says true) ∷ rs) =
    let rest = count_granted key cs rs in if text_eq key k then rest + 1 else rest
count_granted key (refreshes k value ttl now ∷ cs) (ok (says true) ∷ rs) =
    let rest = count_granted key cs rs in if text_eq key k then rest + 1 else rest
count_granted key (c ∷ cs) (r ∷ rs) = count_granted key cs rs
count_granted key _ _ = 0

module _ (key owner : Text) (deadline : ℕ) where
  abbrev lease : Lease
  lease = record { owner = owner; deadline = deadline }

  -- What a command of another client does to a key that is leased: nothing, and it grants nothing.
  other_step :
      (c : Command) (ls : Leases)
      → time_of c < deadline
      → IsOther owner c
      → ls key ≡ some lease
      → ((step c ls).0 key ≡ some lease) × (count_granted key (c ∷ []) (ok (step c ls).1 ∷ []) ≡ 0)
  unfolding step count_granted
  other_step (acquires k value ttl at) ls h o held = elim (Bool-cases (text_eq key k)) [
    | inl e ↦ let same = ap ls (text_eq→eq key k e) in (ground (arith, same), ground (arith, same))
    | inr e ↦ (ground (arith, e), ground (arith, e))
  ]
  other_step (reads k at) ls h o held = (held, refl)
  other_step (refreshes k value ttl at) ls h o held = elim (Bool-cases (text_eq key k)) [
    | inl e ↦ let same = ap ls (text_eq→eq key k e) in (ground (arith, same), ground (arith, same))
    | inr e ↦ (ground (arith, e), ground (arith, e))
  ]
  other_step (releases k value at) ls h o held = elim (Bool-cases (text_eq key k)) [
    | inl e ↦ let same = ap ls (text_eq→eq key k e) in (ground (arith, same), refl)
    | inr e ↦ (ground (arith, e), refl)
  ]

  count_step :
      (c : Command) (cs : List Command) (r : Result Reply) (rs : List (Result Reply))
      → count_granted key (c ∷ cs) (r ∷ rs)
        ≡ count_granted key (c ∷ []) (r ∷ []) + count_granted key cs rs
  unfolding count_granted
  count_step c cs r rs = ground arith

  failed_gets_nothing : (c : Command) → count_granted key (c ∷ []) (err database_error ∷ []) ≡ 0
  unfolding count_granted
  failed_gets_nothing c = ground arith

  others_get_nothing :
      (cs : List Command) (w : World Leases)
      → AreOthers owner deadline cs
      → w.tables key ≡ some lease
      → count_granted key cs (lease_all cs w) ≡ 0
  unfolding lease_all execute count_granted
  others_get_nothing [] w h held = refl
  others_get_nothing (c ∷ cs) w h held =
      let (same, none_granted) = other_step c w.tables h.0 h.1 held in
      let (reply, w') = execute (step c) w in
      let rest = others_get_nothing cs w' h.2 (ground (arith, same)) in
      rw (count_step c cs reply (lease_all cs w'))
        (rw rest (ground (arith, none_granted, failed_gets_nothing c)))

  acquired :
      (ttl now : ℕ) (v : World Leases)
      → deadline ≡ now + ttl
      → (execute (step (acquires key owner ttl now)) v).0 ≡ ok (says true)
      → (execute (step (acquires key owner ttl now)) v).1.tables key ≡ some lease
  unfolding execute step
  acquired ttl now v d h = elim (Option-cases (owner_at (v.tables key) now)) [
    | inl e ↦ ground (arith, text_eq_refl key)
    | inr (holder, e) ↦ ground arith
  ]

cons-injective :
    (x y : Result Reply) (xs ys : List (Result Reply)) → x ∷ xs ≡ y ∷ ys → (x ≡ y) × (xs ≡ ys)
cons-injective x y xs ys h = (cc, cc)

-- Once Redis has granted a key to a client at `now` for `ttl`, no command of any other client grants
-- the key, or prolongs it, before `now + ttl`, whichever commands the others send in the order of
-- time and whichever of them fail. Redis obeys its laws and starts as some leases say.
pub acquire_excludes :
    (r : Redis)
    → RedisLaws r
    → (key owner : Text) (ttl now : ℕ) (cs : List Command) (w : World r.Keys) (v : World Leases)
      (rs : List (Result Reply))
    → Represents r now w.tables v.tables
    → w.faults ≡ v.faults
    → IsTimed now (acquires key owner ttl now ∷ cs)
    → AreOthers owner (now + ttl) cs
    → perform_all r (acquires key owner ttl now ∷ cs) w ≡ ok (says true) ∷ rs
    → count_granted key cs rs ≡ 0
unfolding lease_all
acquire_excludes r laws key owner ttl now cs w v rs rep f timed others h =
    let c = acquires key owner ttl now in
    let eq = sym (perform_all-leases r laws (c ∷ cs) now w v timed rep f) ∙ h in
    let (reply, tail) = cons-injective _ _ _ _ eq in
    rw (sym tail) (
      others_get_nothing key owner (now + ttl) cs (execute (step c) v).1 others
        (acquired key owner (now + ttl) ttl now v refl reply))
