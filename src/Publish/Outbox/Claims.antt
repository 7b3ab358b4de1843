-- ===== src/Publish/Outbox/Claims.antt =====
-- Who holds an event of the outbox.
use Prim.Native.Nat.{◌%◌}
use multi_plantform_poster.Base.{
  pos, ◌*◌, ltb, ◌==◌, if◌then◌else◌, Bool-cases, inl, inr, true, refl, ℕ, ◌+◌, ◌≤◌, ◌<◌, ◌≡◌,
  Option, none, some, List, [], ◌∷◌, arith,
}
use native.Mathlib.Nat.{le_refl}
use multi_plantform_poster.Base.Text.{Text}
use multi_plantform_poster.Store.{Result, ok, err, World, pure, raise, query, execute, ◌>>=◌}
use multi_plantform_poster.Access.{Uuid}
use multi_plantform_poster.Resilience.Breaker.{second}
use multi_plantform_poster.Publish.Outbox.{
  processing, dispatched, OutboxEvent, Outbox, claim_timeout, max_backoff, to_int64,
  claim_outbox_event, mark_outbox_event_dispatched, mark_outbox_event_failed, outbox_retry_backoff,
  Call, claims, marks_dispatched, marks_failed, perform, perform_all,
}

-- The event that a call claims, if it claims one.
abbrev pub claimed : Result (Option OutboxEvent) → Option OutboxEvent
claimed (ok e) = e
claimed (err e) = none

module _ (id : Uuid) (now : ℕ) (w : World Outbox) where
  claim-tables :
      {e : OutboxEvent}
      → claimed (claim_outbox_event id now w).0 ≡ some e
      → ((claim_outbox_event id now w).1.tables id ≡ some e)
        × (e.status ≡ processing)
        × (e.updated_at ≡ now)
  unfolding claim_outbox_event ◌>>=◌ execute query pure raise
  claim-tables h = ground arith

  claim_early :
      (e : OutboxEvent)
      → w.tables id ≡ some e
      → e.status ≡ processing
      → now < e.updated_at + claim_timeout
      → (claimed (claim_outbox_event id now w).0 ≡ none)
        × ((claim_outbox_event id now w).1.tables ≡ w.tables)
  unfolding claim_outbox_event ◌>>=◌ execute query pure raise
  claim_early e h p lt = ground arith

-- On the outbox that a claim of an event leaves, no call claims the event again before the claim
-- timeout of two minutes has passed; such a call leaves the outbox as it is.
pub claim_exclusive :
    (id : Uuid) (now later : ℕ) (w w' : World Outbox) (e : OutboxEvent)
    → claimed (claim_outbox_event id now w).0 ≡ some e
    → w'.tables ≡ (claim_outbox_event id now w).1.tables
    → later < now + claim_timeout
    → (claimed (claim_outbox_event id later w').0 ≡ none)
      × ((claim_outbox_event id later w').1.tables ≡ w'.tables)
claim_exclusive id now later w w' e h same lt =
    let c = claim-tables id now w h in
    claim_early id later w' e (rw same c.0) c.1 (omega (arith, c.2))

-- The event has been claimed at least `k` times.
abbrev pub AtLeast : ℕ → Option OutboxEvent → Type 0
AtLeast k none = ⊥
AtLeast k (some e) = k ≤ e.attempts

perform-AtLeast :
    (k : ℕ) (id : Uuid) (c : Call) (w : World Outbox)
    → AtLeast k (w.tables id)
    → AtLeast k ((perform c w).tables id)
unfolding perform claim_outbox_event mark_outbox_event_dispatched mark_outbox_event_failed ◌>>=◌
    execute query pure raise
perform-AtLeast k id (claims j now) w h = ground arith
perform-AtLeast k id (marks_dispatched j e now) w h = ground arith
perform-AtLeast k id (marks_failed j e message now) w h = ground arith

perform_all-AtLeast :
    (k : ℕ) (id : Uuid) (cs : List Call) (w : World Outbox)
    → AtLeast k (w.tables id)
    → AtLeast k ((perform_all cs w).tables id)
unfolding perform_all
perform_all-AtLeast k id [] w h = h
perform_all-AtLeast k id (c ∷ cs) w h =
    perform_all-AtLeast k id cs (perform c w) (perform-AtLeast k id c w h)

claim-attempts :
    (k : ℕ) (id : Uuid) (now : ℕ) (w : World Outbox) (e : OutboxEvent)
    → AtLeast k (w.tables id)
    → claimed (claim_outbox_event id now w).0 ≡ some e
    → k < e.attempts
unfolding claim_outbox_event ◌>>=◌ execute query pure raise
claim-attempts k id now w e a h = ground arith

mark_stale :
    (id : Uuid) (done : ℕ) (w : World Outbox) (e e' : OutboxEvent) (message : Text)
    → w.tables id ≡ some e'
    → e.attempts < e'.attempts
    → ((mark_outbox_event_dispatched id e done w).1.tables ≡ w.tables)
      × ((mark_outbox_event_failed id e message done w).1.tables ≡ w.tables)
unfolding mark_outbox_event_dispatched mark_outbox_event_failed ◌>>=◌ execute pure
mark_stale id done w e e' message h lt = ground arith

-- A claimant that is late has lost its claim: when some other call has claimed the event since,
-- whatever happened in between, to mark the event dispatched or failed for the first claim changes
-- nothing.
pub stale_claim :
    (id : Uuid) (now later done : ℕ) (w : World Outbox) (cs : List Call) (e e' : OutboxEvent)
    (message : Text)
    → claimed (claim_outbox_event id now w).0 ≡ some e
    → claimed (claim_outbox_event id later (perform_all cs (claim_outbox_event id now w).1)).0
      ≡ some e'
    → let w' = (claim_outbox_event id later (perform_all cs (claim_outbox_event id now w).1)).1 in
      ((mark_outbox_event_dispatched id e done w').1.tables ≡ w'.tables)
      × ((mark_outbox_event_failed id e message done w').1.tables ≡ w'.tables)
stale_claim id now later done w cs e e' message h h' =
    let w₁ = perform_all cs (claim_outbox_event id now w).1 in
    let at_first : AtLeast e.attempts ((claim_outbox_event id now w).1.tables id) =
      rw (claim-tables id now w h).0 (le_refl _) in
    mark_stale id done (claim_outbox_event id later w₁).1 e e' message
      (claim-tables id later w₁ h').0
      (claim-attempts e.attempts id later w₁ e'
        (perform_all-AtLeast e.attempts id cs (claim_outbox_event id now w).1 at_first) h')

abbrev delay : ℕ → ℕ
delay n =
    if n == 0 then second else if ltb max_backoff (n * second) then max_backoff else n * second

-- No product wraps around below this number of attempts.
to_int64-small : (n : ℕ) → n ≤ 9223372036854775807 → to_int64 n ≡ pos n
to_int64-small n h =
    let same : n % 18446744073709551616 ≡ n = omega arith in
    let small : ltb n 9223372036854775808 ≡ true = ground (arith, h) in rw (same, small) refl

outbox_retry_backoff-delay : (n : ℕ) → n ≤ 9223372036 → outbox_retry_backoff n ≡ pos (delay n)
unfolding outbox_retry_backoff
outbox_retry_backoff-delay n h = elim (Bool-cases (n == 0)) [
  | inl e ↦ rw e refl
  | inr e ↦ rw (e, to_int64-small (n * second) (omega arith)) (ground arith)
]

-- Retries are between a second and five minutes apart, and never closer than before, up to
-- 9223372036 attempts, the last number whose seconds are an int64 of nanoseconds.
pub outbox_retry_backoff_bounds :
    (m n : ℕ)
    → m ≤ n
    → n ≤ 9223372036
    → (a : ℕ) × (b : ℕ) × (outbox_retry_backoff m ≡ pos a)
      × (outbox_retry_backoff n ≡ pos b)
      × (second ≤ a)
      × (a ≤ b)
      × (b ≤ max_backoff)
outbox_retry_backoff_bounds m n h k = (
  delay m,
  delay n,
  outbox_retry_backoff-delay m (omega arith),
  outbox_retry_backoff-delay n k,
  ground arith,
  ground (arith, h),
  ground arith,
)

perform_dispatched :
    (id : Uuid) (e : OutboxEvent) (c : Call) (w : World Outbox)
    → w.tables id ≡ some e
    → e.status ≡ dispatched
    → (perform c w).tables id ≡ some e
unfolding perform claim_outbox_event mark_outbox_event_dispatched mark_outbox_event_failed ◌>>=◌
    execute query pure raise
perform_dispatched id e (claims j now) w h d = ground arith
perform_dispatched id e (marks_dispatched j x now) w h d = ground arith
perform_dispatched id e (marks_failed j x message now) w h d = ground arith

-- A dispatched event is done with: no claim and no mark, made by anyone at any time, changes it
-- again.
pub dispatched_final :
    (id : Uuid) (e : OutboxEvent) (cs : List Call) (w : World Outbox)
    → w.tables id ≡ some e
    → e.status ≡ dispatched
    → (perform_all cs w).tables id ≡ some e
unfolding perform_all
dispatched_final id e [] w h d = h
dispatched_final id e (c ∷ cs) w h d =
    dispatched_final id e cs (perform c w) (perform_dispatched id e c w h d) d
