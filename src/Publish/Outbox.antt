-- ===== src/Publish/Outbox.antt =====
-- backend/internal/services/publish/outbox.go: the dispatch of the events of the outbox, by any
-- number of dispatchers at once. gorm sets `UpdatedAt` with each update. The payload of an event and
-- what comes of its hand-over to the queue (`dispatchClaimedOutboxEvent`) are given with each call.
pub mod Claims
use multi_plantform_poster.Base.{
  ℕ, zero, suc, ◌+◌, ◌-◌, ◌*◌, ℤ, pos, negsuc, Bool, true, false, not, ◌&&◌, ◌||◌, Option, none,
  some, List, [], ◌∷◌, ◌==◌, leb, ltb, if◌then◌else◌,
}
use Prim.Native.Nat.{◌%◌}
use multi_plantform_poster.Base.Text.{Text}
use multi_plantform_poster.Store.{
  Error, Result, ok, err, Action, World, pure, raise, query, execute, ◌>>=◌, ◌>>◌, or_not_found,
}
use multi_plantform_poster.Access.{Uuid, is_nil}
use multi_plantform_poster.Publish.{PublishJob}
use multi_plantform_poster.Resilience.Breaker.{second}

-- models.OutboxStatus…
pub data OutboxStatus : Type 0 where
  pending processing dispatched failed : OutboxStatus

-- OutboxEvent; `is_publish_job` says whether its EventType is publish.job_requested, and `payload` is
-- the job that its Payload decodes to, none if it does not decode.
pub record OutboxEvent : Type 0 where
  pub is_publish_job : Bool
  pub payload : Option PublishJob
  pub status : OutboxStatus
  pub attempts : ℕ
  pub next_attempt_at : Option ℕ
  pub processed_at : Option ℕ
  pub error_message : Text
  pub updated_at : ℕ

-- The table, by primary key.
abbrev pub Outbox : Type 0
Outbox = Uuid → Option OutboxEvent

abbrev pub claim_timeout : ℕ
claim_timeout = 120 * second

abbrev pub max_backoff : ℕ
max_backoff = 300 * second

abbrev pub has_come : Option ℕ → ℕ → Bool
has_come none now = true
has_come (some at) now = leb at now

-- The condition of the UPDATE of claimOutboxEvent, and of the SELECT of FlushPublishOutbox, but for
-- the event type. `updated_at <= now - timeout` is written as a sum.
abbrev pub is_due : ℕ → OutboxEvent → Bool
is_due now e = elim e.status [
  | pending ↦ has_come e.next_attempt_at now
  | failed ↦ has_come e.next_attempt_at now
  | processing ↦ leb (e.updated_at + claim_timeout) now
  | dispatched ↦ false
]

abbrev pub set_event : Uuid → OutboxEvent → Outbox → Outbox
set_event id e t = λ j. if j == id then some e else t j

-- An UPDATE of the event with that id, if it passes the test; and the number of rows met.
abbrev pub update_event :
    Uuid → (OutboxEvent → Bool) → (OutboxEvent → OutboxEvent) → Outbox → Outbox × ℕ
update_event id test change t = elim (t id) [
  | none ↦ (t, 0)
  | some e ↦ if test e then (set_event id (change e) t, 1) else (t, 0)
]

abbrev pub claimed_event : ℕ → OutboxEvent → OutboxEvent
claimed_event now e = record e {
  status = processing;
  attempts = e.attempts + 1;
  error_message = [];
  updated_at = now;
}

claim_rest : Uuid → ℕ → Action Outbox (Option OutboxEvent)
claim_rest id zero = pure none
claim_rest id (suc rows) = do e ← query (λ t. or_not_found (t id)); pure (some e)

-- claimOutboxEvent at the time `now`; `none` stands for `false`.
unfoldable pub claim_outbox_event : Uuid → ℕ → Action Outbox (Option OutboxEvent)
unfolding claim_rest
claim_outbox_event id now = do
  rows ← execute (update_event id (λ e. e.is_publish_job && is_due now e) (claimed_event now))
  claim_rest id rows

-- The claim that `event` stands for is still the last one.
abbrev pub is_held : OutboxEvent → OutboxEvent → Bool
is_held event e =
    (elim e.status [ processing ↦ true | _ ↦ false ]) && (e.attempts == event.attempts)

-- markOutboxEventDispatched
unfoldable pub mark_outbox_event_dispatched : Uuid → OutboxEvent → ℕ → Action Outbox (Unit {0})
mark_outbox_event_dispatched id event now = do
  rows ← execute (
      update_event id (is_held event) (λ e. record e {
        status = dispatched;
        processed_at = some now;
        next_attempt_at = none;
        error_message = [];
        updated_at = now;
      }))
  pure tt

-- What a product of int64 comes to, by its value as a natural number.
abbrev pub to_int64 : ℕ → ℤ
to_int64 n =
    let m = n % 18446744073709551616 in
    if ltb m 9223372036854775808 then pos m else negsuc (18446744073709551615 - m)

abbrev pub at_most : ℕ → ℤ → ℤ
at_most limit (pos n) = if ltb limit n then pos limit else pos n
at_most limit (negsuc n) = negsuc n

-- outboxRetryBackoff; the number of attempts is never negative.
unfoldable pub outbox_retry_backoff : ℕ → ℤ
outbox_retry_backoff attempts =
    if attempts == 0 then pos second else at_most max_backoff (to_int64 (attempts * second))

-- Time.Add; a time before 1970 has come as well as 1970 has.
abbrev pub later_by : ℤ → ℕ → ℕ
later_by (pos n) now = now + n
later_by (negsuc n) now = now - (n + 1)

-- markOutboxEventFailed; `message` is sanitized.
unfoldable pub mark_outbox_event_failed : Uuid → OutboxEvent → Text → ℕ → Action Outbox (Unit {0})
unfolding outbox_retry_backoff
mark_outbox_event_failed id event message now = do
  rows ← execute (
      update_event id (is_held event) (λ e. record e {
        status = failed;
        next_attempt_at = some (later_by (outbox_retry_backoff event.attempts) now);
        error_message = message;
        updated_at = now;
      }))
  pure tt

-- What a dispatcher does to an event that it claimed, once the hand-over to the queue has succeeded
-- or failed with a message.
settle_claim : Uuid → OutboxEvent → Option Text → ℕ → Action Outbox (Unit {0})
settle_claim id event none now = mark_outbox_event_dispatched id event now
settle_claim id event (some message) now = mark_outbox_event_failed id event message now

-- dispatchOutboxEvent: the event is claimed at `now`, handed over with `outcome`, and marked at
-- `done`. The error that a failed hand-over returns is logged by the callers.
unfoldable pub dispatch_outbox_event : Uuid → ℕ → Option Text → ℕ → Action Outbox (Unit {0})
unfolding settle_claim claim_outbox_event
dispatch_outbox_event id now outcome done = if is_nil id then pure tt else do
  claimed ← claim_outbox_event id now
  elim claimed [ none ↦ pure tt | some event ↦ settle_claim id event outcome done ]

-- The three statements of any dispatcher, each at its time.
pub data Call : Type 0 where
  claims : Uuid → ℕ → Call
  marks_dispatched : Uuid → OutboxEvent → ℕ → Call
  marks_failed : Uuid → OutboxEvent → Text → ℕ → Call

unfoldable pub perform : Call → World Outbox → World Outbox
perform (claims id now) w = (claim_outbox_event id now w).1
perform (marks_dispatched id event now) w = (mark_outbox_event_dispatched id event now w).1
perform (marks_failed id event message now) w = (mark_outbox_event_failed id event message now w).1

unfoldable pub perform_all : List Call → World Outbox → World Outbox
unfolding perform claim_outbox_event mark_outbox_event_dispatched mark_outbox_event_failed
perform_all [] w = w
perform_all (c ∷ cs) w = perform_all cs (perform c w)
