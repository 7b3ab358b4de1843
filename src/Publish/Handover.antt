-- ===== src/Publish/Handover.antt =====
-- The hand-over of outbox events to the queue: dispatchOutboxEvent, dispatchClaimedOutboxEvent and
-- recordPublishJobOutbox of backend/internal/services/publish/outbox.go, and Enqueue of queue.go.
pub mod Keeping
use multi_plantform_poster.Base.{
  ℕ, Bool, true, false, not, ◌||◌, Option, none, some, List, [], ◌∷◌, if◌then◌else◌,
}
use multi_plantform_poster.Base.Text.{Text, codes, text_eq}
use multi_plantform_poster.Store.{
  Error, Result, ok, err, World, Action, pure, raise, query, execute, outcome, ◌>>=◌, ◌>>◌,
  other_error,
}
use multi_plantform_poster.Access.{Uuid, is_nil}
use multi_plantform_poster.Publish.{PublishJob}
use multi_plantform_poster.Publish.Outbox.{
  OutboxEvent, Outbox, pending, set_event, claim_outbox_event, mark_outbox_event_dispatched,
  mark_outbox_event_failed,
}
use multi_plantform_poster.Publish.Queue.{
  State, Setting, Coordinated, TaskError, task_id_conflict, task_error, on_outbox,
  ensure_publish_job_workspace_id,
}

-- The event that recordPublishJobOutbox creates.
abbrev pub new_event : PublishJob → ℕ → OutboxEvent
new_event job now = record {
  is_publish_job = true;
  payload = some job;
  status = pending;
  attempts = 0;
  next_attempt_at = none;
  processed_at = none;
  error_message = [];
  updated_at = now;
}

abbrev add_event : Uuid → OutboxEvent → Outbox → Outbox × Unit {0}
add_event id e t = (set_event id e t, tt)

module _ (s : Setting) where
  -- recordPublishJobOutbox, under the id drawn for the event.
  unfoldable pub record_publish_job_outbox : Uuid → PublishJob → ℕ → Coordinated s (Unit {0})
  record_publish_job_outbox id job now = on_outbox (execute (add_event id (new_event job now)))

  -- Enqueue: a task that is there already is no error.
  abbrev task_result : Option TaskError → Coordinated s (Unit {0})
  task_result none = pure tt
  task_result (some task_id_conflict) = pure tt
  task_result (some (task_error e)) = raise e

  unfoldable pub enqueue : PublishJob → Coordinated s (Unit {0})
  enqueue job = task_result (s.enqueue_task job)

  -- The check of dispatchClaimedOutboxEvent; unlike the worker's it takes a blank platform.
  abbrev is_invalid_payload : PublishJob → Bool
  is_invalid_payload job =
      is_nil job.job_id
      || (is_nil job.project_id
          || (is_nil job.workspace_id || (is_nil job.user_id || text_eq job.platform [])))

  hand_over : Option PublishJob → Coordinated s (Unit {0})
  unfolding enqueue ensure_publish_job_workspace_id
  hand_over none = raise (other_error (codes "decode publish outbox payload"))
  hand_over (some job) = do
    resolved ← ensure_publish_job_workspace_id s job
    if is_invalid_payload resolved
        then raise (other_error (codes "invalid publish outbox payload"))
        else enqueue resolved

  unfoldable pub dispatch_claimed_outbox_event : OutboxEvent → Coordinated s (Unit {0})
  unfolding hand_over
  dispatch_claimed_outbox_event event =
      if event.is_publish_job
      then hand_over event.payload
      else raise (other_error (codes "unsupported outbox event type"))

  -- What follows the hand-over, at the time `now`; of the two errors the first is returned.
  settle : Uuid → OutboxEvent → ℕ → Result (Unit {0}) → Coordinated s (Unit {0})
  unfolding on_outbox mark_outbox_event_dispatched mark_outbox_event_failed
  settle id event now (ok u) = on_outbox (mark_outbox_event_dispatched id event now)
  settle id event now (err e) = do
    marked ←
        outcome
          (on_outbox (mark_outbox_event_failed id event (s.ext.sanitize (s.ext.error_text e)) now))
    raise e

  dispatch_claimed : Uuid → ℕ → Option OutboxEvent → Coordinated s (Unit {0})
  unfolding settle dispatch_claimed_outbox_event
  dispatch_claimed id now none = pure tt
  dispatch_claimed id now (some event) =
      outcome (dispatch_claimed_outbox_event event) >>= settle id event now

  -- dispatchOutboxEvent, which claims the event at `now` and marks it at `done_at`.
  unfoldable pub dispatch_event : Uuid → ℕ → ℕ → Coordinated s (Unit {0})
  unfolding dispatch_claimed on_outbox claim_outbox_event
  dispatch_event id now done_at =
      if is_nil id
      then pure tt
      else on_outbox (claim_outbox_event id now) >>= dispatch_claimed id done_at
