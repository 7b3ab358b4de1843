-- ===== src/Publish/Handover/Keeping.antt =====
-- The hand-over of an event touches the outbox alone.
use multi_plantform_poster.Base.{ℕ, ◌≡◌, refl, Option, none, some}
use multi_plantform_poster.Store.{Result, ok, err, World, Action}
use multi_plantform_poster.Store.Rules.{Keeps, Keeps-pure, Keeps-raise, Keeps-if, Keeps-bind}
use multi_plantform_poster.Store.Undo.{Keeps-outcome}
use multi_plantform_poster.Access.{Uuid, is_nil}
use multi_plantform_poster.Publish.{PublishJob}
use multi_plantform_poster.Publish.Outbox.{
  OutboxEvent, Outbox, claim_outbox_event, mark_outbox_event_failed, mark_outbox_event_dispatched,
}
use multi_plantform_poster.Publish.Queue.{
  State, Setting, TaskError, task_id_conflict, task_error, on_outbox,
  ensure_publish_job_workspace_id,
}
use multi_plantform_poster.Publish.Queue.Resolving.{resolve_keeps}
use multi_plantform_poster.Publish.Handover.{
  task_result, enqueue, is_invalid_payload, hand_over, dispatch_claimed_outbox_event, settle,
  dispatch_claimed, dispatch_event,
}

module _ (s : Setting) (t : State s.redis.Keys) where
  -- The state but for the outbox.
  abbrev pub AgreesButOutbox : State s.redis.Keys → Type 0
  AgreesButOutbox t' = record t' { outbox = t.outbox } ≡ t

  on_outbox-Keeps : {A : Type 0} (m : Action Outbox A) → Keeps AgreesButOutbox (on_outbox m)
  unfolding on_outbox
  on_outbox-Keeps m = record { at = λ w h. h }

  ensure-Keeps : (job : PublishJob) → Keeps AgreesButOutbox (ensure_publish_job_workspace_id s job)
  ensure-Keeps job = record { at = λ w h. rw (resolve_keeps s job w) h }

  result-Keeps : (o : Option TaskError) → Keeps AgreesButOutbox (task_result s o)
  result-Keeps none = Keeps-pure _
  result-Keeps (some task_id_conflict) = Keeps-pure _
  result-Keeps (some (task_error e)) = Keeps-raise e

  hand_over-Keeps : (o : Option PublishJob) → Keeps AgreesButOutbox (hand_over s o)
  unfolding hand_over enqueue
  hand_over-Keeps none = Keeps-raise _
  hand_over-Keeps (some job) = Keeps-bind _ _ (ensure-Keeps job) (λ resolved.
      Keeps-if (is_invalid_payload s resolved) _ _ (Keeps-raise _)
        (result-Keeps (s.enqueue_task resolved)))

  claimed-Keeps :
      (event : OutboxEvent) → Keeps AgreesButOutbox (dispatch_claimed_outbox_event s event)
  unfolding dispatch_claimed_outbox_event
  claimed-Keeps event =
      Keeps-if event.is_publish_job _ _ (hand_over-Keeps event.payload) (Keeps-raise _)

  settle-Keeps :
      (id : Uuid) (event : OutboxEvent) (now : ℕ) (r : Result (Unit {0}))
      → Keeps AgreesButOutbox (settle s id event now r)
  unfolding settle
  settle-Keeps id event now (ok u) = on_outbox-Keeps (mark_outbox_event_dispatched id event now)
  settle-Keeps id event now (err e) =
      Keeps-bind _ _
        (Keeps-outcome _ (
          on_outbox-Keeps
            (mark_outbox_event_failed id event (s.ext.sanitize (s.ext.error_text e)) now)))
        (λ u. Keeps-raise e)

  dispatch-Keeps :
      (id : Uuid) (now : ℕ) (o : Option OutboxEvent)
      → Keeps AgreesButOutbox (dispatch_claimed s id now o)
  unfolding dispatch_claimed
  dispatch-Keeps id now none = Keeps-pure _
  dispatch-Keeps id now (some event) =
      Keeps-bind _ _ (Keeps-outcome _ (claimed-Keeps event)) (settle-Keeps id event now)

  pub dispatch_event-Keeps :
      (id : Uuid) (now done_at : ℕ) → Keeps AgreesButOutbox (dispatch_event s id now done_at)
  unfolding dispatch_event
  dispatch_event-Keeps id now done_at =
      Keeps-if (is_nil id) _ _ (Keeps-pure _)
        (Keeps-bind _ _ (on_outbox-Keeps (claim_outbox_event id now)) (dispatch-Keeps id done_at))

-- dispatchOutboxEvent leaves all but the outbox as it was, whether it succeeds or not.
pub dispatch_event_keeps :
    (s : Setting) (id : Uuid) (now done_at : ℕ) (w : World (State s.redis.Keys))
    → record (dispatch_event s id now done_at w).1.tables { outbox = w.tables.outbox } ≡ w.tables
dispatch_event_keeps s id now done_at w = (dispatch_event-Keeps s w.tables id now done_at).at w refl
