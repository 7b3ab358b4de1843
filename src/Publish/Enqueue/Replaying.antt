-- ===== src/Publish/Enqueue/Replaying.antt =====
-- A request that was queued is answered again from its events.
use multi_plantform_poster.Base.{ℕ, ◌≡◌, ap, ◌∙◌, Bool, true, ◌&&◌, not, List, [], ◌∷◌, arith}
use multi_plantform_poster.Base.Text.{Text, text_eq}
use multi_plantform_poster.Store.{ok, World, Action, execute}
use multi_plantform_poster.Store.Rules.{
  Keeps, Keeps-pure, Keeps-query, Keeps-execute, Keeps-if, Keeps-bind,
}
use multi_plantform_poster.Store.Undo.{Keeps-lift_then}
use multi_plantform_poster.Store.Turns.{Turns, Turns-Keeps, Turns-bind}
use multi_plantform_poster.Access.{Uuid, Project, is_nil}
use multi_plantform_poster.Publish.{
  PublicationStatus, ScheduleStatus, Publication, PublishJob, Tables,
}
use multi_plantform_poster.Publish.Outbox.{Outbox}
use multi_plantform_poster.Publish.Lifecycle.{mark_queued}
use multi_plantform_poster.Publish.Queue.{
  EventType, PublishEvent, Activity, State, Setting, on_tables, on_outbox, record_publish_event,
}
use multi_plantform_poster.Publish.Worker.{event_of}
use multi_plantform_poster.Publish.Schedules.{
  create_scheduled_publication, latest_project_version_id,
}
use multi_plantform_poster.Publish.Enqueue.{
  Draws, activity_of, record_publish_activity, record_request,
}

-- The event has what recordPublishEvent asks for, and a workspace.
abbrev pub is_recordable : PublishEvent → Bool
is_recordable e =
    not (is_nil e.project_id)
    && (not (is_nil e.user_id)
        && (not (text_eq e.platform []) && (not (is_nil e.job_id) && not (is_nil e.workspace_id))))

module _ (s : Setting) where
  pub recorded :
      (e : PublishEvent) (w : World (State s.redis.Keys)) {u : Unit {0}}
      → is_recordable e ≡ true
      → (record_publish_event s e w).0 ≡ ok u
      → (record_publish_event s e w).1.tables.events ≡ e ∷ w.tables.events
  unfolding record_publish_event execute
  recorded e w h k = ground arith

  -- The events are these.
  abbrev pub HasEvents : List PublishEvent → State s.redis.Keys → Type 0
  HasEvents es t = t.events ≡ es

  recorded-Turns :
      (e : PublishEvent) (es : List PublishEvent)
      → is_recordable e ≡ true
      → Turns (HasEvents es) (HasEvents (e ∷ es)) (record_publish_event s e)
  recorded-Turns e es h = record { at = λ w k r. recorded e w {u = tt} h r ∙ ap (λ x. e ∷ x) k }

  module _ (es : List PublishEvent) where
    create-Keeps :
        (id : Uuid) (project : Project) (p : Publication) (user : Uuid) (key : Text) (at : ℕ)
        (status : ScheduleStatus)
        → Keeps (HasEvents es) (create_scheduled_publication s id project p user key at status)
    unfolding create_scheduled_publication latest_project_version_id
    create-Keeps id project p user key at status =
        Keeps-bind _ _ (Keeps-query _)
          (λ v. Keeps-bind _ _ (Keeps-execute _ (λ t h. h)) (λ u. Keeps-pure _))

    activity-Keeps : (a : Activity) → Keeps (HasEvents es) (record_publish_activity s a)
    unfolding record_publish_activity
    activity-Keeps a = Keeps-if (is_nil a.project_id) _ _ (Keeps-pure _) (
        Keeps-if (is_nil a.actor_user_id) _ _ (Keeps-pure _) (
          Keeps-bind _ _ (Keeps-query _)
            (λ p. Keeps-lift_then _ _ (λ ws. Keeps-execute _ (λ t h. h)))))

    tables-Keeps : {A : Type 0} (m : Action Tables A) → Keeps (HasEvents es) (on_tables m)
    unfolding on_tables
    tables-Keeps m = record { at = λ w h. h }

    outbox-Keeps : {A : Type 0} (m : Action Outbox A) → Keeps (HasEvents es) (on_outbox m)
    unfolding on_outbox
    outbox-Keeps m = record { at = λ w h. h }

  module _ (d : Draws) (project : Project) (p : Publication) (job : PublishJob) where
    abbrev pub requested_event : PublishEvent
    requested_event = event_of job EventType.requested p.status [] [] [] d.recorded_at

    abbrev pub queued_event : PublishEvent
    queued_event = event_of job EventType.queued PublicationStatus.queued [] [] [] d.recorded_at

    pub record_request-Turns :
        (es : List PublishEvent)
        → is_recordable queued_event ≡ true
        → Turns
            (HasEvents es)
            (HasEvents (queued_event ∷ requested_event ∷ es))
            (record_request s d project p job)
    unfolding record_request
    record_request-Turns es valid =
        Turns-bind _ _ (Turns-Keeps _ (create-Keeps es d.schedule_id project p _ _ _ _)) λ schedule.
          Turns-bind _ _ (recorded-Turns requested_event es valid) λ u.
            Turns-bind _ _
              (Turns-Keeps _
                (activity-Keeps (requested_event ∷ es) (activity_of s job EventType.requested)))
              λ u.
                Turns-bind _ _
                  (Turns-Keeps _
                    (tables-Keeps (requested_event ∷ es) (mark_queued p job.enqueued_at)))
                  λ u.
                    Turns-bind _ _ (recorded-Turns queued_event (requested_event ∷ es) valid) λ u.
                      Turns-Keeps _ (
                        Keeps-bind _ _
                          (activity-Keeps (queued_event ∷ requested_event ∷ es)
                            (activity_of s job EventType.queued))
                          λ u.
                            Keeps-bind _ _ (outbox-Keeps (queued_event ∷ requested_event ∷ es) _)
                              λ u. Keeps-pure _)
