-- ===== src/Publish/Dispatcher/Waiting.antt =====
-- A scheduled publication that is due and cannot be published.
use multi_plantform_poster.Base.{◌≡◌, Option, some, []}
use multi_plantform_poster.Base.Text.{Text}
use multi_plantform_poster.Store.{Error}
use multi_plantform_poster.Access.{Uuid}
use multi_plantform_poster.Publish.{PublicationStatus, Schedule, PublishJob}
use multi_plantform_poster.Publish.Service.{Response, publish_project}
use multi_plantform_poster.Publish.Queue.{
  EventType, PublishEvent, State, Setting, Coordinated, on_tables,
}
use multi_plantform_poster.Publish.Worker.{Times, event_of}

module _ (s : Setting) (times : Times) where
  module _ (rows : Uuid → Option Schedule) where
    -- The schedules are these.
    abbrev HasSchedules : State s.redis.Keys → Type 0
    HasSchedules t = t.tables.schedules ≡ rows

    failed_event : PublishJob → Error → PublishEvent
    failed_event job e =
        event_of job EventType.failed PublicationStatus.failed [] []
          (s.ext.sanitize (s.ext.error_text e)) times.ended_at

  started_event : PublishJob → PublishEvent
  started_event job =
      event_of job EventType.started PublicationStatus.publishing [] [] [] times.started_at

  published : PublishJob → Coordinated s Response
  published job = on_tables (
      publish_project s.ext job.workspace_id job.project_id job.platform (some job.user_id)
        job.schedule_id)
