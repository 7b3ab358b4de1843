-- ===== src/Publish/Schedules.antt =====
-- backend/internal/services/publish/schedule.go: scheduled publications, which are created, cancelled
-- and retried; and preparePublishJobForProject of queue.go.
pub mod Cancelling
use multi_plantform_poster.Base.{
  ℕ, Bool, true, false, not, ◌&&◌, ◌||◌, Option, none, some, List, [], ◌∷◌, ◌++◌, ◌==◌, find_if,
  leb, ltb, if◌then◌else◌,
}
use multi_plantform_poster.Base.Text.{Text, codes, text_eq, trim_space}
use multi_plantform_poster.Store.{
  Error, Result, ok, err, World, Action, pure, raise, query, execute, transaction, outcome,
  lift_then, ◌>>=◌, ◌>>◌, or_not_found, forbidden, publication_already_publishing,
  publication_not_found, publication_requires_sync, is_not_found, record_not_found,
}
use multi_plantform_poster.Access.{Uuid, is_nil, Project}
use multi_plantform_poster.Publish.{
  PublicationStatus, ScheduleStatus, Publication, Schedule, PublishJob, Tables,
}
use multi_plantform_poster.Publish.Lock.{acquire_lock, release_lock}
use multi_plantform_poster.Publish.Lifecycle.{set_schedule}
use multi_plantform_poster.Publish.Service.{
  Response, find_row, project_workspace_id, publish_project,
}
use multi_plantform_poster.Publish.Queue.{
  State, Setting, Coordinated, on_tables, on_keys, lock_ttl, job_text, job_key, found_row,
  check_publication, is_blank,
}
use multi_plantform_poster.Publish.Worker.{Times, process_publish_job}

module _ (s : Setting) where
  abbrev add_schedule : Uuid → Schedule → State s.redis.Keys → State s.redis.Keys × Unit {0}
  add_schedule id schedule t = (
    record t { tables = set_schedule id schedule t.tables; schedule_ids = id ∷ t.schedule_ids },
    tt,
  )

  -- latestProjectVersionID
  unfoldable pub latest_project_version_id : Uuid → Uuid → Coordinated s (Option Uuid)
  latest_project_version_id workspace_id project_id =
      query (λ t. ok (t.versions workspace_id project_id))

  abbrev pub new_schedule :
      Project → Publication → Uuid → Text → ℕ → ScheduleStatus → Option Uuid → Schedule
  new_schedule project p user_id key scheduled_at status version = record {
    workspace_id = project_workspace_id s.ext.personal_workspace_id project;
    project_id = project.id;
    publication_id = p.id;
    platform_account_id = p.platform_account_id;
    project_version_id = version;
    scheduled_at = scheduled_at;
    timezone = codes "UTC";
    status = status;
    idempotency_key = key;
    created_by = user_id;
    cancelled_by = none;
    last_error = [];
  }

  -- createScheduledPublication, under the id drawn for the schedule.
  unfoldable pub create_scheduled_publication :
      Uuid → Project → Publication → Uuid → Text → ℕ → ScheduleStatus → Coordinated s Schedule
  unfolding latest_project_version_id project_workspace_id
  create_scheduled_publication id project p user_id key scheduled_at status = do
    version ←
        latest_project_version_id (project_workspace_id s.ext.personal_workspace_id project)
          project.id
    let schedule = new_schedule project p user_id key scheduled_at status version
    done ← execute (add_schedule id schedule)
    pure schedule

  -- preparePublishJobForProject: a failing read of the publication is reported as a missing one.
  abbrev pub checked : Uuid → ℕ → Result Publication → Coordinated s Publication
  checked user_id now (err e) = raise publication_not_found
  checked user_id now (ok p) = lift_then (check_publication s user_id now p) pure

  unfoldable pub prepare_publish_job_for_project :
      Project → Text → Uuid → ℕ → Coordinated s Publication
  unfolding project_workspace_id check_publication
  prepare_publish_job_for_project project platform user_id now =
      outcome (
        query (λ t. found_row (
          find_row (project_workspace_id s.ext.personal_workspace_id project) project.id platform
            t.tables)))
      >>= checked user_id now

  -- The read of a schedule under its id and its project.
  abbrev schedule_of : Uuid → Uuid → State s.redis.Keys → Result Schedule
  schedule_of project_id id t = elim (t.tables.schedules id) [
    | none ↦ err record_not_found
    | some schedule ↦
        if schedule.project_id == project_id then ok schedule else err record_not_found
  ]

  -- A schedule that CancelScheduledPublication refuses.
  abbrev pub is_over : ScheduleStatus → Bool
  is_over ScheduleStatus.running = true
  is_over ScheduleStatus.published = true
  is_over _ = false

  abbrev pub cancelled_by : Uuid → Schedule → Schedule
  cancelled_by user_id schedule = record schedule {
    status = ScheduleStatus.cancelled;
    cancelled_by = some user_id;
  }

  abbrev cancel_row : Uuid → Uuid → State s.redis.Keys → State s.redis.Keys × Unit {0}
  cancel_row id user_id t = elim (t.tables.schedules id) [
    | none ↦ (t, tt)
    | some schedule ↦
        (record t { tables = set_schedule id (cancelled_by user_id schedule) t.tables }, tt)
  ]

  -- The UPDATE of CancelScheduledPublication, by the id alone.
  unfoldable pub write_cancelled : Uuid → Uuid → Coordinated s (Unit {0})
  write_cancelled id user_id = execute (cancel_row id user_id)

  -- CancelScheduledPublication
  unfoldable pub cancel_scheduled_publication : Uuid → Uuid → Uuid → Coordinated s Schedule
  unfolding write_cancelled
  cancel_scheduled_publication project_id id user_id =
      if is_nil project_id || (is_nil id || is_nil user_id)
      then raise forbidden
      else query (schedule_of project_id id) >>= λ schedule.
          lift_then (s.ext.project_for_publish schedule.project_id user_id) λ project.
            if is_over schedule.status
            then raise publication_already_publishing
            else write_cancelled id user_id >>= λ u. pure (cancelled_by user_id schedule)

  -- A schedule that RetryScheduledPublication takes.
  abbrev pub is_retried : ScheduleStatus → Bool
  is_retried ScheduleStatus.failed = true
  is_retried ScheduleStatus.needs_manual_action = true
  is_retried _ = false

  -- The platform of the preloaded publication, empty if there is none.
  abbrev platform_in : Option Publication → Text
  platform_in none = []
  platform_in (some p) = p.platform

  abbrev pub preloaded : Uuid → State s.redis.Keys → Text
  preloaded publication_id t =
      platform_in (find_if (λ p. p.id == publication_id) t.tables.publications)

  -- RetryScheduledPublication, up to the read of the detail that it returns.
  unfoldable pub retry_scheduled_publication : Uuid → Uuid → Uuid → Coordinated s Response
  unfolding on_tables publish_project
  retry_scheduled_publication project_id id user_id =
      if is_nil project_id || (is_nil id || is_nil user_id)
      then raise forbidden
      else query (schedule_of project_id id) >>= λ schedule.
          query (λ t. ok (preloaded schedule.publication_id t)) >>= λ platform.
          if not (is_retried schedule.status)
          then raise publication_already_publishing
          else on_tables
              (publish_project s.ext schedule.workspace_id project_id platform (some user_id) id)
