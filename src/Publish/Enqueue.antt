-- ===== src/Publish/Enqueue.antt =====
-- EnqueuePublishProject and BatchEnqueuePublishProject of
-- backend/internal/services/publish/queue.go. The tables are all there; caches and read models are left out.
pub mod Undoing
pub mod Replaying
pub mod Repeating
use multi_plantform_poster.Base.{
  ℕ, Bool, true, false, not, Option, none, some, List, [], ◌∷◌, ◌++◌, ◌==◌, if◌then◌else◌,
}
use multi_plantform_poster.Base.Text.{Text, codes, text_eq, trim_space}
use multi_plantform_poster.Store.{
  Error, Result, ok, err, World, Action, pure, raise, query, execute, transaction, outcome,
  lift_then, ◌>>=◌, ◌>>◌, or_not_found, forbidden, publication_already_publishing,
  publication_not_found, publish_queue_empty,
}
use multi_plantform_poster.Access.{Uuid, is_nil, Project}
use multi_plantform_poster.Publish.{
  PublicationStatus, ScheduleStatus, Publication, Schedule, PublishJob, Tables,
}
use multi_plantform_poster.Publish.Lock.{acquire_lock, release_lock}
use multi_plantform_poster.Publish.Lifecycle.{mark_queued, set_schedule}
use multi_plantform_poster.Publish.Service.{
  Response, find_row, project_workspace_id, publish_project,
}
use multi_plantform_poster.Publish.Queue.{
  EventType, Activity, PublishEvent, State, Setting, Coordinated, on_tables, on_keys, lock_ttl,
  job_text, job_key, record_publish_event, found_row, check_publication,
}
use multi_plantform_poster.Publish.Worker.{event_of}
use multi_plantform_poster.Publish.Handover.{record_publish_job_outbox, dispatch_event}
use multi_plantform_poster.Publish.Schedules.{
  create_scheduled_publication, prepare_publish_job_for_project,
}
use multi_plantform_poster.Publish.Replay.{
  JobResponse, find_idempotent_publish_response, wait_for_idempotent_publish_response,
}

-- The ids drawn in one call, and its times.
pub record Draws : Type 0 where
  pub job_id : Uuid
  pub schedule_id : Uuid
  pub outbox_event_id : Uuid
  pub scheduled_at : ℕ
  pub acquired_at : ℕ
  pub recorded_at : ℕ
  pub released_at : ℕ
  pub claimed_at : ℕ
  pub dispatched_at : ℕ

module _ (s : Setting) where
  abbrev add_activity : Activity → State s.redis.Keys → State s.redis.Keys × Unit {0}
  add_activity a t = (record t { activities = a ∷ t.activities }, tt)

  abbrev in_workspace_of : Uuid → Uuid → Result Uuid
  in_workspace_of workspace_id found =
      if is_nil workspace_id
      then ok found
      else if workspace_id == found
      then ok workspace_id
      else err forbidden

  -- recordProjectPublishActivityForWorkspace
  unfoldable pub record_publish_activity : Activity → Coordinated s (Unit {0})
  unfolding project_workspace_id
  record_publish_activity a =
      if is_nil a.project_id
      then pure tt
      else if is_nil a.actor_user_id
      then pure tt
      else query (λ t. or_not_found (t.projects a.project_id)) >>= λ p.
          lift_then
            (in_workspace_of a.workspace_id (project_workspace_id s.ext.personal_workspace_id p))
            λ ws. execute (add_activity (record a { workspace_id = ws }))

  abbrev pub activity_of : PublishJob → EventType → Activity
  activity_of job type = record {
    workspace_id = job.workspace_id;
    project_id = job.project_id;
    actor_user_id = job.user_id;
    event_type = type;
    platform = job.platform;
    job_id = job.job_id;
  }

  -- The body of the transaction of EnqueuePublishProject.
  unfoldable pub record_request :
      Draws → Project → Publication → PublishJob → Coordinated s Schedule
  unfolding create_scheduled_publication record_publish_event record_publish_activity on_tables
      mark_queued record_publish_job_outbox
  record_request d project p job = do
    schedule ←
        create_scheduled_publication s d.schedule_id project p job.user_id job.idempotency_key
          d.scheduled_at ScheduleStatus.scheduled
    requested ←
        record_publish_event s (event_of job EventType.requested p.status [] [] [] d.recorded_at)
    asked ← record_publish_activity (activity_of job EventType.requested)
    row ← on_tables (mark_queued p job.enqueued_at)
    queued ←
        record_publish_event s
          (event_of job EventType.queued PublicationStatus.queued [] [] [] d.recorded_at)
    told ← record_publish_activity (activity_of job EventType.queued)
    written ←
        record_publish_job_outbox s d.outbox_event_id (record job { schedule_id = d.schedule_id })
          d.recorded_at
    pure schedule

  abbrev pub new_job : Draws → Project → Publication → Text → Uuid → Text → PublishJob
  new_job d project p platform user_id key = record {
    job_id = d.job_id;
    project_id = project.id;
    workspace_id = project_workspace_id s.ext.personal_workspace_id project;
    user_id = user_id;
    platform = platform;
    publication_id = p.id;
    schedule_id = 0;
    idempotency_key = key;
    enqueued_at = d.scheduled_at;
  }

  abbrev pub queued_response : Draws → Publication → PublishJob → Schedule → JobResponse
  queued_response d p job schedule = record {
    status = PublicationStatus.queued;
    platform = job.platform;
    remote_id = [];
    publish_url = p.publish_url;
    error_message = [];
    job_id = some job.job_id;
    idempotency_key = job.idempotency_key;
    queued_at = some job.enqueued_at;
    scheduled_publication_id = if is_nil d.schedule_id then none else some d.schedule_id;
    scheduled_at = if is_nil d.schedule_id then none else some schedule.scheduled_at;
  }

  -- What follows the transaction.
  unfoldable pub end_enqueue :
      Draws → Publication → PublishJob → Result Schedule → Coordinated s JobResponse
  unfolding on_keys release_lock dispatch_event
  end_enqueue d p job (err e) = do
    released ←
        outcome (on_keys (release_lock s.redis (job_key s job) (job_text s job) d.released_at))
    raise e
  end_enqueue d p job (ok schedule) = do
    dispatched ← outcome (dispatch_event s d.outbox_event_id d.claimed_at d.dispatched_at)
    pure (queued_response d p job schedule)

  -- The call on the queue, for a publication that is checked.
  after_lock :
      Draws
      → Project
      → Publication
      → PublishJob
      → Coordinated s JobResponse
      → Bool
      → Coordinated s JobResponse
  unfolding record_request end_enqueue
  after_lock d project p job refused acquired =
      if acquired
      then outcome (transaction (record_request d project p job)) >>= end_enqueue d p job
      else refused

  or_refused : Option JobResponse → Coordinated s JobResponse
  or_refused none = raise publication_already_publishing
  or_refused (some r) = pure r

  -- What follows a lock that is not acquired: the wait for the request with the same key.
  refuse :
      List (State s.redis.Keys → State s.redis.Keys) → Uuid → PublishJob → Coordinated s JobResponse
  unfolding or_refused wait_for_idempotent_publish_response
  refuse others project_id job =
      if text_eq job.idempotency_key []
      then raise publication_already_publishing
      else wait_for_idempotent_publish_response s job.workspace_id project_id job.platform
          job.user_id job.idempotency_key others
        >>= or_refused

  unfoldable pub enqueue_prepared :
      Draws
      → List (State s.redis.Keys → State s.redis.Keys)
      → Project
      → Text
      → Uuid
      → Text
      → Publication
      → Coordinated s JobResponse
  unfolding after_lock refuse on_keys acquire_lock
  enqueue_prepared d others project platform user_id key p =
      let job = new_job d project p platform user_id key in
      on_keys (acquire_lock s.redis (job_key s job) (job_text s job) lock_ttl d.acquired_at)
      >>= after_lock d project p job (refuse others project.id job)

  -- The response of the publish call names no platform.
  abbrev pub published_response : Draws → Schedule → Response → JobResponse
  published_response d schedule r = record {
    status = r.status;
    platform = [];
    remote_id = r.remote_id;
    publish_url = r.publish_url;
    error_message = r.error_message;
    job_id = none;
    idempotency_key = [];
    queued_at = none;
    scheduled_publication_id = if is_nil d.schedule_id then none else some d.schedule_id;
    scheduled_at = if is_nil d.schedule_id then none else some schedule.scheduled_at;
  }

  -- The branch without a queue: the publication is published at once. The two writes are not in one
  -- transaction.
  unfoldable pub publish_now :
      Draws → Project → Text → Uuid → Text → Publication → Coordinated s JobResponse
  unfolding create_scheduled_publication on_tables publish_project project_workspace_id
  publish_now d project platform user_id key p = do
    schedule ←
        create_scheduled_publication s d.schedule_id project p user_id key d.scheduled_at
          ScheduleStatus.scheduled
    r ← on_tables (
        publish_project s.ext (project_workspace_id s.ext.personal_workspace_id project) project.id
          platform (some user_id) d.schedule_id)
    pure (published_response d schedule r)

  -- What follows the checks of the publication, by what there is of a queue.
  unfoldable pub enqueue_or_publish :
      Draws
      → List (State s.redis.Keys → State s.redis.Keys)
      → Project
      → Text
      → Uuid
      → Text
      → Publication
      → Coordinated s JobResponse
  unfolding publish_now enqueue_prepared
  enqueue_or_publish d others project platform user_id key p =
      if not s.has_queue
      then publish_now d project platform user_id key p
      else if not s.has_coordinator
      then raise publish_queue_empty
      else enqueue_prepared d others project platform user_id key p

  -- The look for an earlier request with the same key, if there is a key.
  abbrev replayed : Project → Text → Uuid → Text → Coordinated s (Option JobResponse)
  replayed project platform user_id key =
      if text_eq key []
      then pure none
      else find_idempotent_publish_response s
          (project_workspace_id s.ext.personal_workspace_id project) project.id platform user_id key

  or_error : Error → Option JobResponse → Coordinated s JobResponse
  or_error e none = raise e
  or_error e (some r) = pure r

  enqueue_checked :
      Draws
      → List (State s.redis.Keys → State s.redis.Keys)
      → Project
      → Text
      → Uuid
      → Text
      → Result Publication
      → Coordinated s JobResponse
  unfolding or_error enqueue_or_publish find_idempotent_publish_response
  enqueue_checked d others project platform user_id key (ok p) =
      enqueue_or_publish d others project platform user_id key p
  enqueue_checked d others project platform user_id key (err e) =
      replayed project platform user_id key >>= or_error e

  enqueue_new :
      Draws
      → List (State s.redis.Keys → State s.redis.Keys)
      → Project
      → Text
      → Uuid
      → Text
      → Option JobResponse
      → Coordinated s JobResponse
  unfolding enqueue_checked prepare_publish_job_for_project
  enqueue_new d others project platform user_id key (some r) = pure r
  enqueue_new d others project platform user_id key none =
      outcome (prepare_publish_job_for_project s project platform user_id d.scheduled_at)
      >>= enqueue_checked d others project platform user_id key

  -- EnqueuePublishProject; `scope_user_id` is none for nil.
  unfoldable pub enqueue_publish_project :
      Draws
      → List (State s.redis.Keys → State s.redis.Keys)
      → Uuid
      → Text
      → Option Uuid
      → Text
      → Coordinated s JobResponse
  unfolding enqueue_new find_idempotent_publish_response project_workspace_id
  enqueue_publish_project d others project_id platform none key = raise forbidden
  enqueue_publish_project d others project_id platform (some user_id) key =
      let key' = trim_space key in
      lift_then (s.ext.project_for_publish project_id user_id) λ project.
        replayed project platform user_id key'
        >>= enqueue_new d others project platform user_id key'

  -- BatchEnqueuePublishProject: each platform with what it came to, the first one last; of a platform
  -- that comes twice the later result counts. An error stands for publishErrorResponse.
  unfoldable pub batch_enqueue_publish_project :
      (Text → Draws)
      → (Text → List (State s.redis.Keys → State s.redis.Keys))
      → Uuid
      → List Text
      → Option Uuid
      → Text
      → List (Text × Result JobResponse)
      → Coordinated s (List (Text × Result JobResponse))
  unfolding enqueue_publish_project
  batch_enqueue_publish_project draws others project_id [] user key results = pure results
  batch_enqueue_publish_project draws others project_id (platform ∷ platforms) user key results = do
    let platform_key = if text_eq key [] then key else key ++ (codes ":" ++ platform)
    r ← outcome (
        enqueue_publish_project (draws platform) (others platform) project_id platform user
          platform_key)
    batch_enqueue_publish_project draws others project_id platforms user key
        ((platform, r) ∷ results)
