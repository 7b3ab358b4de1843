-- ===== src/Publish/Dispatcher.antt =====
-- The dispatcher of backend/internal/services/publish/schedule.go: FlushScheduledPublications reads the
-- schedules that are due, the earliest first, and dispatchScheduledPublication hands each to the worker
-- under the lock of its publication.
pub mod Waiting
use multi_plantform_poster.Base.{
  ℕ, zero, suc, Bool, true, false, not, ◌&&◌, ◌||◌, Option, none, some, List, [], ◌∷◌, ◌++◌, ◌==◌,
  find_if, leb, ltb, if◌then◌else◌,
}
use multi_plantform_poster.Base.Text.{Text, codes, text_eq, trim_space}
use multi_plantform_poster.Store.{
  Error, Result, ok, err, World, Action, pure, raise, query, execute, transaction, outcome,
  lift_then, ◌>>=◌, ◌>>◌, or_not_found, forbidden, publication_already_publishing,
  publication_not_found, publication_requires_sync, is_not_found, record_not_found,
}
use multi_plantform_poster.Access.{Uuid, is_nil, Project}
use multi_plantform_poster.Publish.{
  PublicationStatus, ScheduleStatus, Publication, Schedule, PublishJob, Tables,
}
use multi_plantform_poster.Publish.Lock.{acquire_lock, release_lock}
use multi_plantform_poster.Publish.Lifecycle.{set_schedule}
use multi_plantform_poster.Publish.Service.{
  Response, find_row, project_workspace_id, publish_project,
}
use multi_plantform_poster.Publish.Queue.{
  State, Setting, Coordinated, on_tables, on_keys, lock_ttl, job_text, job_key, found_row,
  check_publication, is_blank,
}
use multi_plantform_poster.Publish.Schedules.{preloaded}
use multi_plantform_poster.Publish.Worker.{Times, process_publish_job}

-- The id drawn for the job of a dispatch, and its times.
pub record Dispatch : Type 0 where
  pub job_id : Uuid
  pub now : ℕ
  pub locked_at : ℕ
  pub times : Times

abbrev pub is_scheduled : ScheduleStatus → Bool
is_scheduled ScheduleStatus.scheduled = true
is_scheduled _ = false

-- The conditions of FlushScheduledPublications.
abbrev pub is_due_schedule : ℕ → Schedule → Bool
is_due_schedule now schedule = is_scheduled schedule.status && leb schedule.scheduled_at now

module _ (s : Setting) where
  abbrev pub scheduled_job : Dispatch → Uuid → Schedule → Text → PublishJob
  scheduled_job d id schedule platform = record {
    job_id = d.job_id;
    project_id = schedule.project_id;
    workspace_id = schedule.workspace_id;
    user_id = schedule.created_by;
    platform = platform;
    publication_id = schedule.publication_id;
    schedule_id = id;
    idempotency_key = schedule.idempotency_key;
    enqueued_at = d.now;
  }

  run_if_acquired : Dispatch → PublishJob → Bool → Coordinated s (Unit {0})
  unfolding process_publish_job
  run_if_acquired d job acquired = if acquired then process_publish_job s d.times job else pure tt

  -- From the platform on.
  unfoldable pub dispatch_on : Dispatch → Uuid → Schedule → Text → Coordinated s (Unit {0})
  unfolding run_if_acquired on_keys acquire_lock
  dispatch_on d id schedule platform =
      if text_eq platform []
      then pure tt
      else if is_nil schedule.workspace_id
      then pure tt
      else let job = scheduled_job d id schedule platform in
        on_keys (acquire_lock s.redis (job_key s job) (job_text s job) lock_ttl d.locked_at)
        >>= run_if_acquired d job

  abbrev row_platform : Option Publication → Result Text
  row_platform none = err record_not_found
  row_platform (some p) = ok p.platform

  platform_found : Dispatch → Uuid → Schedule → Result Text → Coordinated s (Unit {0})
  unfolding dispatch_on
  platform_found d id schedule (ok platform) = dispatch_on d id schedule platform
  platform_found d id schedule (err e) = if is_not_found e then pure tt else raise e

  -- dispatchScheduledPublication, with the platform of the preloaded publication.
  unfoldable pub dispatch_scheduled_publication :
      Dispatch → Uuid → Schedule → Text → Coordinated s (Unit {0})
  unfolding platform_found
  dispatch_scheduled_publication d id schedule loaded =
      if is_nil id
        || (is_nil schedule.project_id
            || (is_nil schedule.created_by || is_nil schedule.publication_id))
      then pure tt
      else if not (is_due_schedule d.now schedule)
      then pure tt
      else if is_blank loaded
      then outcome (
          query (λ t. row_platform (
            find_if
              (λ p. (p.id == schedule.publication_id) && (p.workspace_id == schedule.workspace_id))
              t.tables.publications)))
        >>= platform_found d id schedule
      else dispatch_on d id schedule (trim_space loaded)

-- A due schedule, with its id and the platform that is read with it.
abbrev pub DueRow : Type 0
DueRow = Uuid × (Schedule × Text)

-- ORDER BY scheduled_at ASC
insert_row : DueRow → List DueRow → List DueRow
insert_row r [] = r ∷ []
insert_row (i, (schedule, loaded)) ((j, (other, name)) ∷ rs) =
    let rest = insert_row (i, (schedule, loaded)) rs in
    if leb schedule.scheduled_at other.scheduled_at
    then (i, (schedule, loaded)) ∷ (j, (other, name)) ∷ rs
    else (j, (other, name)) ∷ rest

unfoldable pub sort_rows : List DueRow → List DueRow
unfolding insert_row
sort_rows [] = []
sort_rows (r ∷ rs) = insert_row r (sort_rows rs)

-- LIMIT
unfoldable pub take : ℕ → List DueRow → List DueRow
take zero rs = []
take (suc n) [] = []
take (suc n) (r ∷ rs) = r ∷ take n rs

abbrev pub batch_size : ℕ
batch_size = 25

module _ (s : Setting) where
  abbrev row_of : ℕ → State s.redis.Keys → Uuid → Option Schedule → List DueRow → List DueRow
  row_of now t id none rest = rest
  row_of now t id (some schedule) rest =
      if is_due_schedule now schedule
      then (id, (schedule, preloaded s schedule.publication_id t)) ∷ rest
      else rest

  unfoldable pub due_rows : ℕ → State s.redis.Keys → List Uuid → List DueRow
  due_rows now t [] = []
  due_rows now t (id ∷ ids) = row_of now t id (t.tables.schedules id) (due_rows now t ids)

  -- The loop of the flush, which keeps the first error.
  abbrev first_error : Option Error → Result (Unit {0}) → Option Error
  first_error (some e) r = some e
  first_error none (ok u) = none
  first_error none (err e) = some e

  abbrev end_flush : Option Error → Coordinated s (Unit {0})
  end_flush none = pure tt
  end_flush (some e) = raise e

  unfoldable pub dispatch_all :
      (Uuid → Dispatch) → List DueRow → Option Error → Coordinated s (Unit {0})
  unfolding dispatch_scheduled_publication
  dispatch_all draws [] first = end_flush first
  dispatch_all draws ((id, (schedule, loaded)) ∷ rows) first = do
    r ← outcome (dispatch_scheduled_publication s (draws id) id schedule loaded)
    dispatch_all draws rows (first_error first r)

  -- FlushScheduledPublications at the time `now`; a limit of 0 stands for one that is not positive.
  unfoldable pub flush_scheduled_publications : (Uuid → Dispatch) → ℕ → ℕ → Coordinated s (Unit {0})
  unfolding dispatch_all due_rows sort_rows take
  flush_scheduled_publications draws now limit = do
    rows ← query (λ t. ok (
        take (if limit == 0 then batch_size else limit)
          (sort_rows (due_rows now t t.schedule_ids))))
    dispatch_all draws rows none
