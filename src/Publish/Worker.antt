-- ===== src/Publish/Worker.antt =====
-- processPublishJob of backend/internal/services/publish/queue.go, with the goroutine that refreshes
-- the lock meanwhile. Metrics, log lines, caches and read models are left out; the coordination queue
-- is there.
pub mod Refusing
pub mod Retrying
use multi_plantform_poster.Base.{
  ℕ, Bool, true, false, not, ◌||◌, ◌&&◌, Option, none, some, List, [], ◌∷◌, ◌++◌, if◌then◌else◌,
}
use multi_plantform_poster.Base.Text.{Text, codes}
use multi_plantform_poster.Store.{
  Error, Result, ok, err, World, Action, pure, raise, outcome, ◌>>=◌, ◌>>◌, other_error,
  publish_job_workspace_mismatch,
}
use multi_plantform_poster.Access.{Uuid, is_nil}
use multi_plantform_poster.Publish.{PublicationStatus, PublishJob, same_status}
use multi_plantform_poster.Publish.Lock.{acquire_lock, refresh_lock, release_lock}
use multi_plantform_poster.Publish.Lifecycle.{mark_failed}
use multi_plantform_poster.Publish.Service.{Response, publish_project}
use multi_plantform_poster.Publish.Queue.{
  EventType, PublishEvent, State, Setting, Coordinated, on_tables, on_keys, lock_ttl, is_blank,
  job_text, job_key, record_publish_event, ensure_publish_job_workspace_id, ensure_publish_job_lock,
}

-- When the steps of one run take place: the look at the lock, its acquisition, the ticks of the
-- refresher, the events and the release.
pub record Times : Type 0 where
  pub checked_at : ℕ
  pub acquired_at : ℕ
  pub ticks : List ℕ
  pub started_at : ℕ
  pub ended_at : ℕ
  pub released_at : ℕ

-- errors.Is(err, errPublishJobWorkspaceMismatch)
abbrev pub is_mismatch : Error → Bool
is_mismatch publish_job_workspace_mismatch = true
is_mismatch _ = false

-- An event of the job.
abbrev pub event_of :
    PublishJob → EventType → PublicationStatus → Text → Text → Text → ℕ → PublishEvent
event_of job type status remote_id publish_url message at = record {
  publication_id = job.publication_id;
  workspace_id = job.workspace_id;
  project_id = job.project_id;
  user_id = job.user_id;
  platform = job.platform;
  job_id = job.job_id;
  idempotency_key = job.idempotency_key;
  event_type = type;
  status = status;
  remote_id = remote_id;
  publish_url = publish_url;
  error_message = message;
  created_at = at;
}

abbrev pub is_invalid_job : PublishJob → Bool
is_invalid_job job =
    is_nil job.job_id
    || (is_nil job.project_id
        || (is_nil job.workspace_id || (is_nil job.user_id || is_blank job.platform)))

module _ (s : Setting) (times : Times) where
  -- What the refresher does behind a tick: a refused refresh ends it, an error does not.
  abbrev pub after_refresh : Result Bool → Coordinated s Bool → Coordinated s Bool
  after_refresh (ok false) rest = pure true
  after_refresh (ok true) rest = rest
  after_refresh (err e) rest = rest

  -- startPublishLockRefresh at the ticks: whether the ownership was lost.
  unfoldable pub keep_lock : Text → Text → List ℕ → Coordinated s Bool
  unfolding on_keys refresh_lock
  keep_lock key value [] = pure false
  keep_lock key value (t ∷ ts) = do
    refreshed ← outcome (on_keys (refresh_lock s.redis key value lock_ttl t))
    after_refresh refreshed (keep_lock key value ts)

  -- The release, whose error is only logged.
  unfoldable pub release : PublishJob → Coordinated s (Result (Unit {0}))
  unfolding on_keys release_lock
  release job =
      outcome (on_keys (release_lock s.redis (job_key s job) (job_text s job) times.released_at))

  -- An event whose error is only logged.
  unfoldable pub note : PublishEvent → Coordinated s (Result (Unit {0}))
  unfolding record_publish_event
  note e = outcome (record_publish_event s e)

  -- The return of an error of publishing.
  unfoldable pub fail_job : PublishJob → Error → Coordinated s (Unit {0})
  unfolding on_tables mark_failed release note
  fail_job job e = do
    let message = s.ext.error_text e
    marked ← outcome (
        on_tables (mark_failed s.ext.sanitize job.workspace_id job.project_id job.platform message))
    noted ← note (
        event_of job EventType.failed PublicationStatus.failed [] [] (s.ext.sanitize message)
          times.ended_at)
    released ← release job
    raise e

  -- The error that stands for a response that says `failed`.
  abbrev pub failed_error : PublishJob → Text → Error
  failed_error job message =
      other_error (codes "publish job " ++ (job_text s job ++ (codes " failed: " ++ message)))

  -- What follows the publish call: a response that says `failed` is an error of the job too.
  unfoldable pub end_job : PublishJob → Bool → Result Response → Coordinated s (Unit {0})
  unfolding fail_job release note
  end_job job lost (err e) = if lost then pure tt else fail_job job e
  end_job job lost (ok resp) =
      if same_status resp.status PublicationStatus.failed
      then (do
        noted ← note (
            event_of job EventType.failed PublicationStatus.failed [] [] resp.error_message
              times.ended_at)
        released ← release job
        raise (failed_error job resp.error_message))
      else (do
        noted ← note (
            event_of job EventType.succeeded PublicationStatus.succeeded resp.remote_id
              resp.publish_url [] times.ended_at)
        released ← release job
        pure tt)

  -- From the lock on, once the job holds it.
  unfoldable pub run_job : PublishJob → Coordinated s (Unit {0})
  unfolding keep_lock note on_tables publish_project end_job
  run_job job = do
    lost ← keep_lock (job_key s job) (job_text s job) times.ticks
    noted ←
        note (event_of job EventType.started PublicationStatus.publishing [] [] [] times.started_at)
    published ← outcome (
        on_tables (
          publish_project s.ext job.workspace_id job.project_id job.platform (some job.user_id)
            job.schedule_id))
    end_job job lost published

  unfoldable pub run_if_locked : PublishJob → Bool → Coordinated s (Unit {0})
  unfolding run_job
  run_if_locked job locked = if locked then run_job job else pure tt

  -- What follows ensurePublishJobWorkspaceID.
  unfoldable pub process_resolved : PublishJob → Result PublishJob → Coordinated s (Unit {0})
  unfolding release run_if_locked ensure_publish_job_lock
  process_resolved job (err e) =
      if is_mismatch e
      then (if not (is_nil job.job_id)
            && (not (is_nil job.project_id) && not (is_blank job.platform))
          then (do released ← release job; pure tt)
          else pure tt)
      else raise e
  process_resolved job (ok resolved) =
      if is_invalid_job resolved
      then pure tt
      else ensure_publish_job_lock s resolved (job_key s resolved) times.checked_at
          times.acquired_at
        >>= run_if_locked resolved

  unfoldable pub process_publish_job : PublishJob → Coordinated s (Unit {0})
  unfolding process_resolved ensure_publish_job_workspace_id
  process_publish_job job = outcome (ensure_publish_job_workspace_id s job) >>= process_resolved job
