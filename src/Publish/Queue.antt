-- ===== src/Publish/Queue.antt =====
-- The parts of backend/internal/services/publish/queue.go and service.go that enqueuing a job and
-- working it off share: the events and activities that are written down, the workspace and the lock
-- of a job, and the checks of a publication that is to be published.
pub mod Resolving
use multi_plantform_poster.Base.{
  ℕ, ◌+◌, ◌*◌, Bool, true, false, not, ◌&&◌, ◌||◌, Option, none, some, List, [], ◌∷◌, ◌++◌, ◌==◌,
  ltb, if◌then◌else◌, find_if,
}
use multi_plantform_poster.Base.Text.{Text, codes, text_eq, trim_space}
use multi_plantform_poster.Store.{
  Error, Result, ok, err, World, Action, pure, raise, query, execute, outcome, lift_then, ◌>>=◌,
  ◌>>◌, or_not_found, is_not_found, forbidden, publication_disabled, publication_requires_sync,
  publication_already_publishing, publication_not_found, publish_job_workspace_mismatch,
}
use multi_plantform_poster.Access.{Uuid, is_nil, Project}
use multi_plantform_poster.Resilience.Breaker.{second}
use multi_plantform_poster.RedisKey.{part, tag}
use multi_plantform_poster.Publish.{
  PublicationStatus, Publication, PublishJob, Tables, same_status, is_active,
}
use multi_plantform_poster.Publish.Outbox.{Outbox}
use multi_plantform_poster.Publish.Lock.{Redis, acquire_lock, lock_value, release_lock}
use multi_plantform_poster.Publish.Service.{
  Externals, credentials, find_row, has_synced_draft, project_workspace_id,
}

pub data EventType : Type 0 where
  requested queued started failed succeeded : EventType

-- PublishEvent
pub record PublishEvent : Type 0 where
  pub publication_id : Uuid
  pub workspace_id : Uuid
  pub project_id : Uuid
  pub user_id : Uuid
  pub platform : Text
  pub job_id : Uuid
  pub idempotency_key : Text
  pub event_type : EventType
  pub status : PublicationStatus
  pub remote_id : Text
  pub publish_url : Text
  pub error_message : Text
  pub created_at : ℕ

-- ProjectActivity, as far as publishing writes it: what was asked of which job.
pub record Activity : Type 0 where
  pub workspace_id : Uuid
  pub project_id : Uuid
  pub actor_user_id : Uuid
  pub event_type : EventType
  pub platform : Text
  pub job_id : Uuid

-- The database, and the keys of Redis. The events and the activities stand with the last one first;
-- `versions` is the id of the latest version of a project.
pub record State (Keys : Type 0) : Type 0 where
  pub tables : Tables
  pub projects : Uuid → Option Project
  pub versions : Uuid → Uuid → Option Uuid
  pub schedule_ids : List Uuid
  pub events : List PublishEvent
  pub activities : List Activity
  pub outbox : Outbox
  pub keys : Keys

abbrev pub lock_ttl : ℕ
lock_ttl = 1800 * second

abbrev pub stale_after : ℕ
stale_after = 2 * lock_ttl

module _ {Keys A : Type 0} where
  -- An action on one part of the state.
  unfoldable pub on_tables : Action Tables A → Action (State Keys) A
  on_tables m w =
      let (r, v) = m (record { tables = w.tables.tables; faults = w.faults }) in
      (r, record { tables = record w.tables { tables = v.tables }; faults = v.faults })

  unfoldable pub on_keys : Action Keys A → Action (State Keys) A
  on_keys m w =
      let (r, v) = m (record { tables = w.tables.keys; faults = w.faults }) in
      (r, record { tables = record w.tables { keys = v.tables }; faults = v.faults })

  unfoldable pub on_outbox : Action Outbox A → Action (State Keys) A
  on_outbox m w =
      let (r, v) = m (record { tables = w.tables.outbox; faults = w.faults }) in
      (r, record { tables = record w.tables { outbox = v.tables }; faults = v.faults })

-- What asynq says to a task that it does not take.
pub data TaskError : Type 0 where
  task_id_conflict : TaskError
  task_error : Error → TaskError

-- Redis, what lies outside of the publish service, ResolvePublicationAccount of the accounts' service
-- uuid.UUID.String, and EnqueueContext of asynq for a job under its id, none for no error.
pub record Setting : Type 1 where
  pub redis : Redis
  pub ext : Externals
  pub resolve_publication_account : Uuid → Publication → Result Publication
  pub uuid_text : Uuid → Text
  pub enqueue_task : PublishJob → Option TaskError
  pub has_smaller_id : PublishEvent → PublishEvent → Bool  -- the primary keys of two events
  pub has_queue : Bool  -- s.queue is not nil
  pub has_coordinator : Bool  -- the queue is a publish coordinator

-- publishLockKey
unfoldable pub publish_lock_key : (Uuid → Text) → Uuid → Text → Text
publish_lock_key uuid_text project_id platform =
    codes "mpp:publish:lock:"
    ++ (tag (codes "project") (uuid_text project_id) ++ (b':' ∷ part platform))

abbrev pub is_blank : Text → Bool
is_blank s = text_eq (trim_space s) []

-- publicationPublishingStale at the time `now`
abbrev pub is_later : Option ℕ → ℕ → Bool
is_later none now = false
is_later (some at) now = ltb (at + stale_after) now

unfoldable pub publication_publishing_stale : ℕ → Publication → Bool
publication_publishing_stale now p = is_active p.status && is_later p.last_attempt_at now

-- The row's answer to publicationRetriableForJob.
unfoldable pub is_retriable : Publication → Bool
is_retriable p =
    p.enabled
    && (not (same_status p.status PublicationStatus.cancelled)
        && (is_active p.status || same_status p.status PublicationStatus.failed))

abbrev pub found_row : Result (Option Publication) → Result Publication
found_row (ok o) = or_not_found o
found_row (err e) = err e

module _ (s : Setting) where
  abbrev pub Coordinated : Type 0 → Type 0
  Coordinated A = Action (State s.redis.Keys) A

  abbrev pub job_text : PublishJob → Text
  job_text job = s.uuid_text job.job_id

  abbrev pub job_key : PublishJob → Text
  job_key job = publish_lock_key s.uuid_text job.project_id job.platform

  abbrev add_event : PublishEvent → State s.redis.Keys → State s.redis.Keys × Unit {0}
  add_event e t = (record t { events = e ∷ t.events }, tt)

  abbrev workspace_of_project : Result Project → Uuid
  workspace_of_project (ok p) = project_workspace_id s.ext.personal_workspace_id p
  workspace_of_project (err e) = 0

  -- recordPublishEvent
  unfoldable pub record_publish_event : PublishEvent → Coordinated (Unit {0})
  record_publish_event e =
      if is_nil e.project_id || (is_nil e.user_id || (text_eq e.platform [] || is_nil e.job_id))
      then pure tt
      else if is_nil e.workspace_id
      then (do
        p ← outcome (query (λ t. or_not_found (t.projects e.project_id)))
        execute (add_event (record e { workspace_id = workspace_of_project p })))
      else execute (add_event e)

  -- The workspace of a job whose project is not there.
  abbrev pub in_personal_workspace : PublishJob → PublishJob
  in_personal_workspace job =
      if is_nil job.user_id
      then job
      else record job { workspace_id = s.ext.personal_workspace_id job.user_id }

  abbrev pub resolve : PublishJob → Result Project → Coordinated PublishJob
  resolve job (ok p) =
      let ws = project_workspace_id s.ext.personal_workspace_id p in
      if not (is_nil job.workspace_id) && not (job.workspace_id == ws)
      then raise publish_job_workspace_mismatch
      else pure (record job { workspace_id = ws })
  resolve job (err e) = if is_not_found e then pure (in_personal_workspace job) else raise e

  -- ensurePublishJobWorkspaceID; the job comes back with its workspace.
  unfoldable pub ensure_publish_job_workspace_id : PublishJob → Coordinated PublishJob
  ensure_publish_job_workspace_id job =
      if is_nil job.project_id
      then pure (in_personal_workspace job)
      else outcome (query (λ t. or_not_found (t.projects job.project_id))) >>= resolve job

  -- publicationRetriableForJob
  unfoldable pub publication_retriable_for_job : Uuid → Uuid → Text → Coordinated Bool
  unfolding is_retriable
  publication_retriable_for_job workspace_id project_id platform = do
    p ← query (λ t. found_row (find_row workspace_id project_id platform t.tables))
    pure (is_retriable p)

  -- ensurePublishJobLock, with its two commands at their times.
  unfoldable pub ensure_publish_job_lock : PublishJob → Text → ℕ → ℕ → Coordinated Bool
  unfolding on_keys lock_value acquire_lock publication_retriable_for_job
  ensure_publish_job_lock job key checked_at acquired_at = do
    value ← on_keys (lock_value s.redis key checked_at)
    if text_eq value (job_text job)
        then pure true
        else if not (text_eq value [])
        then pure false
        else (do
          retriable ← publication_retriable_for_job job.workspace_id job.project_id job.platform
          if retriable
              then on_keys (acquire_lock s.redis key (job_text job) lock_ttl acquired_at)
              else pure false)

  -- The checks of preparePublishJobForProject on the row, at the time `now`.
  unfoldable pub check_publication : Uuid → ℕ → Publication → Result Publication
  unfolding publication_publishing_stale has_synced_draft
  check_publication user_id now p =
      if not p.enabled || same_status p.status PublicationStatus.cancelled
      then err publication_disabled
      else if is_active p.status && not (publication_publishing_stale now p)
      then err publication_already_publishing
      else elim (s.ext.get_publisher p.platform) [
        | err e ↦ err e
        | ok u ↦
            if same_status p.status PublicationStatus.syncing
              || (not (has_synced_draft p)
                  && not (same_status p.status PublicationStatus.publishing))
            then err publication_requires_sync
            else credentials (s.resolve_publication_account user_id p)
      ]
