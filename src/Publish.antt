-- ===== src/Publish.antt =====
-- The rows of backend/internal/models/models.go that publishing works on, their statuses, and the
-- tables that hold them. Times are nanoseconds.
pub mod Lock
pub mod Lifecycle
pub mod Outbox
pub mod Service
pub mod Queue
pub mod Worker
pub mod Handover
pub mod Schedules
pub mod Dispatcher
pub mod Replay
pub mod Enqueue
use multi_plantform_poster.Base.{
  ℕ, ◌+◌, Bool, true, false, ◌&&◌, ◌||◌, Option, none, some, List, [], ◌∷◌, ◌==◌, ◌≡◌, refl, arith,
  if◌then◌else◌, count_if, update_if,
}
use multi_plantform_poster.Base.Text.{Text}
use multi_plantform_poster.Access.{Uuid, is_nil}

-- contracts.PublicationStatus…
pub data PublicationStatus : Type 0 where
  draft syncing queued publishing succeeded failed cancelled : PublicationStatus

-- models.PublicationDraftStatus…
pub data DraftStatus : Type 0 where
  unsynced syncing ready stale : DraftStatus

-- models.ScheduledPublicationStatus…
pub data ScheduleStatus : Type 0 where
  draft pending_review approved scheduled running published failed needs_manual_action cancelled :
      ScheduleStatus

-- models.PublishAttemptStatus…
pub data AttemptStatus : Type 0 where
  running succeeded failed needs_manual_action : AttemptStatus

-- ProjectPlatformPublication
pub record Publication : Type 0 where
  pub id : Uuid
  pub workspace_id : Uuid
  pub project_id : Uuid
  pub platform : Text
  pub platform_account_id : Option Uuid
  pub enabled : Bool
  pub status : PublicationStatus
  pub draft_status : DraftStatus
  pub adapted_content : Text
  pub remote_id : Text
  pub publish_url : Text
  pub error_message : Text
  pub retry_count : ℕ
  pub last_attempt_at : Option ℕ
  pub published_at : Option ℕ

-- ScheduledPublication
pub record Schedule : Type 0 where
  pub workspace_id : Uuid
  pub project_id : Uuid
  pub publication_id : Uuid
  pub platform_account_id : Option Uuid
  pub project_version_id : Option Uuid
  pub scheduled_at : ℕ
  pub timezone : Text
  pub status : ScheduleStatus
  pub idempotency_key : Text
  pub created_by : Uuid
  pub cancelled_by : Option Uuid
  pub last_error : Text

-- PublishAttempt
pub record Attempt : Type 0 where
  pub id : Uuid
  pub schedule_id : Uuid
  pub attempt_no : ℕ
  pub started_at : ℕ
  pub finished_at : Option ℕ
  pub status : AttemptStatus
  pub remote_id : Text
  pub publish_url : Text
  pub error_code : Option AttemptStatus
  pub error_message : Text

-- PublishJob
pub record PublishJob : Type 0 where
  pub job_id : Uuid
  pub project_id : Uuid
  pub workspace_id : Uuid
  pub user_id : Uuid
  pub platform : Text
  pub publication_id : Uuid
  pub schedule_id : Uuid
  pub idempotency_key : Text
  pub enqueued_at : ℕ

-- Schedules are found by their id alone, so their table is a map from ids.
pub record Tables : Type 0 where
  pub publications : List Publication
  pub schedules : Uuid → Option Schedule
  pub attempts : List Attempt

status_code : PublicationStatus → ℕ
status_code PublicationStatus.draft = 0
status_code PublicationStatus.syncing = 1
status_code PublicationStatus.queued = 2
status_code PublicationStatus.publishing = 3
status_code PublicationStatus.succeeded = 4
status_code PublicationStatus.failed = 5
status_code PublicationStatus.cancelled = 6

unfoldable pub same_status : PublicationStatus → PublicationStatus → Bool
unfolding status_code
same_status a b = status_code a == status_code b

pub same_status→eq : (a b : PublicationStatus) → same_status a b ≡ true → a ≡ b
unfolding same_status
same_status→eq a b h = ground arith

pub same_status_refl : (a : PublicationStatus) → same_status a a ≡ true
unfolding same_status
same_status_refl a = ground arith

-- activePublicationStatuses
abbrev pub is_active : PublicationStatus → Bool
is_active PublicationStatus.queued = true
is_active PublicationStatus.publishing = true
is_active _ = false

-- workspaceScope: no condition if the workspace is uuid.Nil.
abbrev pub in_scope : Uuid → Uuid → Bool
in_scope workspace_id row_workspace =
    if is_nil workspace_id then true else row_workspace == workspace_id

-- An UPDATE … WHERE, with the number of rows that it met.
unfoldable pub update_publications :
    (Publication → Bool) → (Publication → Publication) → Tables → Tables × ℕ
update_publications test change t =
    (record t { publications = update_if test change t.publications }, count_if test t.publications)
