-- ===== src/Publish/Lifecycle.antt =====
-- PublicationLifecycle of backend/internal/services/publish/lifecycle.go.
pub mod Claiming
pub mod Syncing
pub mod Attempts
use multi_plantform_poster.Base.{
  ℕ, zero, suc, ◌+◌, Bool, true, false, not, ◌&&◌, ◌||◌, Option, none, some, List, [], ◌∷◌, ◌==◌,
  max, if◌then◌else◌, count_if, find_if, update_if, exists_if,
}
use multi_plantform_poster.Base.Text.{Text, text_eq}
use multi_plantform_poster.Store.{
  Error, Result, ok, err, Action, pure, raise, query, execute, transaction, rescue, ◌>>=◌, ◌>>◌,
  or_not_found, publication_already_publishing, publication_requires_sync,
  scheduled_publication_missing, scheduled_publication_not_startable,
}
use multi_plantform_poster.Access.{Uuid, is_nil}
use multi_plantform_poster.Publish.{
  PublicationStatus, ScheduleStatus, AttemptStatus, DraftStatus, Publication, Schedule, Attempt,
  Tables, same_status, is_active, in_scope, update_publications,
}

-- publicationQuery
abbrev pub is_row : Publication → Publication → Bool
is_row pub_row p = (p.id == pub_row.id) && in_scope pub_row.workspace_id p.workspace_id

abbrev row_status : Option Publication → Result PublicationStatus
row_status none = or_not_found none
row_status (some p) = ok p.status

-- publicationStateChangedError, which always ends in an error
publication_state_changed : Uuid → Action Tables Publication
publication_state_changed id = do
  status ← query (λ t. row_status (find_if (λ p. p.id == id) t.publications))
  if is_active status then raise publication_already_publishing else raise publication_requires_sync

-- MarkQueued and MarkPublishing differ in the status alone.
unfoldable pub mark_as : PublicationStatus → Publication → ℕ → Action Tables Publication
unfolding publication_state_changed
mark_as status row at = do
  rows ← execute (
      update_publications (λ p. is_row row p && same_status p.status row.status)
        (λ p. record p { status = status; error_message = []; last_attempt_at = some at }))
  if rows == 0
      then publication_state_changed row.id
      else pure (record row { status = status; last_attempt_at = some at })

unfoldable pub mark_queued : Publication → ℕ → Action Tables Publication
unfolding mark_as
mark_queued row queued_at = mark_as PublicationStatus.queued row queued_at

unfoldable pub mark_publishing : Publication → ℕ → Action Tables Publication
unfolding mark_as
mark_publishing row started_at = mark_as PublicationStatus.publishing row started_at

-- publicationCompletion
pub record Completion : Type 0 where
  pub status : PublicationStatus
  pub remote_id : Text
  pub publish_url : Text
  pub error_message : Text

-- publishAttemptCompletion
pub record AttemptCompletion : Type 0 where
  pub status : AttemptStatus
  pub remote_id : Text
  pub publish_url : Text
  pub error_message : Text

-- The columns that CompletePublication writes at the time `now`.
abbrev pub complete_row : Completion → ℕ → Publication → Publication
complete_row c now p =
    let p' = record p {
      status = c.status;
      remote_id = c.remote_id;
      publish_url = c.publish_url;
      error_message = c.error_message;
    } in
    if same_status c.status PublicationStatus.succeeded
    then record p' { published_at = some now }
    else record p' { retry_count = p.retry_count + 1 }

-- CompletePublication
unfoldable pub complete_publication : Publication → Completion → ℕ → Action Tables Publication
unfolding publication_state_changed
complete_publication row c now = do
  rows ← execute (update_publications (is_row row) (complete_row c now))
  if rows == 0
      then publication_state_changed row.id
      else pure (record row {
        status = c.status;
        remote_id = c.remote_id;
        publish_url = c.publish_url;
        error_message = c.error_message;
      })

-- MarkFailedForWorkspace; `sanitize` is SanitizeUserFacingErrorMessage.
unfoldable pub mark_failed : (Text → Text) → Uuid → Uuid → Text → Text → Action Tables (Unit {0})
mark_failed sanitize workspace_id project_id platform message = do
  rows ← execute (
      update_publications
        (λ p.
          (p.project_id == project_id)
          && (text_eq p.platform platform && in_scope workspace_id p.workspace_id))
        (λ p. record p {
          status = PublicationStatus.failed;
          error_message = sanitize message;
          retry_count = p.retry_count + 1;
        }))
  pure tt

-- The rows that MarkPrepublishSyncing is about.
abbrev pub of_platforms : Uuid → Uuid → List Text → Publication → Bool
of_platforms workspace_id project_id platforms p =
    (p.project_id == project_id)
    && (exists_if (text_eq p.platform) platforms && in_scope workspace_id p.workspace_id)

abbrev count_active : (Publication → Bool) → Tables → Result ℕ
count_active test t = ok (count_if (λ p. test p && is_active p.status) t.publications)

refuse_active : ℕ → Action Tables (Unit {0})
refuse_active active = if active == 0 then pure tt else raise publication_already_publishing

-- The body of the transaction of MarkPrepublishSyncingForWorkspace.
syncing_body : (Publication → Bool) → Action Tables (Unit {0})
unfolding refuse_active
syncing_body test = do
  active ← query (count_active test)
  refuse_active active
  rows ← execute (
      update_publications (λ p. test p && not (is_active p.status))
        (λ p. record p {
          draft_status = DraftStatus.syncing;
          error_message = [];
          status = PublicationStatus.syncing;
        }))
  active' ← query (count_active test)
  refuse_active active'

-- MarkPrepublishSyncingForWorkspace
unfoldable pub mark_prepublish_syncing : Uuid → Uuid → List Text → Action Tables (Unit {0})
unfolding syncing_body
mark_prepublish_syncing workspace_id project_id [] = pure tt
mark_prepublish_syncing workspace_id project_id (platform ∷ platforms) =
    transaction (syncing_body (of_platforms workspace_id project_id (platform ∷ platforms)))

abbrev pub is_startable : ScheduleStatus → Bool
is_startable ScheduleStatus.scheduled = true
is_startable ScheduleStatus.failed = true
is_startable ScheduleStatus.needs_manual_action = true
is_startable _ = false

-- A schedule under its id, in the scope of the workspace.
abbrev pub schedule_in : Uuid → Uuid → Tables → Option Schedule
schedule_in workspace_id schedule_id t = elim (t.schedules schedule_id) [
  | none ↦ none
  | some s ↦ if in_scope workspace_id s.workspace_id then some s else none
]

abbrev pub set_schedule : Uuid → Schedule → Tables → Tables
set_schedule id s t = record t { schedules = λ j. if j == id then some s else t.schedules j }

-- UPDATE of a schedule that passes the test, with the number of rows met.
abbrev pub update_schedule :
    Uuid → Uuid → (Schedule → Bool) → (Schedule → Schedule) → Tables → Tables × ℕ
update_schedule workspace_id id test change t = elim (schedule_in workspace_id id t) [
  | none ↦ (t, 0)
  | some s ↦ if test s then (set_schedule id (change s) t, 1) else (t, 0)
]

-- COALESCE(MAX(attempt_no), 0)
unfoldable pub last_attempt_no : Uuid → List Attempt → ℕ
last_attempt_no schedule_id [] = 0
last_attempt_no schedule_id (a ∷ as') =
    let rest = last_attempt_no schedule_id as' in
    if a.schedule_id == schedule_id then max a.attempt_no rest else rest

-- The row that StartPublishAttempt creates; `attempt_id` is the id drawn for it.
abbrev pub new_attempt : Uuid → Uuid → ℕ → ℕ → Attempt
new_attempt attempt_id schedule_id attempt_no started_at = record {
  id = attempt_id;
  schedule_id = schedule_id;
  attempt_no = attempt_no;
  started_at = started_at;
  finished_at = none;
  status = AttemptStatus.running;
  remote_id = [];
  publish_url = [];
  error_code = none;
  error_message = [];
}

abbrev add_attempt : Attempt → Tables → Tables × Unit {0}
add_attempt a t = (record t { attempts = a ∷ t.attempts }, tt)

-- Why no schedule was started.
not_started : Option Schedule → Action Tables Attempt
not_started none = raise scheduled_publication_missing
not_started (some s) = raise scheduled_publication_not_startable

-- The part of the transaction behind the UPDATE, which met that many rows.
start_rest : Uuid → Uuid → Uuid → ℕ → ℕ → Action Tables Attempt
unfolding last_attempt_no not_started
start_rest attempt_id workspace_id schedule_id started_at zero = do
  found ← query (λ t. ok (schedule_in workspace_id schedule_id t))
  not_started found
start_rest attempt_id workspace_id schedule_id started_at (suc rows) = do
  last ← query (λ t. ok (last_attempt_no schedule_id t.attempts))
  let a = new_attempt attempt_id schedule_id (last + 1) started_at
  done ← execute (add_attempt a)
  pure a

-- The body of the transaction of StartPublishAttemptForWorkspace.
unfoldable pub start_body : Uuid → Uuid → Uuid → ℕ → Action Tables Attempt
unfolding start_rest
start_body attempt_id workspace_id schedule_id started_at = do
  rows ← execute (
      update_schedule workspace_id schedule_id (λ s. is_startable s.status)
        (λ s. record s { status = ScheduleStatus.running; last_error = [] }))
  start_rest attempt_id workspace_id schedule_id started_at rows

-- How the errors of that transaction are handed on.
abbrev start_error : Error → Action Tables (Option Attempt)
start_error scheduled_publication_missing = pure none
start_error scheduled_publication_not_startable = raise publication_already_publishing
start_error e = raise e

-- StartPublishAttemptForWorkspace, on a database with the two tables (`HasTable`); `none` stands
-- for `false`, that there is no attempt.
unfoldable pub start_publish_attempt : Uuid → Uuid → Uuid → ℕ → Action Tables (Option Attempt)
start_publish_attempt attempt_id workspace_id schedule_id started_at =
    if is_nil schedule_id
    then pure none
    else rescue
        (transaction (start_body attempt_id workspace_id schedule_id started_at) >>= λ a.
          pure (some a))
        start_error

abbrev pub is_succeeded : AttemptStatus → Bool
is_succeeded AttemptStatus.succeeded = true
is_succeeded _ = false

abbrev pub finish_row : AttemptCompletion → ℕ → Attempt → Attempt
finish_row c now a = record a {
  finished_at = some now;
  status = c.status;
  remote_id = c.remote_id;
  publish_url = c.publish_url;
  error_code = if is_succeeded c.status then none else some c.status;
  error_message = c.error_message;
}

abbrev pub finished_schedule : AttemptCompletion → Schedule → Schedule
finished_schedule c s = record s {
  status = if is_succeeded c.status then ScheduleStatus.published else ScheduleStatus.failed;
  last_error = c.error_message;
}

abbrev update_attempts : (Attempt → Bool) → (Attempt → Attempt) → Tables → Tables × Unit {0}
update_attempts test change t = (record t { attempts = update_if test change t.attempts }, tt)

-- FinishPublishAttemptForWorkspace, of an attempt that is not nil.
unfoldable pub finish_publish_attempt :
    Uuid → Attempt → AttemptCompletion → ℕ → Action Tables (Unit {0})
finish_publish_attempt workspace_id attempt c now = transaction do
  done ← execute (update_attempts (λ a. a.id == attempt.id) (finish_row c now))
  rows ←
      execute (update_schedule workspace_id attempt.schedule_id (λ s. true) (finished_schedule c))
  pure tt
