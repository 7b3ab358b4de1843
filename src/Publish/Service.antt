-- ===== src/Publish/Service.antt =====
-- PublishProjectInWorkspaceWithContext of backend/internal/services/publish/service.go. What lies
-- outside of the tables of Publish comes with `Externals`: the access check, the publishers, the
-- saved accounts and the media. The caches and read models that are told of a change are left out.
pub mod Attempts
pub mod Ending
pub mod Refusing
use multi_plantform_poster.Base.{
  ℕ, Bool, true, false, not, ◌&&◌, ◌||◌, Option, none, some, List, [], ◌∷◌, ◌==◌, if◌then◌else◌,
  find_if,
}
use multi_plantform_poster.Base.Text.{Text, codes, text_eq, trim_space}
use multi_plantform_poster.Store.{
  Error, Result, ok, err, World, Action, pure, raise, query, rescue, lift_then, ◌>>=◌, or_not_found,
  forbidden, publication_disabled, publication_requires_sync, publication_not_found,
  platform_account_forbidden, invalid_platform_account,
}
use multi_plantform_poster.Access.{Uuid, is_nil, Project, real_workspace_id}
use multi_plantform_poster.Publish.{
  PublicationStatus, AttemptStatus, Publication, Attempt, Tables, same_status,
}
use multi_plantform_poster.Publish.Lifecycle.{
  Completion, AttemptCompletion, mark_publishing, complete_publication, start_publish_attempt,
  finish_publish_attempt,
}

-- What p.Publish comes to under resilience.Run: its error, if any, and what it reports.
pub record Published : Type 0 where
  pub error : Option Error
  pub remote_id : Text
  pub publish_url : Text

pub record Externals : Type 0 where
  pub project_for_publish : Uuid → Uuid → Result Project
  pub personal_workspace_id : Uuid → Uuid
  pub get_publisher : Text → Result (Unit {0})
  pub apply_saved_credentials : Uuid → Publication → Result Publication
  pub prepare_media_refs : Project → Publication → Result Publication
  pub find_account : Uuid → Uuid → Result Uuid
  pub uses_stored_cookies : Text → Bool
  pub apply_saved_cookies : Uuid → Text → Uuid → Result (Unit {0})
  pub publish : Publication → Option Uuid → Published
  pub error_text : Error → Text
  pub sanitize : Text → Text
  pub new_id : Uuid  -- the id drawn for the attempt
  pub started_at : ℕ
  pub finished_at : ℕ

-- PublishResponse, as far as it is filled here.
pub record Response : Type 0 where
  pub status : PublicationStatus
  pub remote_id : Text
  pub publish_url : Text
  pub error_message : Text

-- models.ProjectWorkspaceID
unfoldable pub project_workspace_id : (Uuid → Uuid) → Project → Uuid
project_workspace_id personal p = elim (real_workspace_id p.workspace_id) [
  | some w ↦ w
  | none ↦ if is_nil p.user_id then 0 else personal p.user_id
]

-- publicationHasSyncedDraft
unfoldable pub has_synced_draft : Publication → Bool
has_synced_draft p =
    let content = trim_space p.adapted_content in
    not (text_eq content [])
    && (not (text_eq content (codes "{}")) && not (text_eq content (codes "null")))

-- The condition for ErrPublicationRequiresSync.
unfoldable pub needs_sync : Publication → Bool
unfolding has_synced_draft
needs_sync p =
    same_status p.status PublicationStatus.syncing
    || (not (has_synced_draft p)
        && (not (same_status p.status PublicationStatus.queued)
            && not (same_status p.status PublicationStatus.publishing)))

abbrev real_id : Option Uuid → Option Uuid
real_id none = none
real_id (some a) = if is_nil a then none else some a

-- An error of the account service, with ErrPlatformAccountForbidden turned into ErrForbidden.
abbrev pub account_error : Error → Error
account_error platform_account_forbidden = forbidden
account_error e = e

abbrev pub credentials : Result Publication → Result Publication
credentials (ok p) = ok p
credentials (err e) = err (account_error e)

module _ (ext : Externals) (workspace_id user_id : Uuid) (attempt : Option Attempt) where
  -- `failAttempt` and the return of its error; what becomes of the finish is ignored.
  fail_attempt : Error → Action Tables Response
  fail_attempt e w = elim attempt [
    | none ↦ (err e, w)
    | some a ↦ (
      err e,
      (finish_publish_attempt workspace_id a
          (record {
            status = AttemptStatus.failed;
            remote_id = [];
            publish_url = [];
            error_message = ext.sanitize (ext.error_text e);
          })
          ext.finished_at w).1,
    )
  ]

  -- `if err != nil { return failAttempt(err) }`, of what comes from outside and of an action.
  or_fail {ℓ} : {A : Type ℓ} → Result A → (A → Action Tables Response) → Action Tables Response
  or_fail (ok a) next w = next a w
  or_fail (err e) next w = fail_attempt e w

  try_action :
      {A : Type 0} → Action Tables A → (A → Action Tables Response) → Action Tables Response
  unfolding or_fail fail_attempt
  try_action m next w = let (r, w') = m w in or_fail r next w'

  abbrev failed_of : Option Error → PublicationStatus
  failed_of none = PublicationStatus.succeeded
  failed_of (some e) = PublicationStatus.failed

  abbrev attempt_status_of : Option Error → AttemptStatus
  attempt_status_of none = AttemptStatus.succeeded
  attempt_status_of (some e) = AttemptStatus.failed

  abbrev message_of : Option Error → Text
  message_of none = []
  message_of (some e) = ext.sanitize (ext.error_text e)

  abbrev response_of : Published → Response
  response_of p = record {
    status = failed_of p.error;
    remote_id = p.remote_id;
    publish_url = p.publish_url;
    error_message = message_of p.error;
  }

  abbrev attempt_completion : Published → AttemptCompletion
  attempt_completion p = record {
    status = attempt_status_of p.error;
    remote_id = p.remote_id;
    publish_url = p.publish_url;
    error_message = message_of p.error;
  }

  abbrev completion : Published → Completion
  completion p = record {
    status = failed_of p.error;
    remote_id = p.remote_id;
    publish_url = p.publish_url;
    error_message = message_of p.error;
  }

  -- The end: the attempt is finished with what came of the publication. The activity that is recorded
  -- after it, whose errors are only logged, is left out.
  conclude : Published → Action Tables Response
  conclude p w = elim attempt [
    | none ↦ (ok (response_of p), w)
    | some a ↦
        let (r, w') =
          finish_publish_attempt workspace_id a (attempt_completion p) ext.finished_at w in
        elim r [ ok u ↦ (ok (response_of p), w') | err e ↦ (err e, w') ]
  ]

  -- From MarkPublishing on.
  publish_row : Publication → Option Uuid → Action Tables Response
  unfolding try_action conclude
  publish_row row account = try_action (mark_publishing row ext.started_at) λ row'.
      let p = ext.publish row' account in
      try_action (complete_publication row' (completion p) ext.finished_at) λ done. conclude p

  -- The saved cookies of a platform that uses them.
  apply_cookies : Publication → Option Uuid → Action Tables Response
  unfolding publish_row or_fail
  apply_cookies row account =
      if not (ext.uses_stored_cookies row.platform) then publish_row row account else elim account [
        | none ↦ fail_attempt invalid_platform_account
        | some a ↦
            or_fail (ext.apply_saved_cookies user_id row.platform a) λ u. publish_row row (some a)
      ]

  -- The account of the publication; an error of this lookup is returned as it is, without
  -- `failAttempt`.
  find_account : Publication → Option Uuid → Action Tables Response
  unfolding apply_cookies
  find_account row none w = apply_cookies row none w
  find_account row (some id) w = elim (ext.find_account id workspace_id) [
    | err e ↦ (err e, w)
    | ok a ↦ apply_cookies row (some a) w
  ]

  with_account : Publication → Action Tables Response
  unfolding find_account
  with_account row = find_account row (real_id row.platform_account_id)

  -- What follows StartPublishAttemptForWorkspace.
  pub publish_started : Project → Publication → Action Tables Response
  unfolding with_account needs_sync
  publish_started project row = or_fail (ext.get_publisher row.platform) λ u.
      if needs_sync row
      then fail_attempt publication_requires_sync
      else or_fail (credentials (ext.apply_saved_credentials user_id row))
          λ row'. or_fail (ext.prepare_media_refs project row') with_account

abbrev pub find_row : Uuid → Uuid → Text → Tables → Result (Option Publication)
find_row workspace_id project_id platform t = ok (
    find_if
      (λ p.
        (p.workspace_id == workspace_id)
        && ((p.project_id == project_id) && text_eq p.platform platform))
      t.publications)

-- From the read of the publication on.
pub publish_in :
    Externals
    → Uuid
    → Uuid
    → Project
    → Uuid
    → Text
    → Uuid
    → Option Publication
    → Action Tables Response
unfolding publish_started
publish_in ext workspace_id user_id project project_id platform schedule_id none =
    raise publication_not_found
publish_in ext workspace_id user_id project project_id platform schedule_id (some row) =
    if not row.enabled || same_status row.status PublicationStatus.cancelled
    then raise publication_disabled
    else start_publish_attempt ext.new_id workspace_id schedule_id ext.started_at >>= λ attempt.
        publish_started ext workspace_id user_id attempt project row

abbrev pub check_workspace : Uuid → Uuid → Result Uuid
check_workspace workspace_id project_workspace =
    if is_nil workspace_id
    then ok project_workspace
    else if workspace_id == project_workspace
    then ok workspace_id
    else err forbidden

-- A failing read of the publication is reported as a missing one.
abbrev missing : Error → Action Tables (Option Publication)
missing e = pure none

-- PublishProjectInWorkspaceWithContext; `scope_user_id` is none for nil.
unfoldable pub publish_project :
    Externals → Uuid → Uuid → Text → Option Uuid → Uuid → Action Tables Response
unfolding publish_in project_workspace_id
publish_project ext workspace_id project_id platform none schedule_id = raise forbidden
publish_project ext workspace_id project_id platform (some user_id) schedule_id =
    lift_then (ext.project_for_publish project_id user_id) λ project.
      lift_then
        (check_workspace workspace_id (project_workspace_id ext.personal_workspace_id project))
        λ ws. rescue (query (find_row ws project_id platform)) missing >>= λ row.
          publish_in ext ws user_id project project_id platform schedule_id row
