-- ===== src/Access/Projects.antt =====
-- What a role in a project, or in its workspace, lets a user do.
use multi_plantform_poster.Base.{ℕ, ◌≤◌, ◌≡◌, ◌≢◌, Bool, true, false, arith}
use multi_plantform_poster.Store.{ok, err, forbidden}
use multi_plantform_poster.Access.{
  Uuid, Lookups, Project, ProjectRole, Collaborator, can_edit_project_role, through_workspace,
  workspace_project_role, workspace_access_role, project_access_role_and_source,
  project_for_publish, require_workspace_account_connect,
}
use multi_plantform_poster.Access.Roles.{rank}

-- Whether the user has a role in the project that may edit it.
abbrev pub may_edit : Lookups → Project → Uuid → Bool
may_edit db project user_id = elim (project_access_role_and_source db project user_id) [
  | ok (role, source) ↦ can_edit_project_role role
  | err e ↦ false
]

-- Whoever may publish a project may also edit it, whichever way the right to publish came.
pub project_for_publish-may_edit :
    (db : Lookups) (project_id user_id : Uuid) {project : Project}
    → project_for_publish db project_id user_id ≡ ok project
    → may_edit db project user_id ≡ true
unfolding project_for_publish project_access_role_and_source through_workspace
    workspace_project_role can_edit_project_role
project_for_publish-may_edit db project_id user_id h = ground arith

-- To share a project as an editor gives no right to publish it: a collaborator who is not an owner
-- is refused, also if an owner or admin of the workspace.
pub editor_may_not_publish :
    (db : Lookups) (project : Project) (project_id user_id : Uuid) (c : Collaborator)
    → db.find_project project_id ≡ ok project
    → project.user_id ≢ user_id
    → db.find_collaborator project.id user_id ≡ ok c
    → c.role ≡ ProjectRole.editor
    → project_for_publish db project_id user_id ≡ err forbidden
unfolding project_for_publish
editor_may_not_publish db project project_id user_id c f n g r = ground arith

-- The rank of the user's role in the workspace, 0 if there is none.
abbrev pub access_rank : Lookups → Uuid → Uuid → ℕ
access_rank db workspace_id user_id = elim (workspace_access_role db workspace_id user_id) [
  | ok role ↦ rank role
  | err e ↦ 0
]

-- Only an owner or an admin of a workspace that is not the user's own may connect accounts there.
pub account_connect-rank :
    (db : Lookups) (workspace_id user_id : Uuid)
    → workspace_id ≢ 0
    → workspace_id ≢ db.personal_workspace_id user_id
    → require_workspace_account_connect db workspace_id user_id ≡ ok tt
    → 3 ≤ access_rank db workspace_id user_id
unfolding require_workspace_account_connect
account_connect-rank db workspace_id user_id n m h = ground arith
