-- ===== src/Access.antt =====
-- backend/internal/services/accesspolicy/accesspolicy.go: who may do what in a workspace and in a
-- project. A uuid is a number, and uuid.Nil is 0. The rows come from the database through
-- `Lookups`; models.PersonalWorkspaceID, a hash of the user's id, is `personal_workspace_id`.
pub mod Roles
pub mod Projects
pub mod Listing
use multi_plantform_poster.Base.{
  ℕ, Bool, true, false, not, ◌||◌, ◌&&◌, Option, none, some, List, [], ◌∷◌, ◌==◌, if◌then◌else◌,
  exists_if,
}
use multi_plantform_poster.Base.Text.{Text}
use multi_plantform_poster.Store.{
  Result, ok, err, Error, forbidden, record_not_found, is_not_found, is_forbidden,
}

abbrev pub Uuid : Type 0
Uuid = ℕ

-- models.WorkspaceRole…; any other text may stand in the column.
pub data WorkspaceRole : Type 0 where
  owner admin member viewer : WorkspaceRole
  other : Text → WorkspaceRole

pub data ProjectRole : Type 0 where
  owner editor viewer : ProjectRole
  other : Text → ProjectRole

-- models.ProjectAccessSource…
pub data AccessSource : Type 0 where
  by_ownership direct_share by_workspace : AccessSource

pub data Permission : Type 0 where
  manage_billing manage_members account_connect account_manage account_use : Permission
  project_create project_edit project_review : Permission
  publish_approve publish_publish publish_schedule : Permission

pub record Workspace : Type 0 where
  pub id : Uuid
  pub owner_user_id : Uuid

pub record Member : Type 0 where
  pub workspace_id : Uuid
  pub user_id : Uuid
  pub role : WorkspaceRole

pub record Collaborator : Type 0 where
  pub project_id : Uuid
  pub user_id : Uuid
  pub role : ProjectRole

pub record Project : Type 0 where
  pub id : Uuid
  pub user_id : Uuid
  pub workspace_id : Option Uuid

-- What `First` answers: a row, ErrRecordNotFound or another error.
pub record Lookups : Type 0 where
  pub personal_workspace_id : Uuid → Uuid
  pub find_workspace : Uuid → Result Workspace
  pub find_member : Uuid → Uuid → Result Member
  pub find_collaborator : Uuid → Uuid → Result Collaborator
  pub find_project : Uuid → Result Project

code_of : Permission → ℕ
code_of manage_billing = 0
code_of manage_members = 1
code_of account_connect = 2
code_of account_manage = 3
code_of account_use = 4
code_of project_create = 5
code_of project_edit = 6
code_of project_review = 7
code_of publish_approve = 8
code_of publish_publish = 9
code_of publish_schedule = 10

-- The map `rolePermissions`; a role that is no key has none.
role_permissions : WorkspaceRole → List Permission
role_permissions WorkspaceRole.owner =
    manage_billing ∷ manage_members ∷ account_connect ∷ account_manage ∷ account_use
    ∷ project_create ∷ project_edit ∷ project_review ∷ publish_approve ∷ publish_publish
    ∷ publish_schedule ∷ []
role_permissions WorkspaceRole.admin =
    manage_members ∷ account_connect ∷ account_manage ∷ account_use ∷ project_create ∷ project_edit
    ∷ project_review ∷ publish_approve ∷ publish_publish ∷ publish_schedule ∷ []
role_permissions WorkspaceRole.member =
    account_use ∷ project_create ∷ project_edit ∷ project_review ∷ publish_publish
    ∷ publish_schedule ∷ []
role_permissions WorkspaceRole.viewer = project_review ∷ []
role_permissions (WorkspaceRole.other name) = []

-- RoleHasPermission
unfoldable pub role_has_permission : WorkspaceRole → Permission → Bool
unfolding role_permissions code_of
role_has_permission role permission =
    exists_if (λ p. code_of p == code_of permission) (role_permissions role)

-- CanEditProjectRole
unfoldable pub can_edit_project_role : ProjectRole → Bool
can_edit_project_role ProjectRole.owner = true
can_edit_project_role ProjectRole.editor = true
can_edit_project_role ProjectRole.viewer = false
can_edit_project_role (ProjectRole.other name) = false

-- ProjectRoleForWorkspaceRole
unfoldable pub project_role_for_workspace_role : WorkspaceRole → Result ProjectRole
project_role_for_workspace_role WorkspaceRole.owner = ok ProjectRole.editor
project_role_for_workspace_role WorkspaceRole.admin = ok ProjectRole.editor
project_role_for_workspace_role WorkspaceRole.member = ok ProjectRole.editor
project_role_for_workspace_role WorkspaceRole.viewer = ok ProjectRole.viewer
project_role_for_workspace_role (WorkspaceRole.other name) = err forbidden

-- An error of a lookup, with ErrRecordNotFound turned into ErrForbidden.
abbrev forbid_missing : Error → Error
forbid_missing e = if is_not_found e then forbidden else e

abbrev pub is_nil : Uuid → Bool
is_nil u = u == 0

-- `project.WorkspaceID`, if it is neither nil nor uuid.Nil.
abbrev pub real_workspace_id : Option Uuid → Option Uuid
real_workspace_id none = none
real_workspace_id (some w) = if is_nil w then none else some w

abbrev with_source : AccessSource → Result ProjectRole → Result (ProjectRole × AccessSource)
with_source source (ok role) = ok (role, source)
with_source source (err e) = err e

module _ (db : Lookups) where
  -- WorkspaceAccessRoleWithDB
  unfoldable pub workspace_access_role : Uuid → Uuid → Result WorkspaceRole
  workspace_access_role workspace_id user_id =
      if is_nil workspace_id || is_nil user_id
      then err forbidden
      else elim (db.find_workspace workspace_id) [
        | err e ↦ err e
        | ok w ↦
            if w.owner_user_id == user_id
            then ok WorkspaceRole.owner
            else elim (db.find_member workspace_id user_id) [
              | err e ↦ err (forbid_missing e)
              | ok m ↦ ok m.role
            ]
      ]

  -- RequireWorkspacePermissionWithDB
  unfoldable pub require_workspace_permission : Uuid → Uuid → Permission → Result WorkspaceRole
  unfolding workspace_access_role role_has_permission
  require_workspace_permission workspace_id user_id permission =
      elim (workspace_access_role workspace_id user_id) [
        | err e ↦ err e
        | ok role ↦ if not (role_has_permission role permission) then err forbidden else ok role
      ]

  -- RequireWorkspaceMemberWithDB
  unfoldable pub require_workspace_member : Uuid → Uuid → Result (Unit {0})
  unfolding workspace_access_role
  require_workspace_member workspace_id user_id =
      if is_nil workspace_id || is_nil user_id
      then err forbidden
      else if workspace_id == db.personal_workspace_id user_id
      then ok tt
      else elim (workspace_access_role workspace_id user_id) [ err e ↦ err e | ok role ↦ ok tt ]

  -- RequireWorkspaceMemberRecordWithDB
  unfoldable pub require_workspace_member_record : Uuid → Uuid → Result (Unit {0})
  require_workspace_member_record workspace_id user_id =
      if is_nil workspace_id || is_nil user_id
      then err forbidden
      else if workspace_id == db.personal_workspace_id user_id
      then ok tt
      else elim (db.find_member workspace_id user_id) [
        | err e ↦ err (forbid_missing e)
        | ok m ↦ ok tt
      ]

  -- RequireWorkspaceAccountConnectWithDB
  unfoldable pub require_workspace_account_connect : Uuid → Uuid → Result (Unit {0})
  unfolding require_workspace_permission
  require_workspace_account_connect workspace_id user_id =
      let personal = db.personal_workspace_id user_id in
      let target = if is_nil workspace_id then personal else workspace_id in
      if target == personal
      then ok tt
      else elim (require_workspace_permission target user_id account_connect) [
        | err e ↦ err e
        | ok role ↦ ok tt
      ]

  -- WorkspaceProjectRoleWithDB
  unfoldable pub workspace_project_role : Uuid → Uuid → Result ProjectRole
  unfolding workspace_access_role project_role_for_workspace_role
  workspace_project_role workspace_id user_id = elim (workspace_access_role workspace_id user_id) [
    | err e ↦ err e
    | ok role ↦ project_role_for_workspace_role role
  ]

  -- The last part of ProjectAccessRoleAndSourceWithDB; the source that comes with an error is not
  -- read.
  unfoldable pub through_workspace : Option Uuid → Uuid → Result (ProjectRole × AccessSource)
  through_workspace workspace_id user_id = elim (real_workspace_id workspace_id) [
    | some w ↦ with_source by_workspace (workspace_project_role w user_id)
    | none ↦ err forbidden
  ]

  -- ProjectAccessRoleAndSourceWithDB
  unfoldable pub project_access_role_and_source :
      Project → Uuid → Result (ProjectRole × AccessSource)
  project_access_role_and_source project user_id =
      let rest = through_workspace project.workspace_id user_id in
      if is_nil user_id
      then err forbidden
      else if project.user_id == user_id
      then ok (ProjectRole.owner, by_ownership)
      else elim (db.find_collaborator project.id user_id) [
        | ok c ↦ ok (c.role, direct_share)
        | err e ↦ if not (is_not_found e) then err e else rest
      ]

  -- CanPublishProjectWithDB
  unfoldable pub can_publish_project : Project → Uuid → Result Bool
  unfolding workspace_access_role
  can_publish_project project user_id =
      let through_workspace : Result Bool = elim (real_workspace_id project.workspace_id) [
        | none ↦ ok false
        | some w ↦ elim (workspace_access_role w user_id) [
          | err e ↦ if is_forbidden e then ok false else err e
          | ok role ↦
              ok (elim role [ WorkspaceRole.owner ↦ true | WorkspaceRole.admin ↦ true | _ ↦ false ])
        ]
      ] in
      elim (db.find_collaborator project.id user_id) [
        | ok c ↦ ok (elim c.role [ ProjectRole.owner ↦ true | _ ↦ false ])
        | err e ↦ if not (is_not_found e) then err e else through_workspace
      ]

  -- ProjectForPublishWithDB
  unfoldable pub project_for_publish : Uuid → Uuid → Result Project
  unfolding can_publish_project
  project_for_publish project_id user_id =
      if is_nil project_id || is_nil user_id
      then err forbidden
      else elim (db.find_project project_id) [
        | err e ↦ err (forbid_missing e)
        | ok project ↦
            if project.user_id == user_id
            then ok project
            else elim (can_publish_project project user_id) [
              | err e ↦ err e
              | ok allowed ↦ if not allowed then err forbidden else ok project
            ]
      ]
