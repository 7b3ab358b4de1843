-- ===== src/Workspaces.antt =====
-- The members of a workspace: backend/internal/services/workspace/management.go, on the rows of
-- backend/internal/models/models.go. The check of a permission counts as one statement. Times are
-- arguments. The caches and read models that are told of a change are left out.
pub mod Invites
pub mod Creating
pub mod Granted
pub mod Serving
pub mod Accepting
pub mod Removing
use multi_plantform_poster.Base.{
  ℕ, Bool, true, false, not, ◌&&◌, ◌||◌, Option, none, some, List, [], ◌∷◌, ◌==◌, if◌then◌else◌,
  find_if, is_some,
}
use multi_plantform_poster.Base.Text.{Text, codes, text_eq, to_lower, trim_space}
use multi_plantform_poster.Store.{
  Error, Result, ok, err, World, Action, pure, raise, query, execute, transaction, ◌>>=◌,
  or_not_found, invalid_workspace, invalid_workspace_member, record_not_found,
}
use multi_plantform_poster.Access.{
  Uuid, is_nil, Workspace, Member, WorkspaceRole, Lookups, manage_members,
  require_workspace_permission,
}

pub record User : Type 0 where
  pub id : Uuid
  pub email : Text

-- WorkspaceMember, without its key (workspace_id, user_id).
pub record MemberRow : Type 0 where
  pub role : WorkspaceRole
  pub invited_by : Option Uuid
  pub joined_at : Option ℕ

-- models.WorkspaceInviteStatus…
pub data InviteStatus : Type 0 where
  pending accepted revoked expired : InviteStatus

-- WorkspaceInvite
pub record Invite : Type 0 where
  pub id : Uuid
  pub workspace_id : Uuid
  pub email : Text
  pub role : WorkspaceRole
  pub invited_by : Uuid
  pub accepted_by : Option Uuid
  pub status : InviteStatus
  pub token_hash : Text
  pub expires_at : ℕ
  pub accepted_at : Option ℕ
  pub revoked_at : Option ℕ

-- models.WorkspaceActivity…, as far as they are recorded here
pub data ActivityType : Type 0 where
  workspace_created member_added member_role_changed member_removed : ActivityType
  invite_created invite_accepted invite_revoked : ActivityType

-- The keys that the metadata of an activity may have.
pub record Metadata : Type 0 where
  pub role : Option WorkspaceRole
  pub previous_role : Option WorkspaceRole
  pub email : Option Text
  pub name : Option Text
  pub slug : Option Text

-- WorkspaceActivity
pub record Activity : Type 0 where
  pub workspace_id : Uuid
  pub actor_user_id : Uuid
  pub target_user_id : Option Uuid
  pub event_type : ActivityType
  pub metadata : Metadata

-- Workspaces and members are found by their primary keys; users are in the order of theirs.
pub record Tables : Type 0 where
  pub workspaces : Uuid → Option Workspace
  pub users : List User
  pub members : Uuid → Uuid → Option MemberRow
  pub invites : List Invite
  pub activities : List Activity

abbrev pub member_of : Tables → Uuid → Uuid → Result Member
member_of t workspace_id user_id = elim (t.members workspace_id user_id) [
  | none ↦ err record_not_found
  | some m ↦ ok (record { workspace_id = workspace_id; user_id = user_id; role = m.role })
]

-- The rows that the access check reads; it reads none of the others.
abbrev pub lookups_of : Tables → Lookups
lookups_of t = record {
  personal_workspace_id = λ user_id. user_id;
  find_workspace = λ id. or_not_found (t.workspaces id);
  find_member = member_of t;
  find_collaborator = λ project_id user_id. err record_not_found;
  find_project = λ id. err record_not_found;
}

abbrev pub manager_role : Uuid → Uuid → Tables → Result WorkspaceRole
manager_role workspace_id user_id t =
    require_workspace_permission (lookups_of t) workspace_id user_id manage_members

-- RequirePermission of backend/internal/services/workspace/service.go, for PermissionManageMembers
unfoldable pub require_manager : Uuid → Uuid → Action Tables WorkspaceRole
require_manager workspace_id user_id =
    if is_nil workspace_id || is_nil user_id
    then raise invalid_workspace
    else query (manager_role workspace_id user_id)

-- `if refused { return err }`
unfoldable pub refuse_if : Bool → Error → Action Tables (Unit {0})
refuse_if true e = raise e
refuse_if false e = pure tt

pub from_result : {A : Type 0} → Result A → Action Tables A
from_result (ok a) = pure a
from_result (err e) = raise e

-- normalizeWorkspaceMemberRole
unfoldable pub normalize_member_role : Text → Result WorkspaceRole
normalize_member_role role =
    let name = trim_space role in
    if text_eq name (codes "admin")
    then ok WorkspaceRole.admin
    else if text_eq name (codes "member")
    then ok WorkspaceRole.member
    else if text_eq name (codes "viewer")
    then ok WorkspaceRole.viewer
    else err invalid_workspace_member

-- recordWorkspaceActivity
unfoldable pub record_activity : Activity → Action Tables (Unit {0})
record_activity a = execute λ t. (record t { activities = a ∷ t.activities }, tt)

abbrev pub set_member : Uuid → Uuid → Option MemberRow → Tables → Tables
set_member workspace_id user_id row t = record t {
  members = λ w u. if w == workspace_id && u == user_id then row else t.members w u;
}

-- INSERT … ON CONFLICT (workspace_id, user_id) DO UPDATE
unfoldable pub upsert_member : Uuid → Uuid → MemberRow → Action Tables (Unit {0})
upsert_member workspace_id user_id row =
    execute λ t. (set_member workspace_id user_id (some row) t, tt)

-- getWorkspaceMember
unfoldable pub get_member : Uuid → Uuid → Action Tables MemberRow
get_member workspace_id user_id = query λ t. or_not_found (t.members workspace_id user_id)

-- AddWorkspaceMemberRequest
pub record AddRequest : Type 0 where
  pub user_id : Uuid
  pub email : Text
  pub role : Text

-- resolveWorkspaceMemberUser
resolve_user : AddRequest → Action Tables User
unfolding refuse_if
resolve_user req =
    if not (is_nil req.user_id)
    then query (λ t. or_not_found (find_if (λ u. u.id == req.user_id) t.users))
    else do
      let email = trim_space req.email
      named ← refuse_if (text_eq email []) invalid_workspace_member
      query λ t. or_not_found (find_if (λ u. text_eq (to_lower u.email) (to_lower email)) t.users)

-- The check that the target is not the owner of the workspace.
refuse_owner : Uuid → Uuid → Action Tables (Unit {0})
unfolding refuse_if
refuse_owner workspace_id user_id = do
  workspace ← query λ t. or_not_found (t.workspaces workspace_id)
  refuse_if (workspace.owner_user_id == user_id) invalid_workspace_member

role_code : WorkspaceRole → Text
role_code WorkspaceRole.owner = codes "owner"
role_code WorkspaceRole.admin = codes "admin"
role_code WorkspaceRole.member = codes "member"
role_code WorkspaceRole.viewer = codes "viewer"
role_code (WorkspaceRole.other name) = name

pub same_role : WorkspaceRole → WorkspaceRole → Bool
unfolding role_code
same_role a b = text_eq (role_code a) (role_code b)

abbrev role_activity :
    Uuid → Uuid → Uuid → ActivityType → Option WorkspaceRole → Option WorkspaceRole → Activity
role_activity workspace_id actor_user_id target event previous role = record {
  workspace_id = workspace_id;
  actor_user_id = actor_user_id;
  target_user_id = some target;
  event_type = event;
  metadata = record {
    role = role;
    previous_role = previous;
    email = none;
    name = none;
    slug = none;
  };
}

-- What is recorded of an added member: nothing if the member had the role already.
record_added : Uuid → Uuid → Uuid → WorkspaceRole → Option MemberRow → Action Tables (Unit {0})
unfolding record_activity same_role
record_added workspace_id actor_user_id user_id role none =
    record_activity (role_activity workspace_id actor_user_id user_id member_added none (some role))
record_added workspace_id actor_user_id user_id role (some existing) =
    if same_role existing.role role
    then pure tt
    else record_activity (
        role_activity workspace_id actor_user_id user_id member_role_changed (some existing.role)
          (some role))

-- AddWorkspaceMember
unfoldable pub add_workspace_member : Uuid → Uuid → AddRequest → ℕ → Action Tables MemberRow
unfolding require_manager from_result normalize_member_role resolve_user refuse_owner upsert_member
    record_added get_member
add_workspace_member workspace_id actor_user_id req now = do
  manager ← require_manager workspace_id actor_user_id
  role ← from_result (normalize_member_role req.role)
  user ← resolve_user req
  checked ← refuse_owner workspace_id user.id
  done ← transaction do
    existing ← query λ t. ok (t.members workspace_id user.id)
    written ←
        upsert_member workspace_id user.id
          (record { role = role; invited_by = some actor_user_id; joined_at = some now })
    record_added workspace_id actor_user_id user.id role existing
  get_member workspace_id user.id

-- UPDATE of the role of a member
abbrev set_role : Uuid → Uuid → WorkspaceRole → Tables → Tables × Unit {0}
set_role workspace_id target role t = elim (t.members workspace_id target) [
  | none ↦ (t, tt)
  | some m ↦ (set_member workspace_id target (some (record m { role = role })) t, tt)
]

-- The end of UpdateWorkspaceMember, on the row that was read.
change_role : Uuid → Uuid → Uuid → WorkspaceRole → MemberRow → Action Tables MemberRow
unfolding get_member record_activity same_role
change_role workspace_id actor_user_id target role row =
    if same_role row.role role then get_member workspace_id target else do
      done ← transaction do
        written ← execute (set_role workspace_id target role)
        record_activity (
            role_activity workspace_id actor_user_id target member_role_changed (some row.role)
              (some role))
      get_member workspace_id target

-- UpdateWorkspaceMember
unfoldable pub update_workspace_member : Uuid → Uuid → Uuid → Text → Action Tables MemberRow
unfolding require_manager from_result normalize_member_role refuse_if refuse_owner change_role
    get_member
update_workspace_member workspace_id actor_user_id target role_name = do
  manager ← require_manager workspace_id actor_user_id
  named ← refuse_if (is_nil target) invalid_workspace_member
  role ← from_result (normalize_member_role role_name)
  checked ← refuse_owner workspace_id target
  row ← get_member workspace_id target
  change_role workspace_id actor_user_id target role row

-- The body of the transaction of RemoveWorkspaceMember.
removal : Uuid → Uuid → Uuid → Action Tables (Unit {0})
unfolding refuse_if get_member record_activity
removal workspace_id actor_user_id target = do
  row ← get_member workspace_id target
  met ←
      execute λ t. (set_member workspace_id target none t, is_some (t.members workspace_id target))
  gone ← refuse_if (not met) record_not_found
  record_activity
      (role_activity workspace_id actor_user_id target member_removed (some row.role) none)

-- RemoveWorkspaceMember
unfoldable pub remove_workspace_member : Uuid → Uuid → Uuid → Action Tables (Unit {0})
unfolding require_manager refuse_if refuse_owner removal
remove_workspace_member workspace_id actor_user_id target = do
  manager ← require_manager workspace_id actor_user_id
  named ← refuse_if (is_nil target) invalid_workspace_member
  checked ← refuse_owner workspace_id target
  transaction (removal workspace_id actor_user_id target)
