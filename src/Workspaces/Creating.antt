-- ===== src/Workspaces/Creating.antt =====
-- The creation of workspaces: CreateWorkspace, EnsurePersonalWorkspace and GetWorkspace of
-- backend/internal/services/workspace/management.go. The id that is drawn for a workspace and the
-- function PersonalWorkspaceID, a SHA-1 of the user's id, are given. A row of a workspace is kept
-- with its id and owner alone. The projects that EnsurePersonalWorkspace puts into the workspace
-- are not in Tables.
use multi_plantform_poster.Base.{ℕ, Bool, ◌||◌, none, some, [], ◌==◌, if◌then◌else◌, is_some}
use multi_plantform_poster.Base.Text.{Text, text_eq, trim_space}
use multi_plantform_poster.Store.{
  Result, ok, err, Action, pure, raise, query, execute, transaction, ◌>>=◌, or_not_found,
  invalid_workspace, database_error,
}
use multi_plantform_poster.Access.{Uuid, is_nil, Workspace, WorkspaceRole, workspace_access_role}
use multi_plantform_poster.Workspaces.{
  MemberRow, Activity, workspace_created, Tables, lookups_of, from_result, record_activity,
  set_member,
}

-- normalizeWorkspaceName
unfoldable pub normalize_workspace_name : Text → Result Text
normalize_workspace_name name =
    let name' = trim_space name in if text_eq name' [] then err invalid_workspace else ok name'

-- CreateWorkspaceRequest
pub record WorkspaceRequest : Type 0 where
  pub name : Text
  pub slug : Text

abbrev pub set_workspace : Workspace → Tables → Tables
set_workspace workspace t = record t {
  workspaces = λ id. if id == workspace.id then some workspace else t.workspaces id;
}

-- An INSERT that fails if the key is taken, and one that then does nothing.
unfoldable pub insert : (Tables → Bool) → (Tables → Tables) → Action Tables (Unit {0})
insert is_taken write w =
    if is_taken w.tables then query (λ t. err database_error) w else execute (λ t. (write t, tt)) w

abbrev pub insert_or_ignore : (Tables → Bool) → (Tables → Tables) → Action Tables (Unit {0})
insert_or_ignore is_taken write = execute λ t. (if is_taken t then t else write t, tt)

abbrev pub has_workspace : Uuid → Tables → Bool
has_workspace id t = is_some (t.workspaces id)

abbrev pub has_member : Uuid → Uuid → Tables → Bool
has_member workspace_id user_id t = is_some (t.members workspace_id user_id)

abbrev pub owner_row : ℕ → MemberRow
owner_row now = record { role = WorkspaceRole.owner; invited_by = none; joined_at = some now }

abbrev pub add_owner : Uuid → Uuid → ℕ → Tables → Tables
add_owner workspace_id user_id now t = set_member workspace_id user_id (some (owner_row now)) t

abbrev pub creation_activity : Uuid → Uuid → Text → Text → Activity
creation_activity workspace_id actor_user_id name slug = record {
  workspace_id = workspace_id;
  actor_user_id = actor_user_id;
  target_user_id = none;
  event_type = workspace_created;
  metadata = record {
    role = none;
    previous_role = none;
    email = none;
    name = some name;
    slug = some slug;
  };
}

-- CreateWorkspace, with the id that BeforeCreate draws.
unfoldable pub create_workspace :
    Uuid → Uuid → WorkspaceRequest → ℕ → Action Tables (Workspace × WorkspaceRole)
unfolding from_result normalize_workspace_name insert record_activity
create_workspace id actor_user_id req now =
    if is_nil actor_user_id then raise invalid_workspace else do
      name ← from_result (normalize_workspace_name req.name)
      let workspace : Workspace = record { id = id; owner_user_id = actor_user_id }
      done ← transaction do
        created ← insert (has_workspace id) (set_workspace workspace)
        joined ← insert (has_member id actor_user_id) (add_owner id actor_user_id now)
        record_activity (creation_activity id actor_user_id name (trim_space req.slug))
      pure (workspace, WorkspaceRole.owner)

-- workspaceAccessRole
unfoldable pub access_role : Uuid → Uuid → Action Tables WorkspaceRole
unfolding workspace_access_role
access_role workspace_id user_id =
    if is_nil workspace_id || is_nil user_id
    then raise invalid_workspace
    else query (λ t. workspace_access_role (lookups_of t) workspace_id user_id)

-- GetWorkspace
unfoldable pub get_workspace : Uuid → Uuid → Action Tables (Workspace × WorkspaceRole)
unfolding access_role
get_workspace workspace_id actor_user_id = do
  role ← access_role workspace_id actor_user_id
  workspace ← query λ t. or_not_found (t.workspaces workspace_id)
  pure (workspace, role)

-- ensurePersonalWorkspaceWithDB
unfoldable pub ensure_personal_workspace_with_db :
    (Uuid → Uuid) → Uuid → ℕ → Action Tables (Unit {0})
ensure_personal_workspace_with_db personal_workspace_id owner_user_id now = do
  let id = personal_workspace_id owner_user_id
  created ←
      insert_or_ignore (has_workspace id)
        (set_workspace (record { id = id; owner_user_id = owner_user_id }))
  insert_or_ignore (has_member id owner_user_id) (add_owner id owner_user_id now)

-- EnsurePersonalWorkspace
unfoldable pub ensure_personal_workspace :
    (Uuid → Uuid) → Uuid → ℕ → Action Tables (Workspace × WorkspaceRole)
unfolding ensure_personal_workspace_with_db get_workspace
ensure_personal_workspace personal_workspace_id user_id now =
    if is_nil user_id then raise invalid_workspace else do
      done ← transaction do
        ensured ← ensure_personal_workspace_with_db personal_workspace_id user_id now
        execute λ (t : Tables). (t, tt)
      get_workspace (personal_workspace_id user_id) user_id
