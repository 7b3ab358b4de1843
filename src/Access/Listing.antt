-- ===== src/Access/Listing.antt =====
-- ScopeAccessibleProjectsWithDB, the condition by which projects are listed, against the check of
-- a single project. The tables are lists of rows.
use multi_plantform_poster.Base.{
  ◌≡◌, refl, ◌≢◌, ◌⊎◌, inl, inr, Bool, true, false, not, ◌&&◌, ◌||◌, Option, none, some, List,
  arith, ◌==◌, find_if, exists_if, is_some, exists_if-find_if, find_if_sound, find_if-All,
  find_if-none, subst, All, Option-cases,
}
use multi_plantform_poster.Store.{or_not_found, is_ok}
use multi_plantform_poster.Access.{
  Uuid, Lookups, Project, Workspace, Member, Collaborator, WorkspaceRole, through_workspace,
  workspace_project_role, project_access_role_and_source,
}

-- A workspace with its `DeletedAt`, which gorm keeps out of what it finds.
pub record WorkspaceRow : Type 0 where
  pub workspace : Workspace
  pub deleted : Bool

pub record Tables : Type 0 where
  pub workspaces : List WorkspaceRow
  pub members : List Member
  pub collaborators : List Collaborator
  pub projects : List Project

abbrev pub is_live : Uuid → WorkspaceRow → Bool
is_live workspace_id w = not w.deleted && (w.workspace.id == workspace_id)

abbrev pub is_member : Uuid → Uuid → Member → Bool
is_member workspace_id user_id m = (m.workspace_id == workspace_id) && (m.user_id == user_id)

abbrev pub is_collaborator : Uuid → Uuid → Collaborator → Bool
is_collaborator project_id user_id c = (c.project_id == project_id) && (c.user_id == user_id)

abbrev pub row_of : Option WorkspaceRow → Option Workspace
row_of none = none
row_of (some w) = some w.workspace

-- The lookups of AccessPolicy on these tables.
abbrev pub lookups : (Uuid → Uuid) → Tables → Lookups
lookups personal t = record {
  personal_workspace_id = personal;
  find_workspace = λ w. or_not_found (row_of (find_if (is_live w) t.workspaces));
  find_member = λ w u. or_not_found (find_if (is_member w u) t.members);
  find_collaborator = λ p u. or_not_found (find_if (is_collaborator p u) t.collaborators);
  find_project = λ p. or_not_found (find_if (λ q. q.id == p) t.projects);
}

-- `projects.workspace_id IN (…)` is false of NULL.
unfoldable pub in_workspaces : Tables → Uuid → Option Uuid → Bool
in_workspaces t user_id none = false
in_workspaces t user_id (some w) =
    exists_if (is_member w user_id) t.members
    || exists_if (λ r. is_live w r && (r.workspace.owner_user_id == user_id)) t.workspaces

-- The condition of ScopeAccessibleProjectsWithDB.
unfoldable pub accessible : Tables → Project → Uuid → Bool
accessible t project user_id =
    (project.user_id == user_id)
    || (exists_if (is_collaborator project.id user_id) t.collaborators
        || in_workspaces t user_id project.workspace_id)

abbrev pub is_known : WorkspaceRole → Bool
is_known (WorkspaceRole.other name) = false
is_known _ = true

-- The tables are consistent: a member has a known role in a workspace that is not deleted; a
-- workspace is found by its id, its primary key; and no id is uuid.Nil.
pub record IsConsistent (t : Tables) : Type 0 where
  pub members_known : All (λ m. is_known m.role ≡ true) t.members
  pub members_live :
      All (λ m. is_some (find_if (is_live m.workspace_id) t.workspaces) ≡ true) t.members
  pub keyed :
      All
        (λ r. (r.deleted ≡ true) ⊎ (find_if (is_live r.workspace.id) t.workspaces ≡ some r))
        t.workspaces
  pub not_nil : All (λ r. r.workspace.id ≢ 0) t.workspaces

module _ (personal : Uuid → Uuid) (t : Tables) (c : IsConsistent t) where
  owned_found :
      (w user_id : Uuid) (r : WorkspaceRow)
      → find_if (λ r. is_live w r && (r.workspace.owner_user_id == user_id)) t.workspaces ≡ some r
      → (find_if (is_live w) t.workspaces ≡ some r) × (r.workspace.owner_user_id ≡ user_id)
  owned_found w user_id r h =
      let test = find_if_sound _ t.workspaces h in
      let key = find_if-All _ _ t.workspaces c.keyed h in
      let e : r.workspace.id ≡ w = ground (arith, test) in
      (
        subst (λ v. find_if (is_live v) t.workspaces ≡ some r) e (ground (arith, key, test)),
        ground (arith, test),
      )

  member_found :
      (w user_id : Uuid) (m : Member)
      → find_if (is_member w user_id) t.members ≡ some m
      → (is_some (find_if (is_live w) t.workspaces) ≡ true) × (is_known m.role ≡ true)
  member_found w user_id m h =
      let test = find_if_sound _ t.members h in
      let e : m.workspace_id ≡ w = ground (arith, test) in
      (
        subst (λ v. is_some (find_if (is_live v) t.workspaces) ≡ true) e
            (find_if-All _ _ t.members c.members_live h),
        find_if-All _ _ t.members c.members_known h,
      )

  member_test :
      (w user_id : Uuid)
      → exists_if (is_member w user_id) t.members
        ≡ is_some (find_if (is_member w user_id) t.members)
  member_test w user_id = exists_if-find_if _ t.members

  owned : Uuid → Uuid → WorkspaceRow → Bool
  owned w user_id r = is_live w r && (r.workspace.owner_user_id == user_id)

  workspace_ok :
      (w user_id : Uuid)
      → w ≢ 0
      → user_id ≢ 0
      → is_ok (workspace_project_role (lookups personal t) w user_id)
        ≡ in_workspaces t user_id (some w)
  unfolding in_workspaces workspace_project_role
  workspace_ok w user_id n m =
      let by_member = exists_if-find_if (is_member w user_id) t.members in
      let by_owner =
        exists_if-find_if (λ r. is_live w r && (r.workspace.owner_user_id == user_id))
          t.workspaces in
      elim (Option-cases (find_if (is_member w user_id) t.members)) [
        | inl fm ↦
            elim (Option-cases
              (find_if (λ r. is_live w r && (r.workspace.owner_user_id == user_id)) t.workspaces)) [
                | inl fo ↦ elim (Option-cases (find_if (is_live w) t.workspaces)) [
                  | inl fl ↦ ground arith
                  | inr (r, fl) ↦ ground (
                    arith,
                    find_if_sound _ t.workspaces fl,
                    find_if-All _ _ t.workspaces (find_if-none _ t.workspaces fo) fl,
                  )
                ]
                | inr (r, fo) ↦ ground (arith, owned_found w user_id r fo)
              ]
        | inr (x, fm) ↦ elim (Option-cases (find_if (is_live w) t.workspaces)) [
          | inl fl ↦ ground (arith, member_found w user_id x fm)
          | inr (r, fl) ↦ ground (arith, member_found w user_id x fm)
        ]
      ]

  in_workspaces_nil : (user_id : Uuid) → in_workspaces t user_id (some 0) ≡ false
  unfolding in_workspaces
  in_workspaces_nil user_id = elim (Option-cases (find_if (is_live 0) t.workspaces)) [
    | inr (r, fl) ↦
        ground (arith, find_if_sound _ t.workspaces fl, find_if-All _ _ t.workspaces c.not_nil fl)
    | inl fl ↦ elim (Option-cases (find_if (is_member 0 user_id) t.members)) [
      | inr (m, fm) ↦ ground (arith, member_found 0 user_id m fm)
      | inl fm ↦
          elim (Option-cases
            (find_if (λ r. is_live 0 r && (r.workspace.owner_user_id == user_id)) t.workspaces)) [
              | inr (r, fo) ↦ ground (arith, owned_found 0 user_id r fo)
              | inl fo ↦ ground (
                arith,
                exists_if-find_if (is_member 0 user_id) t.members,
                exists_if-find_if (λ r. is_live 0 r && (r.workspace.owner_user_id == user_id))
                    t.workspaces,
              )
            ]
    ]
  ]

  real_workspace_ok :
      (w user_id : Uuid)
      → user_id ≢ 0
      → is_ok (through_workspace (lookups personal t) (some w) user_id)
        ≡ in_workspaces t user_id (some w)
  unfolding through_workspace
  real_workspace_ok w user_id n = ground (arith, workspace_ok w user_id, in_workspaces_nil user_id)

  workspaces_ok :
      (w : Option Uuid) (user_id : Uuid)
      → user_id ≢ 0
      → is_ok (through_workspace (lookups personal t) w user_id) ≡ in_workspaces t user_id w
  unfolding through_workspace in_workspaces
  workspaces_ok none user_id n = refl
  workspaces_ok (some w) user_id n = real_workspace_ok w user_id n

  -- Over consistent tables a project is listed for a user exactly if the check of that project
  -- gives the user a role in it.
  pub accessible-access_role :
      (project : Project) (user_id : Uuid)
      → user_id ≢ 0
      → accessible t project user_id
        ≡ is_ok (project_access_role_and_source (lookups personal t) project user_id)
  unfolding accessible project_access_role_and_source
  accessible-access_role project user_id n = ground (
    arith,
    exists_if-find_if (is_collaborator project.id user_id) t.collaborators,
    workspaces_ok project.workspace_id user_id n,
  )
