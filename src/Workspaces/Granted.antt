-- ===== src/Workspaces/Granted.antt =====
-- The roles that members and invites come to have.
use multi_plantform_poster.Base.{
  ℕ, ◌≡◌, refl, Bool, true, false, Option, none, some, List, [], ◌∷◌, arith, find_if, update_if,
  All, find_if-All,
}
use multi_plantform_poster.Base.Text.{Text}
use multi_plantform_poster.Store.{Error, Result, ok, err, Action, pure, raise, ◌>>=◌, or_not_found}
use multi_plantform_poster.Store.Rules.{
  Keeps, Keeps-pure, Keeps-raise, Keeps-query, Keeps-execute, Keeps-transaction, Keeps-if,
  Keeps-bind,
}
use multi_plantform_poster.Access.{Uuid, WorkspaceRole}
use multi_plantform_poster.Workspaces.{
  MemberRow, Invite, Activity, Tables, AddRequest, require_manager, refuse_if, from_result,
  normalize_member_role, record_activity, set_member, upsert_member, get_member, resolve_user,
  refuse_owner, record_added, set_role, change_role, add_workspace_member, update_workspace_member,
  removal, remove_workspace_member,
}
use multi_plantform_poster.Workspaces.Invites.{update_invite}

-- The roles that can be given to a member: not owner, and no unknown text.
abbrev pub is_grantable : WorkspaceRole → Bool
is_grantable WorkspaceRole.admin = true
is_grantable WorkspaceRole.member = true
is_grantable WorkspaceRole.viewer = true
is_grantable _ = false

-- The roles that a member may have, who was made the owner of the workspace or was not.
abbrev pub grantable_member : Bool → Option MemberRow → Bool
grantable_member is_made none = true
grantable_member is_made (some m) = elim m.role [
  | WorkspaceRole.owner ↦ is_made
  | role ↦ is_grantable role
]

-- Every member and every invite has such a role, where `made` tells who was made the owner of which
-- workspace.
pub record Granted (made : Uuid → Uuid → Bool) (t : Tables) : Type 0 where
  pub members : (w u : Uuid) → grantable_member (made w u) (t.members w u) ≡ true
  pub invites : All (λ i. is_grantable i.role ≡ true) t.invites

pub normalize-grantable :
    (name : Text) {role : WorkspaceRole}
    → normalize_member_role name ≡ ok role
    → is_grantable role ≡ true
unfolding normalize_member_role
normalize-grantable name h = ground arith

pub update-All :
    (test : Invite → Bool) (change : Invite → Invite)
    → ((i : Invite) → (change i).role ≡ i.role)
    → (is : List Invite) → All (λ i. is_grantable i.role ≡ true) is
    → All (λ i. is_grantable i.role ≡ true) (update_if test change is)
update-All test change same [] h = tt
update-All test change same (i ∷ is) h =
    (ground (arith, same i, h.0), update-All test change same is h.1)

-- Who may be given a role that can be granted may have it.
grantable→member :
    (is_made : Bool) (m : MemberRow)
    → is_grantable m.role ≡ true
    → grantable_member is_made (some m) ≡ true
grantable→member is_made m h = ground arith

module _ {made : Uuid → Uuid → Bool} where
  pub set_member-Granted :
      (w u : Uuid) (row : Option MemberRow) (t : Tables)
      → grantable_member (made w u) row ≡ true
      → Granted made t
      → Granted made (set_member w u row t)
  set_member-Granted w u row t g h = record {
    members = λ w' u'. ground (arith, h.members w' u');
    invites = h.invites;
  }

  pub found-grantable :
      (test : Invite → Bool) (t : Tables) {i : Invite}
      → Granted made t
      → or_not_found (find_if test t.invites) ≡ ok i
      → is_grantable i.role ≡ true
  found-grantable test t {i} h e =
      find_if-All (λ i. is_grantable i.role ≡ true) test t.invites {x = i} h.invites (ground arith)

  module _ {A : Type 0} where
    pub Keeps-from :
        {B : Type 0} (r : Result A) (f : A → Action Tables B)
        → ((a : A) → r ≡ ok a → Keeps (Granted made) (f a))
        → Keeps (Granted made) (from_result r >>= f)
    unfolding from_result ◌>>=◌ pure raise
    Keeps-from (ok a) f k = record { at = (k a refl).at }
    Keeps-from (err e) f k = record { at = λ w h. h }

  pub Keeps-refuse : (b : Bool) (e : Error) → Keeps (Granted made) (refuse_if b e)
  unfolding refuse_if
  Keeps-refuse true e = Keeps-raise e
  Keeps-refuse false e = Keeps-pure tt

  pub Keeps-manager : (w u : Uuid) → Keeps (Granted made) (require_manager w u)
  unfolding require_manager
  Keeps-manager w u = Keeps-if _ _ _ (Keeps-raise _) (Keeps-query _)

  pub Keeps-record : (a : Activity) → Keeps (Granted made) (record_activity a)
  unfolding record_activity
  Keeps-record a = Keeps-execute _ (λ t h. record { members = h.members; invites = h.invites })

  pub Keeps-upsert :
      (w u : Uuid) (row : MemberRow)
      → is_grantable row.role ≡ true
      → Keeps (Granted made) (upsert_member w u row)
  unfolding upsert_member
  Keeps-upsert w u row g =
      Keeps-execute _
        (λ t h. set_member-Granted w u (some row) t (grantable→member (made w u) row g) h)

  pub Keeps-get : (w u : Uuid) → Keeps (Granted made) (get_member w u)
  unfolding get_member
  Keeps-get w u = Keeps-query _

  Keeps-owner : (w u : Uuid) → Keeps (Granted made) (refuse_owner w u)
  unfolding refuse_owner
  Keeps-owner w u = Keeps-bind _ _ (Keeps-query _) (λ workspace. Keeps-refuse _ _)

  Keeps-resolve : (req : AddRequest) → Keeps (Granted made) (resolve_user req)
  unfolding resolve_user
  Keeps-resolve req =
      Keeps-if _ _ _ (Keeps-query _) (Keeps-bind _ _ (Keeps-refuse _ _) (λ named. Keeps-query _))

  Keeps-added :
      (w a u : Uuid) (role : WorkspaceRole) (existing : Option MemberRow)
      → Keeps (Granted made) (record_added w a u role existing)
  unfolding record_added
  Keeps-added w a u role none = Keeps-record _
  Keeps-added w a u role (some m) = Keeps-if _ _ _ (Keeps-pure tt) (Keeps-record _)

  pub Keeps-update_invite :
      (id : Uuid) (change : Invite → Invite)
      → ((i : Invite) → (change i).role ≡ i.role)
      → Keeps (Granted made) (update_invite id change)
  Keeps-update_invite id change same = Keeps-execute _ (λ t h. record {
    members = h.members;
    invites = update-All _ change same t.invites h.invites;
  })

  pub add-Keeps :
      (w a : Uuid) (req : AddRequest) (now : ℕ)
      → Keeps (Granted made) (add_workspace_member w a req now)
  unfolding add_workspace_member
  add-Keeps w a req now = Keeps-bind _ _ (Keeps-manager w a) λ manager. Keeps-from _ _ λ role e.
      Keeps-bind _ _ (Keeps-resolve req) λ user. Keeps-bind _ _ (Keeps-owner w user.id) λ checked.
        Keeps-bind _ _
          (Keeps-transaction _ (
            Keeps-bind _ _ (Keeps-query _) λ existing.
              Keeps-bind _ _ (Keeps-upsert w user.id _ (normalize-grantable req.role e))
                (λ written. Keeps-added w a user.id role existing)))
          (λ done. Keeps-get w user.id)

  set_role-Granted :
      (w u : Uuid) (role : WorkspaceRole) (t : Tables)
      → is_grantable role ≡ true
      → Granted made t
      → Granted made (set_role w u role t).0
  set_role-Granted w u role t g h = record {
    members = λ w' u'. ground (arith, h.members w' u');
    invites = ground (arith, h.invites);
  }

  change-Keeps :
      (w a u : Uuid) (role : WorkspaceRole) (row : MemberRow)
      → is_grantable role ≡ true
      → Keeps (Granted made) (change_role w a u role row)
  unfolding change_role
  change-Keeps w a u role row g = Keeps-if _ _ _ (Keeps-get w u) (
      Keeps-bind _ _
        (Keeps-transaction _ (
          Keeps-bind _ _ (Keeps-execute _ (λ t h. set_role-Granted w u role t g h))
            (λ written. Keeps-record _)))
        (λ done. Keeps-get w u))

  pub update-Keeps :
      (w a u : Uuid) (name : Text) → Keeps (Granted made) (update_workspace_member w a u name)
  unfolding update_workspace_member
  update-Keeps w a u name = Keeps-bind _ _ (Keeps-manager w a) λ manager.
      Keeps-bind _ _ (Keeps-refuse _ _) λ named. Keeps-from _ _ λ role e.
        Keeps-bind _ _ (Keeps-owner w u) λ checked.
          Keeps-bind _ _ (Keeps-get w u)
            (λ row. change-Keeps w a u role row (normalize-grantable name e))

  pub remove-Keeps : (w a u : Uuid) → Keeps (Granted made) (remove_workspace_member w a u)
  unfolding remove_workspace_member removal
  remove-Keeps w a u = Keeps-bind _ _ (Keeps-manager w a) λ manager.
      Keeps-bind _ _ (Keeps-refuse _ _) λ named. Keeps-bind _ _ (Keeps-owner w u) λ checked.
        Keeps-transaction _ (
          Keeps-bind _ _ (Keeps-get w u) λ row.
            Keeps-bind _ _ (Keeps-execute _ (λ t h. set_member-Granted w u none t refl h))
              λ met. Keeps-bind _ _ (Keeps-refuse _ _) (λ gone. Keeps-record _))
