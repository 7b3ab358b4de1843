-- ===== src/Tests/Joining.antt =====
-- A workspace that one user is invited to, and from which another is removed.
use multi_plantform_poster.Base.{
  Bool, ◌||◌, ◌+◌, ◌≡◌, refl, false, none, some, List, [], ◌∷◌, ◌==◌, ◌&&◌, arith, if◌then◌else◌,
  update_if,
}
use multi_plantform_poster.Base.Text.{Text, codes, text_eq, to_lower, trim_space}
use multi_plantform_poster.Store.{
  err, is_ok, World, pure, raise, query, execute, transaction, ◌>>=◌, record_not_found, forbidden,
}
use multi_plantform_poster.Access.{Uuid, WorkspaceRole, Permission, require_workspace_permission}
use multi_plantform_poster.Workspaces.{
  pending, expired, Invite, Tables, lookups_of, refuse_if, upsert_member, record_activity,
  get_member, require_manager, remove_workspace_member,
}
use multi_plantform_poster.Workspaces.Invites.{
  accept_workspace_invite, accept_body, join, hash_invite_token,
}
use multi_plantform_poster.Workspaces.Granted.{Granted}
use multi_plantform_poster.Workspaces.Serving.{
  Outside, Request, creates, ensures, adds, updates, accepts, serve_all, serve_all-Granted,
}
use multi_plantform_poster.Workspaces.Accepting.{Joined, joined_row, accept_once, accept_expired}
use multi_plantform_poster.Workspaces.Removing.{remove-forbidden}

abbrev invite : Invite
invite = record {
  id = 30;
  workspace_id = 2;
  email = codes "a@b";
  role = WorkspaceRole.member;
  invited_by = 10;
  accepted_by = none;
  status = pending;
  token_hash = codes "t";
  expires_at = 100;
  accepted_at = none;
  revoked_at = none;
}

abbrev start : World Tables
start = record {
  tables = record {
    workspaces = λ w. if w == 2 then some (record { id = 2; owner_user_id = 10 }) else none;
    users = record { id = 11; email = codes "A@b" } ∷ record { id = 10; email = codes "o@b" } ∷ [];
    members = λ w u.
        if (w == 2) && (u == 12)
        then some (record { role = WorkspaceRole.viewer; invited_by = none; joined_at = none })
        else none;
    invites = invite ∷ [];
    activities = [];
  };
  faults = [];
}

abbrev plain : Text → Text
plain token = token

abbrev accepted_world : World Tables
accepted_world = (accept_workspace_invite plain 11 (codes " t ") 50 start).1

accept_once_example :
    ((i : Invite) × (joined_row 50 invite ≡ joined_row 50 i)
      × Joined
          (hash_invite_token plain (trim_space (codes " t ")))
          11
          50
          start.tables
          accepted_world.tables
          i)
    × (is_ok (accept_workspace_invite plain 10 (codes " t ") 60 accepted_world).0 ≡ false)
unfolding accept_workspace_invite accept_body join ◌>>=◌ query execute pure raise transaction
    refuse_if upsert_member record_activity get_member hash_invite_token trim_space text_eq to_lower
accept_once_example =
    accept_once plain 11 10 (codes " t ") 50 60 start accepted_world (joined_row 50 invite) refl
      refl refl

accept_expired_example :
    let (r, w') = accept_workspace_invite plain 11 (codes "t") 100 start in
    (r ≡ err record_not_found)
    × (w'.tables.members ≡ start.tables.members)
    × (w'.tables.invites
        ≡ update_if (λ j. j.id == 30) (λ j. record j { status = expired }) start.tables.invites)
unfolding hash_invite_token trim_space text_eq
accept_expired_example =
    accept_expired plain 11 (codes "t") 100 start invite refl refl refl refl refl refl (omega arith)

abbrev outside : Outside
outside = record { digest = plain; personal_workspace_id = λ u. u + 1000 }

-- The owner of the first workspace, and those who create one.
abbrev made : Uuid → Uuid → Bool
made w u = ((w == 2) && (u == 10)) || (((w == 3) && (u == 11)) || ((w == 1011) && (u == 11)))

abbrev requests : List Request
requests =
    creates 3 11 (record { name = codes "team"; slug = [] }) 40
    ∷ ensures 11 45
    ∷ accepts 11 (codes "t") 50
    ∷ adds 2 10 (record { user_id = 11; email = []; role = codes "owner" }) 60
    ∷ updates 2 10 11 (codes "admin")
    ∷ []

abbrev with_owner : World Tables
with_owner = record {
  tables = record start.tables {
    members = λ w u.
        if (w == 2) && (u == 10)
        then some (record { role = WorkspaceRole.owner; invited_by = none; joined_at = none })
        else start.tables.members w u;
  };
  faults = [];
}

with_owner-Granted : Granted made with_owner.tables
with_owner-Granted = record { members = λ w u. ground arith; invites = (refl, tt) }

serve_all-Granted_example : Granted made (serve_all outside requests with_owner).tables
serve_all-Granted_example =
    serve_all-Granted outside made requests with_owner (refl, (refl, (tt, (tt, (tt, tt)))))
      with_owner-Granted

remove-forbidden_example :
    require_workspace_permission
      (lookups_of (remove_workspace_member 2 10 12 start).1.tables)
      2
      12
      Permission.project_review
    ≡ err forbidden
unfolding remove_workspace_member require_manager ◌>>=◌ query execute pure raise transaction
    refuse_if record_activity get_member require_workspace_permission
remove-forbidden_example = remove-forbidden 2 10 12 start Permission.project_review refl
