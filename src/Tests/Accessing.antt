-- ===== src/Tests/Accessing.antt =====
-- Access to a workspace of three, and to its project.
use multi_plantform_poster.Base.{◌≡◌, refl, true, false, some, [], ◌∷◌, arith, inr}
use multi_plantform_poster.Store.{is_ok}
use multi_plantform_poster.Access.{
  Uuid, Project, Workspace, Member, Collaborator, WorkspaceRole, ProjectRole,
  project_access_role_and_source, project_for_publish,
}
use multi_plantform_poster.Access.Projects.{may_edit, project_for_publish-may_edit}
use multi_plantform_poster.Access.Listing.{
  Tables, IsConsistent, lookups, accessible, accessible-access_role,
}

abbrev workspace : Workspace
workspace = record { id = 2; owner_user_id = 10 }

abbrev admin_row : Member
admin_row = record { workspace_id = 2; user_id = 11; role = WorkspaceRole.admin }

abbrev project : Project
project = record { id = 3; user_id = 10; workspace_id = some 2 }

abbrev editor_row : Collaborator
editor_row = record { project_id = 3; user_id = 12; role = ProjectRole.editor }

abbrev tables : Tables
tables = record {
  workspaces = record { workspace = workspace; deleted = false } ∷ [];
  members = admin_row ∷ [];
  collaborators = editor_row ∷ [];
  projects = project ∷ [];
}

abbrev own : Uuid → Uuid
own u = 0

tables-IsConsistent : IsConsistent tables
tables-IsConsistent = record {
  members_known = (refl, tt);
  members_live = (refl, tt);
  keyed = (inr refl, tt);
  not_nil = ((λ e. ground (arith, e)), tt);
}

project_for_publish-may_edit_example : may_edit (lookups own tables) project 11 ≡ true
unfolding project_for_publish
project_for_publish-may_edit_example =
    project_for_publish-may_edit (lookups own tables) 3 11 {project = project} refl

accessible-access_role_example :
    accessible tables project 11
    ≡ is_ok (project_access_role_and_source (lookups own tables) project 11)
accessible-access_role_example =
    accessible-access_role own tables tables-IsConsistent project 11 (λ e. ground (arith, e))
