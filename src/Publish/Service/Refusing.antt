-- ===== src/Publish/Service/Refusing.antt =====
-- Publish calls that are refused before anything is written.
use multi_plantform_poster.Base.{◌&&◌, ◌==◌, find_if, ◌≡◌, refl, true, not, ◌||◌, some, [], arith}
use multi_plantform_poster.Base.Text.{Text, text_eq}
use multi_plantform_poster.Store.{
  ok, err, World, raise, query, rescue, lift_then, ◌>>=◌, publication_disabled,
}
use multi_plantform_poster.Access.{Uuid, Project}
use multi_plantform_poster.Publish.{PublicationStatus, Publication, Tables, same_status}
use multi_plantform_poster.Publish.Service.{
  Externals, find_row, publish_project, publish_in, project_workspace_id, check_workspace,
}

module _ (ext : Externals) where
  -- A publish call for a publication that is disabled or cancelled ends in an error and changes
  -- nothing.
  pub publish_disabled :
      (ws pid : Uuid) (platform : Text) (user : Uuid) (schedule_id : Uuid) (project : Project)
      (p : Publication) (w : World Tables)
      → w.faults ≡ []
      → ext.project_for_publish pid user ≡ ok project
      → check_workspace ws (project_workspace_id ext.personal_workspace_id project) ≡ ok ws
      → find_row ws pid platform w.tables ≡ ok (some p)
      → not p.enabled || same_status p.status PublicationStatus.cancelled ≡ true
      → let (r, w') = publish_project ext ws pid platform (some user) schedule_id w in
        (r ≡ err publication_disabled) × (w'.tables ≡ w.tables) × (w'.faults ≡ [])
  unfolding publish_project publish_in lift_then rescue query raise ◌>>=◌
  publish_disabled ws pid platform user schedule_id project p w calm access same found off =
      let row : find_if
            (λ x. (x.workspace_id == ws) && ((x.project_id == pid) && text_eq x.platform platform))
            w.tables.publications
          ≡ some p =
        ground (arith, found) in
      rw access (rw same (rw calm (rw row (rw off (refl, refl, refl)))))
