-- ===== src/Publish/Lifecycle/Syncing.antt =====
-- Marking the publications of a project as syncing, all or none.
use multi_plantform_poster.Base.{
  ◌≡◌, ap, ◌∙◌, ◌⊎◌, inl, inr, Bool, false, not, ◌&&◌, List, [], ◌∷◌, arith, count_if, update_if,
}
use multi_plantform_poster.Base.Text.{Text}
use multi_plantform_poster.Store.{
  ok, is_ok, World, Result-cases, pure, raise, query, execute, transaction, ◌>>=◌,
}
use multi_plantform_poster.Store.Rules.{transaction-ok, transaction_atomic}
use multi_plantform_poster.Access.{Uuid}
use multi_plantform_poster.Publish.{
  PublicationStatus, DraftStatus, Publication, Tables, is_active, update_publications,
}
use multi_plantform_poster.Publish.Lifecycle.{
  of_platforms, refuse_active, syncing_body, mark_prepublish_syncing,
}

abbrev pub syncing_row : Publication → Publication
syncing_row p = record p {
  draft_status = DraftStatus.syncing;
  error_message = [];
  status = PublicationStatus.syncing;
}

syncing_body-ok :
    (test : Publication → Bool) (w : World Tables) {v : Unit {0}}
    → (syncing_body test w).0 ≡ ok v
    → (count_if (λ p. test p && is_active p.status) w.tables.publications ≡ 0)
      × ((syncing_body test w).1.tables.publications
          ≡ update_if (λ p. test p && not (is_active p.status)) syncing_row w.tables.publications)
unfolding syncing_body refuse_active ◌>>=◌ query execute pure raise update_publications
syncing_body-ok test w h = ground arith

-- For at least one platform: either no publication of those platforms was queued or publishing, and
-- all of them become syncing; or the call returns an error, and no table is changed.
pub mark_prepublish_syncing_all_or_none :
    (workspace_id project_id : Uuid) (platform : Text) (platforms : List Text) (w : World Tables)
    → let test = of_platforms workspace_id project_id (platform ∷ platforms) in
      let (r, w') = mark_prepublish_syncing workspace_id project_id (platform ∷ platforms) w in
      ((r ≡ ok tt)
        × (count_if (λ p. test p && is_active p.status) w.tables.publications ≡ 0)
        × (w'.tables.publications
            ≡ update_if
                (λ p. test p && not (is_active p.status))
                syncing_row
                w.tables.publications))
      ⊎ ((is_ok r ≡ false) × (w'.tables ≡ w.tables))
unfolding mark_prepublish_syncing
mark_prepublish_syncing_all_or_none workspace_id project_id platform platforms w =
    let test = of_platforms workspace_id project_id (platform ∷ platforms) in
    elim (Result-cases (transaction (syncing_body test) w).0) [
      | inr (e, f) ↦ inr (ap is_ok f, transaction_atomic (syncing_body test) w f)
      | inl (v, e) ↦
          let (b, t) = transaction-ok (syncing_body test) w e in
          let (none_active, changed) = syncing_body-ok test w b in
          inl (e, none_active, ap (λ (t : Tables). t.publications) t ∙ changed)
    ]
