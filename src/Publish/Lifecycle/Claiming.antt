-- ===== src/Publish/Lifecycle/Claiming.antt =====
-- The compare-and-set of MarkQueued and MarkPublishing: of the callers that read a publication in
-- one status, one wins.
use multi_plantform_poster.Base.{
  ℕ, ◌≡◌, ◌≢◌, Bool, true, false, ◌&&◌, some, [], arith, count_if, update_if, count_if-update_if,
  update_if-none, Bool-cases, inl, inr,
}
use multi_plantform_poster.Store.{is_ok, World, pure, raise, query, execute, ◌>>=◌}
use multi_plantform_poster.Publish.{
  PublicationStatus, Publication, Tables, same_status, same_status→eq, update_publications,
}
use multi_plantform_poster.Publish.Lifecycle.{is_row, mark_as, publication_state_changed}

-- The rows that a call with this snapshot may claim.
abbrev pub claimable : Publication → Publication → Bool
claimable row p = is_row row p && same_status p.status row.status

abbrev pub claim : PublicationStatus → ℕ → Publication → Publication
claim status at p = record p { status = status; error_message = []; last_attempt_at = some at }

module _ (status : PublicationStatus) (row : Publication) (at : ℕ) (w : World Tables) where
  mark_as-tables :
      is_ok (mark_as status row at w).0 ≡ true
      → (mark_as status row at w).1.tables.publications
        ≡ update_if (claimable row) (claim status at) w.tables.publications
  unfolding mark_as publication_state_changed ◌>>=◌ execute query pure raise update_publications
  mark_as-tables h = ground arith

  mark_as_unmet :
      count_if (claimable row) w.tables.publications ≡ 0
      → (is_ok (mark_as status row at w).0 ≡ false)
        × ((mark_as status row at w).1.tables.publications ≡ w.tables.publications)
  unfolding mark_as publication_state_changed ◌>>=◌ execute query pure raise update_publications
  mark_as_unmet h =
      ground (arith, update_if-none (claimable row) (claim status at) w.tables.publications h)

-- Once a call has set a publication to another status than the one that it was read in, a further
-- call with that same snapshot, on the tables that the first call left, fails, whatever status it
-- would set and whichever statements fail, and leaves the publications as they are.
pub mark_as_once :
    (status status' : PublicationStatus) (row : Publication) (at at' : ℕ) (w w' : World Tables)
    → is_ok (mark_as status row at w).0 ≡ true
    → status ≢ row.status
    → w'.tables ≡ (mark_as status row at w).1.tables
    → (is_ok (mark_as status' row at' w').0 ≡ false)
      × ((mark_as status' row at' w').1.tables.publications ≡ w'.tables.publications)
mark_as_once status status' row at at' w w' won other same = mark_as_unmet status' row at' w' unmet
  where
    changed : (p : Publication) → claimable row p ≡ true → claimable row (claim status at p) ≡ false
    changed p h = elim (Bool-cases (same_status status row.status)) [
      | inl e ↦ absurd (other (same_status→eq status row.status e))
      | inr e ↦ ground arith
    ]

    rows :
        w'.tables.publications ≡ update_if (claimable row) (claim status at) w.tables.publications
    rows = rw same (mark_as-tables status row at w won)

    unmet : count_if (claimable row) w'.tables.publications ≡ 0
    unmet =
        rw rows (count_if-update_if (claimable row) (claim status at) w.tables.publications changed)
