-- ===== src/Workspaces/Removing.antt =====
-- What removing a member takes away: the members of a workspace and the access check together.
use multi_plantform_poster.Base.{
  ◌≡◌, refl, ap, sym, subst, ◌∙◌, Bool, true, false, none, some, arith, ◌==◌, is_some,
}
use multi_plantform_poster.Store.{
  Error, ok, err, World, pure, raise, query, execute, ◌>>=◌, forbidden, invalid_workspace_member,
}
use multi_plantform_poster.Store.Rules.{bind-ok, transaction-ok}
use multi_plantform_poster.Access.{Uuid, is_nil, Permission, require_workspace_permission}
use multi_plantform_poster.Workspaces.{
  Tables, lookups_of, require_manager, refuse_if, refuse_owner, record_activity, get_member,
  removal, remove_workspace_member,
}

module _ (workspace_id target : Uuid) where
  manager-tables :
      (actor : Uuid) (w : World Tables) → (require_manager workspace_id actor w).1.tables ≡ w.tables
  unfolding require_manager raise query
  manager-tables actor w = ground arith

  refuse-ok :
      (b : Bool) (e : Error) (w : World Tables) {v : Unit {0}}
      → (refuse_if b e w).0 ≡ ok v
      → (b ≡ false) × ((refuse_if b e w).1.tables ≡ w.tables)
  unfolding refuse_if raise pure
  refuse-ok true e w h = cc
  refuse-ok false e w h = (refl, refl)

  -- The target is not the owner of the workspace.
  abbrev is_owner : Tables → Bool
  is_owner t = elim (t.workspaces workspace_id) [
    | none ↦ false
    | some o ↦ o.owner_user_id == target
  ]

  owner-ok :
      (w : World Tables) {v : Unit {0}}
      → (refuse_owner workspace_id target w).0 ≡ ok v
      → (is_some (w.tables.workspaces workspace_id) ≡ true)
        × (is_owner w.tables ≡ false)
        × ((refuse_owner workspace_id target w).1.tables ≡ w.tables)
  unfolding refuse_owner ◌>>=◌ query refuse_if pure raise
  owner-ok w h = ground arith

  -- The access check of somebody who is neither the owner nor a member.
  outsider-forbidden :
      (t₀ t : Tables) (p : Permission)
      → t.members workspace_id target ≡ none
      → t.workspaces ≡ t₀.workspaces
      → is_some (t₀.workspaces workspace_id) ≡ true
      → is_owner t₀ ≡ false
      → require_workspace_permission (lookups_of t) workspace_id target p ≡ err forbidden
  unfolding require_workspace_permission
  outsider-forbidden t₀ t p m same s o = ground (arith, ap (λ f. f workspace_id) same, m, s, o)

  -- The body of the transaction that removes.
  removal-ok :
      (actor : Uuid) (w : World Tables) {v : Unit {0}}
      → (removal workspace_id actor target w).0 ≡ ok v
      → ((removal workspace_id actor target w).1.tables.members workspace_id target ≡ none)
        × ((removal workspace_id actor target w).1.tables.workspaces ≡ w.tables.workspaces)
  unfolding removal ◌>>=◌ query execute refuse_if pure raise get_member record_activity
  removal-ok actor w h = ground arith

-- Once a member is removed, without an error, the access check forbids everything in the workspace
-- to that user, whatever the permission asked for.
pub remove-forbidden :
    (workspace_id actor target : Uuid) (w : World Tables) (p : Permission)
    → (remove_workspace_member workspace_id actor target w).0 ≡ ok tt
    → require_workspace_permission
        (lookups_of (remove_workspace_member workspace_id actor target w).1.tables)
        workspace_id
        target
        p
      ≡ err forbidden
unfolding remove_workspace_member
remove-forbidden workspace_id actor target w p h =
    let w₂ =
      (refuse_if (is_nil target) invalid_workspace_member
        (require_manager workspace_id actor w).1).1 in
    let w₃ = (refuse_owner workspace_id target w₂).1 in
    let (manager, e₁, h₁, t₁) = bind-ok _ _ w h in
    let (named, e₂, h₂, t₂) = bind-ok _ _ (require_manager workspace_id actor w).1 h₁ in
    let (checked, e₃, h₃, t₃) = bind-ok _ _ _ h₂ in
    let (e₄, t₄) = transaction-ok (removal workspace_id actor target) _ h₃ in
    let (gone, same) = removal-ok workspace_id target actor _ e₄ in
    let (there, other, kept) = owner-ok workspace_id target _ e₃ in
    let all = ap (λ r. r.1.tables) (t₁ ∙ t₂ ∙ t₃) ∙ t₄ in
    let same' = same ∙ ap (λ (t : Tables). t.workspaces) kept in
    subst (λ t. require_workspace_permission (lookups_of t) workspace_id target p ≡ err forbidden)
      (sym all)
      (outsider-forbidden workspace_id target w₂.tables
        (removal workspace_id actor target w₃).1.tables p gone same' there other)
