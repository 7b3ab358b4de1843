-- ===== src/Workspaces/Serving.antt =====
-- What any requests leave of the roles of members and invites.
use multi_plantform_poster.Base.{
  ℕ, ◌≡◌, refl, Bool, true, ◌&&◌, some, List, [], ◌∷◌, ◌==◌, leb, All, Bool-cases, inl, inr,
}
use multi_plantform_poster.Base.Text.{Text}
use multi_plantform_poster.Store.{World, query, execute, err, database_error}
use multi_plantform_poster.Store.Rules.{
  Keeps, Keeps-pure, Keeps-raise, Keeps-query, Keeps-execute, Keeps-transaction, Keeps-if,
  Keeps-bind, Keeps-read,
}
use multi_plantform_poster.Access.{Uuid, Workspace}
use multi_plantform_poster.Workspaces.{
  Invite, expired, Tables, AddRequest, add_workspace_member, update_workspace_member,
  remove_workspace_member,
}
use multi_plantform_poster.Workspaces.Invites.{
  InviteRequest, is_pending, join, expire, accept_body, create_workspace_invite,
  accept_workspace_invite, revoke_workspace_invite, expire_workspace_invites,
}
use multi_plantform_poster.Workspaces.Creating.{
  WorkspaceRequest, set_workspace, insert, insert_or_ignore, owner_row, add_owner, create_workspace,
  access_role, get_workspace, ensure_personal_workspace_with_db, ensure_personal_workspace,
}
use multi_plantform_poster.Workspaces.Granted.{
  set_member-Granted, is_grantable, Granted, normalize-grantable, update-All, found-grantable,
  Keeps-refuse, Keeps-manager, Keeps-record, Keeps-upsert, Keeps-get, Keeps-update_invite,
  Keeps-from, add-Keeps, update-Keeps, remove-Keeps,
}

module _ {made : Uuid → Uuid → Bool} where
  module _ (digest : Text → Text) where
    create-Keeps :
        (id w a : Uuid) (token : Text) (req : InviteRequest) (now : ℕ)
        → Keeps (Granted made) (create_workspace_invite digest id token w a req now)
    unfolding create_workspace_invite
    create-Keeps id w a token req now = Keeps-bind _ _ (Keeps-manager w a) λ manager.
        Keeps-from _ _ λ role e. Keeps-bind _ _ (Keeps-refuse _ _) λ valid.
          Keeps-bind _ _ (Keeps-refuse _ _) λ future.
            Keeps-bind _ _
              (Keeps-transaction _ (
                Keeps-bind _ _
                  (Keeps-execute _ (λ t h. record {
                    members = h.members;
                    invites = (normalize-grantable req.role e, h.invites);
                  }))
                  (λ written. Keeps-record _)))
              (λ done. Keeps-pure _)

    join-Keeps :
        (u : Uuid) (now : ℕ) (i : Invite)
        → is_grantable i.role ≡ true
        → Keeps (Granted made) (join u now i)
    unfolding join
    join-Keeps u now i g = Keeps-bind _ _ (Keeps-query _) λ user.
        Keeps-bind _ _ (Keeps-refuse _ _) λ addressed.
          Keeps-bind _ _ (Keeps-upsert i.workspace_id u _ g) λ written.
            Keeps-bind _ _ (Keeps-update_invite i.id _ (λ j. refl))
              λ marked. Keeps-bind _ _ (Keeps-record _) (λ recorded. Keeps-pure _)

    expire-Keeps : (i : Invite) → Keeps (Granted made) (expire i)
    unfolding expire
    expire-Keeps i =
        Keeps-bind _ _ (Keeps-update_invite i.id _ (λ j. refl)) (λ marked. Keeps-pure _)

    accept-Keeps :
        (u : Uuid) (token : Text) (now : ℕ)
        → Keeps (Granted made) (accept_workspace_invite digest u token now)
    unfolding accept_workspace_invite accept_body
    accept-Keeps u token now = Keeps-bind _ _ (Keeps-refuse _ _) λ valid.
        Keeps-bind _ _
          (Keeps-transaction _ (
            Keeps-read _ _ λ t h i e. Keeps-bind _ _ (Keeps-refuse _ _) λ usable.
              Keeps-if _ _ _ (expire-Keeps i) (join-Keeps u now i (found-grantable _ t h e))))
          (λ w. Keeps-get w u)

  revoke-Keeps :
      (w a id : Uuid) (now : ℕ) → Keeps (Granted made) (revoke_workspace_invite w a id now)
  unfolding revoke_workspace_invite
  revoke-Keeps w a id now = Keeps-bind _ _ (Keeps-manager w a) λ manager.
      Keeps-bind _ _ (Keeps-refuse _ _) λ named. Keeps-transaction _ (
        Keeps-bind _ _ (Keeps-query _) λ i. Keeps-bind _ _ (Keeps-refuse _ _) λ usable.
          Keeps-bind _ _ (Keeps-update_invite i.id _ (λ j. refl)) (λ written. Keeps-record _))

  expire_all-Keeps : (w : Uuid) (now : ℕ) → Keeps (Granted made) (expire_workspace_invites w now)
  unfolding expire_workspace_invites
  expire_all-Keeps w now = Keeps-execute _ (λ t h. record {
    members = h.members;
    invites =
        update-All (λ i. i.workspace_id == w && (is_pending i.status && leb i.expires_at now))
          (λ i. record i { status = expired }) (λ i. refl) t.invites h.invites;
  })

  Keeps-insert :
      (is_taken : Tables → Bool) (write : Tables → Tables)
      → ((t : Tables) → Granted made t → Granted made (write t))
      → Keeps (Granted made) (insert is_taken write)
  unfolding insert
  Keeps-insert is_taken write k =
      let refused : Keeps (Granted made) (query {A = Unit {0}} (λ t. err database_error)) =
        Keeps-query _ in
      let written : Keeps (Granted made) (execute {A = Unit {0}} (λ t. (write t, tt))) =
        Keeps-execute _ k in
      record {
        at = λ w h. elim (Bool-cases (is_taken w.tables)) [
          | inl e ↦ rw e (refused.at w h)
          | inr e ↦ rw e (written.at w h)
        ];
      }

  Keeps-insert_or_ignore :
      (is_taken : Tables → Bool) (write : Tables → Tables)
      → ((t : Tables) → Granted made t → Granted made (write t))
      → Keeps (Granted made) (insert_or_ignore is_taken write)
  Keeps-insert_or_ignore is_taken write k =
      Keeps-execute _
        (λ t h. elim (Bool-cases (is_taken t)) [ inl e ↦ rw e h | inr e ↦ rw e (k t h) ])

  set_workspace-Granted :
      (o : Workspace) (t : Tables) → Granted made t → Granted made (set_workspace o t)
  set_workspace-Granted o t h = record { members = h.members; invites = h.invites }

  add_owner-Granted :
      (w u : Uuid) (now : ℕ) (t : Tables)
      → made w u ≡ true
      → Granted made t
      → Granted made (add_owner w u now t)
  add_owner-Granted w u now t m h = set_member-Granted w u (some (owner_row now)) t m h

  create_workspace-Keeps :
      (id a : Uuid) (req : WorkspaceRequest) (now : ℕ)
      → made id a ≡ true
      → Keeps (Granted made) (create_workspace id a req now)
  unfolding create_workspace
  create_workspace-Keeps id a req now m = Keeps-if _ _ _ (Keeps-raise _) (
      Keeps-from _ _ λ name e.
        Keeps-bind _ _
          (Keeps-transaction _ (
            Keeps-bind _ _ (Keeps-insert _ _ (set_workspace-Granted _)) λ created.
              Keeps-bind _ _ (Keeps-insert _ _ (λ t h. add_owner-Granted id a now t m h))
                (λ joined. Keeps-record _)))
          (λ done. Keeps-pure _))

  get_workspace-Keeps : (w u : Uuid) → Keeps (Granted made) (get_workspace w u)
  unfolding get_workspace access_role
  get_workspace-Keeps w u =
      Keeps-bind _ _ (Keeps-if _ _ _ (Keeps-raise _) (Keeps-query _))
        λ role. Keeps-bind _ _ (Keeps-query _) (λ workspace. Keeps-pure _)

  ensure-Keeps :
      (personal : Uuid → Uuid) (u : Uuid) (now : ℕ)
      → made (personal u) u ≡ true
      → Keeps (Granted made) (ensure_personal_workspace personal u now)
  unfolding ensure_personal_workspace ensure_personal_workspace_with_db
  ensure-Keeps personal u now m = Keeps-if _ _ _ (Keeps-raise _) (
      Keeps-bind _ _
        (Keeps-transaction _ (
          Keeps-bind _ _
            (Keeps-bind _ _ (Keeps-insert_or_ignore _ _ (set_workspace-Granted _)) (λ created.
              Keeps-insert_or_ignore _ _ (λ t h. add_owner-Granted (personal u) u now t m h)))
            (λ ensured. Keeps-execute _ (λ t h. h))))
        (λ done. get_workspace-Keeps (personal u) u))

-- What is drawn and computed outside: the digest of a token and the id of a personal workspace.
pub record Outside : Type 0 where
  pub digest : Text → Text
  pub personal_workspace_id : Uuid → Uuid

-- A request that creates a workspace or changes members or invites, for whatever arguments.
pub data Request : Type 0 where
  creates : Uuid → Uuid → WorkspaceRequest → ℕ → Request
  ensures : Uuid → ℕ → Request
  adds : Uuid → Uuid → AddRequest → ℕ → Request
  updates : Uuid → Uuid → Uuid → Text → Request
  removes : Uuid → Uuid → Uuid → Request
  invites : Uuid → Text → Uuid → Uuid → InviteRequest → ℕ → Request
  accepts : Uuid → Text → ℕ → Request
  revokes : Uuid → Uuid → Uuid → ℕ → Request
  expires : Uuid → ℕ → Request

pub serve : Outside → Request → World Tables → World Tables
serve o (creates id a req now) x = (create_workspace id a req now x).1
serve o (ensures u now) x = (ensure_personal_workspace o.personal_workspace_id u now x).1
serve o (adds w a req now) x = (add_workspace_member w a req now x).1
serve o (updates w a u name) x = (update_workspace_member w a u name x).1
serve o (removes w a u) x = (remove_workspace_member w a u x).1
serve o (invites id token w a req now) x =
    (create_workspace_invite o.digest id token w a req now x).1
serve o (accepts u token now) x = (accept_workspace_invite o.digest u token now x).1
serve o (revokes w a id now) x = (revoke_workspace_invite w a id now x).1
serve o (expires w now) x = (expire_workspace_invites w now x).1

-- Who creates a workspace with the request is among those who were made its owners.
abbrev pub IsMade : Outside → (Uuid → Uuid → Bool) → Request → Type 0
IsMade o made (creates id a req now) = made id a ≡ true
IsMade o made (ensures u now) = made (o.personal_workspace_id u) u ≡ true
IsMade o made _ = Unit {0}

serve-Granted :
    (o : Outside) (made : Uuid → Uuid → Bool) (r : Request) (x : World Tables)
    → IsMade o made r
    → Granted made x.tables
    → Granted made (serve o r x).tables
unfolding serve
serve-Granted o made (creates id a req now) x m h = (create_workspace-Keeps id a req now m).at x h
serve-Granted o made (ensures u now) x m h = (ensure-Keeps o.personal_workspace_id u now m).at x h
serve-Granted o made (adds w a req now) x m h = (add-Keeps w a req now).at x h
serve-Granted o made (updates w a u name) x m h = (update-Keeps w a u name).at x h
serve-Granted o made (removes w a u) x m h = (remove-Keeps w a u).at x h
serve-Granted o made (invites id token w a req now) x m h =
    (create-Keeps o.digest id w a token req now).at x h
serve-Granted o made (accepts u token now) x m h = (accept-Keeps o.digest u token now).at x h
serve-Granted o made (revokes w a id now) x m h = (revoke-Keeps w a id now).at x h
serve-Granted o made (expires w now) x m h = (expire_all-Keeps w now).at x h

pub serve_all : Outside → List Request → World Tables → World Tables
unfolding serve
serve_all o [] x = x
serve_all o (r ∷ rs) x = serve_all o rs (serve o r x)

-- Nobody is made an owner but by creating a workspace. Let `made` tell who may be the owner of which
-- workspace: those who create one with a request, also their personal one, and whoever else. If the
-- members of all workspaces are admins, members, viewers and owners that `made` tells of, and no
-- invite is for an owner, then this is so after whatever requests are served, in any order and with
-- any statements failing.
pub serve_all-Granted :
    (o : Outside) (made : Uuid → Uuid → Bool) (rs : List Request) (x : World Tables)
    → All (IsMade o made) rs
    → Granted made x.tables
    → Granted made (serve_all o rs x).tables
unfolding serve_all
serve_all-Granted o made [] x m h = h
serve_all-Granted o made (r ∷ rs) x m h =
    serve_all-Granted o made rs (serve o r x) m.1 (serve-Granted o made r x m.0 h)
