-- ===== src/Workspaces/Accepting.antt =====
-- Accepting an invite to a workspace.
use multi_plantform_poster.Base.{
  ℕ, ◌≡◌, ◌≢◌, refl, ap, subst, Option-cases, ◌<◌, ◌≤◌, ◌⊎◌, inl, inr, Bool, true, false, Option,
  none, some, List, [], ◌∷◌, arith, ◌==◌, leb, find_if, update_if, Bool-cases, le→leb,
}
use multi_plantform_poster.Base.Text.{Text, text_eq, to_lower, trim_space}
use multi_plantform_poster.Store.{
  ok, err, is_ok, World, Result-cases, next_fault, pure, raise, query, execute, transaction, ◌>>=◌,
  record_not_found,
}
use multi_plantform_poster.Store.Rules.{transaction-ok}
use multi_plantform_poster.Access.{Uuid, is_nil}
use multi_plantform_poster.Workspaces.{
  MemberRow, expired, Invite, Tables, refuse_if, upsert_member, get_member, record_activity,
}
use multi_plantform_poster.Workspaces.Invites.{
  is_pending, hash_invite_token, accepted_by_user, join, expire, accept_body,
  accept_workspace_invite,
}

-- The invite of a token hash.
abbrev pub invite_of : Text → Tables → Option Invite
invite_of token_hash t = find_if (λ i. text_eq i.token_hash token_hash) t.invites

-- An accepted invite is its token's still, and pending no more.
find-accepted :
    (hash : Text) (u : Uuid) (now : ℕ) (is : List Invite) {i : Invite}
    → find_if (λ i. text_eq i.token_hash hash) is ≡ some i
    → find_if
        (λ i. text_eq i.token_hash hash)
        (update_if (λ j. j.id == i.id) (accepted_by_user u now) is)
      ≡ some (accepted_by_user u now i)
find-accepted hash u now [] h = cc
find-accepted hash u now (j ∷ is) {i} h = ground (arith, find-accepted hash u now is {i = i})

-- Whether the user's e-mail is the one that the invite was sent to.
abbrev pub is_addressed : Uuid → Tables → Invite → Bool
is_addressed u t i = elim (find_if (λ v. v.id == u) t.users) [
  | none ↦ false
  | some v ↦ text_eq (to_lower v.email) (to_lower i.email)
]

abbrev pub joined_row : ℕ → Invite → MemberRow
joined_row now i = record { role = i.role; invited_by = some i.invited_by; joined_at = some now }

module _ (hash : Text) (u : Uuid) (now : ℕ) where
  -- What holds when the invite `i` was accepted, of the tables before and after.
  pub record Joined (t t' : Tables) (i : Invite) : Type 0 where
    pub found : invite_of hash t ≡ some i
    pub open_until_now : is_pending i.status ≡ true
    pub in_time : now < i.expires_at
    pub addressed : is_addressed u t i ≡ true
    pub entered : t'.members i.workspace_id u ≡ some (joined_row now i)
    pub marked : invite_of hash t' ≡ some (accepted_by_user u now i)

  join-ok :
      (i : Invite) (w : World Tables) {ws : Uuid}
      → (join u now i w).0 ≡ ok ws
      → (ws ≡ i.workspace_id)
        × (is_addressed u w.tables i ≡ true)
        × ((join u now i w).1.tables.members i.workspace_id u ≡ some (joined_row now i))
        × ((join u now i w).1.tables.invites
            ≡ update_if (λ j. j.id == i.id) (accepted_by_user u now) w.tables.invites)
  unfolding join ◌>>=◌ query execute pure raise refuse_if upsert_member record_activity
  join-ok i w h = ground arith

  expire-ok :
      (i : Invite) (w : World Tables) {ws : Uuid}
      → (expire i w).0 ≡ ok ws
      → (ws ≡ 0) × ((expire i w).1.tables.members ≡ w.tables.members)
  unfolding expire ◌>>=◌ execute pure
  expire-ok i w h = ground arith

  -- The world behind the read of the invite.
  abbrev behind_read : World Tables → World Tables
  behind_read w = record w { faults = (next_fault w.faults).1 }

  accept_body-missing :
      (w : World Tables) {ws : Uuid}
      → invite_of hash w.tables ≡ none
      → (accept_body u hash now w).0 ≢ ok ws
  unfolding accept_body ◌>>=◌ query
  accept_body-missing w e h = ground arith

  accept_body-split :
      (i : Invite) (w : World Tables) {ws : Uuid}
      → invite_of hash w.tables ≡ some i
      → (accept_body u hash now w).0 ≡ ok ws
      → (is_pending i.status ≡ true)
        × (((now < i.expires_at) × (accept_body u hash now w ≡ join u now i (behind_read w)))
            ⊎ (accept_body u hash now w ≡ expire i (behind_read w)))
  unfolding accept_body ◌>>=◌ query refuse_if pure raise
  accept_body-split i w e h = elim (Bool-cases (next_fault w.faults).0) [
    | inl f ↦ ground (arith, f)
    | inr f ↦ elim (Bool-cases (is_pending i.status)) [
      | inr p ↦ ground (arith, f, e, p)
      | inl p ↦ elim (Bool-cases (leb i.expires_at now)) [
        | inl l ↦ (p, inr (rw (f, e, p, l) refl))
        | inr l ↦ (p, inl (ground (arith, l), rw (f, e, p, l) refl))
      ]
    ]
  ]

  accept_body-Joined :
      (w : World Tables) {ws : Uuid}
      → (accept_body u hash now w).0 ≡ ok ws
      → ((ws ≡ 0) × ((accept_body u hash now w).1.tables.members ≡ w.tables.members))
        ⊎ ((i : Invite) × (ws ≡ i.workspace_id)
            × Joined w.tables (accept_body u hash now w).1.tables i)
  accept_body-Joined w {ws} h = elim (Option-cases (invite_of hash w.tables)) [
    | inl e ↦ ground (arith, accept_body-missing w e h)
    | inr (i, e) ↦
        let (p, s) = accept_body-split i w e h in
        elim s [
          | inr q ↦ inl (rw q (expire-ok i (behind_read w) (subst (λ r. r.0 ≡ ok ws) q h)))
          | inl (l, q) ↦
              let (a, b, c, d) = join-ok i (behind_read w) (subst (λ r. r.0 ≡ ok ws) q h) in
              inr (
                i,
                a,
                record {
                  found = e;
                  open_until_now = p;
                  in_time = l;
                  addressed = b;
                  entered = rw q c;
                  marked = rw (q, d) (find-accepted hash u now w.tables.invites e);
                },
              )
        ]
  ]

  accept_body-closed :
      (i : Invite) (w : World Tables)
      → invite_of hash w.tables ≡ some i
      → is_pending i.status ≡ false
      → is_ok (transaction (accept_body u hash now) w).0 ≡ false
  accept_body-closed i w e p = elim (Result-cases (transaction (accept_body u hash now) w).0) [
    | inr (x, r) ↦ rw r refl
    | inl (ws, r) ↦
        let s = accept_body-split i w e (transaction-ok (accept_body u hash now) w r).0 in
        ground (arith, s.0, p)
  ]

module _ (digest : Text → Text) (u : Uuid) (token : Text) (now : ℕ) where
  accept_closed :
      (i : Invite) (w : World Tables)
      → invite_of (hash_invite_token digest (trim_space token)) w.tables ≡ some i
      → is_pending i.status ≡ false
      → is_ok (accept_workspace_invite digest u token now w).0 ≡ false
  unfolding accept_workspace_invite ◌>>=◌ refuse_if pure raise
  accept_closed i w e p =
      ground (arith, accept_body-closed (hash_invite_token digest (trim_space token)) u now i w e p)

  -- The transaction of a call that succeeds succeeds, and what it leaves is left.
  accept-transaction :
      (w : World Tables) {m : MemberRow}
      → (accept_workspace_invite digest u token now w).0 ≡ ok m
      → let body = accept_body u (hash_invite_token digest (trim_space token)) now in
        (ws : Uuid) × ((transaction body w).0 ≡ ok ws)
        × ((accept_workspace_invite digest u token now w).1.tables ≡ (transaction body w).1.tables)
        × ((transaction body w).1.tables.members ws u ≡ some m)
  unfolding accept_workspace_invite ◌>>=◌ refuse_if pure raise get_member query
  accept-transaction w {m} h =
      let hash = hash_invite_token digest (trim_space token) in
      elim (Result-cases (transaction (accept_body u hash now) w).0) [
        | inr (x, r) ↦ ground (arith, r)
        | inl (ws, r) ↦ (ws, r, ground (arith, r), ground (arith, r))
      ]

-- An invite is accepted at most once, and only as it was meant. When a call of accepting returns a
-- member (and no member row stands under the nil workspace), the token is that of an invite that
-- was pending and has not expired and is addressed to the e-mail of the caller; the caller has the
-- role of the invite in its workspace, and the invite is marked as accepted; and on the tables
-- that this leaves no call with the token succeeds, whoever calls and whenever.
pub accept_once :
    (digest : Text → Text) (u u' : Uuid) (token : Text) (now now' : ℕ) (w w' : World Tables)
    (m : MemberRow)
    → w.tables.members 0 u ≡ none
    → (accept_workspace_invite digest u token now w).0 ≡ ok m
    → w'.tables ≡ (accept_workspace_invite digest u token now w).1.tables
    → ((i : Invite) × (m ≡ joined_row now i)
        × Joined (hash_invite_token digest (trim_space token)) u now w.tables w'.tables i)
      × (is_ok (accept_workspace_invite digest u' token now' w').0 ≡ false)
accept_once digest u u' token now now' w w' m nil h e =
    let hash = hash_invite_token digest (trim_space token) in
    let body = accept_body u hash now in
    let (ws, r, t, g) = accept-transaction digest u token now w h in
    let (ok_body, left) = transaction-ok body w r in
    elim (accept_body-Joined hash u now w ok_body) [
      | inl (z, same) ↦ ground (arith, z, ap (λ f. f 0 u) same, left, nil, g)
      | inr (i, v, j) ↦
          let j' : Joined hash u now w.tables w'.tables i = rw (e, t, left) j in
          (
            (i, ground (arith, g, v, left, j.entered), j'),
            accept_closed digest u' token now' (accepted_by_user u now i) w' j'.marked refl,
          )
    ]

-- Without a failing statement, accepting a pending invite that has expired marks it as expired,
-- makes nobody a member, and answers that a record was not found (where no member row stands under
-- the nil workspace), and not that the invite is invalid.
pub accept_expired :
    (digest : Text → Text) (u : Uuid) (token : Text) (now : ℕ) (w : World Tables) (i : Invite)
    → w.faults ≡ []
    → is_nil u ≡ false
    → text_eq (hash_invite_token digest (trim_space token)) [] ≡ false
    → w.tables.members 0 u ≡ none
    → invite_of (hash_invite_token digest (trim_space token)) w.tables ≡ some i
    → is_pending i.status ≡ true
    → i.expires_at ≤ now
    → let (r, w') = accept_workspace_invite digest u token now w in
      (r ≡ err record_not_found)
      × (w'.tables.members ≡ w.tables.members)
      × (w'.tables.invites
          ≡ update_if (λ j. j.id == i.id) (λ j. record j { status = expired }) w.tables.invites)
unfolding accept_workspace_invite accept_body expire ◌>>=◌ refuse_if pure raise get_member query
    execute transaction
accept_expired digest u token now w i f n t m e p l =
    rw (n, t, f, e, p, le→leb i.expires_at now l, m) (refl, refl, refl)
