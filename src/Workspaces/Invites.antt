-- ===== src/Workspaces/Invites.antt =====
-- The invites to a workspace: backend/internal/services/workspace/management.go. The token and its
-- SHA-256 digest in base64 come as arguments. The lock that accepting takes on the invite lasts
-- until the end of the transaction, so that transaction is one step.
use multi_plantform_poster.Base.{
  ℕ, ◌+◌, ◌*◌, Bool, true, false, not, ◌&&◌, ◌||◌, Option, none, some, [], ◌∷◌, ◌==◌, leb,
  if◌then◌else◌, find_if, update_if,
}
use multi_plantform_poster.Base.Text.{Text, codes, text_eq, to_lower, trim_space, contains}
use multi_plantform_poster.Store.{
  Action, pure, query, execute, transaction, ◌>>=◌, or_not_found, forbidden,
  invalid_workspace_invite,
}
use multi_plantform_poster.Access.{Uuid, is_nil}
use multi_plantform_poster.Resilience.Breaker.{second}
use multi_plantform_poster.Workspaces.{
  MemberRow, InviteStatus, pending, accepted, revoked, expired, Invite, ActivityType, Activity,
  invite_created, invite_accepted, invite_revoked, Tables, require_manager, refuse_if, from_result,
  normalize_member_role, record_activity, upsert_member, get_member,
}

abbrev pub is_pending : InviteStatus → Bool
is_pending pending = true
is_pending _ = false

abbrev pub invite_activity : Invite → Uuid → Option Uuid → ActivityType → Activity
invite_activity i actor_user_id target event = record {
  workspace_id = i.workspace_id;
  actor_user_id = actor_user_id;
  target_user_id = target;
  event_type = event;
  metadata = record {
    role = some i.role;
    previous_role = none;
    email = some i.email;
    name = none;
    slug = none;
  };
}

-- hashWorkspaceInviteToken
unfoldable pub hash_invite_token : (Text → Text) → Text → Text
hash_invite_token digest token =
    let token' = trim_space token in if text_eq token' [] then [] else digest token'

-- CreateWorkspaceInviteRequest
pub record InviteRequest : Type 0 where
  pub email : Text
  pub role : Text
  pub expires_at : Option ℕ

abbrev pub week : ℕ
week = 604800 * second

abbrev expiry : Option ℕ → ℕ → ℕ
expiry none now = now + week
expiry (some at) now = at

-- CreateWorkspaceInvite, at the time `now` and with the id and the token that were drawn
unfoldable pub create_workspace_invite :
    (Text → Text) → Uuid → Text → Uuid → Uuid → InviteRequest → ℕ → Action Tables (Invite × Text)
unfolding require_manager from_result normalize_member_role refuse_if record_activity
    hash_invite_token
create_workspace_invite digest id token workspace_id actor_user_id req now = do
  manager ← require_manager workspace_id actor_user_id
  role ← from_result (normalize_member_role req.role)
  let email = to_lower (trim_space req.email)
  valid ← refuse_if (text_eq email [] || not (contains email (codes "@"))) invalid_workspace_invite
  let expires_at = expiry req.expires_at now
  future ← refuse_if (leb expires_at now) invalid_workspace_invite
  let invite : Invite = record {
    id = id;
    workspace_id = workspace_id;
    email = email;
    role = role;
    invited_by = actor_user_id;
    accepted_by = none;
    status = pending;
    token_hash = hash_invite_token digest token;
    expires_at = expires_at;
    accepted_at = none;
    revoked_at = none;
  }
  done ← transaction do
    written ← execute λ (t : Tables). (record t { invites = invite ∷ t.invites }, tt)
    record_activity (invite_activity invite actor_user_id none invite_created)
  pure (invite, token)

abbrev pub update_invite : Uuid → (Invite → Invite) → Action Tables (Unit {0})
update_invite id change =
    execute λ t. (record t { invites = update_if (λ i. i.id == id) change t.invites }, tt)

abbrev pub accepted_by_user : Uuid → ℕ → Invite → Invite
accepted_by_user user_id now i = record i {
  accepted_by = some user_id;
  accepted_at = some now;
  status = accepted;
}

-- The rest of the transaction of accepting, on an invite that may still be accepted. What it
-- returns is the workspace of `member`. strings.EqualFold is read for ASCII letters.
unfoldable pub join : Uuid → ℕ → Invite → Action Tables Uuid
unfolding refuse_if upsert_member record_activity
join actor_user_id now invite = do
  user ← query λ t. or_not_found (find_if (λ u. u.id == actor_user_id) t.users)
  addressed ← refuse_if (not (text_eq (to_lower user.email) (to_lower invite.email))) forbidden
  written ←
      upsert_member invite.workspace_id actor_user_id
        (record { role = invite.role; invited_by = some invite.invited_by; joined_at = some now })
  marked ← update_invite invite.id (accepted_by_user actor_user_id now)
  recorded ←
      record_activity (invite_activity invite actor_user_id (some actor_user_id) invite_accepted)
  pure invite.workspace_id

-- An invite that has expired is marked so, and `member` stays zero.
unfoldable pub expire : Invite → Action Tables Uuid
expire invite = do marked ← update_invite invite.id (λ i. record i { status = expired }); pure 0

-- The body of the transaction of AcceptWorkspaceInvite.
unfoldable pub accept_body : Uuid → Text → ℕ → Action Tables Uuid
unfolding refuse_if join expire
accept_body actor_user_id token_hash now = do
  invite ← query λ t. or_not_found (find_if (λ i. text_eq i.token_hash token_hash) t.invites)
  usable ← refuse_if (not (is_pending invite.status)) invalid_workspace_invite
  if leb invite.expires_at now then expire invite else join actor_user_id now invite

-- AcceptWorkspaceInvite
unfoldable pub accept_workspace_invite : (Text → Text) → Uuid → Text → ℕ → Action Tables MemberRow
unfolding refuse_if accept_body get_member hash_invite_token
accept_workspace_invite digest actor_user_id token now = do
  let token_hash = hash_invite_token digest (trim_space token)
  valid ← refuse_if (is_nil actor_user_id || text_eq token_hash []) invalid_workspace_invite
  workspace_id ← transaction (accept_body actor_user_id token_hash now)
  get_member workspace_id actor_user_id

-- RevokeWorkspaceInvite
unfoldable pub revoke_workspace_invite : Uuid → Uuid → Uuid → ℕ → Action Tables (Unit {0})
unfolding require_manager refuse_if record_activity
revoke_workspace_invite workspace_id actor_user_id invite_id now = do
  manager ← require_manager workspace_id actor_user_id
  named ← refuse_if (is_nil invite_id) invalid_workspace_invite
  transaction do
    invite ← query λ t.
        or_not_found
          (find_if (λ i. (i.id == invite_id) && (i.workspace_id == workspace_id)) t.invites)
    usable ← refuse_if (not (is_pending invite.status)) invalid_workspace_invite
    written ← update_invite invite.id (λ i. record i { status = revoked; revoked_at = some now })
    record_activity (invite_activity invite actor_user_id none invite_revoked)

-- expireWorkspaceInvites
unfoldable pub expire_workspace_invites : Uuid → ℕ → Action Tables (Unit {0})
expire_workspace_invites workspace_id now = execute λ t. (
  record t {
    invites =
        update_if
          (λ i. i.workspace_id == workspace_id && (is_pending i.status && leb i.expires_at now))
          (λ i. record i { status = expired }) t.invites;
  },
  tt,
)
