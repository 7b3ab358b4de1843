-- ===== src/Access/Roles.antt =====
-- The permissions of the workspace roles.
use multi_plantform_poster.Base.{ℕ, ◌≤◌, ◌≡◌, true, arith}
use multi_plantform_poster.Access.{WorkspaceRole, Permission, manage_billing, role_has_permission}

-- How much a role may do: nothing for an unknown one, then viewer, member, admin and owner.
abbrev pub rank : WorkspaceRole → ℕ
rank WorkspaceRole.owner = 4
rank WorkspaceRole.admin = 3
rank WorkspaceRole.member = 2
rank WorkspaceRole.viewer = 1
rank (WorkspaceRole.other name) = 0

-- A role of a higher rank has every permission of one of a lower rank.
pub role_has_permission_mono :
    (r s : WorkspaceRole) (p : Permission)
    → rank r ≤ rank s
    → role_has_permission r p ≡ true
    → role_has_permission s p ≡ true
unfolding role_has_permission
role_has_permission_mono r s p le h = ground arith

-- Only the owner may manage billing.
pub manage_billing-owner :
    (r : WorkspaceRole) → role_has_permission r manage_billing ≡ true → r ≡ WorkspaceRole.owner
unfolding role_has_permission
manage_billing-owner r h = ground arith
