-- ===== src/GroupService/Methods.antt =====
-- The methods of `GroupService` that write.
use bulq.Common.{
  ℕ, String, Bool, true, false, not, List, [], ◌∷◌, any, length, ◌+◌, ◌==◌, ◌&&◌, leb,
  if◌then◌else◌,
}
use bulq.Error.{
  not_found, forbidden, bad_request, group_not_found, not_group_admin,
  group_invite_token_regeneration_failed, group_joining_disabled, already_group_member,
  user_max_groups_exceeded, group_max_members_exceeded, group_join_failed,
  cannot_remove_group_admin, not_a_group_member, last_admin_cannot_leave, user_already_group_admin,
  group_member_promotion_failed, group_joining_setting_update_failed,
}
use bulq.Model.{User, Group, member_joined}
use bulq.Storage.{Action, IdText, pure, raise_if, or_raise, emit, validate_uuid, ◌>>=◌, ◌>>◌}
use bulq.Repo.Directory.{get_user_groups}
use bulq.Repo.Groups.{
  get_group_by_id, get_group_by_invite_token, get_group_members, add_group_member,
  set_group_member_admin, is_user_group_admin, get_group_members_with_admin_status,
  update_group_joining_allowed, regenerate_group_invite_token,
}
use bulq.Repo.Groups as Groups
use bulq.GroupService.Departure.{find_and_cancel_affected_runs, broadcast_removal_notifications}

-- `if not group: raise NotFoundError(code=GROUP_NOT_FOUND, …)`
unfoldable pub require_group : ℕ → Action Group
require_group group_uuid = do
  group ← get_group_by_id group_uuid
  or_raise (not_found group_not_found) group

-- `if not self.group_repo.is_user_group_admin(group_uuid, user.id): raise ForbiddenError(…)`
unfoldable pub require_admin : ℕ → User → Action (Unit {0})
require_admin group_uuid user = do
  is_admin ← is_user_group_admin group_uuid user.id
  raise_if (not is_admin) (forbidden not_group_admin)

-- The result is the group's id.
unfoldable pub create_group : String → User → Action ℕ
create_group name user = do
  group ← Groups.create_group name user.id
  add_group_member group.id user.id true
  pure group.id

unfoldable pub regenerate_invite_token : IdText → User → Action (Unit {0})
regenerate_invite_token group_id user = do
  group_uuid ← validate_uuid group_id
  group ← require_group group_uuid
  raise_if (not (group.created_by == user.id)) (forbidden not_group_admin)
  renewed ← regenerate_group_invite_token group_uuid
  raise_if (not renewed) (bad_request group_invite_token_regeneration_failed)

unfoldable pub validate_group_invite : ℕ → Action Group
validate_group_invite invite_token = do
  found ← get_group_by_invite_token invite_token
  group ← or_raise (not_found group_not_found) found
  raise_if (not group.is_joining_allowed) (forbidden group_joining_disabled)
  pure group

module _ (max_groups max_members : ℕ) where
  unfoldable pub check_membership_constraints : User → Group → Action (Unit {0})
  check_membership_constraints user group = do
    user_groups ← get_user_groups user
    raise_if (any (λ g. g == group.id) user_groups) (bad_request already_group_member)
    raise_if (leb max_groups (length user_groups)) (bad_request user_max_groups_exceeded)
    members ← get_group_members group.id
    raise_if (leb max_members (length members)) (bad_request group_max_members_exceeded)

  -- The result is the group's id.
  unfoldable pub join_group : ℕ → User → Action ℕ
  join_group invite_token user = do
    group ← validate_group_invite invite_token
    check_membership_constraints user group
    success ← add_group_member group.id user.id false
    raise_if (not success) (bad_request group_join_failed)
    emit (member_joined group.id user.id user.name)
    pure group.id

-- `any(m['id'] == str(member_uuid) for m in members)`
abbrev pub is_among : ℕ → List (ℕ × Bool) → Bool
is_among member_uuid = any (λ (m : ℕ × Bool). m.0 == member_uuid)

unfoldable pub validate_member_removal_request : IdText → IdText → User → Action (ℕ × ℕ)
validate_member_removal_request group_id member_id user = do
  group_uuid ← validate_uuid group_id
  member_uuid ← validate_uuid member_id
  require_group group_uuid
  require_admin group_uuid user
  is_admin ← is_user_group_admin group_uuid member_uuid
  raise_if is_admin (forbidden cannot_remove_group_admin)
  members ← get_group_members_with_admin_status group_uuid
  raise_if (not (is_among member_uuid members)) (bad_request not_a_group_member)
  pure (group_uuid, member_uuid)

unfoldable pub remove_member : IdText → IdText → User → Action (Unit {0})
remove_member group_id member_id user = do
  validated ← validate_member_removal_request group_id member_id user
  let (group_uuid, member_uuid) = validated
  find_and_cancel_affected_runs group_uuid member_uuid
  broadcast_removal_notifications group_uuid member_uuid

-- `sum(1 for m in members if m['is_group_admin'])`
abbrev pub count_admins : List (ℕ × Bool) → ℕ
count_admins [] = 0
count_admins (m ∷ members) = (if m.1 then 1 else 0) + count_admins members

unfoldable pub leave_group : IdText → User → Action (Unit {0})
leave_group group_id user = do
  group_uuid ← validate_uuid group_id
  require_group group_uuid
  members ← get_group_members_with_admin_status group_uuid
  raise_if (not (is_among user.id members)) (bad_request not_a_group_member)
  is_admin ← is_user_group_admin group_uuid user.id
  raise_if (is_admin && leb (count_admins members) 1) (forbidden last_admin_cannot_leave)
  find_and_cancel_affected_runs group_uuid user.id
  broadcast_removal_notifications group_uuid user.id

unfoldable pub promote_member_to_admin : IdText → IdText → User → Action (Unit {0})
promote_member_to_admin group_id member_id user = do
  group_uuid ← validate_uuid group_id
  member_uuid ← validate_uuid member_id
  require_group group_uuid
  require_admin group_uuid user
  members ← get_group_members_with_admin_status group_uuid
  raise_if (not (is_among member_uuid members)) (bad_request not_a_group_member)
  is_admin ← is_user_group_admin group_uuid member_uuid
  raise_if is_admin (bad_request user_already_group_admin)
  success ← set_group_member_admin group_uuid member_uuid true
  raise_if (not success) (bad_request group_member_promotion_failed)

-- The result is the new setting.
unfoldable pub toggle_joining_allowed : IdText → User → Action Bool
toggle_joining_allowed group_id user = do
  group_uuid ← validate_uuid group_id
  group ← require_group group_uuid
  require_admin group_uuid user
  updated ← update_group_joining_allowed group_uuid (not group.is_joining_allowed)
  raise_if (not updated) (bad_request group_joining_setting_update_failed)
  pure (not group.is_joining_allowed)
