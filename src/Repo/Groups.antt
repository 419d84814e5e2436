-- ===== src/Repo/Groups.antt =====
-- memory/group.py: groups, their members and their admins.
use bulq.Common.{
  ℕ, String, Bool, true, false, not, Option, none, some, List, [], ◌∷◌, ◌++◌, contains, find?, keep,
  is_some, ◌==◌, ◌&&◌, if◌then◌else◌,
}
use bulq.Table.{get, update, put}
use bulq.Model.{MemoryStorage, Group}
use bulq.Storage.{Action, pure, gets, modify, draw_uuid4, ◌>>=◌, ◌>>◌}
use bulq.Repo.Directory.{group_key}

abbrev pub members_key : ℕ × List ℕ → ℕ
members_key m = m.0

-- `group_memberships.get(group_id, [])`
abbrev pub listed : Option (ℕ × List ℕ) → List ℕ
listed none = []
listed (some (group_id, member_ids)) = member_ids

abbrev pub member_ids_of : ℕ → List (ℕ × List ℕ) → List ℕ
member_ids_of group_id memberships = listed (get members_key group_id memberships)

unfoldable pub get_group_by_id : ℕ → Action (Option Group)
get_group_by_id group_id = gets (λ s. get group_key group_id s.groups)

unfoldable pub get_group_by_invite_token : ℕ → Action (Option Group)
get_group_by_invite_token invite_token =
    gets (λ s. find? (λ (g : Group). g.invite_token == invite_token) s.groups)

-- `group.members`, as the look-ups of groups fill it in: the ids of the members that are users
unfoldable pub get_group_members : ℕ → Action (List ℕ)
get_group_members group_id = gets (λ s.
    keep (λ uid. is_some (find? (λ u. u == uid) s.users))
      (member_ids_of group_id s.group_memberships))

abbrev pub new_group : ℕ → String → ℕ → ℕ → Group
new_group new_id name created_by invite_token = record {
  id = new_id;
  name = name;
  created_by = created_by;
  invite_token = invite_token;
  is_joining_allowed = true;
}

unfoldable pub create_group : String → ℕ → Action Group
create_group name created_by = do
  new_id ← draw_uuid4
  invite_token ← draw_uuid4
  modify (λ s. record s {
    groups = put group_key (new_group new_id name created_by invite_token) s.groups;
    group_memberships = put members_key (new_id, []) s.group_memberships;
  })
  pure (new_group new_id name created_by invite_token)

-- `group_admin_status[(group_id, user_id)] = is_admin`; without an entry the status reads as false
abbrev pub set_admin_status : ℕ → ℕ → Bool → (ℕ → ℕ → Bool) → ℕ → ℕ → Bool
set_admin_status group_id user_id is_admin status g u =
    if g == group_id && u == user_id then is_admin else status g u

-- `group_memberships[group_id].append(user_id)`
abbrev pub append_member : ℕ → ℕ × List ℕ → ℕ × List ℕ
append_member user_id (group_id, member_ids) = (group_id, member_ids ++ user_id ∷ [])

-- `list.remove`, which takes away the first
abbrev pub remove_first : ℕ → List ℕ → List ℕ
remove_first user_id [] = []
remove_first user_id (u ∷ us) = if u == user_id then us else u ∷ remove_first user_id us

abbrev pub drop_member : ℕ → ℕ × List ℕ → ℕ × List ℕ
drop_member user_id (group_id, member_ids) = (group_id, remove_first user_id member_ids)

-- `group_id in group_memberships and user_id in group_memberships[group_id]`
abbrev pub is_listed : ℕ → ℕ → MemoryStorage → Bool
is_listed group_id user_id s = contains user_id (member_ids_of group_id s.group_memberships)

-- `group_id in group_memberships and user_id not in group_memberships[group_id]`
abbrev pub can_be_listed : ℕ → ℕ → MemoryStorage → Bool
can_be_listed group_id user_id s =
    is_some (get members_key group_id s.group_memberships) && not (is_listed group_id user_id s)

-- The end of a method that writes under a test and says whether it did.
unfoldable pub write_if : Bool → (MemoryStorage → MemoryStorage) → Action Bool
write_if true f = do modify f; pure true
write_if false f = pure false

unfoldable pub add_group_member : ℕ → ℕ → Bool → Action Bool
add_group_member group_id user_id is_group_admin = do
  can_be_added ← gets (can_be_listed group_id user_id)
  write_if can_be_added (λ s. record s {
    group_memberships = update members_key group_id (append_member user_id) s.group_memberships;
    group_admin_status = set_admin_status group_id user_id is_group_admin s.group_admin_status;
  })

unfoldable pub remove_group_member : ℕ → ℕ → Action Bool
remove_group_member group_id user_id = do
  is_member ← gets (is_listed group_id user_id)
  write_if is_member (λ s. record s {
    group_memberships = update members_key group_id (drop_member user_id) s.group_memberships;
    group_admin_status = set_admin_status group_id user_id false s.group_admin_status;
  })

unfoldable pub set_group_member_admin : ℕ → ℕ → Bool → Action Bool
set_group_member_admin group_id user_id is_admin = do
  is_member ← gets (is_listed group_id user_id)
  write_if is_member (λ s. record s {
    group_admin_status = set_admin_status group_id user_id is_admin s.group_admin_status;
  })

unfoldable pub is_user_group_admin : ℕ → ℕ → Action Bool
is_user_group_admin group_id user_id = gets (λ s. s.group_admin_status group_id user_id)

-- `get_group_members_with_admin_status`: of each member that is a user, the id and the status
abbrev pub with_status : ℕ → (ℕ → ℕ → Bool) → List ℕ → List ℕ → List (ℕ × Bool)
with_status group_id status users [] = []
with_status group_id status users (user_id ∷ member_ids) =
    if is_some (find? (λ u. u == user_id) users)
    then (user_id, status group_id user_id) ∷ with_status group_id status users member_ids
    else with_status group_id status users member_ids

unfoldable pub get_group_members_with_admin_status : ℕ → Action (List (ℕ × Bool))
get_group_members_with_admin_status group_id = gets (λ s.
    with_status group_id s.group_admin_status s.users (member_ids_of group_id s.group_memberships))

-- The end of the methods that write to a group, on the group that was found.
unfoldable pub amend_group : ℕ → (Group → Group) → Option Group → Action Bool
amend_group group_id f none = pure false
amend_group group_id f (some group) = do
  modify (λ s. record s { groups = update group_key group_id f s.groups })
  pure true

-- `str(uuid4())` is drawn only under `if group:`.
unfoldable pub renew_token : ℕ → Option Group → Action Bool
renew_token group_id none = pure false
renew_token group_id (some group) = do
  new_token ← draw_uuid4
  amend_group group_id (λ (g : Group). record g { invite_token = new_token }) (some group)

unfoldable pub update_group_joining_allowed : ℕ → Bool → Action Bool
update_group_joining_allowed group_id is_joining_allowed = do
  group ← get_group_by_id group_id
  amend_group group_id (λ (g : Group). record g { is_joining_allowed = is_joining_allowed }) group

-- The result says whether the group was there; the source gives the new token, whose text is never
-- empty.
unfoldable pub regenerate_group_invite_token : ℕ → Action Bool
regenerate_group_invite_token group_id = do
  group ← get_group_by_id group_id
  renew_token group_id group
