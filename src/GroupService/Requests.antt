-- ===== src/GroupService/Requests.antt =====
-- The requests on groups that change something, each handed to its method of `GroupService`.
use bulq.Common.{ℕ, String}
use bulq.Model.{MemoryStorage, User}
use bulq.Storage.{IdText}
use bulq.GroupService.Methods.{
  create_group, regenerate_invite_token, join_group, remove_member, leave_group,
  promote_member_to_admin, toggle_joining_allowed,
}

pub data GroupCall : Type 0 where
  create_group_call : (name : String) → GroupCall
  join_group_call : (invite_token : ℕ) → GroupCall
  remove_member_call promote_member_to_admin_call : (group_id member_id : IdText) → GroupCall
  regenerate_invite_token_call leave_group_call toggle_joining_allowed_call :
      (group_id : IdText) → GroupCall

-- The storage after the request, whether it succeeds or fails.
unfoldable pub perform_group : ℕ → ℕ → User → GroupCall → MemoryStorage → MemoryStorage
perform_group max_groups max_members u (create_group_call name) s = (create_group name u s).1
perform_group max_groups max_members u (join_group_call t) s =
    (join_group max_groups max_members t u s).1
perform_group max_groups max_members u (remove_member_call g m) s = (remove_member g m u s).1
perform_group max_groups max_members u (promote_member_to_admin_call g m) s =
    (promote_member_to_admin g m u s).1
perform_group max_groups max_members u (regenerate_invite_token_call g) s =
    (regenerate_invite_token g u s).1
perform_group max_groups max_members u (leave_group_call g) s = (leave_group g u s).1
perform_group max_groups max_members u (toggle_joining_allowed_call g) s =
    (toggle_joining_allowed g u s).1
