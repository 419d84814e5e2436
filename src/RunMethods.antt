-- ===== src/RunMethods.antt =====
-- The methods of backend/app/services/run_service.py that it does not hand to another service, where
-- they write: the creation of runs, their comments and their helpers.
pub mod Creation
use bulq.Common.{
  ℕ, String, Bool, true, false, not, Option, none, some, any, keep, length, find?, is_some, ◌==◌,
  leb,
}
use bulq.Error.{
  not_found, forbidden, bad_request, group_not_found, not_group_member, store_not_found,
  group_max_active_runs_exceeded, run_not_found, user_not_found, helper_not_group_member,
  cannot_assign_leader_as_helper,
}
use bulq.RunState.{is_active_run}
use bulq.Model.{User, Store, Run, RunParticipation, run_created}
use bulq.Storage.{
  Action, IdText, pure, raise_if, or_raise, emit, validate_uuid, parse_uuid, ◌>>=◌, ◌>>◌,
}
use bulq.Access.{require_run, require_member, require_leader, leads}
use bulq.Repo.Directory.{get_user_groups, get_groups_of, get_all_stores, get_user_by_id}
use bulq.Repo.Groups.{get_group_by_id}
use bulq.Repo.Runs.{
  get_runs_by_group, get_participation, create_participation, update_participation_helper,
}
use bulq.Repo.Runs as Runs

-- The result is the run.
unfoldable pub create_run : ℕ → IdText → IdText → User → Option String → Action Run
create_run max_active_runs group_id store_id user comment = do
  group_uuid ← validate_uuid group_id
  store_uuid ← validate_uuid store_id
  group ← get_group_by_id group_uuid
  raise_if (not (is_some group)) (not_found group_not_found)
  user_groups ← get_user_groups user
  raise_if (not (any (λ g. g == group_uuid) user_groups)) (forbidden not_group_member)
  all_stores ← get_all_stores
  store ←
      or_raise (not_found store_not_found) (find? (λ (s : Store). s.id == store_uuid) all_stores)
  group_runs ← get_runs_by_group group_uuid
  raise_if (leb max_active_runs (length (keep (λ (r : Run). is_active_run r.state) group_runs)))
      (bad_request group_max_active_runs_exceeded)
  run ← Runs.create_run group_uuid store_uuid user.id comment
  emit (run_created run.id run.group_id run.store_id store.name run.state user.name)
  pure run

unfoldable pub update_run_comment : IdText → Option String → User → Action (Unit {0})
update_run_comment run_id comment user = do
  run_uuid ← validate_uuid run_id
  run ← require_run run_uuid
  require_member run user
  require_leader run_uuid user
  updated_run ← Runs.update_run_comment run_uuid comment
  raise_if (not (is_some updated_run)) (not_found run_not_found)

-- The end of `toggle_helper`, on the target's participation.
unfoldable pub switch_helper : ℕ → ℕ → Option RunParticipation → Action Bool
switch_helper target_user_uuid run_uuid none = do
  create_participation target_user_uuid run_uuid false true
  pure true
switch_helper target_user_uuid run_uuid (some target_participation) = do
  update_participation_helper target_user_uuid run_uuid (not target_participation.is_helper)
  pure (not target_participation.is_helper)

-- The result is the new helper status.
unfoldable pub toggle_helper : IdText → IdText → User → Action Bool
toggle_helper run_id target_user_id current_user = do
  run_uuid ← parse_uuid run_id
  target_user_uuid ← parse_uuid target_user_id
  run ← require_run run_uuid
  require_leader run_uuid current_user
  target_user ← get_user_by_id target_user_uuid
  raise_if (not (is_some target_user)) (not_found user_not_found)
  target_user_groups ← get_groups_of target_user_uuid
  raise_if (not (any (λ g. g == run.group_id) target_user_groups))
      (bad_request helper_not_group_member)
  target_participation ← get_participation target_user_uuid run_uuid
  raise_if (leads target_participation) (bad_request cannot_assign_leader_as_helper)
  switch_helper target_user_uuid run_uuid target_participation
