-- ===== src/ReassignmentService.antt =====
-- backend/app/services/reassignment_service.py: handing over the lead of a run. The broadcasts over
-- WebSocket, whose failures the source only logs, are not modelled.
pub mod HandedOver
pub mod Leadership
use bulq.Common.{ℕ, Bool, true, false, not, Option, none, some, is_some, ◌==◌, String, find?}
use bulq.Error.{
  forbidden, not_found, validation, conflict, reassignment_request_not_found,
  reassignment_not_target_user, reassignment_request_already_resolved,
  reassignment_request_already_exists, reassignment_cannot_transfer_to_self,
  reassignment_target_not_participant, reassignment_not_current_leader, user_not_found,
  participation_not_found,
}
use bulq.Model.{
  User, Run, Store, RunParticipation, LeaderReassignmentRequest, accepted, declined,
  request_cancelled, leader_reassignment_request_data, leader_reassignment_accepted_data,
  leader_reassignment_declined_data,
}
use bulq.Storage.{Action, pure, raise, raise_if, or_raise, ◌>>=◌, ◌>>◌}
use bulq.Access.{require_run, require_leader}
use bulq.Repo.Directory.{get_store_name, get_user_by_id}
use bulq.Repo.Runs.{get_participation, set_leader}
use bulq.Repo.Requests.{
  create_reassignment_request, get_reassignment_request_by_id, get_pending_reassignment_for_run,
  update_reassignment_status, is_pending,
}
use bulq.Repo.Notifications.{create_notification}

unfoldable pub validate_reassignment_eligibility : ℕ → User → ℕ → Action Run
validate_reassignment_eligibility run_id from_user to_user_id = do
  run ← require_run run_id
  require_leader run_id from_user
  to_user ← get_user_by_id to_user_id
  raise_if (not (is_some to_user)) (not_found user_not_found)
  pure run

unfoldable pub check_reassignment_permissions : User → ℕ → ℕ → Action (Unit {0})
check_reassignment_permissions from_user to_user_id run_id = do
  raise_if (from_user.id == to_user_id) (validation reassignment_cannot_transfer_to_self)
  target_participation ← get_participation to_user_id run_id
  raise_if (not (is_some target_participation)) (validation reassignment_target_not_participant)
  existing_request ← get_pending_reassignment_for_run run_id
  raise_if (is_some existing_request) (conflict reassignment_request_already_exists)

unfoldable pub request_reassignment : ℕ → User → ℕ → Action LeaderReassignmentRequest
request_reassignment run_id from_user to_user_id = do
  run ← validate_reassignment_eligibility run_id from_user to_user_id
  check_reassignment_permissions from_user to_user_id run_id
  store_name ← get_store_name run.store_id
  request ← create_reassignment_request run_id from_user.id to_user_id
  create_notification to_user_id
      (leader_reassignment_request_data run_id from_user.id from_user.name request.id store_name)
  pure request

-- `_validate_accept_request` and `_validate_decline_request`, which differ in messages only
unfoldable pub validate_answer : ℕ → User → Action LeaderReassignmentRequest
validate_answer request_id user = do
  found ← get_reassignment_request_by_id request_id
  request ← or_raise (not_found reassignment_request_not_found) found
  raise_if (not (request.to_user_id == user.id)) (forbidden reassignment_not_target_user)
  raise_if (not (is_pending request.status)) (validation reassignment_request_already_resolved)
  pure request

-- the end of `_transfer_leadership`, on the two participations
unfoldable pub hand_over : Option RunParticipation → Option RunParticipation → Action (Unit {0})
hand_over (some old_leader) (some new_leader) = do
  set_leader old_leader.id false
  set_leader new_leader.id true
hand_over _ _ = raise (validation participation_not_found)

unfoldable pub transfer_leadership : ℕ → ℕ → ℕ → Action (Unit {0})
transfer_leadership run_id from_user_id to_user_id = do
  old_leader_participation ← get_participation from_user_id run_id
  new_leader_participation ← get_participation to_user_id run_id
  hand_over old_leader_participation new_leader_participation

unfoldable pub accept_reassignment : ℕ → User → Action (Unit {0})
accept_reassignment request_id accepting_user = do
  request ← validate_answer request_id accepting_user
  run ← require_run request.run_id
  store_name ← get_store_name run.store_id
  transfer_leadership request.run_id request.from_user_id request.to_user_id
  update_reassignment_status request_id accepted
  create_notification request.from_user_id (
      leader_reassignment_accepted_data request.run_id accepting_user.id accepting_user.name
        store_name)
  pure tt

unfoldable pub decline_reassignment : ℕ → User → Action (Unit {0})
decline_reassignment request_id declining_user = do
  request ← validate_answer request_id declining_user
  run ← require_run request.run_id
  store_name ← get_store_name run.store_id
  update_reassignment_status request_id declined
  create_notification request.from_user_id (
      leader_reassignment_declined_data request.run_id declining_user.id declining_user.name
        store_name)
  pure tt

unfoldable pub cancel_reassignment : ℕ → User → Action (Unit {0})
cancel_reassignment request_id cancelling_user = do
  found ← get_reassignment_request_by_id request_id
  request ← or_raise (not_found reassignment_request_not_found) found
  raise_if (not (request.from_user_id == cancelling_user.id))
      (forbidden reassignment_not_current_leader)
  raise_if (not (is_pending request.status)) (validation reassignment_request_already_resolved)
  update_reassignment_status request_id request_cancelled
