-- ===== src/RunStateService/Methods.antt =====
-- The public methods of `RunStateService`.
use bulq.Common.{ℕ, Bool, not, if◌then◌else◌}
use bulq.Common.Int.{ℤ}
use bulq.RunState.{
  RunState, active, confirmed, shopping, distributing, completed, cancelled, is_state,
  can_toggle_ready, can_start_shopping, can_finish_adjusting, is_terminal_state,
}
use bulq.Error.{
  bad_request, run_not_in_active_state, run_not_in_confirmed_state, run_not_in_adjusting_state,
  cannot_cancel_completed_run, run_already_cancelled,
}
use bulq.Model.{User, Run, RunParticipation, ready_toggled, run_cancelled}
use bulq.Storage.{Action, IdText, pure, raise_if, emit, validate_uuid, ◌>>=◌, ◌>>◌}
use bulq.Access.{require_run, require_member, require_leader, get_user_participation}
use bulq.Repo.Directory.{get_all_stores, store_name_in}
use bulq.Repo.Runs.{update_participation_ready}
use bulq.RunStateService.Transition.{transition_run_state}
use bulq.RunStateService.ShoppingList.{generate_shopping_list}
use bulq.RunStateService.Share.{verify_quantities_match, distribute_items_to_bidders}

unfoldable pub validate_toggle_ready_request : IdText → User → Action (ℕ × Run)
validate_toggle_ready_request run_id user = do
  run_uuid ← validate_uuid run_id
  run ← require_run run_uuid
  require_member run user
  raise_if (not (can_toggle_ready run.state)) (bad_request run_not_in_active_state)
  pure (run_uuid, run)

unfoldable pub toggle_user_ready_status : RunParticipation → Action Bool
toggle_user_ready_status participation = do
  update_participation_ready participation.id (not participation.is_ready)
  pure (not participation.is_ready)

-- The result is the new ready mark.
unfoldable pub toggle_ready : IdText → User → Action Bool
toggle_ready run_id user = do
  validated ← validate_toggle_ready_request run_id user
  let (run_uuid, run) = validated
  participation ← get_user_participation user.id run_uuid
  new_ready_status ← toggle_user_ready_status participation
  emit (ready_toggled run_uuid user.id new_ready_status run.group_id)
  pure new_ready_status

-- The result of the methods below is the state that the response names.
unfoldable pub force_confirm : IdText → User → Action RunState
force_confirm run_id user = do
  run_uuid ← validate_uuid run_id
  run ← require_run run_uuid
  require_member run user
  require_leader run_uuid user
  raise_if (not (is_state run.state active)) (bad_request run_not_in_active_state)
  transition_run_state run confirmed
  pure confirmed

unfoldable pub start_shopping : IdText → User → Action RunState
start_shopping run_id user = do
  run_uuid ← validate_uuid run_id
  run ← require_run run_uuid
  require_member run user
  raise_if (not (can_start_shopping run.state)) (bad_request run_not_in_confirmed_state)
  require_leader run_uuid user
  generate_shopping_list run_uuid
  transition_run_state run shopping
  pure shopping

unfoldable pub validate_finish_adjusting_request : IdText → User → Action (ℕ × Run)
validate_finish_adjusting_request run_id user = do
  run_uuid ← validate_uuid run_id
  run ← require_run run_uuid
  require_member run user
  raise_if (not (can_finish_adjusting run.state)) (bad_request run_not_in_adjusting_state)
  require_leader run_uuid user
  pure (run_uuid, run)

module _ (scaled : ℤ → ℤ → ℤ → ℤ) where
  unfoldable pub finish_adjusting : IdText → User → Bool → Action RunState
  finish_adjusting run_id user force = do
    validated ← validate_finish_adjusting_request run_id user
    let (run_uuid, run) = validated
    if force then pure tt else verify_quantities_match run_uuid
    distribute_items_to_bidders scaled run_uuid
    transition_run_state run distributing
    pure distributing

unfoldable pub cancel_run : IdText → User → Action RunState
cancel_run run_id user = do
  run_uuid ← validate_uuid run_id
  run ← require_run run_uuid
  raise_if (is_terminal_state run.state) (
      if is_state run.state completed
      then bad_request cannot_cancel_completed_run
      else bad_request run_already_cancelled)
  require_member run user
  require_leader run_uuid user
  transition_run_state run cancelled
  all_stores ← get_all_stores
  emit (run_cancelled run.id run.group_id (store_name_in all_stores run))
  pure cancelled
