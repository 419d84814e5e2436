-- ===== src/RunStateService/Transition.antt =====
-- `_transition_run_state` of run_state_service.py.
use bulq.Model.{Run, run_state_changed}
use bulq.RunState.{RunState}
use bulq.RunState.Validate.{validate_transition}
use bulq.Storage.{Action, pure, lift, emit, ◌>>=◌, ◌>>◌}
use bulq.Repo.Directory.{get_all_stores, store_name_in}
use bulq.Repo.Runs.{update_run_state}

unfoldable pub transition_run_state : Run → RunState → Action RunState
transition_run_state run new_state = do
  lift (validate_transition run.state new_state)
  update_run_state run.id new_state
  all_stores ← get_all_stores
  emit (run_state_changed run.id run.group_id run.state new_state (store_name_in all_stores run))
  pure run.state
