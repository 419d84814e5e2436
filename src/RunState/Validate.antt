-- ===== src/RunState/Validate.antt =====
-- `RunStateMachine.validate_transition` of run_state.py.
use bulq.Common.{if◌then◌else◌}
use bulq.Error.{Result, ok, err, bad_request, invalid_run_state_transition}
use bulq.RunState.{RunState, can_transition}

unfoldable pub validate_transition : RunState → RunState → Result (Unit {0})
validate_transition from_state to_state =
    if can_transition from_state to_state
    then ok tt
    else err (bad_request invalid_run_state_transition)
