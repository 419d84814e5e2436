-- ===== src/RunState/Permissions.antt =====
-- The tests `can_…` of run_state.py, one against another and against the diagram.
use bulq.Common.{◌≡◌, ◌↔◌, true, false, arith, Bool}
use bulq.RunState.{
  RunState, shopping, adjusting, distributing, completed, cancelled, can_cancel, can_start_shopping,
  can_finish_adjusting, can_complete_shopping, can_complete_distribution, is_active_run,
  can_transition, is_terminal_state,
}
use bulq.RunState.Graph.{◌⟶◌, can_transition→⟶}

-- A run can be cancelled exactly when it is active, and exactly when its state is not terminal.
pub can_cancel_iff :
    (s : RunState)
    → ((can_cancel s ≡ true) ↔ (is_active_run s ≡ true))
      × ((can_cancel s ≡ true) ↔ (is_terminal_state s ≡ false))
unfolding can_cancel is_active_run is_terminal_state
can_cancel_iff s = ground arith

-- The actions that a test permits and that move a run, with the state they move it to.
pub data Move : Type 0 where
  start_shopping_move adjust_move distribute_move finish_adjusting_move : Move
  complete_distribution_move cancel_move : Move

abbrev pub is_permitted : Move → RunState → Bool
is_permitted start_shopping_move s = can_start_shopping s
is_permitted adjust_move s = can_complete_shopping s
is_permitted distribute_move s = can_complete_shopping s
is_permitted finish_adjusting_move s = can_finish_adjusting s
is_permitted complete_distribution_move s = can_complete_distribution s
is_permitted cancel_move s = can_cancel s

abbrev pub moved_to : Move → RunState
moved_to start_shopping_move = shopping
moved_to adjust_move = adjusting
moved_to distribute_move = distributing
moved_to finish_adjusting_move = distributing
moved_to complete_distribution_move = completed
moved_to cancel_move = cancelled

permitted_transition :
    (m : Move) (s : RunState) → is_permitted m s ≡ true → can_transition s (moved_to m) ≡ true
unfolding can_start_shopping can_complete_shopping can_finish_adjusting can_complete_distribution
    can_cancel can_transition
permitted_transition m s h = ground arith

-- An action that its test permits, of those that move a run, has its transition in the diagram.
pub permitted_moves_have_edges :
    (m : Move) (s : RunState) → is_permitted m s ≡ true → s ⟶ moved_to m
permitted_moves_have_edges m s h = can_transition→⟶ s (moved_to m) (permitted_transition m s h)
