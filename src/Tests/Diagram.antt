-- ===== src/Tests/Diagram.antt =====
-- Examples on the states of a run.
use bulq.Common.{◌≡◌, refl, ◌↔◌, inr, true, false}
use bulq.RunState.{
  planning, active, confirmed, shopping, adjusting, distributing, completed, cancelled,
  can_transition, is_terminal_state, can_cancel, is_active_run, can_complete_shopping,
}
use bulq.RunState.Graph.{
  ◌⟶◌, Way, stay, step, open_iff, terminal_stays, Visits, completed_passes_gates,
}
use bulq.RunState.Permissions.{adjust_move, permitted_moves_have_edges, can_cancel_iff}

open_iff_example :
    (is_terminal_state distributing ≡ false)
    ↔ (Way distributing completed × (can_transition distributing cancelled ≡ true))
open_iff_example = open_iff distributing

terminal_stays_example : cancelled ≡ cancelled
terminal_stays_example = terminal_stays {s = cancelled} {t = cancelled} (inr refl) stay

-- A run that needs no adjusting.
abbrev straight : Way planning completed
unfolding can_transition
straight = step {t = active} refl (
    step {t = confirmed} refl
      (step {t = shopping} refl (step {t = distributing} refl (step refl stay))))

completed_passes_gates_example :
    Visits confirmed straight × Visits shopping straight × Visits distributing straight
completed_passes_gates_example = completed_passes_gates straight

permitted_moves_have_edges_example : shopping ⟶ adjusting
unfolding can_complete_shopping
permitted_moves_have_edges_example = permitted_moves_have_edges adjust_move shopping refl

can_cancel_iff_example :
    ((can_cancel active ≡ true) ↔ (is_active_run active ≡ true))
    × ((can_cancel active ≡ true) ↔ (is_terminal_state active ≡ false))
can_cancel_iff_example = can_cancel_iff active
