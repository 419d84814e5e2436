-- ===== src/RunState.antt =====
-- backend/app/core/run_state.py: the states of a run, the table of valid transitions and the tests
-- that the services make before they act.
pub mod Graph
pub mod Permissions
pub mod Validate
use bulq.Common.{ℕ, Bool, true, false, not, List, [], ◌∷◌, any, ◌==◌, length}

pub data RunState : Type 0 where
  planning active confirmed shopping adjusting distributing completed cancelled : RunState

-- An enumeration's place in its class, by which two of its values are compared.
abbrev pub rank : RunState → ℕ
rank planning = 0
rank active = 1
rank confirmed = 2
rank shopping = 3
rank adjusting = 4
rank distributing = 5
rank completed = 6
rank cancelled = 7

-- `a == b` and `a in states`
abbrev pub is_state : RunState → RunState → Bool
is_state a b = rank a == rank b

abbrev pub in_states : RunState → List RunState → Bool
in_states a = any (is_state a)

-- VALID_TRANSITIONS
abbrev pub valid_transitions : RunState → List RunState
valid_transitions planning = active ∷ cancelled ∷ []
valid_transitions active = confirmed ∷ planning ∷ cancelled ∷ []
valid_transitions confirmed = shopping ∷ active ∷ cancelled ∷ []
valid_transitions shopping = adjusting ∷ distributing ∷ cancelled ∷ []
valid_transitions adjusting = distributing ∷ cancelled ∷ []
valid_transitions distributing = completed ∷ cancelled ∷ []
valid_transitions completed = []
valid_transitions cancelled = []

unfoldable pub can_transition : RunState → RunState → Bool
can_transition from_state to_state = in_states to_state (valid_transitions from_state)

unfoldable pub get_valid_transitions : RunState → List RunState
get_valid_transitions from_state = valid_transitions from_state

unfoldable pub is_terminal_state : RunState → Bool
is_terminal_state state = length (valid_transitions state) == 0

unfoldable pub can_cancel : RunState → Bool
can_cancel state = in_states cancelled (valid_transitions state)

unfoldable pub can_place_bid : RunState → Bool
can_place_bid state = in_states state (planning ∷ active ∷ adjusting ∷ [])

unfoldable pub can_retract_bid : RunState → Bool
can_retract_bid state = in_states state (planning ∷ active ∷ adjusting ∷ [])

unfoldable pub can_toggle_ready : RunState → Bool
can_toggle_ready state = is_state state active

unfoldable pub can_start_shopping : RunState → Bool
can_start_shopping state = is_state state confirmed

unfoldable pub can_finish_adjusting : RunState → Bool
can_finish_adjusting state = is_state state adjusting

unfoldable pub can_view_shopping_list : RunState → Bool
can_view_shopping_list state =
    in_states state (shopping ∷ adjusting ∷ distributing ∷ completed ∷ [])

unfoldable pub can_complete_shopping : RunState → Bool
can_complete_shopping state = is_state state shopping

unfoldable pub can_view_distribution : RunState → Bool
can_view_distribution state = in_states state (distributing ∷ completed ∷ [])

unfoldable pub can_complete_distribution : RunState → Bool
can_complete_distribution state = is_state state distributing

unfoldable pub is_active_run : RunState → Bool
is_active_run state = not (in_states state (completed ∷ cancelled ∷ []))

unfoldable pub can_join_run : RunState → Bool
can_join_run state = in_states state (planning ∷ active ∷ [])
