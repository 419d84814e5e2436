-- ===== src/RunStateService.antt =====
-- backend/app/services/run_state_service.py: ready marks, and the moves of a run from state to
-- state, with the shopping list that is made from the bids and the sharing out of what was bought.
pub mod Transition
pub mod Share
pub mod ShoppingList
pub mod ListTotals
pub mod Methods
pub mod Atomic
pub mod Writes
pub mod Safe
