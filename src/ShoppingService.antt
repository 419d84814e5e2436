-- ===== src/ShoppingService.antt =====
-- backend/app/services/shopping_service.py: what the leader and the helpers of a run do in the store.
-- `get_shopping_list`, which only formats, and the broadcasts over WebSocket are not modelled.
pub mod Prices
pub mod Methods
pub mod Complete
pub mod Atomic
pub mod Ends
pub mod Outcome
pub mod Effects
pub mod Sums
pub mod Orders
pub mod Given
pub mod Dealt
