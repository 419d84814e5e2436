-- ===== src/BidService/Adjusting.antt =====
-- `_validate_adjusting_bid` and `_check_adjusting_constraints_for_retraction` of bid_service.py:
-- which bids may change while the run is in `adjusting`.
pub mod Ranges
pub mod Retraction
use bulq.Common.{
  ℕ, Bool, true, false, not, Option, none, some, List, find?, ◌==◌, ◌&&◌, if◌then◌else◌,
}
use bulq.Common.Int.{ℤ, pos, ◌+ℤ◌, ◌-ℤ◌, ltb_ℤ, eqb_ℤ, max0, abs}
use bulq.RunState.{adjusting, is_state}
use bulq.Error.{
  Result, ok, err, bad_request, bid_product_not_in_shopping_list, bid_quantity_exceeds_purchased,
  bid_quantity_below_distributed,
}
use bulq.Model.{MemoryStorage, ProductBid, ShoppingListItem, Run, RunParticipation}
use bulq.Storage.{Action, pure, raise, raise_if, lift, ◌>>=◌, ◌>>◌}
use bulq.Repo.Runs.{get_participation}
use bulq.Repo.Bids.{get_bid}
use bulq.Repo.Shopping.{get_shopping_list_items}

-- `shopping_item.purchased_quantity or 0`
abbrev pub or_zero : Option ℤ → ℤ
or_zero none = pos 0
or_zero (some q) = q

-- purchased less requested: positive is a surplus, negative a shortage
abbrev pub difference : ShoppingListItem → ℤ
difference item = or_zero item.purchased_quantity -ℤ item.requested_quantity

-- What is tested when less was bought than requested.
abbrev pub check_shortage : ℤ → ℤ → ℤ → Result (Unit {0})
check_shortage current shortage quantity =
    let min_allowed = max0 (current -ℤ shortage) in
    if ltb_ℤ current quantity
    then err (bad_request bid_quantity_exceeds_purchased)
    else if ltb_ℤ quantity min_allowed
    then err (bad_request bid_quantity_below_distributed)
    else if eqb_ℤ quantity (pos 0) && ltb_ℤ (pos 0) min_allowed
    then err (bad_request bid_quantity_below_distributed)
    else ok tt

-- What is tested when more was bought than requested.
abbrev pub check_surplus : ℤ → ℤ → ℤ → Result (Unit {0})
check_surplus current surplus quantity =
    if ltb_ℤ quantity current
    then err (bad_request bid_quantity_below_distributed)
    else if ltb_ℤ (current +ℤ surplus) quantity
    then err (bad_request bid_quantity_exceeds_purchased)
    else ok tt

-- `_validate_adjusting_bid` on the item found
unfoldable pub check_adjustment : Option ShoppingListItem → ℤ → ProductBid → Result (Unit {0})
check_adjustment none quantity existing_bid = err (bad_request bid_product_not_in_shopping_list)
check_adjustment (some item) quantity existing_bid =
    if ltb_ℤ (difference item) (pos 0)
    then check_shortage existing_bid.quantity (abs (difference item)) quantity
    else if ltb_ℤ (pos 0) (difference item)
    then check_surplus existing_bid.quantity (difference item) quantity
    else ok tt

-- `next((item for item in shopping_items if item.product_id == product_uuid), None)`
abbrev pub item_of : ℕ → List ShoppingListItem → Option ShoppingListItem
item_of product_id = find? (λ (i : ShoppingListItem). i.product_id == product_id)

unfoldable pub validate_adjusting_bid : ℕ → ℕ → ℤ → ProductBid → Action (Unit {0})
validate_adjusting_bid run_id product_uuid quantity existing_bid = do
  shopping_items ← get_shopping_list_items run_id
  lift (check_adjustment (item_of product_uuid shopping_items) quantity existing_bid)

-- The tests on the bid that is to be retracted.
unfoldable pub check_retraction : ShoppingListItem → Option ProductBid → Result (Unit {0})
check_retraction item none = ok tt
check_retraction item (some current_bid) =
    if ltb_ℤ (difference item) (pos 0)
    then if ltb_ℤ (pos 0) (max0 (current_bid.quantity -ℤ abs (difference item)))
      then err (bad_request bid_quantity_exceeds_purchased)
      else ok tt
    else if ltb_ℤ (pos 0) (difference item)
    then err (bad_request bid_quantity_exceeds_purchased)
    else ok tt

-- From `participation = …` on.
unfoldable pub retraction_by : ShoppingListItem → ℕ → Option RunParticipation → Action (Unit {0})
retraction_by item product_id none = pure tt
retraction_by item product_id (some participation) = do
  current_bid ← get_bid participation.id product_id
  lift (check_retraction item current_bid)

-- From `if not shopping_item` on.
unfoldable pub retraction_of : ℕ → ℕ → ℕ → Option ShoppingListItem → Action (Unit {0})
retraction_of run_id product_id user_id none = pure tt
retraction_of run_id product_id user_id (some item) = do
  participation ← get_participation user_id run_id
  retraction_by item product_id participation

unfoldable pub check_adjusting_constraints_for_retraction : Run → ℕ → ℕ → ℕ → Action (Unit {0})
check_adjusting_constraints_for_retraction run run_id product_id user_id =
    if not (is_state run.state adjusting) then pure tt else do
      shopping_items ← get_shopping_list_items run_id
      retraction_of run_id product_id user_id (item_of product_id shopping_items)
