-- ===== src/ShoppingService/Complete.antt =====
-- `complete_shopping`: the end of the shopping, with its three ways on.
use bulq.Common.{ℕ, Bool, false, not, Option, none, some, List, [], ◌∷◌, any, keep, if◌then◌else◌}
use bulq.Common.Int.{ℤ, pos, ltb_ℤ, eqb_ℤ}
use bulq.Error.{bad_request, run_not_in_shopping_state}
use bulq.RunState.{RunState, adjusting, distributing, completed, can_complete_shopping}
use bulq.Model.{User, Run, ProductBid, ShoppingListItem}
use bulq.Storage.{Action, IdText, pure, raise_if, parse_uuid, ◌>>=◌, ◌>>◌}
use bulq.Access.{require_run, require_leader}
use bulq.Repo.Runs.{update_run_state}
use bulq.Repo.Bids.{get_bids_by_run}
use bulq.Repo.Shopping.{get_shopping_list_items}
use bulq.RunStateService.Share.{purchased_amount, is_product_bid, give_full}
use bulq.DistributionService.{notify_run_state_change}

-- `item.is_purchased and item.purchased_quantity and item.purchased_quantity > 0`
abbrev pub is_bought : ShoppingListItem → Bool
is_bought item = elim (purchased_amount item) [ none ↦ false | some q ↦ ltb_ℤ (pos 0) q ]

-- Something of the item was bought, but not what was asked for.
abbrev pub is_off : ShoppingListItem → Bool
is_off item = elim (purchased_amount item) [
  | none ↦ false
  | some q ↦ not (eqb_ℤ q item.requested_quantity)
]

-- The body of the loop over the items that distributes, on what was bought of the item: the two tests
-- that skip an item are those of `purchased_amount`.
unfoldable pub give_item : List ProductBid → ShoppingListItem → Option ℤ → Action (Unit {0})
give_item all_bids item none = pure tt
give_item all_bids item (some _) =
    give_full (keep (is_product_bid item.product_id) all_bids) item.purchased_price_per_unit

unfoldable pub give_items : List ProductBid → List ShoppingListItem → Action (Unit {0})
give_items all_bids [] = pure tt
give_items all_bids (item ∷ items) = do
  give_item all_bids item (purchased_amount item)
  give_items all_bids items

-- `if not anything_purchased`: over distributing, as the state machine wants it
unfoldable pub complete_unbought : ℕ → Run → Action RunState
complete_unbought run_uuid run = do
  update_run_state run_uuid distributing
  update_run_state run_uuid completed
  notify_run_state_change run run.state completed
  pure completed

-- `if needs_adjustment`
unfoldable pub send_to_adjusting : ℕ → Run → Action RunState
send_to_adjusting run_uuid run = do
  update_run_state run_uuid adjusting
  notify_run_state_change run run.state adjusting
  pure adjusting

unfoldable pub send_to_distributing :
    ℕ → Run → List ShoppingListItem → List ProductBid → Action RunState
send_to_distributing run_uuid run shopping_items all_bids = do
  give_items all_bids shopping_items
  update_run_state run_uuid distributing
  notify_run_state_change run run.state distributing
  pure distributing

-- What follows the reads: nothing was bought, or not what was asked for, or all is as it should be.
unfoldable pub settle_shopping : ℕ → Run → List ShoppingListItem → List ProductBid → Action RunState
settle_shopping run_uuid run shopping_items all_bids =
    if not (any is_bought shopping_items)
    then complete_unbought run_uuid run
    else if any is_off shopping_items
    then send_to_adjusting run_uuid run
    else send_to_distributing run_uuid run shopping_items all_bids

-- The result is the state that the response names.
unfoldable pub complete_shopping : IdText → User → Action RunState
complete_shopping run_id user = do
  run_uuid ← parse_uuid run_id
  run ← require_run run_uuid
  require_leader run_uuid user
  raise_if (not (can_complete_shopping run.state)) (bad_request run_not_in_shopping_state)
  shopping_items ← get_shopping_list_items run_uuid
  all_bids ← get_bids_by_run run_uuid
  settle_shopping run_uuid run shopping_items all_bids
