-- ===== src/ShoppingService/Methods.antt =====
-- The methods of `ShoppingService` that change the shopping list.
use bulq.Common.{
  ℕ, suc, String, Bool, not, Option, none, some, List, [], ◌∷◌, is_some, ◌+◌, ◌*◌, ◌||◌, leb,
  if◌then◌else◌,
}
use Prim.Native.Nat.{◌/◌}
use bulq.Common.Int.{ℤ, pos, negsuc, sub_ℕ, ltb_ℤ, ◌+ℤ◌}
use bulq.Error.{
  bad_request, forbidden, not_found, run_not_in_shopping_state, not_run_leader_or_helper,
  product_not_found, shopping_list_item_not_found, shopping_item_not_purchased,
}
use bulq.RunState.{shopping, is_state}
use bulq.Model.{User, RunParticipation, ProductBid, ShoppingListItem}
use bulq.Storage.{Action, IdText, pure, raise, raise_if, or_raise, parse_uuid, ◌>>=◌, ◌>>◌}
use bulq.Access.{require_run, require_leader_or_helper}
use bulq.Repo.Directory.{get_product_by_id}
use bulq.Repo.Runs.{get_participation}
use bulq.Repo.Bids.{create_or_update_bid}
use bulq.Repo.Availabilities.{create_product_availability}
use bulq.Repo.Shopping.{create_shopping_list_item, get_shopping_list_item, get_shopping_list_items}
use bulq.Repo.Shopping.Purchases.{amount, mark_item_purchased, update_item_purchase}
use bulq.Repo.Shopping.Purchases as Purchases
use bulq.ShoppingService.Prices.{update_product_availability_if_needed}

-- `int(quantity)`, on hundredths: the part behind the point is dropped
abbrev pub truncated : ℤ → ℤ
truncated (pos n) = pos (100 * (n / 100))
truncated (negsuc n) = sub_ℕ 0 (100 * (suc n / 100))

-- `if not participation or not self._is_leader_or_helper(participation): raise …`
unfoldable pub leader_or_helper : Option RunParticipation → Action RunParticipation
leader_or_helper none = raise (forbidden not_run_leader_or_helper)
leader_or_helper (some participation) =
    if participation.is_leader || participation.is_helper
    then pure participation
    else raise (forbidden not_run_leader_or_helper)

-- The result is the bid with the item.
unfoldable pub add_product_to_shopping_list :
    IdText → IdText → ℤ → User → Action (ProductBid × ShoppingListItem)
add_product_to_shopping_list run_id product_id quantity user = do
  run_uuid ← parse_uuid run_id
  product_uuid ← parse_uuid product_id
  run ← require_run run_uuid
  raise_if (not (is_state run.state shopping)) (bad_request run_not_in_shopping_state)
  found ← get_participation user.id run_uuid
  participation ← leader_or_helper found
  product ← get_product_by_id product_uuid
  raise_if (not (is_some product)) (not_found product_not_found)
  bid ← create_or_update_bid participation.id product_uuid (truncated quantity) Bool.false none
  item ← create_shopping_list_item run_uuid product_uuid quantity
  pure (bid, item)

-- `if not item: raise NotFoundError(code=SHOPPING_LIST_ITEM_NOT_FOUND, …)`
abbrev pub found_item : Option ShoppingListItem → Action ShoppingListItem
found_item item = or_raise (not_found shopping_list_item_not_found) item

unfoldable pub add_availability_price :
    IdText → IdText → ℤ → String → Option ℕ → User → Action (Unit {0})
add_availability_price run_id item_id price notes minimum_quantity user = do
  run_uuid ← parse_uuid run_id
  item_uuid ← parse_uuid item_id
  run ← require_run run_uuid
  require_leader_or_helper run_uuid user
  found ← get_shopping_list_item item_uuid
  item ← found_item found
  create_product_availability item.product_id run.store_id (some price) notes minimum_quantity
      user.id
  pure tt

-- `max([item.purchase_order for item in … if item.purchase_order is not None], default=0)`
abbrev pub max_order : List ShoppingListItem → ℕ
max_order [] = 0
max_order (i ∷ items) = elim i.purchase_order [
  | none ↦ max_order items
  | some n ↦ if leb (max_order items) n then n else max_order items
]

-- The result is the item's place in the order of the purchases.
unfoldable pub mark_purchased : IdText → IdText → ℤ → ℤ → ℤ → User → Action ℕ
mark_purchased run_id item_id quantity price_per_unit total user = do
  run_uuid ← parse_uuid run_id
  item_uuid ← parse_uuid item_id
  run ← require_run run_uuid
  require_leader_or_helper run_uuid user
  existing_items ← get_shopping_list_items run_uuid
  let next_order = max_order existing_items + 1
  marked ← mark_item_purchased item_uuid quantity price_per_unit total next_order
  item ← found_item marked
  update_product_availability_if_needed item.product_id run.store_id price_per_unit user.id
  pure next_order

module _ (scaled : ℤ → ℤ → ℤ → ℤ) where
  -- `new_total / new_quantity if new_quantity > 0 else 0`, on hundredths: `scaled` stands for the
  -- quotient as it is stored, and may be any function of the two sums.
  abbrev pub weighted_price : ℤ → ℤ → ℤ
  weighted_price new_total new_quantity =
      if ltb_ℤ (pos 0) new_quantity then scaled new_total (pos 100) new_quantity else pos 0

  unfoldable pub add_more_purchased : IdText → IdText → ℤ → ℤ → ℤ → User → Action (Unit {0})
  add_more_purchased run_id item_id quantity price_per_unit total user = do
    run_uuid ← parse_uuid run_id
    item_uuid ← parse_uuid item_id
    run ← require_run run_uuid
    require_leader_or_helper run_uuid user
    found ← get_shopping_list_item item_uuid
    item ← found_item found
    raise_if (not item.is_purchased) (bad_request shopping_item_not_purchased)
    let new_quantity = amount item.purchased_quantity +ℤ quantity
    let new_total = amount item.purchased_total +ℤ total
    changed ←
        Purchases.add_more_purchased item_uuid quantity total
          (weighted_price new_total new_quantity)
    found_item changed
    update_product_availability_if_needed item.product_id run.store_id price_per_unit user.id

unfoldable pub update_purchase : IdText → IdText → ℤ → ℤ → ℤ → User → Action (Unit {0})
update_purchase run_id item_id quantity price_per_unit total user = do
  run_uuid ← parse_uuid run_id
  item_uuid ← parse_uuid item_id
  run ← require_run run_uuid
  require_leader_or_helper run_uuid user
  found ← get_shopping_list_item item_uuid
  item ← found_item found
  raise_if (not item.is_purchased) (bad_request shopping_item_not_purchased)
  changed ← update_item_purchase item_uuid quantity price_per_unit total
  found_item changed
  update_product_availability_if_needed item.product_id run.store_id price_per_unit user.id

unfoldable pub unpurchase_item : IdText → IdText → User → Action (Unit {0})
unpurchase_item run_id item_id user = do
  run_uuid ← parse_uuid run_id
  item_uuid ← parse_uuid item_id
  run ← require_run run_uuid
  require_leader_or_helper run_uuid user
  found ← get_shopping_list_item item_uuid
  found_item found
  changed ← Purchases.unpurchase_item item_uuid
  found_item changed
  pure tt
