-- ===== src/Repo/Shopping.antt =====
-- memory/shopping.py: the shopping list of a run.
pub mod Purchases
use bulq.Common.{ℕ, false, Option, none, List, keep, ◌==◌}
use bulq.Common.Int.{ℤ}
use bulq.Table.{get, update, put}
use bulq.Model.{MemoryStorage, ShoppingListItem}
use bulq.Storage.{Action, pure, gets, modify, draw_uuid4, ◌>>=◌, ◌>>◌}

abbrev pub item_key : ShoppingListItem → ℕ
item_key i = i.id

abbrev pub new_item : ℕ → ℕ → ℕ → ℤ → ShoppingListItem
new_item new_id run_id product_id requested_quantity = record {
  id = new_id;
  run_id = run_id;
  product_id = product_id;
  requested_quantity = requested_quantity;
  purchased_quantity = none;
  purchased_price_per_unit = none;
  purchased_total = none;
  is_purchased = false;
  purchase_order = none;
}

unfoldable pub create_shopping_list_item : ℕ → ℕ → ℤ → Action ShoppingListItem
create_shopping_list_item run_id product_id requested_quantity = do
  new_id ← draw_uuid4
  modify (λ s. record s {
    shopping_list_items =
        put item_key (new_item new_id run_id product_id requested_quantity) s.shopping_list_items;
  })
  pure (new_item new_id run_id product_id requested_quantity)

unfoldable pub get_shopping_list_item : ℕ → Action (Option ShoppingListItem)
get_shopping_list_item item_id = gets (λ s. get item_key item_id s.shopping_list_items)

abbrev pub items_of_run : ℕ → MemoryStorage → List ShoppingListItem
items_of_run run_id s = keep (λ (i : ShoppingListItem). i.run_id == run_id) s.shopping_list_items

unfoldable pub get_shopping_list_items : ℕ → Action (List ShoppingListItem)
get_shopping_list_items run_id = gets (items_of_run run_id)

unfoldable pub update_shopping_list_item_requested_quantity : ℕ → ℤ → Action (Unit {0})
update_shopping_list_item_requested_quantity item_id requested_quantity = modify (λ s. record s {
  shopping_list_items =
      update item_key item_id
        (λ (i : ShoppingListItem). record i { requested_quantity = requested_quantity })
        s.shopping_list_items;
})
