-- ===== src/Repo/Shopping/Purchases.antt =====
-- memory/shopping.py: what was bought of an item.
use bulq.Common.{ℕ, true, false, Option, none, some, if◌then◌else◌}
use bulq.Common.Int.{ℤ, pos, ◌+ℤ◌}
use bulq.Table.{update}
use bulq.Model.{ShoppingListItem}
use bulq.Storage.{Action, pure, modify, ◌>>=◌, ◌>>◌}
use bulq.Repo.Shopping.{item_key, get_shopping_list_item}

-- `x or 0`
abbrev pub amount : Option ℤ → ℤ
amount none = pos 0
amount (some q) = q

abbrev pub purchase : ℤ → ℤ → ℤ → ℕ → ShoppingListItem → ShoppingListItem
purchase quantity price_per_unit total purchase_order i = record i {
  purchased_quantity = some quantity;
  purchased_price_per_unit = some price_per_unit;
  purchased_total = some total;
  is_purchased = true;
  purchase_order = some purchase_order;
}

-- The columns are DECIMAL(10, 2): of a sum of two such numbers that went through binary floating point,
-- whose error is far below half a hundredth, the exact sum in hundredths is stored.
abbrev pub purchase_more : ℤ → ℤ → ℤ → ShoppingListItem → ShoppingListItem
purchase_more additional_quantity additional_total new_price_per_unit i = record i {
  purchased_quantity = some (amount i.purchased_quantity +ℤ additional_quantity);
  purchased_total = some (amount i.purchased_total +ℤ additional_total);
  purchased_price_per_unit = some new_price_per_unit;
}

abbrev pub repurchase : ℤ → ℤ → ℤ → ShoppingListItem → ShoppingListItem
repurchase quantity price_per_unit total i = record i {
  purchased_quantity = some quantity;
  purchased_price_per_unit = some price_per_unit;
  purchased_total = some total;
}

abbrev pub unpurchase : ShoppingListItem → ShoppingListItem
unpurchase i = record i {
  is_purchased = false;
  purchased_quantity = none;
  purchased_price_per_unit = none;
  purchased_total = none;
  purchase_order = none;
}

-- The assignments under `if item:` and what follows them, on the row that was found.
unfoldable pub amend_item :
    ℕ
    → (ShoppingListItem → ShoppingListItem)
    → Option ShoppingListItem
    → Action (Option ShoppingListItem)
amend_item item_id f none = pure none
amend_item item_id f (some item) = do
  modify (λ s. record s { shopping_list_items = update item_key item_id f s.shopping_list_items })
  pure (some (f item))

-- `item and item.is_purchased`
abbrev pub if_purchased : Option ShoppingListItem → Option ShoppingListItem
if_purchased none = none
if_purchased (some item) = if item.is_purchased then some item else none

unfoldable pub mark_item_purchased : ℕ → ℤ → ℤ → ℤ → ℕ → Action (Option ShoppingListItem)
mark_item_purchased item_id quantity price_per_unit total purchase_order = do
  item ← get_shopping_list_item item_id
  amend_item item_id (purchase quantity price_per_unit total purchase_order) item

unfoldable pub add_more_purchased : ℕ → ℤ → ℤ → ℤ → Action (Option ShoppingListItem)
add_more_purchased item_id additional_quantity additional_total new_price_per_unit = do
  item ← get_shopping_list_item item_id
  amend_item item_id (purchase_more additional_quantity additional_total new_price_per_unit)
      (if_purchased item)

unfoldable pub update_item_purchase : ℕ → ℤ → ℤ → ℤ → Action (Option ShoppingListItem)
update_item_purchase item_id quantity price_per_unit total = do
  item ← get_shopping_list_item item_id
  amend_item item_id (repurchase quantity price_per_unit total) (if_purchased item)

unfoldable pub unpurchase_item : ℕ → Action (Option ShoppingListItem)
unpurchase_item item_id = do
  item ← get_shopping_list_item item_id
  amend_item item_id unpurchase item
