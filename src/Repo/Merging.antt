-- ===== src/Repo/Merging.antt =====
-- memory/product.py and memory/store.py: the bulk updates behind merging, and deletion.
use bulq.Common.{ℕ, suc, List, [], ◌∷◌, ◌==◌, if◌then◌else◌}
use bulq.Table.{delete}
use bulq.Model.{Store, Run, ProductBid, ShoppingListItem, ProductAvailability}
use bulq.Storage.{Action, pure, gets, modify, ◌>>=◌, ◌>>◌}

module _ {R : Type 0} (ref : R → ℕ) where
  -- how many of the rows refer to the id
  abbrev pub count_refs : ℕ → List R → ℕ
  count_refs i [] = 0
  count_refs i (r ∷ rows) = if ref r == i then suc (count_refs i rows) else count_refs i rows

  -- `for row in …: if row.ref == old_id: row.ref = new_id`
  abbrev pub redirect : (ℕ → R → R) → ℕ → ℕ → List R → List R
  redirect set old_id new_id [] = []
  redirect set old_id new_id (r ∷ rows) =
      (if ref r == old_id then set new_id r else r) ∷ redirect set old_id new_id rows

abbrev pub bid_product : ProductBid → ℕ
bid_product b = b.product_id

abbrev pub set_bid_product : ℕ → ProductBid → ProductBid
set_bid_product p b = record b { product_id = p }

abbrev pub item_product : ShoppingListItem → ℕ
item_product i = i.product_id

abbrev pub set_item_product : ℕ → ShoppingListItem → ShoppingListItem
set_item_product p i = record i { product_id = p }

abbrev pub availability_product : ProductAvailability → ℕ
availability_product a = a.product_id

abbrev pub set_availability_product : ℕ → ProductAvailability → ProductAvailability
set_availability_product p a = record a { product_id = p }

abbrev pub availability_store : ProductAvailability → ℕ
availability_store a = a.store_id

abbrev pub set_availability_store : ℕ → ProductAvailability → ProductAvailability
set_availability_store p a = record a { store_id = p }

abbrev pub run_store : Run → ℕ
run_store r = r.store_id

abbrev pub set_run_store : ℕ → Run → Run
set_run_store p r = record r { store_id = p }

-- Each bulk update returns how many rows it has changed.
unfoldable pub bulk_update_product_bids : ℕ → ℕ → Action ℕ
bulk_update_product_bids old_product_id new_product_id = do
  count ← gets (λ s. count_refs bid_product old_product_id s.bids)
  modify (λ s. record s {
    bids = redirect bid_product set_bid_product old_product_id new_product_id s.bids;
  })
  pure count

unfoldable pub bulk_update_product_availabilities : ℕ → ℕ → Action ℕ
bulk_update_product_availabilities old_product_id new_product_id = do
  count ← gets (λ s. count_refs availability_product old_product_id s.product_availabilities)
  modify (λ s. record s {
    product_availabilities =
        redirect availability_product set_availability_product old_product_id new_product_id
          s.product_availabilities;
  })
  pure count

unfoldable pub bulk_update_shopping_list_items : ℕ → ℕ → Action ℕ
bulk_update_shopping_list_items old_product_id new_product_id = do
  count ← gets (λ s. count_refs item_product old_product_id s.shopping_list_items)
  modify (λ s. record s {
    shopping_list_items =
        redirect item_product set_item_product old_product_id new_product_id s.shopping_list_items;
  })
  pure count

unfoldable pub count_product_bids : ℕ → Action ℕ
count_product_bids product_id = gets (λ s. count_refs bid_product product_id s.bids)

-- A product is kept as its id.
abbrev pub product_key : ℕ → ℕ
product_key p = p

abbrev pub store_key : Store → ℕ
store_key x = x.id

-- The services delete what they have found, and do not look at the result.
unfoldable pub delete_product : ℕ → Action (Unit {0})
delete_product product_id =
    modify (λ s. record s { products = delete product_key product_id s.products })

unfoldable pub bulk_update_runs : ℕ → ℕ → Action ℕ
bulk_update_runs old_store_id new_store_id = do
  count ← gets (λ s. count_refs run_store old_store_id s.runs)
  modify
      (λ s. record s { runs = redirect run_store set_run_store old_store_id new_store_id s.runs })
  pure count

unfoldable pub bulk_update_store_availabilities : ℕ → ℕ → Action ℕ
bulk_update_store_availabilities old_store_id new_store_id = do
  count ← gets (λ s. count_refs availability_store old_store_id s.product_availabilities)
  modify (λ s. record s {
    product_availabilities =
        redirect availability_store set_availability_store old_store_id new_store_id
          s.product_availabilities;
  })
  pure count

unfoldable pub count_store_runs : ℕ → Action ℕ
count_store_runs store_id = gets (λ s. count_refs run_store store_id s.runs)

unfoldable pub delete_store : ℕ → Action (Unit {0})
delete_store store_id = modify (λ s. record s { stores = delete store_key store_id s.stores })
