-- ===== src/Tests/Admin.antt =====
-- Merging in the test storage.
use bulq.Common.{ℕ, ◌≡◌, refl, [], ◌∷◌, arith}
use bulq.Error.{ok}
use bulq.Model.{MemoryStorage, Store}
use bulq.Storage.{pure, gets, modify, raise_if, ◌>>=◌}
use bulq.Repo.Directory.{get_product_by_id, get_store_by_id}
use bulq.Repo.Merging.{
  bulk_update_product_bids, bulk_update_product_availabilities, bulk_update_shopping_list_items,
  bulk_update_runs, bulk_update_store_availabilities, delete_product, delete_store,
}
use bulq.AdminService.{merge_products, merge_stores}
use bulq.AdminService.Merged.{
  AreMergedProducts, AreMergedStores, merge_products-AreMergedProducts,
  merge_stores-AreMergedStores,
}
use bulq.Tests.{storage}

-- Four bids and one item are of product 7.
products_merged : (merge_products 7 8 storage).0 ≡ ok 5
unfolding merge_products get_product_by_id bulk_update_product_bids
    bulk_update_product_availabilities bulk_update_shopping_list_items delete_product pure gets
    modify raise_if ◌>>=◌
products_merged = refl

merge_products-AreMergedProducts_example :
    AreMergedProducts 7 8 7 5 storage (merge_products 7 8 storage).1
merge_products-AreMergedProducts_example =
    merge_products-AreMergedProducts 7 8 storage 7 (ground arith) products_merged

abbrev store_named : ℕ → Store
store_named n = record { id = n; name = "Store" }

abbrev stored : MemoryStorage
stored = record storage { stores = store_named 1 ∷ store_named 2 ∷ [] }

-- Four runs are for store 1.
stores_merged : (merge_stores 1 2 stored).0 ≡ ok 4
unfolding merge_stores get_store_by_id bulk_update_runs bulk_update_store_availabilities
    delete_store pure gets modify raise_if ◌>>=◌
stores_merged = refl

merge_stores-AreMergedStores_example : AreMergedStores 1 2 1 4 stored (merge_stores 1 2 stored).1
merge_stores-AreMergedStores_example =
    merge_stores-AreMergedStores 1 2 stored 1 (ground arith) stores_merged
