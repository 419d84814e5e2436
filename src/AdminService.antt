-- ===== src/AdminService.antt =====
-- backend/app/services/admin_service.py: merging and deletion of products and stores. The listings,
-- the edits and the marks of verification, and what concerns users, are not modelled.
pub mod Merged
use bulq.Common.{ℕ, suc, ◌+◌, Bool, not, is_some, ltb, ◌==◌}
use bulq.Error.{
  not_found, bad_request, product_not_found, store_not_found, cannot_merge_same_product,
  cannot_merge_same_store, product_has_active_bids, store_has_active_runs,
}
use bulq.Storage.{Action, pure, raise_if, ◌>>=◌, ◌>>◌}
use bulq.Repo.Directory.{get_product_by_id, get_store_by_id}
use bulq.Repo.Merging.{
  bulk_update_product_bids, bulk_update_product_availabilities, bulk_update_shopping_list_items,
  count_product_bids, bulk_update_runs, bulk_update_store_availabilities, count_store_runs,
}
use bulq.Repo.Merging as Merging

-- The result is `total_affected`.
unfoldable pub merge_products : ℕ → ℕ → Action ℕ
merge_products source_id target_id = do
  source ← get_product_by_id source_id
  target ← get_product_by_id target_id
  raise_if (not (is_some source)) (not_found product_not_found)
  raise_if (not (is_some target)) (not_found product_not_found)
  raise_if (source_id == target_id) (bad_request cannot_merge_same_product)
  bids_count ← bulk_update_product_bids source_id target_id
  avails_count ← bulk_update_product_availabilities source_id target_id
  items_count ← bulk_update_shopping_list_items source_id target_id
  Merging.delete_product source_id
  pure (bids_count + avails_count + items_count)

-- The result is `total_affected`.
unfoldable pub merge_stores : ℕ → ℕ → Action ℕ
merge_stores source_id target_id = do
  source ← get_store_by_id source_id
  target ← get_store_by_id target_id
  raise_if (not (is_some source)) (not_found store_not_found)
  raise_if (not (is_some target)) (not_found store_not_found)
  raise_if (source_id == target_id) (bad_request cannot_merge_same_store)
  runs_count ← bulk_update_runs source_id target_id
  avails_count ← bulk_update_store_availabilities source_id target_id
  Merging.delete_store source_id
  pure (runs_count + avails_count)

unfoldable pub delete_product : ℕ → Action (Unit {0})
delete_product product_id = do
  product ← get_product_by_id product_id
  raise_if (not (is_some product)) (not_found product_not_found)
  bid_count ← count_product_bids product_id
  raise_if (ltb 0 bid_count) (bad_request product_has_active_bids)
  Merging.delete_product product_id

unfoldable pub delete_store : ℕ → Action (Unit {0})
delete_store store_id = do
  store ← get_store_by_id store_id
  raise_if (not (is_some store)) (not_found store_not_found)
  run_count ← count_store_runs store_id
  raise_if (ltb 0 run_count) (bad_request store_has_active_runs)
  Merging.delete_store store_id
