-- ===== src/Repo/Availabilities.antt =====
-- memory/product.py: the prices that were seen.
use bulq.Common.{ℕ, String, Option, List, keep, ◌==◌, ◌&&◌}
use bulq.Common.Int.{ℤ}
use bulq.Table.{put}
use bulq.Model.{ProductAvailability}
use bulq.Storage.{Action, pure, gets, modify, draw_uuid4, ◌>>=◌, ◌>>◌}

abbrev pub availability_key : ProductAvailability → ℕ
availability_key a = a.id

-- The service always names a store.
unfoldable pub get_product_availabilities : ℕ → ℕ → Action (List ProductAvailability)
get_product_availabilities product_id store_id = gets (λ s.
    keep (λ (a : ProductAvailability). a.product_id == product_id && a.store_id == store_id)
      s.product_availabilities)

abbrev pub new_availability : ℕ → ℕ → ℕ → Option ℤ → String → Option ℕ → ℕ → ℕ → ProductAvailability
new_availability new_id product_id store_id price notes minimum_quantity user_id now = record {
  id = new_id;
  product_id = product_id;
  store_id = store_id;
  price = price;
  notes = notes;
  minimum_quantity = minimum_quantity;
  created_at = now;
  created_by = user_id;
}

unfoldable pub create_product_availability :
    ℕ → ℕ → Option ℤ → String → Option ℕ → ℕ → Action ProductAvailability
create_product_availability product_id store_id price notes minimum_quantity user_id = do
  new_id ← draw_uuid4
  now ← gets (λ s. s.now)
  modify (λ s. record s {
    product_availabilities =
        put availability_key
          (new_availability new_id product_id store_id price notes minimum_quantity user_id now)
          s.product_availabilities;
  })
  pure (new_availability new_id product_id store_id price notes minimum_quantity user_id now)
