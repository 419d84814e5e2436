-- ===== src/BidService/Limit.antt =====
-- `_check_product_limit` of bid_service.py. `max_products` is MAX_PRODUCTS_PER_RUN of
-- infrastructure/config.py, which the environment sets.
use bulq.Common.{ℕ, List, [], ◌∷◌, contains, length, leb, if◌then◌else◌}
use bulq.Error.{bad_request, run_max_products_exceeded}
use bulq.Model.{ProductBid}
use bulq.Storage.{Action, raise_if, ◌>>=◌}
use bulq.Repo.Bids.{get_bids_by_run}

-- `{bid.product_id for bid in all_bids}`, a set as a list without repetition
unfoldable pub unique_products : List ProductBid → List ℕ
unique_products [] = []
unique_products (b ∷ bids) =
    let rest = unique_products bids in
    if contains b.product_id rest then rest else b.product_id ∷ rest

unfoldable pub check_product_limit : ℕ → ℕ → Action (Unit {0})
check_product_limit max_products run_id = do
  all_bids ← get_bids_by_run run_id
  raise_if (leb max_products (length (unique_products all_bids)))
      (bad_request run_max_products_exceeded)
