-- ===== src/RunStateService/ShoppingList.antt =====
-- `_generate_shopping_list` of run_state_service.py.
use bulq.Common.{ℕ, Bool, not, List, [], ◌∷◌, ◌==◌, ◌&&◌, if◌then◌else◌}
use bulq.Common.Int.{ℤ, pos, ◌+ℤ◌, ltb_ℤ}
use bulq.Model.{ProductBid}
use bulq.Storage.{Action, pure, ◌>>=◌, ◌>>◌}
use bulq.Repo.Bids.{get_bids_by_run}
use bulq.Repo.Shopping.{create_shopping_list_item}

-- `if product_id not in d: d[product_id] = 0`, then `d[product_id] += quantity`
unfoldable pub add_quantity : ℕ → ℤ → List (ℕ × ℤ) → List (ℕ × ℤ)
add_quantity product_id quantity [] = (product_id, pos 0 +ℤ quantity) ∷ []
add_quantity product_id quantity ((p, q) ∷ d) =
    if p == product_id then (p, q +ℤ quantity) ∷ d else (p, q) ∷ add_quantity product_id quantity d

-- `not bid.interested_only and bid.quantity > 0`
abbrev pub counts : ProductBid → Bool
counts bid = not bid.interested_only && ltb_ℤ (pos 0) bid.quantity

-- the loop over the bids
unfoldable pub product_quantities : List ProductBid → List (ℕ × ℤ) → List (ℕ × ℤ)
product_quantities [] d = d
product_quantities (bid ∷ bids) d =
    product_quantities bids (if counts bid then add_quantity bid.product_id bid.quantity d else d)

-- the loop over `product_quantities.items()`
unfoldable pub create_items : ℕ → List (ℕ × ℤ) → Action (Unit {0})
create_items run_uuid [] = pure tt
create_items run_uuid ((product_id, quantity) ∷ d) = do
  create_shopping_list_item run_uuid product_id quantity
  create_items run_uuid d

unfoldable pub generate_shopping_list : ℕ → Action (Unit {0})
generate_shopping_list run_uuid = do
  bids ← get_bids_by_run run_uuid
  create_items run_uuid (product_quantities bids [])
