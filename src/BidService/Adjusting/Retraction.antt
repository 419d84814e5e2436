-- ===== src/BidService/Adjusting/Retraction.antt =====
-- Which bids `_check_adjusting_constraints_for_retraction` lets go.
use bulq.Common.{ℕ, ◌≡◌, true, ◌⊎◌, Option, none, some, find?}
use bulq.Common.Int.{◌+ℤ◌, ◌≤ℤ◌, ltb_ℤ}
use bulq.Model.{MemoryStorage, ProductBid, ShoppingListItem, RunParticipation}
use bulq.Repo.Runs.{is_participation}
use bulq.Repo.Bids.{is_bid}
use bulq.BidService.Adjusting.{or_zero}

-- The user's bid on the product in the run.
abbrev pub bid_by : ℕ → Option RunParticipation → MemoryStorage → Option ProductBid
bid_by product_id none s = none
bid_by product_id (some p) s = find? (is_bid p.id product_id) s.bids

abbrev pub own_bid : (run_id product_id user_id : ℕ) → MemoryStorage → Option ProductBid
own_bid run_id product_id user_id s =
    bid_by product_id (find? (is_participation user_id run_id) s.participations) s

-- There is nothing to ask of without an item or a bid; else as much was purchased as requested, or the
-- shortage is at least the whole bid.
abbrev pub MayGo : Option ShoppingListItem → Option ProductBid → Type 0
MayGo none b = Unit
MayGo (some item) none = Unit
MayGo (some item) (some b) =
    (or_zero item.purchased_quantity ≡ item.requested_quantity)
    ⊎ ((ltb_ℤ (or_zero item.purchased_quantity) item.requested_quantity ≡ true)
        × (b.quantity +ℤ or_zero item.purchased_quantity ≤ℤ item.requested_quantity))
