-- ===== src/Tests/Sharing.antt =====
-- Shares of what was bought, and bids in `adjusting`.
use bulq.Common.{◌≡◌, ◌≢◌, refl, arith, ◌↔◌, some, List, [], ◌∷◌}
use bulq.Common.Int.{pos, negsuc, ◌+ℤ◌, ◌-ℤ◌, max0, abs}
use bulq.Error.{ok}
use bulq.Table.{IsKeyed}
use bulq.Model.{ProductBid}
use bulq.Storage.{modify, pure, gets, ◌>>=◌}
use bulq.Repo.Bids.{bid_key, update_bid_distributed_quantities}
use bulq.Repo.Shopping.{update_shopping_list_item_requested_quantity}
use bulq.RunStateService.Share.{share_out, give_shares}
use bulq.RunStateService.Share.Amounts.{amount_of}
use bulq.RunStateService.Share.Totals.{
  AreIn, HaveFull, given_to, share_out_shortage, share_out_exact,
}
use bulq.BidService.Adjusting.{check_adjustment}
use bulq.BidService.Adjusting.Ranges.{
  IsAdjusted, IsBetween, check_adjustment_iff, adjustment_converges,
}
use bulq.Tests.{storage, bid, item, rounded}

abbrev two_bids : List ProductBid
two_bids = bid 32 23 (pos 200) ∷ bid 33 24 (pos 100) ∷ []

two_bids-IsKeyed : IsKeyed bid_key two_bids
two_bids-IsKeyed = ground arith

two_bids-AreIn : AreIn two_bids storage.bids
two_bids-AreIn = (λ e. cc, (λ e. cc, tt))

share_out_shortage_example :
    given_to two_bids
      (share_out rounded 12 (item (pos 300) (pos 200)) (pos 200) two_bids storage).1.bids
    ≡ pos 200
unfolding ◌+ℤ◌
share_out_shortage_example =
    share_out_shortage rounded 12 (item (pos 300) (pos 200)) (pos 200) storage (bid 32 23 (pos 200))
      (bid 33 24 (pos 100) ∷ []) two_bids-IsKeyed two_bids-AreIn refl

share_out_exact_example :
    HaveFull two_bids
      (share_out rounded 12 (item (pos 300) (pos 300)) (pos 300) two_bids storage).1.bids
unfolding ◌+ℤ◌
share_out_exact_example =
    share_out_exact rounded 12 (item (pos 300) (pos 300)) (pos 300) storage two_bids
      two_bids-IsKeyed two_bids-AreIn refl

-- Five bids of 0.01 share 0.03: four shares of 0.006 are rounded to 0.01 each, and the last bid
-- gets what is left, -0.01.
abbrev hundredths : List ProductBid
hundredths =
    bid 60 20 (pos 1)
    ∷ bid 61 21 (pos 1)
    ∷ bid 62 22 (pos 1)
    ∷ bid 63 23 (pos 1)
    ∷ bid 64 24 (pos 1)
    ∷ []

negative_share :
    amount_of 64
      (share_out rounded 12
        (item (pos 5) (pos 3))
        (pos 3)
        hundredths
        (record storage { bids = hundredths })).1.bids
    ≡ some (negsuc 0)
unfolding share_out give_shares update_bid_distributed_quantities
    update_shopping_list_item_requested_quantity modify pure gets ◌>>=◌ ◌+ℤ◌ ◌-ℤ◌
negative_share = refl

check_adjustment_iff_example :
    (check_adjustment (some (item (pos 300) (pos 200))) (pos 150) (bid 32 23 (pos 200)) ≡ ok tt)
    ↔ IsAdjusted (pos 200) (pos 300) (pos 200) (pos 150)
check_adjustment_iff_example =
    check_adjustment_iff (item (pos 300) (pos 200)) (pos 150) (bid 32 23 (pos 200)) (ground arith)

let_through :
    check_adjustment (some (item (pos 300) (pos 200))) (pos 150) (bid 32 23 (pos 200)) ≡ ok tt
unfolding check_adjustment ◌-ℤ◌ max0 abs
let_through = refl

differ : pos 200 ≢ pos 300
differ e = ground arith

adjustment_converges_example : IsBetween (pos 200) (pos 300) (pos 300 -ℤ pos 200 +ℤ pos 150)
adjustment_converges_example =
    adjustment_converges (item (pos 300) (pos 200)) (pos 150) (bid 32 23 (pos 200)) (pos 300)
      (ground arith) refl differ let_through
