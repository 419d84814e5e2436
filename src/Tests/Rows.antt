-- ===== src/Tests/Rows.antt =====
-- Bids and shopping lists of the test storage.
use bulq.Common.{◌≡◌, refl, arith, none, [], false}
use bulq.Common.Int.{pos, ◌+ℤ◌}
use bulq.Model.{MemoryStorage}
use bulq.Repo.Bids.{bids_of_run, create_or_update_bid, delete_bid}
use bulq.Repo.Bids.Rows.{IsSound}
use bulq.Repo.Bids.Lookup.{IsWritten, IsDeleted, create_or_update_bid-get_bid, delete_bid-get_bid}
use bulq.RunStateService.ShoppingList.{generate_shopping_list}
use bulq.RunStateService.ListTotals.{IsFresh, listed, requested, generate_shopping_list-requested}
use bulq.Tests.{storage}

bids_IsSound : IsSound storage.bids
bids_IsSound = (ground arith, (refl, (refl, (refl, (refl, tt)))))

-- A new bid of the leader on another product.
create_or_update_bid-get_bid_example :
    IsWritten 21 8
      (pos 150)
      false
      none
      storage
      (create_or_update_bid 21 8 (pos 150) false none storage)
create_or_update_bid-get_bid_example =
    create_or_update_bid-get_bid 21 8 (pos 150) false none storage bids_IsSound (ground arith)

delete_bid-get_bid_example : IsDeleted 22 7 storage (delete_bid 22 7 storage)
delete_bid-get_bid_example = delete_bid-get_bid 22 7 storage bids_IsSound

ids_IsFresh : IsFresh storage.uuid4 []
ids_IsFresh = record { unused = λ n. tt; distinct = λ m n e. omega arith }

abbrev unlisted : MemoryStorage
unlisted = record storage { shopping_list_items = [] }

-- The two bids on product 7 in run 11.
generate_shopping_list-requested_example :
    listed 11 7 (generate_shopping_list 11 unlisted).1.shopping_list_items
    ≡ listed 11 7 [] +ℤ requested 7 (bids_of_run 11 unlisted)
generate_shopping_list-requested_example =
    generate_shopping_list-requested 11 7 unlisted ids_IsFresh

five_requested : requested 7 (bids_of_run 11 unlisted) ≡ pos 500
unfolding ◌+ℤ◌
five_requested = refl
