-- ===== src/Tests/Shop.antt =====
-- A run in shopping: its requests and its purchases.
use bulq.Common.{◌≡◌, refl, ◌↔◌, inl, inr, true, false, all, some, [], ◌∷◌}
use bulq.Common.Int.{pos}
use bulq.Error.{ok}
use bulq.Table.{get}
use bulq.Storage.{pure, gets, modify, or_raise, raise_if, draw_uuid4, ◌>>=◌}
use bulq.Access.{require_run, require_leader_or_helper}
use bulq.Repo.Runs.{get_run_by_id, get_participation}
use bulq.Repo.Availabilities.{get_product_availabilities, create_product_availability}
use bulq.Repo.Shopping.{item_key, items_of_run, get_shopping_list_item, get_shopping_list_items}
use bulq.Repo.Shopping.Purchases.{purchase, unpurchase, amend_item, mark_item_purchased}
use bulq.ShoppingService.Prices.{record_price, update_product_availability_if_needed}
use bulq.ShoppingService.Methods.{mark_purchased, unpurchase_item}
use bulq.ShoppingService.Orders.{is_before, mark_purchased-order, mark_purchased-unpurchase_item}
use bulq.RunState.{RunState, shopping}
use bulq.Model.{MemoryStorage, ShoppingListItem}
use bulq.Access.Outcomes.{is_led_by}
use bulq.ShoppingService.Complete.{complete_shopping}
use bulq.ShoppingService.Ends.{EndsIn}
use bulq.ShoppingService.Outcome.{EndOf, all_as_requested, complete_shopping_iff}
use bulq.ShoppingService.Dealt.{complete_shopping-handed}
use bulq.Repo.Bids.{bid_key, set_distributed}
use bulq.Tests.{alice, run_in, participation, bid, item, storage}

-- Of product 7 all is bought that was asked for.
abbrev listed_item : ShoppingListItem
listed_item = record (item (pos 500) (pos 500)) { id = 41; run_id = 14 }

-- Alice leads run 14, and Bob takes part in it.
abbrev shop : MemoryStorage
shop = record storage {
  runs = run_in 14 shopping ∷ [];
  participations = participation 26 1 14 true ∷ participation 27 2 14 false ∷ [];
  bids = bid 34 26 (pos 300) ∷ bid 35 27 (pos 200) ∷ [];
  shopping_list_items = listed_item ∷ [];
}

complete_shopping_iff_example :
    EndsIn 14 RunState.distributing (complete_shopping (some 14) alice) shop ↔ (
      (is_led_by alice 14 shop ≡ true)
      × (shopping ≡ shopping)
      × EndOf (listed_item ∷ []) RunState.distributing)
complete_shopping_iff_example = complete_shopping_iff 14 alice shop refl RunState.distributing

-- All of the one item was bought.
shop_ends : EndOf (listed_item ∷ []) RunState.distributing
shop_ends =
    all_as_requested (inl (pos 500, refl, refl, refl))
      λ h. elim h [ inl (q, _, noted, _, other) ↦ other (cc noted) | inr none_left ↦ none_left ]

-- Bob's bid 35 asks for 2.00.
complete_shopping-handed_example :
    get bid_key 35 (complete_shopping (some 14) alice shop).1.bids
    ≡ some (set_distributed (pos 200) listed_item.purchased_price_per_unit (bid 35 27 (pos 200)))
complete_shopping-handed_example =
    complete_shopping-handed 14 alice shop 35 (refl, (refl, tt))
      ((complete_shopping_iff 14 alice shop refl RunState.distributing).1
        (refl, refl, shop_ends)).returned

marked_second :
    (mark_purchased (some 14) (some 41) (pos 500) (pos 250) (pos 1250) alice shop).0 ≡ ok 2
unfolding mark_purchased mark_item_purchased amend_item require_run get_run_by_id
    require_leader_or_helper get_participation get_shopping_list_item get_shopping_list_items
    update_product_availability_if_needed get_product_availabilities record_price
    create_product_availability draw_uuid4 pure gets modify or_raise raise_if ◌>>=◌
marked_second = refl

mark_purchased-order_example :
    (all (is_before 2) (items_of_run 14 shop) ≡ true)
    × (get item_key 41
          (mark_purchased
            (some 14)
            (some 41)
            (pos 500)
            (pos 250)
            (pos 1250)
            alice
            shop).1.shopping_list_items
        ≡ some (purchase (pos 500) (pos 250) (pos 1250) 2 listed_item))
mark_purchased-order_example =
    mark_purchased-order alice 14 41 (pos 500) (pos 250) (pos 1250) shop 41 marked_second

-- The same run before anything was bought.
abbrev fresh_item : ShoppingListItem
fresh_item = unpurchase listed_item

abbrev fresh_shop : MemoryStorage
fresh_shop = record shop { shopping_list_items = fresh_item ∷ [] }

mark_purchased-unpurchase_item_example :
    let marked =
      mark_purchased (some 14) (some 41) (pos 500) (pos 250) (pos 1250) alice fresh_shop in
    let back = unpurchase_item (some 14) (some 41) alice marked.1 in
    (marked.0 ≡ ok 1)
    × (back.0 ≡ ok tt)
    × (back.1.shopping_list_items ≡ fresh_shop.shopping_list_items)
mark_purchased-unpurchase_item_example =
    mark_purchased-unpurchase_item alice 14 41 (pos 500) (pos 250) (pos 1250) fresh_shop
      (record { run = run_in 14 shopping; is_found = refl; helps = refl; item_found = refl }) refl
