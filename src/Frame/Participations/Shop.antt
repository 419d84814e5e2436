-- ===== src/Frame/Participations/Shop.antt =====
-- The methods that change what was bought of an item leave the participations as they were.
use bulq.Common.{ℕ, Bool, true, false, Option, none, some, String}
use bulq.Common.Int.{ℤ}
use bulq.Model.{User, ShoppingListItem}
use bulq.Storage.{IdText}
use bulq.Storage.Rules.{Leaves, Leaves-modify}
use bulq.Frame.Participations.{participations_of, participations_left}
use bulq.Frame.Runs.Shop.{Reads-get_shopping_list_item, Reads-get_product_availabilities}
use bulq.Repo.Availabilities.{create_product_availability}
use bulq.Repo.Shopping.Purchases as Purchases
use bulq.ShoppingService.Prices.{record_price, update_product_availability_if_needed}
use bulq.ShoppingService.Methods.{mark_purchased, add_more_purchased}

Leaves-create_product_availability :
    (p r : ℕ) (c : Option ℤ) (n : String) (m : Option ℕ) (u : ℕ)
    → Leaves participations_of (create_product_availability p r c n m u)
unfolding create_product_availability
Leaves-create_product_availability p r c n m u = search (participations_left, Leaves-modify) depth 8

Leaves-record_price :
    (b : Bool) (p r : ℕ) (c : ℤ) (u : ℕ) → Leaves participations_of (record_price b p r c u)
unfolding record_price
Leaves-record_price true p r c u = search (participations_left, Leaves-create_product_availability)
Leaves-record_price false p r c u = search participations_left

Leaves-update_availability :
    (p r : ℕ) (c : ℤ) (u : ℕ)
    → Leaves participations_of (update_product_availability_if_needed p r c u)
unfolding update_product_availability_if_needed
Leaves-update_availability p r c u =
    search (participations_left, Leaves-record_price, Reads-get_product_availabilities)

Leaves-amend_item :
    (i : ℕ) (f : ShoppingListItem → ShoppingListItem) (o : Option ShoppingListItem)
    → Leaves participations_of (Purchases.amend_item i f o)
unfolding Purchases.amend_item
Leaves-amend_item i f none = search participations_left
Leaves-amend_item i f (some x) = search (participations_left, Leaves-modify)

ruleset items_rules = (
  participations_left, Reads-get_shopping_list_item, Leaves-amend_item, Leaves-update_availability,
)

pub Leaves-mark_purchased :
    (i k : IdText) (q c t : ℤ) (u : User) → Leaves participations_of (mark_purchased i k q c t u)
unfolding mark_purchased Purchases.mark_item_purchased
Leaves-mark_purchased i k q c t u = search items_rules depth 16

pub Leaves-add_more_purchased :
    (scaled : ℤ → ℤ → ℤ → ℤ) (i k : IdText) (q c t : ℤ) (u : User)
    → Leaves participations_of (add_more_purchased scaled i k q c t u)
unfolding add_more_purchased Purchases.add_more_purchased
Leaves-add_more_purchased scaled i k q c t u = search items_rules depth 16
