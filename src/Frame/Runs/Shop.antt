-- ===== src/Frame/Runs/Shop.antt =====
-- The methods of `ShoppingService` and the helpers' `toggle_helper` leave the runs as they were, but
-- for `complete_shopping`.
use bulq.Common.{ℕ, Bool, true, false, Option, none, some, String, List, [], ◌∷◌}
use bulq.Common.Int.{ℤ}
use bulq.Model.{User, RunParticipation, ProductBid, ShoppingListItem}
use bulq.Storage.{IdText}
use bulq.Storage.Rules.{Reads, Leaves, Leaves-modify, reads_rules}
use bulq.Frame.Runs.{runs_of, left, runs_left}
use bulq.Repo.Availabilities.{create_product_availability, get_product_availabilities}
use bulq.Repo.Shopping.{get_shopping_list_item}
use bulq.Repo.Shopping.Purchases as Purchases
use bulq.Repo.Runs.{help_with, update_participation_helper}
use bulq.RunStateService.Share.{give_full}
use bulq.ShoppingService.Prices.{record_price, update_product_availability_if_needed}
use bulq.ShoppingService.Methods.{
  leader_or_helper, add_product_to_shopping_list, add_availability_price, mark_purchased,
  add_more_purchased, update_purchase, unpurchase_item,
}
use bulq.ShoppingService.Complete.{give_item, give_items}
use bulq.RunMethods.{switch_helper, toggle_helper}

pub Reads-get_product_availabilities : (p r : ℕ) → Reads (get_product_availabilities p r)
unfolding get_product_availabilities
Reads-get_product_availabilities p r = search reads_rules

pub Reads-get_shopping_list_item : (i : ℕ) → Reads (get_shopping_list_item i)
unfolding get_shopping_list_item
Reads-get_shopping_list_item i = search reads_rules

pub Reads-leader_or_helper : (o : Option RunParticipation) → Reads (leader_or_helper o)
unfolding leader_or_helper
Reads-leader_or_helper none = search reads_rules
Reads-leader_or_helper (some p) = search reads_rules

Leaves-create_product_availability :
    (p r : ℕ) (c : Option ℤ) (n : String) (m : Option ℕ) (u : ℕ)
    → Leaves runs_of (create_product_availability p r c n m u)
unfolding create_product_availability
Leaves-create_product_availability p r c n m u = search (left, Leaves-modify) depth 8

Leaves-record_price : (b : Bool) (p r : ℕ) (c : ℤ) (u : ℕ) → Leaves runs_of (record_price b p r c u)
unfolding record_price
Leaves-record_price true p r c u = search (left, Leaves-create_product_availability)
Leaves-record_price false p r c u = search left

Leaves-update_availability :
    (p r : ℕ) (c : ℤ) (u : ℕ) → Leaves runs_of (update_product_availability_if_needed p r c u)
unfolding update_product_availability_if_needed
Leaves-update_availability p r c u =
    search (left, Leaves-record_price, Reads-get_product_availabilities)

Leaves-amend_item :
    (i : ℕ) (f : ShoppingListItem → ShoppingListItem) (o : Option ShoppingListItem)
    → Leaves runs_of (Purchases.amend_item i f o)
unfolding Purchases.amend_item
Leaves-amend_item i f none = search left
Leaves-amend_item i f (some x) = search (left, Leaves-modify)

ruleset items_rules = (
  runs_left, Reads-get_shopping_list_item, Leaves-amend_item, Leaves-update_availability,
  Leaves-create_product_availability, Reads-leader_or_helper,
)

pub Leaves-add_product :
    (i k : IdText) (q : ℤ) (u : User) → Leaves runs_of (add_product_to_shopping_list i k q u)
unfolding add_product_to_shopping_list
Leaves-add_product i k q u = search items_rules depth 16

pub Leaves-add_availability_price :
    (i k : IdText) (c : ℤ) (n : String) (m : Option ℕ) (u : User)
    → Leaves runs_of (add_availability_price i k c n m u)
unfolding add_availability_price
Leaves-add_availability_price i k c n m u = search items_rules depth 16

pub Leaves-mark_purchased :
    (i k : IdText) (q c t : ℤ) (u : User) → Leaves runs_of (mark_purchased i k q c t u)
unfolding mark_purchased Purchases.mark_item_purchased
Leaves-mark_purchased i k q c t u = search items_rules depth 16

pub Leaves-add_more_purchased :
    (scaled : ℤ → ℤ → ℤ → ℤ) (i k : IdText) (q c t : ℤ) (u : User)
    → Leaves runs_of (add_more_purchased scaled i k q c t u)
unfolding add_more_purchased Purchases.add_more_purchased
Leaves-add_more_purchased scaled i k q c t u = search items_rules depth 16

pub Leaves-update_purchase :
    (i k : IdText) (q c t : ℤ) (u : User) → Leaves runs_of (update_purchase i k q c t u)
unfolding update_purchase Purchases.update_item_purchase
Leaves-update_purchase i k q c t u = search items_rules depth 16

pub Leaves-unpurchase_item : (i k : IdText) (u : User) → Leaves runs_of (unpurchase_item i k u)
unfolding unpurchase_item Purchases.unpurchase_item
Leaves-unpurchase_item i k u = search items_rules depth 16

Leaves-give_full : (bids : List ProductBid) (c : Option ℤ) → Leaves runs_of (give_full bids c)
unfolding give_full
Leaves-give_full [] c = search runs_left
Leaves-give_full (b ∷ bids) c = search (runs_left, λ (v : Unit {0}). Leaves-give_full bids c)

Leaves-give_item :
    (bids : List ProductBid) (i : ShoppingListItem) (o : Option ℤ)
    → Leaves runs_of (give_item bids i o)
unfolding give_item
Leaves-give_item bids i none = search left
Leaves-give_item bids i (some q) = search (left, Leaves-give_full)

pub Leaves-give_items :
    (bids : List ProductBid) (items : List ShoppingListItem)
    → Leaves runs_of (give_items bids items)
unfolding give_items
Leaves-give_items bids [] = search left
Leaves-give_items bids (i ∷ items) =
    search (left, Leaves-give_item, λ (v : Unit {0}). Leaves-give_items bids items)

Leaves-help_with : (b : Bool) (o : Option RunParticipation) → Leaves runs_of (help_with b o)
unfolding help_with
Leaves-help_with b none = search left
Leaves-help_with b (some p) = search (left, Leaves-modify)

Leaves-switch_helper :
    (u r : ℕ) (o : Option RunParticipation) → Leaves runs_of (switch_helper u r o)
unfolding switch_helper update_participation_helper
Leaves-switch_helper u r none = search runs_left
Leaves-switch_helper u r (some p) = search (runs_left, Leaves-help_with)

pub Leaves-toggle_helper : (i k : IdText) (u : User) → Leaves runs_of (toggle_helper i k u)
unfolding toggle_helper
Leaves-toggle_helper i k u = search (runs_left, Leaves-switch_helper) depth 16
