-- ===== src/RunStateService/Writes.antt =====
-- The writing steps of `start_shopping` and `finish_adjusting` do not raise.
use bulq.Common.{ℕ, Bool, Option, none, some, List, [], ◌∷◌, String}
use bulq.Common.Int.{ℤ}
use bulq.Model.{RunParticipation, ProductBid, ShoppingListItem}
use bulq.Storage.Rules.{Returns, returns_rules}
use bulq.Repo.Runs.{get_run_participations}
use bulq.Repo.Bids.{
  get_bids_by_run, get_bid, write_bid, create_or_update_bid, update_bid_distributed_quantities,
}
use bulq.Repo.Shopping.{
  create_shopping_list_item, get_shopping_list_items, update_shopping_list_item_requested_quantity,
}
use bulq.RunStateService.ShoppingList.{create_items, generate_shopping_list}
use bulq.RunStateService.Share.{
  give_full, add_surplus, surplus_to_leader, assign_surplus, give_shares, share_out,
  distribute_amount, distribute_items, distribute_items_to_bidders,
}

pub Returns-create_shopping_list_item :
    (r p : ℕ) (q : ℤ) → Returns (create_shopping_list_item r p q)
unfolding create_shopping_list_item
Returns-create_shopping_list_item r p q = search (returns_rules) depth 8

Returns-create_items : (r : ℕ) (d : List (ℕ × ℤ)) → Returns (create_items r d)
unfolding create_items
Returns-create_items r [] = search returns_rules
Returns-create_items r ((p, q) ∷ d) = search (
  returns_rules,
  Returns-create_shopping_list_item,
  λ (u : ShoppingListItem). Returns-create_items r d,
)

pub Returns-generate_shopping_list : (r : ℕ) → Returns (generate_shopping_list r)
unfolding generate_shopping_list get_bids_by_run
Returns-generate_shopping_list r = search (returns_rules, Returns-create_items)

Returns-update_bid_distributed_quantities :
    (i : ℕ) (q : ℤ) (c : Option ℤ) → Returns (update_bid_distributed_quantities i q c)
unfolding update_bid_distributed_quantities
Returns-update_bid_distributed_quantities i q c = search returns_rules

Returns-update_requested :
    (i : ℕ) (q : ℤ) → Returns (update_shopping_list_item_requested_quantity i q)
unfolding update_shopping_list_item_requested_quantity
Returns-update_requested i q = search returns_rules

Returns-write_bid :
    (p i : ℕ) (q : ℤ) (b : Bool) (c : Option String) (o : Option ProductBid)
    → Returns (write_bid p i q b c o)
unfolding write_bid
Returns-write_bid p i q b c none = search (returns_rules) depth 8
Returns-write_bid p i q b c (some e) = search returns_rules

pub Returns-create_or_update_bid :
    (p i : ℕ) (q : ℤ) (b : Bool) (c : Option String) → Returns (create_or_update_bid p i q b c)
unfolding create_or_update_bid get_bid
Returns-create_or_update_bid p i q b c = search (returns_rules, Returns-write_bid)

ruleset sharing = (
  returns_rules, Returns-update_bid_distributed_quantities, Returns-update_requested,
  Returns-create_or_update_bid,
)

pub Returns-give_full : (bids : List ProductBid) (c : Option ℤ) → Returns (give_full bids c)
unfolding give_full
Returns-give_full [] c = search sharing
Returns-give_full (b ∷ bids) c = search (sharing, λ (u : Unit {0}). Returns-give_full bids c)

Returns-add_surplus :
    (l : RunParticipation) (i : ShoppingListItem) (p q : ℤ) (b : Option ProductBid)
    → Returns (add_surplus l i p q b)
unfolding add_surplus
Returns-add_surplus l i p q none = search sharing
Returns-add_surplus l i p q (some b) = search sharing

Returns-surplus_to_leader :
    (bids : List ProductBid) (i : ShoppingListItem) (p q : ℤ) (l : Option RunParticipation)
    → Returns (surplus_to_leader bids i p q l)
unfolding surplus_to_leader
Returns-surplus_to_leader bids i p q none = search sharing
Returns-surplus_to_leader bids i p q (some l) = search (sharing, Returns-add_surplus)

Returns-assign_surplus :
    (r : ℕ) (bids : List ProductBid) (i : ShoppingListItem) (p q : ℤ)
    → Returns (assign_surplus r bids i p q)
unfolding assign_surplus get_run_participations
Returns-assign_surplus r bids i p q = search (sharing, Returns-surplus_to_leader)

module _ (scaled : ℤ → ℤ → ℤ → ℤ) where
  Returns-give_shares :
      (bids : List ProductBid) (p t d : ℤ) (c : Option ℤ)
      → Returns (give_shares scaled bids p t d c)
  unfolding give_shares
  Returns-give_shares [] p t d c = search sharing
  Returns-give_shares (b ∷ []) p t d c = search sharing
  Returns-give_shares (b ∷ b' ∷ bids) p t d c =
      let ih = λ (e : ℤ). Returns-give_shares (b' ∷ bids) p t e c in search (sharing, ih)

  Returns-share_out :
      (r : ℕ) (i : ShoppingListItem) (p : ℤ) (bids : List ProductBid)
      → Returns (share_out scaled r i p bids)
  unfolding share_out
  Returns-share_out r i p bids =
      search (sharing, Returns-give_shares, Returns-give_full, Returns-assign_surplus) depth 8

  Returns-distribute_amount :
      (r : ℕ) (ids : List ℕ) (i : ShoppingListItem) (q : Option ℤ)
      → Returns (distribute_amount scaled r ids i q)
  unfolding distribute_amount
  Returns-distribute_amount r ids i none = search sharing
  Returns-distribute_amount r ids i (some q) = search (sharing, Returns-share_out)

  Returns-distribute_items :
      (r : ℕ) (ids : List ℕ) (items : List ShoppingListItem)
      → Returns (distribute_items scaled r ids items)
  unfolding distribute_items
  Returns-distribute_items r ids [] = search sharing
  Returns-distribute_items r ids (i ∷ items) =
      search
        (sharing, Returns-distribute_amount, λ (u : Unit {0}). Returns-distribute_items r ids items)

  pub Returns-distribute_items_to_bidders : (r : ℕ) → Returns (distribute_items_to_bidders scaled r)
  unfolding distribute_items_to_bidders get_shopping_list_items get_bids_by_run
  Returns-distribute_items_to_bidders r = search (sharing, Returns-distribute_items)
