-- ===== src/RunStateService/Share.antt =====
-- `_verify_quantities_match` and `_distribute_items_to_bidders` of run_state_service.py.
--
-- The share `round(float(bid.quantity * ratio), 2)` of a bid is a parameter, `scaled quantity
-- purchased total`, since it rounds through binary floating point.
pub mod Amounts
pub mod Totals
use bulq.Common.{
  ℕ, Bool, true, false, not, Option, none, some, List, [], ◌∷◌, map, keep, find?, ◌==◌, ◌&&◌,
  if◌then◌else◌,
}
use bulq.Common.Int.{ℤ, pos, ◌+ℤ◌, ◌-ℤ◌, ltb_ℤ, eqb_ℤ}
use bulq.Table.{get}
use bulq.Error.{bad_request, bid_quantity_exceeds_purchased}
use bulq.Model.{MemoryStorage, ProductBid, ShoppingListItem, RunParticipation}
use bulq.Storage.{Action, pure, gets, raise_if, ◌>>=◌, ◌>>◌}
use bulq.Repo.Runs.{get_run_participations}
use bulq.Repo.Bids.{
  bid_key, get_bids_by_run, create_or_update_bid, update_bid_distributed_quantities,
}
use bulq.Repo.Shopping.{get_shopping_list_items, update_shopping_list_item_requested_quantity}

-- `bid.product_id == shopping_item.product_id and not bid.interested_only`
abbrev pub is_product_bid : ℕ → ProductBid → Bool
is_product_bid product_id b = b.product_id == product_id && not b.interested_only

-- `sum(bid.quantity for bid in product_bids)`
abbrev pub total_quantity : List ProductBid → ℤ
total_quantity [] = pos 0
total_quantity (b ∷ bids) = b.quantity +ℤ total_quantity bids

-- The two tests that skip an item: it was not purchased, or nothing of it was bought.
abbrev pub purchased_amount : ShoppingListItem → Option ℤ
purchased_amount item = elim item.purchased_quantity [
  | none ↦ none
  | some q ↦ if item.is_purchased && not (eqb_ℤ q (pos 0)) then some q else none
]

abbrev pub mismatch : List ProductBid → ShoppingListItem → Bool
mismatch all_bids item = elim (purchased_amount item) [
  | none ↦ false
  | some q ↦ not (eqb_ℤ (total_quantity (keep (is_product_bid item.product_id) all_bids)) q)
]

unfoldable pub check_items : List ProductBid → List ShoppingListItem → Action (Unit {0})
check_items all_bids [] = pure tt
check_items all_bids (item ∷ items) = do
  raise_if (mismatch all_bids item) (bad_request bid_quantity_exceeds_purchased)
  check_items all_bids items

unfoldable pub verify_quantities_match : ℕ → Action (Unit {0})
verify_quantities_match run_id = do
  shopping_items ← get_shopping_list_items run_id
  all_bids ← get_bids_by_run run_id
  check_items all_bids shopping_items

-- The rows that `all_bids` refers to, as they are now: an earlier round may have changed them.
abbrev pub rows_of : List ℕ → List ProductBid → List ProductBid
rows_of [] bids = []
rows_of (i ∷ ids) bids = elim (get bid_key i bids) [
  | none ↦ rows_of ids bids
  | some b ↦ b ∷ rows_of ids bids
]

-- the `else` branch: every bidder gets the whole bid
unfoldable pub give_full : List ProductBid → Option ℤ → Action (Unit {0})
give_full [] price = pure tt
give_full (bid ∷ bids) price = do
  update_bid_distributed_quantities bid.id bid.quantity price
  give_full bids price

-- The surplus goes to the leader, on top of the leader's bid or as a bid of its own.
unfoldable pub add_surplus :
    RunParticipation → ShoppingListItem → ℤ → ℤ → Option ProductBid → Action (Unit {0})
add_surplus leader item purchased surplus (some leader_bid) = do
  let new_quantity = leader_bid.quantity +ℤ surplus
  updated_bid ←
      create_or_update_bid leader.id item.product_id new_quantity leader_bid.interested_only
        leader_bid.comment
  update_bid_distributed_quantities updated_bid.id new_quantity item.purchased_price_per_unit
  update_shopping_list_item_requested_quantity item.id purchased
add_surplus leader item purchased surplus none = do
  new_bid ← create_or_update_bid leader.id item.product_id surplus false none
  update_bid_distributed_quantities new_bid.id surplus item.purchased_price_per_unit
  update_shopping_list_item_requested_quantity item.id purchased

-- `next((bid for bid in product_bids if bid.participation_id == leader_participation.id), None)`
abbrev pub leader_bid_in : RunParticipation → List ProductBid → Option ProductBid
leader_bid_in leader = find? (λ (b : ProductBid). b.participation_id == leader.id)

unfoldable pub surplus_to_leader :
    List ProductBid → ShoppingListItem → ℤ → ℤ → Option RunParticipation → Action (Unit {0})
surplus_to_leader product_bids item purchased surplus none = pure tt
surplus_to_leader product_bids item purchased surplus (some leader) =
    add_surplus leader item purchased surplus (leader_bid_in leader product_bids)

unfoldable pub assign_surplus : ℕ → List ProductBid → ShoppingListItem → ℤ → ℤ → Action (Unit {0})
assign_surplus run_id product_bids item purchased total_requested = do
  participations ← get_run_participations run_id
  surplus_to_leader product_bids item purchased (purchased -ℤ total_requested)
      (find? (λ (p : RunParticipation). p.is_leader) participations)

module _ (scaled : ℤ → ℤ → ℤ → ℤ) where
  -- the loop of the proportional branch; the last bid gets what is left
  unfoldable pub give_shares : List ProductBid → ℤ → ℤ → ℤ → Option ℤ → Action (Unit {0})
  give_shares [] purchased total total_distributed price = pure tt
  give_shares (bid ∷ []) purchased total total_distributed price =
      update_bid_distributed_quantities bid.id (purchased -ℤ total_distributed) price
  give_shares (bid ∷ next ∷ bids) purchased total total_distributed price = do
    update_bid_distributed_quantities bid.id (scaled bid.quantity purchased total) price
    give_shares (next ∷ bids) purchased total
        (total_distributed +ℤ scaled bid.quantity purchased total) price

  -- One item of which something was bought, with the bids on it.
  unfoldable pub share_out : ℕ → ShoppingListItem → ℤ → List ProductBid → Action (Unit {0})
  share_out run_id item purchased product_bids = do
    let total_requested = total_quantity product_bids
    update_shopping_list_item_requested_quantity item.id total_requested
    if ltb_ℤ purchased total_requested
        then give_shares product_bids purchased total_requested (pos 0)
            item.purchased_price_per_unit
        else do
          give_full product_bids item.purchased_price_per_unit
          if ltb_ℤ total_requested purchased
              then assign_surplus run_id product_bids item purchased total_requested
              else pure tt

  unfoldable pub distribute_amount : ℕ → List ℕ → ShoppingListItem → Option ℤ → Action (Unit {0})
  distribute_amount run_id bid_ids item none = pure tt
  distribute_amount run_id bid_ids item (some purchased) = do
    all_bids ← gets (λ s. rows_of bid_ids s.bids)
    share_out run_id item purchased (keep (is_product_bid item.product_id) all_bids)

  unfoldable pub distribute_items : ℕ → List ℕ → List ShoppingListItem → Action (Unit {0})
  distribute_items run_id bid_ids [] = pure tt
  distribute_items run_id bid_ids (item ∷ items) = do
    distribute_amount run_id bid_ids item (purchased_amount item)
    distribute_items run_id bid_ids items

  unfoldable pub distribute_items_to_bidders : ℕ → Action (Unit {0})
  distribute_items_to_bidders run_id = do
    shopping_items ← get_shopping_list_items run_id
    all_bids ← get_bids_by_run run_id
    distribute_items run_id (map (λ (b : ProductBid). b.id) all_bids) shopping_items
