-- ===== src/Repo/Bids.antt =====
-- memory/bid.py: the bids of a run's participants.
pub mod Rows
pub mod Lookup
use bulq.Common.{
  ℕ, Bool, true, false, Option, none, some, List, keep, find?, map, contains, ◌==◌, ◌&&◌, String,
  if◌then◌else◌,
}
use bulq.Common.Int.{ℤ}
use bulq.Table.{get, update, put, delete}
use bulq.Model.{MemoryStorage, ProductBid, RunParticipation}
use bulq.Storage.{Action, pure, gets, modify, draw_uuid4, ◌>>=◌, ◌>>◌}

abbrev pub bid_key : ProductBid → ℕ
bid_key b = b.id

-- `{p.id for p in participations if p.run_id == run_id}`
abbrev pub participation_ids : ℕ → List RunParticipation → List ℕ
participation_ids run_id ps =
    map (λ (p : RunParticipation). p.id) (keep (λ (p : RunParticipation). p.run_id == run_id) ps)

abbrev pub bids_of_run : ℕ → MemoryStorage → List ProductBid
bids_of_run run_id s =
    keep
      (λ (b : ProductBid). contains b.participation_id (participation_ids run_id s.participations))
      s.bids

unfoldable pub get_bids_by_run : ℕ → Action (List ProductBid)
get_bids_by_run run_id = gets (bids_of_run run_id)

-- `bid.participation_id == participation_id and bid.product_id == product_id`
abbrev pub is_bid : ℕ → ℕ → ProductBid → Bool
is_bid participation_id product_id b =
    b.participation_id == participation_id && b.product_id == product_id

unfoldable pub get_bid : ℕ → ℕ → Action (Option ProductBid)
get_bid participation_id product_id = gets (λ s. find? (is_bid participation_id product_id) s.bids)

unfoldable pub get_bids_by_participation : ℕ → Action (List ProductBid)
get_bids_by_participation participation_id =
    gets (λ s. keep (λ (b : ProductBid). b.participation_id == participation_id) s.bids)

unfoldable pub get_bid_by_id : ℕ → Action (Option ProductBid)
get_bid_by_id bid_id = gets (λ s. get bid_key bid_id s.bids)

abbrev pub new_product_bid : ℕ → ℕ → ℕ → ℤ → Bool → Option String → ProductBid
new_product_bid new_id participation_id product_id quantity interested_only comment = record {
  id = new_id;
  participation_id = participation_id;
  product_id = product_id;
  quantity = quantity;
  interested_only = interested_only;
  comment = comment;
  distributed_quantity = none;
  distributed_price_per_unit = none;
  is_picked_up = false;
}

abbrev pub rebid : ℤ → Bool → Option String → ProductBid → ProductBid
rebid quantity interested_only comment b = record b {
  quantity = quantity;
  interested_only = interested_only;
  comment = comment;
}

-- The two branches of `create_or_update_bid`, on what `get_bid` found.
unfoldable pub write_bid : ℕ → ℕ → ℤ → Bool → Option String → Option ProductBid → Action ProductBid
write_bid participation_id product_id quantity interested_only comment (some existing_bid) = do
  modify (λ s. record s {
    bids = update bid_key existing_bid.id (rebid quantity interested_only comment) s.bids;
  })
  pure (rebid quantity interested_only comment existing_bid)
write_bid participation_id product_id quantity interested_only comment none = do
  new_id ← draw_uuid4
  modify (λ s. record s {
    bids =
        put bid_key
          (new_product_bid new_id participation_id product_id quantity interested_only comment)
          s.bids;
  })
  pure (new_product_bid new_id participation_id product_id quantity interested_only comment)

unfoldable pub create_or_update_bid : ℕ → ℕ → ℤ → Bool → Option String → Action ProductBid
create_or_update_bid participation_id product_id quantity interested_only comment = do
  existing_bid ← get_bid participation_id product_id
  write_bid participation_id product_id quantity interested_only comment existing_bid

-- The end of `delete_bid`, on the row that its loop found.
unfoldable pub delete_found : Option ProductBid → Action Bool
delete_found none = pure false
delete_found (some bid) = do
  modify (λ s. record s { bids = delete bid_key bid.id s.bids })
  pure true

unfoldable pub delete_bid : ℕ → ℕ → Action Bool
delete_bid participation_id product_id = do
  bid_to_delete ← get_bid participation_id product_id
  delete_found bid_to_delete

abbrev pub set_distributed : ℤ → Option ℤ → ProductBid → ProductBid
set_distributed quantity price_per_unit b = record b {
  distributed_quantity = some quantity;
  distributed_price_per_unit = price_per_unit;
}

unfoldable pub update_bid_distributed_quantities : ℕ → ℤ → Option ℤ → Action (Unit {0})
update_bid_distributed_quantities bid_id quantity price_per_unit = modify (λ s. record s {
  bids = update bid_key bid_id (set_distributed quantity price_per_unit) s.bids;
})

-- `bid.is_picked_up = True`, as `mark_picked_up` does to the row that it holds
unfoldable pub set_picked_up : ℕ → Action (Unit {0})
set_picked_up bid_id = modify (λ s. record s {
  bids = update bid_key bid_id (λ (b : ProductBid). record b { is_picked_up = true }) s.bids;
})
