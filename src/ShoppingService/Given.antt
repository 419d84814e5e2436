-- ===== src/ShoppingService/Given.antt =====
-- What the bidders are given when a run goes straight from shopping to distribution.
use bulq.Common.{
  ℕ, ◌≡◌, refl, sym, ap, ◌∙◌, Bool, true, false, Option, none, some, List, [], ◌∷◌, keep, any, All,
  ◌==◌, ◌||◌, ==_iff, Bool-cases, inl, inr, if◌then◌else◌,
}
use mathlib.Core.Option
use bulq.Common.Int.{ℤ}
use bulq.Table.{get, update, get-update}
use bulq.Model.{MemoryStorage, ProductBid, ShoppingListItem}
use bulq.Storage.{pure, modify, ◌>>=◌}
use bulq.Repo.Bids.{bid_key, set_distributed, update_bid_distributed_quantities}
use bulq.RunStateService.Share.{is_product_bid, purchased_amount, give_full}
use bulq.ShoppingService.Complete.{give_item, give_items}
use bulq.ShoppingService.Outcome.{Returns-give_item}

abbrev quantity_of : ProductBid → ℤ
quantity_of b = b.quantity

-- The row under the bid's id asks for what the bid asks for.
abbrev pub IsRowOf : List ProductBid → ProductBid → Type 0
IsRowOf rows b = Option.map quantity_of (get bid_key b.id rows) ≡ some b.quantity

-- The bid with this id is among these.
abbrev pub has_bid : ℕ → List ProductBid → Bool
has_bid i bids = any (λ (b : ProductBid). b.id == i) bids

abbrev given : Bool → Option ℤ → ProductBid → ProductBid
given g price b = if g then set_distributed b.quantity price b else b

get-give :
    (i : ℕ) (b : ProductBid) (price : Option ℤ) (rows : List ProductBid)
    → get bid_key i (update bid_key b.id (set_distributed b.quantity price) rows) ≡ (
        if b.id == i
        then Option.map (set_distributed b.quantity price) (get bid_key i rows)
        else get bid_key i rows)
get-give i b price rows =
    get-update bid_key (set_distributed b.quantity price) (λ r. refl) b.id i rows

map-quantity_of :
    (q : ℤ) (price : Option ℤ) (o : Option ProductBid)
    → Option.map quantity_of (Option.map (set_distributed q price) o) ≡ Option.map quantity_of o
map-quantity_of q price none = refl
map-quantity_of q price (some x) = refl

not_given : (price : Option ℤ) (o : Option ProductBid) → Option.map (given false price) o ≡ o
not_given price none = refl
not_given price (some x) = refl

given_again :
    (q : ℤ) (g : Bool) (price : Option ℤ) (o : Option ProductBid)
    → Option.map quantity_of o ≡ some q
    → Option.map (given g price) (Option.map (set_distributed q price) o)
      ≡ Option.map (given true price) o
given_again q g price none h = cc
given_again q true price (some x) h = let e : x.quantity ≡ q = cc in rw e refl
given_again q false price (some x) h = let e : x.quantity ≡ q = cc in rw e refl

-- Giving changes no quantity.
row-give :
    (b c : ProductBid) (price : Option ℤ) (rows : List ProductBid)
    → IsRowOf rows c
    → IsRowOf (update bid_key b.id (set_distributed b.quantity price) rows) c
row-give b c price rows h =
    ap (Option.map quantity_of) (get-give c.id b price rows) ∙ elim (Bool-cases (b.id == c.id)) [
      | inl same ↦ rw same (map-quantity_of b.quantity price (get bid_key c.id rows) ∙ h)
      | inr other ↦ rw other h
    ]

rows-give :
    (b : ProductBid) (price : Option ℤ) (rows bids : List ProductBid)
    → All (IsRowOf rows) bids
    → All (IsRowOf (update bid_key b.id (set_distributed b.quantity price) rows)) bids
rows-give b price rows [] h = tt
rows-give b price rows (c ∷ bids) h = (row-give b c price rows h.0, rows-give b price rows bids h.1)

given_twice :
    (i : ℕ) (b : ProductBid) (g : Bool) (price : Option ℤ) (rows : List ProductBid)
    → IsRowOf rows b
    → Option.map
        (given g price)
        (get bid_key i (update bid_key b.id (set_distributed b.quantity price) rows))
      ≡ Option.map (given (b.id == i || g) price) (get bid_key i rows)
given_twice i b g price rows h =
    ap (Option.map (given g price)) (get-give i b price rows) ∙ elim (Bool-cases (b.id == i)) [
      | inr other ↦ rw other refl
      | inl same ↦
          let e : b.id ≡ i = (==_iff b.id i).0 same in
          rw same (given_again b.quantity g price (get bid_key i rows) (rw (← e) h))
    ]

give_full-get :
    (price : Option ℤ) (i : ℕ) (bids : List ProductBid) (s : MemoryStorage)
    → All (IsRowOf s.bids) bids
    → get bid_key i (give_full bids price s).1.bids
      ≡ Option.map (given (has_bid i bids) price) (get bid_key i s.bids)
unfolding give_full update_bid_distributed_quantities modify pure ◌>>=◌
give_full-get price i [] s h = sym (not_given price (get bid_key i s.bids))
give_full-get price i (b ∷ bids) s h =
    give_full-get price i bids
      (record s { bids = update bid_key b.id (set_distributed b.quantity price) s.bids })
      (rows-give b price s.bids bids h.1)
    ∙ given_twice i b (has_bid i bids) price s.bids h.0

-- Giving the bids on an item leaves each row's quantity.
give_full-rows :
    (price : Option ℤ) (bids all_bids : List ProductBid) (s : MemoryStorage)
    → All (IsRowOf s.bids) all_bids
    → All (IsRowOf (give_full bids price s).1.bids) all_bids
unfolding give_full update_bid_distributed_quantities modify pure ◌>>=◌
give_full-rows price [] all_bids s h = h
give_full-rows price (b ∷ bids) all_bids s h =
    give_full-rows price bids all_bids
      (record s { bids = update bid_key b.id (set_distributed b.quantity price) s.bids })
      (rows-give b price s.bids all_bids h)

All-keep :
    (P : ProductBid → Type 0) (q : ProductBid → Bool) (bids : List ProductBid)
    → All P bids
    → All P (keep q bids)
All-keep P q [] h = tt
All-keep P q (b ∷ bids) h = elim (Bool-cases (q b)) [
  | inl kept ↦ rw kept (h.0, All-keep P q bids h.1)
  | inr dropped ↦ rw dropped (All-keep P q bids h.1)
]

-- Something of the item was bought, and the bid with this id is a bid on its product.
abbrev pub serves : ℕ → List ProductBid → ShoppingListItem → Option ℤ → Bool
serves i bids item none = false
serves i bids item (some _) = has_bid i (keep (is_product_bid item.product_id) bids)

abbrev pub is_served : ℕ → List ProductBid → ShoppingListItem → Bool
is_served i bids item = serves i bids item (purchased_amount item)

-- The price of the last item that serves the bid with this id.
abbrev pub last_price : ℕ → List ProductBid → List ShoppingListItem → Option (Option ℤ)
last_price i bids [] = none
last_price i bids (item ∷ items) = elim (last_price i bids items) [
  | some price ↦ some price
  | none ↦ if is_served i bids item then some item.purchased_price_per_unit else none
]

-- The bidder gets the whole bid at this price, where there is one.
abbrev pub handed : Option (Option ℤ) → ProductBid → ProductBid
handed none b = b
handed (some price) b = set_distributed b.quantity price b

handed_first :
    (later : Option (Option ℤ)) (g : Bool) (price : Option ℤ) (o : Option ProductBid)
    → Option.map (handed later) (Option.map (given g price) o)
      ≡ Option.map
          (handed (elim later [ some p ↦ some p | none ↦ if g then some price else none ]))
          o
handed_first later g price none = refl
handed_first none true price (some b) = refl
handed_first none false price (some b) = refl
handed_first (some p) true price (some b) = refl
handed_first (some p) false price (some b) = refl

give_item-get :
    (i : ℕ) (bids : List ProductBid) (item : ShoppingListItem) (bought : Option ℤ)
    (s : MemoryStorage)
    → All (IsRowOf s.bids) bids
    → get bid_key i (give_item bids item bought s).1.bids
      ≡ Option.map
          (given (serves i bids item bought) item.purchased_price_per_unit)
          (get bid_key i s.bids)
unfolding give_item pure
give_item-get i bids item none s h =
    sym (not_given item.purchased_price_per_unit (get bid_key i s.bids))
give_item-get i bids item (some q) s h =
    give_full-get item.purchased_price_per_unit i (keep (is_product_bid item.product_id) bids) s
      (All-keep (IsRowOf s.bids) _ bids h)

give_item-rows :
    (bids : List ProductBid) (item : ShoppingListItem) (bought : Option ℤ) (s : MemoryStorage)
    → All (IsRowOf s.bids) bids
    → All (IsRowOf (give_item bids item bought s).1.bids) bids
unfolding give_item pure
give_item-rows bids item none s h = h
give_item-rows bids item (some q) s h =
    give_full-rows item.purchased_price_per_unit (keep (is_product_bid item.product_id) bids) bids s
      h

step_items :
    (bids : List ProductBid) (item : ShoppingListItem) (items : List ShoppingListItem)
    (s : MemoryStorage)
    → (give_items bids (item ∷ items) s).1
      ≡ (give_items bids items (give_item bids item (purchased_amount item) s).1).1
unfolding give_items ◌>>=◌
step_items bids item items s =
    let (v, e) = (Returns-give_item bids item (purchased_amount item)).at s in rw e refl

-- The loop over the items hands each bid out at the price of the last item that serves it.
pub give_items-get :
    (i : ℕ) (bids : List ProductBid) (items : List ShoppingListItem) (s : MemoryStorage)
    → All (IsRowOf s.bids) bids
    → get bid_key i (give_items bids items s).1.bids
      ≡ Option.map (handed (last_price i bids items)) (get bid_key i s.bids)
unfolding give_items pure
give_items-get i bids [] s h = sym (not_given none (get bid_key i s.bids))
give_items-get i bids (item ∷ items) s h =
    let t = (give_item bids item (purchased_amount item) s).1 in
    ap (λ (v : MemoryStorage). get bid_key i v.bids) (step_items bids item items s)
    ∙ give_items-get i bids items t (give_item-rows bids item (purchased_amount item) s h)
    ∙ ap (Option.map (handed (last_price i bids items)))
        (give_item-get i bids item (purchased_amount item) s h)
    ∙ handed_first (last_price i bids items) (is_served i bids item) item.purchased_price_per_unit
        (get bid_key i s.bids)
