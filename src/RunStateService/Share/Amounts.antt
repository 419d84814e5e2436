-- ===== src/RunStateService/Share/Amounts.antt =====
-- How much `_distribute_items_to_bidders` gives to whom, for one item of the shopping list.
use bulq.Common.{
  ℕ, ◌≡◌, ◌≢◌, refl, ap, ◌∙◌, Option, none, some, List, [], ◌∷◌, arith, ◌==◌, ==_refl,
  if◌then◌else◌,
}
use mathlib.Core.Option
use bulq.Common.Int.{ℤ, pos, ◌+ℤ◌, ◌-ℤ◌, int_laws}
use bulq.Table.{get, update, get-update}
use bulq.Error.{ok}
use bulq.Model.{MemoryStorage, ProductBid}
use bulq.Storage.{◌>>=◌}
use bulq.Repo.Bids.{bid_key, set_distributed, update_bid_distributed_quantities}
use bulq.RunStateService.Share.{total_quantity, give_full, give_shares}

-- The amounts as a list: to each bid its own.
abbrev pub full_amounts : List ProductBid → List (ℕ × ℤ)
full_amounts [] = []
full_amounts (b ∷ bids) = (b.id, b.quantity) ∷ full_amounts bids

module _ (scaled : ℤ → ℤ → ℤ → ℤ) (purchased total : ℤ) where
  abbrev pub share_amounts : List ProductBid → ℤ → List (ℕ × ℤ)
  share_amounts [] done = []
  share_amounts (b ∷ []) done = (b.id, purchased -ℤ done) ∷ []
  share_amounts (b ∷ b' ∷ bids) done =
      (b.id, scaled b.quantity purchased total)
      ∷ share_amounts (b' ∷ bids) (done +ℤ scaled b.quantity purchased total)

-- The amounts written into the rows.
abbrev pub write_amounts : List (ℕ × ℤ) → Option ℤ → List ProductBid → List ProductBid
write_amounts [] price d = d
write_amounts ((i, a) ∷ rest) price d =
    write_amounts rest price (update bid_key i (set_distributed a price) d)

abbrev pub with_bids : MemoryStorage → List ProductBid → MemoryStorage
with_bids s d = record s { bids = d }

pub give_full_lem :
    (bids : List ProductBid) (price : Option ℤ) (s : MemoryStorage)
    → give_full bids price s ≡ (ok tt, with_bids s (write_amounts (full_amounts bids) price s.bids))
unfolding give_full update_bid_distributed_quantities ◌>>=◌
give_full_lem [] price s = refl
give_full_lem (b ∷ bids) price s =
    give_full_lem bids price
      (with_bids s (update bid_key b.id (set_distributed b.quantity price) s.bids))

pub give_shares_lem :
    (scaled : ℤ → ℤ → ℤ → ℤ) (bids : List ProductBid) (purchased total done : ℤ) (price : Option ℤ)
    (s : MemoryStorage)
    → give_shares scaled bids purchased total done price s ≡ (
      ok tt,
      with_bids s (write_amounts (share_amounts scaled purchased total bids done) price s.bids),
    )
unfolding give_shares update_bid_distributed_quantities ◌>>=◌
give_shares_lem scaled [] purchased total done price s = refl
give_shares_lem scaled (b ∷ []) purchased total done price s = refl
give_shares_lem scaled (b ∷ b' ∷ bids) purchased total done price s =
    give_shares_lem scaled (b' ∷ bids) purchased total (done +ℤ scaled b.quantity purchased total)
      price
      (with_bids s
        (update bid_key b.id (set_distributed (scaled b.quantity purchased total) price) s.bids))

-- What the row of a bid says that its owner gets, if the bid is there.
abbrev pub amount_in : Option ProductBid → Option ℤ
amount_in none = none
amount_in (some b) = b.distributed_quantity

abbrev pub amount_of : ℕ → List ProductBid → Option ℤ
amount_of i d = amount_in (get bid_key i d)

-- The id is not among those that get an amount.
abbrev pub IsUntouched : ℕ → List (ℕ × ℤ) → Type 0
IsUntouched i [] = Unit
IsUntouched i ((j, _) ∷ rest) = (j ≢ i) × IsUntouched i rest

abbrev pub IsDistinct : List (ℕ × ℤ) → Type 0
IsDistinct [] = Unit
IsDistinct ((i, _) ∷ rest) = IsUntouched i rest × IsDistinct rest

abbrev pub AllFound : List (ℕ × ℤ) → List ProductBid → Type 0
AllFound [] d = Unit
AllFound ((i, _) ∷ rest) d = (get bid_key i d ≢ none) × AllFound rest d

-- Each listed amount stands in the row of its bid.
abbrev pub AllGiven : List (ℕ × ℤ) → List ProductBid → Type 0
AllGiven [] d = Unit
AllGiven ((i, a) ∷ rest) d = (amount_of i d ≡ some a) × AllGiven rest d

module _ (price : Option ℤ) where
  key-set_distributed : (a : ℤ) (b : ProductBid) → bid_key (set_distributed a price b) ≡ bid_key b
  key-set_distributed a b = refl

  get-set_distributed :
      (i j : ℕ) (a : ℤ) (d : List ProductBid)
      → get bid_key j (update bid_key i (set_distributed a price) d) ≡ (
          if i == j
          then Option.map (set_distributed a price) (get bid_key j d)
          else get bid_key j d)
  get-set_distributed i j a d =
      get-update bid_key (set_distributed a price) (key-set_distributed a) i j d

  pub get-write_amounts :
      (j : ℕ) (l : List (ℕ × ℤ)) (d : List ProductBid)
      → IsUntouched j l
      → get bid_key j (write_amounts l price d) ≡ get bid_key j d
  get-write_amounts j [] d h = refl
  get-write_amounts j ((i, a) ∷ l) d h =
      get-write_amounts j l (update bid_key i (set_distributed a price) d) h.1
      ∙ ground (arith, get-set_distributed i j a d, h.0)

  AllFound-update :
      (i : ℕ) (a : ℤ) (l : List (ℕ × ℤ)) (d : List ProductBid)
      → AllFound l d
      → AllFound l (update bid_key i (set_distributed a price) d)
  AllFound-update i a [] d h = tt
  AllFound-update i a ((j, b) ∷ l) d h =
      (ground (arith, get-set_distributed i j a d, h.0), AllFound-update i a l d h.1)

  pub AllGiven-write_amounts :
      (l : List (ℕ × ℤ)) (d : List ProductBid)
      → IsDistinct l
      → AllFound l d
      → AllGiven l (write_amounts l price d)
  AllGiven-write_amounts [] d u f = tt
  AllGiven-write_amounts ((i, a) ∷ l) d u f = (
    ap amount_in (get-write_amounts i l (update bid_key i (set_distributed a price) d) u.0)
        ∙ ground (arith, get-set_distributed i i a d, ==_refl i, f.0),
    AllGiven-write_amounts l (update bid_key i (set_distributed a price) d) u.1
        (AllFound-update i a l d f.1),
  )

abbrev pub sum_amounts : List (ℕ × ℤ) → ℤ
sum_amounts [] = pos 0
sum_amounts ((_, a) ∷ l) = a +ℤ sum_amounts l

regroup : (a b c : ℤ) → a +ℤ b +ℤ c ≡ b +ℤ (c +ℤ a)
regroup a b c = omega int_laws

-- The shares add up to what was purchased, however they are rounded.
pub sum-share_amounts :
    (scaled : ℤ → ℤ → ℤ → ℤ) (purchased total : ℤ) (b : ProductBid) (bids : List ProductBid)
    (done : ℤ)
    → sum_amounts (share_amounts scaled purchased total (b ∷ bids) done) +ℤ done ≡ purchased
sum-share_amounts scaled purchased total b [] done = omega int_laws
sum-share_amounts scaled purchased total b (b' ∷ bids) done =
    let share = scaled b.quantity purchased total in
    let rest = sum_amounts (share_amounts scaled purchased total (b' ∷ bids) (done +ℤ share)) in
    regroup share rest done ∙ sum-share_amounts scaled purchased total b' bids (done +ℤ share)

pub sum-full_amounts :
    (bids : List ProductBid) → sum_amounts (full_amounts bids) ≡ total_quantity bids
sum-full_amounts [] = refl
sum-full_amounts (b ∷ bids) = ap (λ t. b.quantity +ℤ t) (sum-full_amounts bids)
