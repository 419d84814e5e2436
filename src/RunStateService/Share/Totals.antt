-- ===== src/RunStateService/Share/Totals.antt =====
-- The sharing out of one item, stated on the rows of the storage.
use bulq.Common.{ℕ, ◌≡◌, ◌≢◌, refl, ap, ◌∙◌, true, false, Option, none, some, List, [], ◌∷◌, arith}
use bulq.Common.Int.{ℤ, pos, ◌+ℤ◌, ltb_ℤ, int_laws}
use bulq.Table.{get, IsNew, IsKeyed}
use bulq.Model.{MemoryStorage, ProductBid, ShoppingListItem}
use bulq.Storage.{◌>>=◌}
use bulq.Repo.Bids.{bid_key}
use bulq.Repo.Shopping.{update_shopping_list_item_requested_quantity}
use bulq.RunStateService.Share.{total_quantity, share_out}
use bulq.RunStateService.Share.Amounts.{
  full_amounts, share_amounts, write_amounts, give_full_lem, give_shares_lem, amount_of,
  IsUntouched, IsDistinct, AllFound, AllGiven, AllGiven-write_amounts, sum_amounts,
  sum-share_amounts,
}

-- What the rows of these bids say that their owners get, in all.
abbrev pub or_zero_amount : Option ℤ → ℤ
or_zero_amount none = pos 0
or_zero_amount (some q) = q

abbrev pub given_to : List ProductBid → List ProductBid → ℤ
given_to [] d = pos 0
given_to (b ∷ bids) d = or_zero_amount (amount_of b.id d) +ℤ given_to bids d

-- Every one of these bids has its row.
abbrev pub AreIn : List ProductBid → List ProductBid → Type 0
AreIn [] d = Unit
AreIn (b ∷ bids) d = (get bid_key b.id d ≢ none) × AreIn bids d

-- Every one of these bids has got its whole quantity.
abbrev pub HaveFull : List ProductBid → List ProductBid → Type 0
HaveFull [] d = Unit
HaveFull (b ∷ bids) d = (amount_of b.id d ≡ some b.quantity) × HaveFull bids d

IsUntouched-full :
    (i : ℕ) (bids : List ProductBid) → IsNew bid_key i bids → IsUntouched i (full_amounts bids)
IsUntouched-full i [] h = tt
IsUntouched-full i (b ∷ bids) h = (h.0, IsUntouched-full i bids h.1)

IsDistinct-full : (bids : List ProductBid) → IsKeyed bid_key bids → IsDistinct (full_amounts bids)
IsDistinct-full [] h = tt
IsDistinct-full (b ∷ bids) h = (IsUntouched-full b.id bids h.0, IsDistinct-full bids h.1)

AllFound-full : (bids d : List ProductBid) → AreIn bids d → AllFound (full_amounts bids) d
AllFound-full [] d h = tt
AllFound-full (b ∷ bids) d h = (h.0, AllFound-full bids d h.1)

HaveFull-AllGiven : (bids d : List ProductBid) → AllGiven (full_amounts bids) d → HaveFull bids d
HaveFull-AllGiven [] d h = tt
HaveFull-AllGiven (b ∷ bids) d h = (h.0, HaveFull-AllGiven bids d h.1)

module _ (scaled : ℤ → ℤ → ℤ → ℤ) (purchased total : ℤ) where
  IsUntouched-share :
      (i : ℕ) (bids : List ProductBid) (done : ℤ)
      → IsNew bid_key i bids
      → IsUntouched i (share_amounts scaled purchased total bids done)
  IsUntouched-share i [] done h = tt
  IsUntouched-share i (b ∷ []) done h = (h.0, tt)
  IsUntouched-share i (b ∷ b' ∷ bids) done h =
      (h.0, IsUntouched-share i (b' ∷ bids) (done +ℤ scaled b.quantity purchased total) h.1)

  IsDistinct-share :
      (bids : List ProductBid) (done : ℤ)
      → IsKeyed bid_key bids
      → IsDistinct (share_amounts scaled purchased total bids done)
  IsDistinct-share [] done h = tt
  IsDistinct-share (b ∷ []) done h = (tt, tt)
  IsDistinct-share (b ∷ b' ∷ bids) done h =
      let done' = done +ℤ scaled b.quantity purchased total in
      (IsUntouched-share b.id (b' ∷ bids) done' h.0, IsDistinct-share (b' ∷ bids) done' h.1)

  AllFound-share :
      (bids : List ProductBid) (done : ℤ) (d : List ProductBid)
      → AreIn bids d
      → AllFound (share_amounts scaled purchased total bids done) d
  AllFound-share [] done d h = tt
  AllFound-share (b ∷ []) done d h = (h.0, tt)
  AllFound-share (b ∷ b' ∷ bids) done d h =
      (h.0, AllFound-share (b' ∷ bids) (done +ℤ scaled b.quantity purchased total) d h.1)

  given-share :
      (bids : List ProductBid) (done : ℤ) (d : List ProductBid)
      → AllGiven (share_amounts scaled purchased total bids done) d
      → given_to bids d ≡ sum_amounts (share_amounts scaled purchased total bids done)
  given-share [] done d h = refl
  given-share (b ∷ []) done d h = ap (λ o. or_zero_amount o +ℤ pos 0) h.0
  given-share (b ∷ b' ∷ bids) done d h =
      let share = scaled b.quantity purchased total in
      let ih = given-share (b' ∷ bids) (done +ℤ share) d h.1 in
      ap (λ o. or_zero_amount o +ℤ given_to (b' ∷ bids) d) h.0 ∙ ap (λ t. share +ℤ t) ih

ltb_ℤ-irrefl : (a : ℤ) → ltb_ℤ a a ≡ false
ltb_ℤ-irrefl a = ground arith

add_zero : (a : ℤ) → a ≡ a +ℤ pos 0
add_zero a = omega int_laws

module _ (scaled : ℤ → ℤ → ℤ → ℤ) (run_id : ℕ) (item : ShoppingListItem) (purchased : ℤ)
    (s : MemoryStorage) where
  -- Where less was bought of an item than its bids ask for, and the bids have distinct ids and rows
  -- of their own, what the owners of the bids get adds up to what was bought, however the shares are
  -- rounded.
  pub share_out_shortage :
      (b : ProductBid) (bids : List ProductBid)
      → IsKeyed bid_key (b ∷ bids)
      → AreIn (b ∷ bids) s.bids
      → ltb_ℤ purchased (total_quantity (b ∷ bids)) ≡ true
      → given_to (b ∷ bids) (share_out scaled run_id item purchased (b ∷ bids) s).1.bids ≡ purchased
  unfolding share_out update_shopping_list_item_requested_quantity ◌>>=◌
  share_out_shortage b bids keyed found short =
      let total = total_quantity (b ∷ bids) in
      let l = share_amounts scaled purchased total (b ∷ bids) (pos 0) in
      let price = item.purchased_price_per_unit in
      rw (short, give_shares_lem scaled (b ∷ bids) purchased total (pos 0) price)
        (given-share scaled purchased total (b ∷ bids) (pos 0) (write_amounts l price s.bids) (
            AllGiven-write_amounts price l s.bids
              (IsDistinct-share scaled purchased total (b ∷ bids) (pos 0) keyed)
              (AllFound-share scaled purchased total (b ∷ bids) (pos 0) s.bids found))
          ∙ add_zero (sum_amounts l)
          ∙ sum-share_amounts scaled purchased total b bids (pos 0))

  -- Where exactly what the bids on an item ask for was bought, and the bids have distinct ids and
  -- rows of their own, each owner gets the whole bid.
  pub share_out_exact :
      (bids : List ProductBid)
      → IsKeyed bid_key bids
      → AreIn bids s.bids
      → purchased ≡ total_quantity bids
      → HaveFull bids (share_out scaled run_id item purchased bids s).1.bids
  unfolding share_out update_shopping_list_item_requested_quantity ◌>>=◌
  share_out_exact bids keyed found exact =
      let total = total_quantity bids in
      let price = item.purchased_price_per_unit in
      let not_short : ltb_ℤ purchased total ≡ false = rw exact (ltb_ℤ-irrefl total) in
      let no_surplus : ltb_ℤ total purchased ≡ false = rw exact (ltb_ℤ-irrefl total) in
      rw (not_short, give_full_lem bids price, no_surplus)
        (HaveFull-AllGiven bids (write_amounts (full_amounts bids) price s.bids) (
          AllGiven-write_amounts price (full_amounts bids) s.bids (IsDistinct-full bids keyed)
            (AllFound-full bids s.bids found)))
