-- ===== src/BidService/Adjusting/Ranges.antt =====
-- Which quantities `_validate_adjusting_bid` lets through.
use bulq.Common.{
  Bool-cases, subst, ◌≡◌, ◌≢◌, refl, true, false, ◌↔◌, ◌⊎◌, inl, inr, some, arith, if◌then◌else◌,
}
use bulq.Common.Int.{ℤ, pos, ◌+ℤ◌, ◌-ℤ◌, ◌≤ℤ◌, ltb_ℤ, max0, abs, -ℤ_parts, +ℤ_parts, eq_of_parts}
use bulq.Error.{ok}
use bulq.Model.{ProductBid, ShoppingListItem}
use bulq.BidService.Adjusting.{or_zero, difference, check_adjustment, check_shortage, check_surplus}

-- With `d` purchased less requested: nothing is asked where the two are equal; otherwise the
-- quantity lies between the bid and the bid moved by `d`.
abbrev pub IsTowards : (d current quantity : ℤ) → Type 0
IsTowards d current quantity =
    (d ≡ pos 0)
    ⊎ ((ltb_ℤ d (pos 0) ≡ true) × (current +ℤ d ≤ℤ quantity) × (quantity ≤ℤ current))
    ⊎ ((ltb_ℤ (pos 0) d ≡ true) × (current ≤ℤ quantity) × (quantity ≤ℤ current +ℤ d))

check_shortage_iff :
    (d current quantity : ℤ)
    → ltb_ℤ d (pos 0) ≡ true
    → pos 0 ≤ℤ quantity
    → (check_shortage current (abs d) quantity ≡ ok tt)
      ↔ ((current +ℤ d ≤ℤ quantity) × (quantity ≤ℤ current))
unfolding max0 abs
check_shortage_iff d current quantity short h =
    ground (arith, +ℤ_parts current d, -ℤ_parts current (abs d))

check_surplus_iff :
    (d current quantity : ℤ)
    → (check_surplus current d quantity ≡ ok tt)
      ↔ ((current ≤ℤ quantity) × (quantity ≤ℤ current +ℤ d))
check_surplus_iff d current quantity = ground (arith, +ℤ_parts current d)

not_both : (d : ℤ) → ltb_ℤ d (pos 0) ≡ true → ltb_ℤ (pos 0) d ≡ false
not_both d h = ground arith

pub no_difference : (d : ℤ) → ltb_ℤ d (pos 0) ≡ false → ltb_ℤ (pos 0) d ≡ false → d ≡ pos 0
no_difference d h k = ground arith

check_iff :
    (d current quantity : ℤ)
    → pos 0 ≤ℤ quantity
    → ((if ltb_ℤ d (pos 0)
          then check_shortage current (abs d) quantity
          else if ltb_ℤ (pos 0) d
          then check_surplus current d quantity
          else ok tt)
        ≡ ok tt)
      ↔ IsTowards d current quantity
check_iff d current quantity h = elim (Bool-cases (ltb_ℤ d (pos 0))) [
  | inl short ↦
      let e = check_shortage_iff d current quantity short h in
      let fewer = not_both d short in
      rw (short, fewer)
        (
          λ p. let r = e.0 p in inr (inl (refl, r.0, r.1)),
          λ t. elim t [
            | inl x ↦ ground (arith, x)
            | inr (inl x) ↦ e.1 (x.1, x.2)
            | inr (inr x) ↦ cc
          ],
        )
  | inr long ↦ elim (Bool-cases (ltb_ℤ (pos 0) d)) [
    | inl more ↦
        let e = check_surplus_iff d current quantity in
        rw (long, more)
          (
            λ p. let r = e.0 p in inr (inr (refl, r.0, r.1)),
            λ t. elim t [
              | inl x ↦ ground (arith, x)
              | inr (inl x) ↦ cc
              | inr (inr x) ↦ e.1 (x.1, x.2)
            ],
          )
    | inr same ↦ rw (long, same) (λ p. inl (no_difference d long same), λ t. refl)
  ]
]

-- Nothing is asked where what was purchased is what was requested; with a shortage the quantity may
-- go down from the bid by no more than the shortage, and with a surplus up by no more than the surplus.
abbrev pub IsAdjusted : (purchased requested current quantity : ℤ) → Type 0
IsAdjusted purchased requested current quantity =
    (purchased ≡ requested)
    ⊎ ((ltb_ℤ purchased requested ≡ true)
        × (quantity ≤ℤ current)
        × (current +ℤ purchased ≤ℤ quantity +ℤ requested))
    ⊎ ((ltb_ℤ requested purchased ≡ true)
        × (current ≤ℤ quantity)
        × (quantity +ℤ requested ≤ℤ current +ℤ purchased))

IsTowards-IsAdjusted : (p r c q : ℤ) → IsTowards (p -ℤ r) c q ↔ IsAdjusted p r c q
IsTowards-IsAdjusted p r c q =
    ground (arith, -ℤ_parts p r, +ℤ_parts c (p -ℤ r), +ℤ_parts c p, +ℤ_parts q r, eq_of_parts p r)

-- A quantity of 0 or more for a listed item is let through exactly when as much was purchased as
-- requested, or less was purchased and the quantity is below the bid by no more than the shortage, or
-- more was purchased and the quantity is above the bid by no more than the surplus.
pub check_adjustment_iff :
    (item : ShoppingListItem) (quantity : ℤ) (bid : ProductBid)
    → pos 0 ≤ℤ quantity
    → (check_adjustment (some item) quantity bid ≡ ok tt)
      ↔ IsAdjusted (or_zero item.purchased_quantity) item.requested_quantity bid.quantity quantity
unfolding check_adjustment
check_adjustment_iff item quantity bid h =
    let towards = check_iff (difference item) bid.quantity quantity h in
    let adjusted =
      IsTowards-IsAdjusted (or_zero item.purchased_quantity) item.requested_quantity bid.quantity
        quantity in
    (λ p. adjusted.0 (towards.0 p), λ a. towards.1 (adjusted.1 a))

-- The total with the new quantity lies between what was purchased and the total before.
abbrev pub IsBetween : (purchased total total' : ℤ) → Type 0
IsBetween purchased total total' =
    ((purchased ≤ℤ total') × (total' ≤ℤ total)) ⊎ ((total ≤ℤ total') × (total' ≤ℤ purchased))

towards_total : (p t c q : ℤ) → p ≢ t → IsTowards (p -ℤ t) c q → IsBetween p t (t -ℤ c +ℤ q)
towards_total p t c q ne (inl same) = absurd (ne (ground (arith, eq_of_parts p t, -ℤ_parts p t)))
towards_total p t c q ne (inr (inl (short, low, high))) = inl (
  ground (arith, -ℤ_parts p t, +ℤ_parts c (p -ℤ t), -ℤ_parts t c, +ℤ_parts (t -ℤ c) q),
  ground (arith, -ℤ_parts p t, +ℤ_parts c (p -ℤ t), -ℤ_parts t c, +ℤ_parts (t -ℤ c) q),
)
towards_total p t c q ne (inr (inr (more, low, high))) = inr (
  ground (arith, -ℤ_parts p t, +ℤ_parts c (p -ℤ t), -ℤ_parts t c, +ℤ_parts (t -ℤ c) q),
  ground (arith, -ℤ_parts p t, +ℤ_parts c (p -ℤ t), -ℤ_parts t c, +ℤ_parts (t -ℤ c) q),
)

-- Where the item's requested quantity is what the bids ask for in all, and not what was purchased, a
-- change to a quantity of 0 or more that is let through leaves the total with the new quantity
-- between what was purchased and the total before.
pub adjustment_converges :
    (item : ShoppingListItem) (quantity : ℤ) (bid : ProductBid) (total : ℤ)
    → pos 0 ≤ℤ quantity
    → item.requested_quantity ≡ total
    → or_zero item.purchased_quantity ≢ total
    → check_adjustment (some item) quantity bid ≡ ok tt
    → IsBetween (or_zero item.purchased_quantity) total (total -ℤ bid.quantity +ℤ quantity)
unfolding check_adjustment
adjustment_converges item quantity bid total h e ne p =
    towards_total (or_zero item.purchased_quantity) total bid.quantity quantity ne (
      subst (λ t. IsTowards (or_zero item.purchased_quantity -ℤ t) bid.quantity quantity) e
        ((check_iff (difference item) bid.quantity quantity h).0 p))
