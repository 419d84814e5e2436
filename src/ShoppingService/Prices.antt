-- ===== src/ShoppingService/Prices.antt =====
-- The prices that a purchase adds to those seen today.
use bulq.Common.{
  ℕ, Bool, true, false, not, none, some, List, [], ◌∷◌, any, ◌==◌, ◌||◌, if◌then◌else◌,
}
use Prim.Native.Nat.{◌/◌}
use bulq.Common.Int.{ℤ, eqb_ℤ}
use bulq.Model.{ProductAvailability}
use bulq.Storage.{Action, pure, gets, ◌>>=◌, ◌>>◌}
use bulq.Repo.Availabilities.{get_product_availabilities, create_product_availability}

-- `created_at.date()`, on microseconds
abbrev pub date : ℕ → ℕ
date t = t / 86400000000

-- the prices among these that were seen on the day
abbrev pub prices_of_day : ℕ → List ProductAvailability → List ℤ
prices_of_day today [] = []
prices_of_day today (a ∷ availabilities) = elim a.price [
  | none ↦ prices_of_day today availabilities
  | some price ↦
      if date a.created_at == today
      then price ∷ prices_of_day today availabilities
      else prices_of_day today availabilities
]

abbrev pub is_empty : List ℤ → Bool
is_empty [] = true
is_empty (_ ∷ _) = false

-- `not today_prices or price not in today_prices`
abbrev pub is_new_price : ℤ → List ℤ → Bool
is_new_price price today_prices = is_empty today_prices || not (any (eqb_ℤ price) today_prices)

-- the writing under this test
unfoldable pub record_price : Bool → ℕ → ℕ → ℤ → ℕ → Action (Unit {0})
record_price true product_id store_id price user_id = do
  create_product_availability product_id store_id (some price) "Purchased during shopping" none
      user_id
  pure tt
record_price false product_id store_id price user_id = pure tt

-- Nothing of it raises here; in the source, what the database raises is logged and dropped.
unfoldable pub update_product_availability_if_needed : ℕ → ℕ → ℤ → ℕ → Action (Unit {0})
update_product_availability_if_needed product_id store_id price user_id = do
  availabilities ← get_product_availabilities product_id store_id
  today ← gets (λ s. date s.now)
  record_price (is_new_price price (prices_of_day today availabilities)) product_id store_id price
      user_id
