-- ===== src/ShoppingService/Sums.antt =====
-- What is bought of an item in two goes adds up.
use bulq.Common.{ℕ, ◌≡◌, true, some}
use mathlib.Core.Option
use bulq.Common.Int.{ℤ, ◌+ℤ◌}
use bulq.Table.{get}
use bulq.Model.{MemoryStorage, User, Run, ShoppingListItem}
use bulq.Access.{leads_or_helps}
use bulq.Access.Outcomes.{participation_in}
use bulq.Frame.Participations.Shop as Participations
use bulq.Repo.Runs.{run_key}
use bulq.Repo.Shopping.{item_key}
use bulq.Repo.Shopping.Purchases.{amount, purchase_more}
use bulq.Repo.Shopping.Purchases as Purchases
use bulq.ShoppingService.Methods.{weighted_price}

-- The user may change the item: the run is there, the user leads it or helps, the item is there.
pub record MayAmend (u : User) (r k : ℕ) (x : ShoppingListItem) (s : MemoryStorage) : Type 0 where
  pub run : Run
  pub is_found : get run_key r s.runs ≡ some run
  pub helps : leads_or_helps (participation_in u r s) ≡ true
  pub item_found : get item_key k s.shopping_list_items ≡ some x

module _ (scaled : ℤ → ℤ → ℤ → ℤ) (u : User) (r k : ℕ) where
  -- What is written for an item that is `x` before.
  abbrev more : ℤ → ℤ → ShoppingListItem → ShoppingListItem → ShoppingListItem
  more q t x =
      purchase_more q t
        (weighted_price scaled (amount x.purchased_total +ℤ t) (amount x.purchased_quantity +ℤ q))
