-- ===== src/ShoppingService/Atomic.antt =====
-- The methods that change the shopping list change nothing when they raise.
use bulq.Common.{ℕ, ◌≡◌, refl, ◌⊎◌, inl, inr, Bool, true, false, Option, none, some, String}
use bulq.Common.Int.{ℤ}
use bulq.Table.{get}
use bulq.Error.{Error, ok}
use bulq.Model.{MemoryStorage, User, ShoppingListItem}
use bulq.Storage.{Action, IdText, pure, gets, modify, or_raise, resume, ◌>>=◌}
use bulq.Storage.Rules.{Returns, IsAtomic, atomic_rules, returns_rules}
use bulq.Access.Reads.{access_reads}
use bulq.Frame.Runs.Shop.{Reads-get_shopping_list_item, Reads-leader_or_helper}
use bulq.Repo.Availabilities.{create_product_availability, get_product_availabilities}
use bulq.Repo.Shopping.{item_key, get_shopping_list_item}
use bulq.Repo.Shopping.Purchases.{
  amend_item, mark_item_purchased, update_item_purchase, if_purchased,
}
use bulq.Repo.Shopping.Purchases as Purchases
use bulq.RunStateService.Writes.{Returns-create_or_update_bid, Returns-create_shopping_list_item}
use bulq.ShoppingService.Prices.{record_price, update_product_availability_if_needed}
use bulq.ShoppingService.Methods.{
  add_product_to_shopping_list, add_availability_price, mark_purchased, add_more_purchased,
  update_purchase, unpurchase_item,
}

-- The action returns, and has changed nothing when it returns none.
pub record Offers {A : Type 0} (m : Action (Option A)) : Type 0 where
  pub at :
      (s : MemoryStorage)
      → (((m s).0 ≡ ok none) × ((m s).1 ≡ s)) ⊎ ((a : A) × ((m s).0 ≡ ok (some a)))

-- Then an `if not …: raise` after it raises in the storage as it was.
IsAtomic-offered :
    {A B : Type 0} (m : Action (Option A)) (e : Error) (f : A → Action B)
    → Offers m
    → ((a : A) → Returns (f a))
    → IsAtomic (m >>= λ o. or_raise e o >>= f)
unfolding ◌>>=◌ or_raise
IsAtomic-offered m e f h k = record {
  at = λ s x p. elim (h.at s) [
    | inl (q, same) ↦ rw q same
    | inr (a, q) ↦
        let (b, r) = (k a).at (m s).1 in
        absurd (
          let returned : resume (λ o. or_raise e o >>= f) (ok (some a)) (m s).1 ≡ f a (m s).1 =
            refl in
          cc)
  ];
}

Offers-amend_item :
    (i : ℕ) (f : ShoppingListItem → ShoppingListItem) (o : Option ShoppingListItem)
    → Offers (amend_item i f o)
unfolding amend_item pure modify ◌>>=◌
Offers-amend_item i f none = record { at = λ s. inl (refl, refl) }
Offers-amend_item i f (some x) = record { at = λ s. inr (f x, refl) }

module _ (i : ℕ) (q c t : ℤ) where
  Offers-mark_item_purchased : (n : ℕ) → Offers (mark_item_purchased i q c t n)
  unfolding mark_item_purchased get_shopping_list_item gets ◌>>=◌
  Offers-mark_item_purchased n = record {
    at = λ s. (Offers-amend_item i _ (get item_key i s.shopping_list_items)).at s;
  }

  Offers-add_more_purchased : Offers (Purchases.add_more_purchased i q c t)
  unfolding Purchases.add_more_purchased get_shopping_list_item gets ◌>>=◌
  Offers-add_more_purchased = record {
    at = λ s. (Offers-amend_item i _ (if_purchased (get item_key i s.shopping_list_items))).at s;
  }

  Offers-update_item_purchase : Offers (update_item_purchase i q c t)
  unfolding update_item_purchase get_shopping_list_item gets ◌>>=◌
  Offers-update_item_purchase = record {
    at = λ s. (Offers-amend_item i _ (if_purchased (get item_key i s.shopping_list_items))).at s;
  }

Offers-unpurchase_item : (i : ℕ) → Offers (Purchases.unpurchase_item i)
unfolding Purchases.unpurchase_item get_shopping_list_item gets ◌>>=◌
Offers-unpurchase_item i = record {
  at = λ s. (Offers-amend_item i _ (get item_key i s.shopping_list_items)).at s;
}

Returns-create_product_availability :
    (p r : ℕ) (c : Option ℤ) (n : String) (m : Option ℕ) (u : ℕ)
    → Returns (create_product_availability p r c n m u)
unfolding create_product_availability
Returns-create_product_availability p r c n m u = search (returns_rules) depth 8

Returns-record_price : (b : Bool) (p r : ℕ) (c : ℤ) (u : ℕ) → Returns (record_price b p r c u)
unfolding record_price
Returns-record_price true p r c u = search (returns_rules, Returns-create_product_availability)
Returns-record_price false p r c u = search returns_rules

pub Returns-update_availability :
    (p r : ℕ) (c : ℤ) (u : ℕ) → Returns (update_product_availability_if_needed p r c u)
unfolding update_product_availability_if_needed get_product_availabilities
Returns-update_availability p r c u = search (returns_rules, Returns-record_price)

ruleset purchase_rules = (
  atomic_rules, access_reads, Reads-get_shopping_list_item, Reads-leader_or_helper,
  IsAtomic-offered, Offers-mark_item_purchased, Offers-add_more_purchased,
  Offers-update_item_purchase, Offers-unpurchase_item, Returns-update_availability,
  Returns-create_product_availability, Returns-create_or_update_bid,
  Returns-create_shopping_list_item,
)

pub IsAtomic-add_product :
    (i k : IdText) (q : ℤ) (u : User) → IsAtomic (add_product_to_shopping_list i k q u)
unfolding add_product_to_shopping_list
IsAtomic-add_product i k q u = search purchase_rules depth 16

pub IsAtomic-add_availability_price :
    (i k : IdText) (c : ℤ) (n : String) (m : Option ℕ) (u : User)
    → IsAtomic (add_availability_price i k c n m u)
unfolding add_availability_price
IsAtomic-add_availability_price i k c n m u = search purchase_rules depth 16

pub IsAtomic-mark_purchased :
    (i k : IdText) (q c t : ℤ) (u : User) → IsAtomic (mark_purchased i k q c t u)
unfolding mark_purchased
IsAtomic-mark_purchased i k q c t u = search purchase_rules depth 16

pub IsAtomic-add_more_purchased :
    (scaled : ℤ → ℤ → ℤ → ℤ) (i k : IdText) (q c t : ℤ) (u : User)
    → IsAtomic (add_more_purchased scaled i k q c t u)
unfolding add_more_purchased
IsAtomic-add_more_purchased scaled i k q c t u = search purchase_rules depth 16

pub IsAtomic-update_purchase :
    (i k : IdText) (q c t : ℤ) (u : User) → IsAtomic (update_purchase i k q c t u)
unfolding update_purchase
IsAtomic-update_purchase i k q c t u = search purchase_rules depth 16

pub IsAtomic-unpurchase_item : (i k : IdText) (u : User) → IsAtomic (unpurchase_item i k u)
unfolding unpurchase_item
IsAtomic-unpurchase_item i k u = search purchase_rules depth 16
