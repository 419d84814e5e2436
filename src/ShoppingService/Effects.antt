-- ===== src/ShoppingService/Effects.antt =====
-- What the methods that return have done to the shopping lists.
use bulq.Common.{
  ℕ, ◌+◌, ◌≡◌, refl, sym, subst, ◌∙◌, Bool, true, false, Option, none, some, String, List, arith,
}
use bulq.Common.Int.{ℤ, ◌+ℤ◌}
use bulq.Table.{get, update}
use bulq.Error.{Result, ok, err}
use bulq.Model.{MemoryStorage, User, ShoppingListItem}
use bulq.Storage.{Action, pure, gets, modify, or_raise, resume, ◌>>=◌, ◌>>◌}
use bulq.Storage.Rules.{Leaves, Leaves-modify, Reads-raise_if, Reads-or_raise}
use bulq.Access.Reads.{
  Reads-require_run, Reads-require_leader_or_helper, Reads-get_shopping_list_items,
}
use bulq.Access.Outcomes.{bind-on, parse-on, raise_if-ok, or_raise-ok, not-false}
use bulq.Frame.Items.{items_of, items_left}
use bulq.Frame.Runs.Shop.{Reads-get_shopping_list_item, Reads-get_product_availabilities}
use bulq.Repo.Availabilities.{create_product_availability}
use bulq.Repo.Shopping.{item_key, items_of_run, get_shopping_list_item, get_shopping_list_items}
use bulq.Repo.Shopping.Purchases.{
  amount, purchase, purchase_more, unpurchase, amend_item, if_purchased, mark_item_purchased,
}
use bulq.Repo.Shopping.Purchases as Purchases
use bulq.ShoppingService.Prices.{record_price, update_product_availability_if_needed}
use bulq.ShoppingService.Methods.{
  found_item, max_order, weighted_price, mark_purchased, add_more_purchased, unpurchase_item,
}

-- The row of the item was there, and the shopping lists are changed in this row only.
pub record Amends (k : ℕ) (f : ShoppingListItem → ShoppingListItem) (s t : MemoryStorage)
    : Type 0 where
  pub item : ShoppingListItem
  pub is_found : get item_key k s.shopping_list_items ≡ some item
  pub amended : t.shopping_list_items ≡ update item_key k f s.shopping_list_items

Leaves-create_product_availability :
    (p r : ℕ) (c : Option ℤ) (n : String) (m : Option ℕ) (u : ℕ)
    → Leaves items_of (create_product_availability p r c n m u)
unfolding create_product_availability
Leaves-create_product_availability p r c n m u = search (items_left, Leaves-modify) depth 8

Leaves-record_price :
    (b : Bool) (p r : ℕ) (c : ℤ) (u : ℕ) → Leaves items_of (record_price b p r c u)
unfolding record_price
Leaves-record_price true p r c u = search (items_left, Leaves-create_product_availability)
Leaves-record_price false p r c u = search items_left

Leaves-update_availability :
    (p r : ℕ) (c : ℤ) (u : ℕ) → Leaves items_of (update_product_availability_if_needed p r c u)
unfolding update_product_availability_if_needed
Leaves-update_availability p r c u =
    search (items_left, Leaves-record_price, Reads-get_product_availabilities)

-- A write to a row that was found, with the `if not item: raise` after it and a rest that leaves the
-- shopping lists.
amend-Amends :
    {B : Type 0} (k : ℕ) (f : ShoppingListItem → ShoppingListItem) (o : Option ShoppingListItem)
    (g : ShoppingListItem → Action B) (s : MemoryStorage) {b : B}
    → ((x : ShoppingListItem) → Leaves items_of (g x))
    → ((x : ShoppingListItem) → o ≡ some x → get item_key k s.shopping_list_items ≡ some x)
    → ((amend_item k f o >>= λ o'. found_item o' >>= g) s).0 ≡ ok b
    → Amends k f s ((amend_item k f o >>= λ o'. found_item o' >>= g) s).1
      × ((x : ShoppingListItem) × (t : MemoryStorage) × ((g x t).0 ≡ ok b))
unfolding amend_item or_raise pure modify ◌>>=◌
amend-Amends k f none g s left row h = cc
amend-Amends k f (some x) g s left row h =
    (record { item = x; is_found = row x refl; amended = (left (f x)).at _ }, (f x, _, h))

-- What a sequence returns whose last step is `pure`.
pub last-returned :
    {A B : Type 0} (m : Action A) {a b : B} (s : MemoryStorage) → ((m >> pure a) s).0 ≡ ok b → b ≡ a
unfolding pure ◌>>=◌
last-returned {A} m {a} {b} s = go (m s).0 (m s).1
  where
    go : (r : Result A) (t : MemoryStorage) → (resume (λ _. pure a) r t).0 ≡ ok b → b ≡ a
    go (ok v) t h = cc
    go (err e) t h = cc

module _ (r k : ℕ) (u : User) (s : MemoryStorage) where
  read-items :
      {items : List ShoppingListItem}
      → (get_shopping_list_items r s).0 ≡ ok items
      → items ≡ items_of_run r s
  unfolding get_shopping_list_items gets
  read-items h = cc

  mark-Amends :
      {B : Type 0} (q c t : ℤ) (n : ℕ) (g : ShoppingListItem → Action B) {b : B}
      → ((x : ShoppingListItem) → Leaves items_of (g x))
      → ((mark_item_purchased k q c t n >>= λ o. found_item o >>= g) s).0 ≡ ok b
      → Amends k
          (purchase q c t n)
          s
          ((mark_item_purchased k q c t n >>= λ o. found_item o >>= g) s).1
        × ((x : ShoppingListItem) × (t : MemoryStorage) × ((g x t).0 ≡ ok b))
  unfolding mark_item_purchased get_shopping_list_item gets ◌>>=◌
  mark-Amends q c t n g left h =
      amend-Amends k (purchase q c t n) (get item_key k s.shopping_list_items) g s left (λ x e. e) h

  pub marked :
      (q c t : ℤ) {n : ℕ}
      → (mark_purchased (some r) (some k) q c t u s).0 ≡ ok n
      → Amends k (purchase q c t n) s (mark_purchased (some r) (some k) q c t u s).1
        × (n ≡ max_order (items_of_run r s) + 1)
  unfolding mark_purchased
  marked q c t {n} h =
      let (p0, i0) = parse-on r _ s h in
      let (p1, i1) = parse-on k _ s i0 in
      let (run, _, e0, h0) = bind-on _ _ s (Reads-require_run r) i1 in
      let (_, _, e1, h1) = bind-on _ _ s (Reads-require_leader_or_helper r u) h0 in
      let (items, read, e2, h2) = bind-on _ _ s (Reads-get_shopping_list_items r) h1 in
      let (a, (x, t', h3)) =
        mark-Amends q c t (max_order items + 1) _
          (λ x. search (items_left, Leaves-update_availability)) h2 in
      let same_order : n ≡ max_order items + 1 = last-returned _ t' h3 in
      (
        rw same_order (
            subst
              (λ (v : Result ℕ × MemoryStorage).
                Amends k (purchase q c t (max_order items + 1)) s v.1)
              (sym (p0 ∙ p1 ∙ e0 ∙ e1 ∙ e2)) a),
        rw (← read-items read) same_order,
      )

  if_purchased-some :
      (o : Option ShoppingListItem) {x : ShoppingListItem} → if_purchased o ≡ some x → o ≡ some x
  if_purchased-some none h = cc
  if_purchased-some (some i) h = ground arith

  more-Amends :
      {B : Type 0} (q t c : ℤ) (g : ShoppingListItem → Action B) {b : B}
      → ((x : ShoppingListItem) → Leaves items_of (g x))
      → ((Purchases.add_more_purchased k q t c >>= λ o. found_item o >>= g) s).0 ≡ ok b
      → Amends k
          (purchase_more q t c)
          s
          ((Purchases.add_more_purchased k q t c >>= λ o. found_item o >>= g) s).1
  unfolding Purchases.add_more_purchased get_shopping_list_item gets ◌>>=◌
  more-Amends q t c g left h =
      let o = get item_key k s.shopping_list_items in
      (amend-Amends k (purchase_more q t c) (if_purchased o) g s left (λ x. if_purchased-some o)
        h).0

  unpurchase-Amends :
      {B : Type 0} (g : ShoppingListItem → Action B) {b : B}
      → ((x : ShoppingListItem) → Leaves items_of (g x))
      → ((Purchases.unpurchase_item k >>= λ o. found_item o >>= g) s).0 ≡ ok b
      → Amends k unpurchase s ((Purchases.unpurchase_item k >>= λ o. found_item o >>= g) s).1
  unfolding Purchases.unpurchase_item get_shopping_list_item gets ◌>>=◌
  unpurchase-Amends g left h =
      (amend-Amends k unpurchase (get item_key k s.shopping_list_items) g s left (λ x e. e) h).0

  read-item :
      {o : Option ShoppingListItem} {x : ShoppingListItem}
      → (get_shopping_list_item k s).0 ≡ ok o
      → (found_item o s).0 ≡ ok x
      → get item_key k s.shopping_list_items ≡ some x
  unfolding get_shopping_list_item gets
  read-item {o} h h' = let e = or_raise-ok _ o s h' in cc

  pub added :
      (scaled : ℤ → ℤ → ℤ → ℤ) (q c t : ℤ) {v : Unit {0}}
      → (add_more_purchased scaled (some r) (some k) q c t u s).0 ≡ ok v
      → (x : ShoppingListItem) × (get item_key k s.shopping_list_items ≡ some x)
        × (x.is_purchased ≡ true)
        × Amends k
            (purchase_more q t (
              weighted_price scaled
                (amount x.purchased_total +ℤ t)
                (amount x.purchased_quantity +ℤ q)))
            s
            (add_more_purchased scaled (some r) (some k) q c t u s).1
  unfolding add_more_purchased
  added scaled q c t h =
      let (p0, i0) = parse-on r _ s h in
      let (p1, i1) = parse-on k _ s i0 in
      let (run, _, e0, h0) = bind-on _ _ s (Reads-require_run r) i1 in
      let (_, _, e1, h1) = bind-on _ _ s (Reads-require_leader_or_helper r u) h0 in
      let (o, f2, e2, h2) = bind-on _ _ s (Reads-get_shopping_list_item k) h1 in
      let (x, f3, e3, h3) = bind-on _ _ s (Reads-or_raise _ o) h2 in
      let (_, f4, e4, h4) = bind-on _ _ s (Reads-raise_if _ _) h3 in
      (
        x,
        read-item f2 f3,
        not-false x.is_purchased (raise_if-ok _ _ s f4),
        subst
            (λ (v : Result (Unit {0}) × MemoryStorage).
              Amends k
                (purchase_more q t (
                  weighted_price scaled (amount x.purchased_total +ℤ t)
                    (amount x.purchased_quantity +ℤ q)))
                s v.1)
            (sym (p0 ∙ p1 ∙ e0 ∙ e1 ∙ e2 ∙ e3 ∙ e4))
            (more-Amends q t _ _ (λ x. search (items_left, Leaves-update_availability)) h4),
      )

  pub unpurchased :
      {v : Unit {0}}
      → (unpurchase_item (some r) (some k) u s).0 ≡ ok v
      → Amends k unpurchase s (unpurchase_item (some r) (some k) u s).1
  unfolding unpurchase_item
  unpurchased h =
      let (p0, i0) = parse-on r _ s h in
      let (p1, i1) = parse-on k _ s i0 in
      let (run, _, e0, h0) = bind-on _ _ s (Reads-require_run r) i1 in
      let (_, _, e1, h1) = bind-on _ _ s (Reads-require_leader_or_helper r u) h0 in
      let (o, _, e2, h2) = bind-on _ _ s (Reads-get_shopping_list_item k) h1 in
      let (x, _, e3, h3) = bind-on _ _ s (Reads-or_raise _ o) h2 in
      subst (λ (v : Result (Unit {0}) × MemoryStorage). Amends k unpurchase s v.1)
        (sym (p0 ∙ p1 ∙ e0 ∙ e1 ∙ e2 ∙ e3)) (unpurchase-Amends _ (λ x. search items_left) h3)
