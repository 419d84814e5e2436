-- ===== src/ShoppingService/Orders.antt =====
-- The order of the purchases of a run, and taking a purchase back.
use bulq.Common.{
  ℕ, ◌+◌, ltb, leb, ◌≡◌, refl, ap, ◌∙◌, Bool, true, none, some, List, [], ◌∷◌, all, find?, arith,
  ◌==◌, ==_refl, if◌then◌else◌,
}
use mathlib.Core.Option
use bulq.Common.Int.{ℤ}
use bulq.Error.{ok}
use bulq.Table.{get, update, get-update}
use bulq.Table.Compose.{update-update, update-id}
use bulq.Model.{MemoryStorage, User, ShoppingListItem}
use bulq.Storage.{Action, pure, gets, modify, or_raise, raise_if, ◌>>=◌, ◌>>◌}
use bulq.Storage.Rules.{Returns}
use bulq.Access.{require_run, require_leader_or_helper, leads_or_helps}
use bulq.Frame.Runs.Shop.{Leaves-mark_purchased}
use bulq.Frame.Participations.Shop as Participations
use bulq.Repo.Runs.{run_key, is_participation, get_run_by_id, get_participation}
use bulq.Repo.Shopping.{item_key, items_of_run, get_shopping_list_item, get_shopping_list_items}
use bulq.Repo.Shopping.Purchases.{purchase, unpurchase, amend_item, mark_item_purchased}
use bulq.Repo.Shopping.Purchases as Purchases
use bulq.ShoppingService.Atomic.{Returns-update_availability}
use bulq.ShoppingService.Methods.{max_order, mark_purchased, unpurchase_item}
use bulq.ShoppingService.Effects.{marked, unpurchased}
use bulq.ShoppingService.Sums.{MayAmend}

-- The item has no place in the order of the purchases, or one below `n`.
abbrev pub is_before : ℕ → ShoppingListItem → Bool
is_before n i = elim i.purchase_order [ none ↦ true | some m ↦ ltb m n ]

is_before-weaken :
    (m n : ℕ) (i : ShoppingListItem) → leb m n ≡ true → is_before m i ≡ true → is_before n i ≡ true
is_before-weaken m n i h k = ground arith

all-before :
    (items : List ShoppingListItem) (n : ℕ)
    → leb (max_order items) n ≡ true
    → all (is_before (n + 1)) items ≡ true
all-before [] n h = refl
all-before (i ∷ items) n h = ground (arith, all-before items n)

then-pure :
    {A B : Type 0} (m : Action A) {b : B}
    → Returns m
    → (s : MemoryStorage) → ((m >> pure b) s).0 ≡ ok b
unfolding pure ◌>>=◌
then-pure m h s = let (v, e) = h.at s in rw e refl

module _ (u : User) (r k : ℕ) (q c t : ℤ) (s : MemoryStorage) where
  -- An item that `mark_purchased` marks comes after all that were bought before on the run: each has
  -- a lower place in the order, or none. The item is written as asked, with this place, and any other
  -- stays as it was.
  pub mark_purchased-order :
      (j : ℕ) {n : ℕ}
      → (mark_purchased (some r) (some k) q c t u s).0 ≡ ok n
      → (all (is_before n) (items_of_run r s) ≡ true)
        × (get item_key j (mark_purchased (some r) (some k) q c t u s).1.shopping_list_items ≡ (
            if k == j
            then Option.map (purchase q c t n) (get item_key j s.shopping_list_items)
            else get item_key j s.shopping_list_items))
  mark_purchased-order j {n} h =
      let (a, next) = marked r k u s q c t h in
      (
        rw next (all-before (items_of_run r s) (max_order (items_of_run r s)) (ground arith)),
        ap (get item_key j) a.amended
            ∙ get-update item_key (purchase q c t n) (λ i. refl) k j s.shopping_list_items,
      )

  mark_returned :
      {x : ShoppingListItem}
      → MayAmend u r k x s
      → (mark_purchased (some r) (some k) q c t u s).0 ≡ ok (max_order (items_of_run r s) + 1)
  unfolding mark_purchased mark_item_purchased amend_item require_run get_run_by_id
      require_leader_or_helper get_participation get_shopping_list_item get_shopping_list_items pure
      gets modify or_raise raise_if ◌>>=◌
  mark_returned may =
      rw (may.is_found, may.helps, may.item_found)
        (then-pure _ (Returns-update_availability _ _ c u.id) _)

unpurchase_returned :
    (u : User) (r k : ℕ) (s : MemoryStorage) {x : ShoppingListItem}
    → MayAmend u r k x s
    → (unpurchase_item (some r) (some k) u s).0 ≡ ok tt
unfolding unpurchase_item Purchases.unpurchase_item amend_item require_run get_run_by_id
    require_leader_or_helper get_participation get_shopping_list_item pure gets modify or_raise
    raise_if ◌>>=◌
unpurchase_returned u r k s may = rw (may.is_found, may.helps, may.item_found, may.item_found) refl

module _ (u : User) (r k : ℕ) (q c t : ℤ) (s : MemoryStorage) {x : ShoppingListItem} where
  -- An item that was not bought, marked as bought by the run's leader or a helper and then taken back
  -- by the same user, is as it was, and so are all shopping lists; both requests succeed.
  pub mark_purchased-unpurchase_item :
      MayAmend u r k x s
      → unpurchase x ≡ x
      → let marked = mark_purchased (some r) (some k) q c t u s in
        let back = unpurchase_item (some r) (some k) u marked.1 in
        (marked.0 ≡ ok (max_order (items_of_run r s) + 1))
        × (back.0 ≡ ok tt)
        × (back.1.shopping_list_items ≡ s.shopping_list_items)
  mark_purchased-unpurchase_item may clean =
      let n = max_order (items_of_run r s) + 1 in
      let e = mark_returned u r k q c t s may in
      let (a, _) = marked r k u s q c t e in
      let f = purchase q c t n in
      let may₁ : MayAmend u r k (f x) (mark_purchased (some r) (some k) q c t u s).1 = record {
        run = may.run;
        is_found =
            ap (get run_key r) ((Leaves-mark_purchased (some r) (some k) q c t u).at s)
            ∙ may.is_found;
        helps =
            ap (λ ps. leads_or_helps (find? (is_participation u.id r) ps))
              ((Participations.Leaves-mark_purchased (some r) (some k) q c t u).at s)
            ∙ may.helps;
        item_found =
            ap (get item_key k) a.amended
            ∙ get-update item_key f (λ i. refl) k k s.shopping_list_items
            ∙ rw (==_refl k, may.item_found) refl;
      } in
      let e₁ = unpurchase_returned u r k _ may₁ in
      let b = unpurchased r k u _ e₁ in
      (
        e,
        e₁,
        b.amended
            ∙ ap (update item_key k unpurchase) a.amended
            ∙ update-update item_key f unpurchase k s.shopping_list_items (λ i. refl)
            ∙ update-id item_key (λ i. unpurchase (f i)) k s.shopping_list_items may.item_found
                clean,
      )
