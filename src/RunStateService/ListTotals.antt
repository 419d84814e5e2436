-- ===== src/RunStateService/ListTotals.antt =====
-- `_generate_shopping_list` against the sums that it stands for.
use bulq.Common.{
  ℕ, zero, suc, ◌≡◌, ◌≢◌, refl, sym, ap, ◌∙◌, List, [], ◌∷◌, ◌++◌, arith, ◌==◌, ==_refl, Bool-cases,
  inl, inr, if◌then◌else◌, ◌&&◌,
}
use bulq.Common.Int.{ℤ, pos, ◌+ℤ◌, int_laws}
use bulq.Table.{IsNew, put, put-IsNew}
use bulq.Model.{MemoryStorage, ProductBid, ShoppingListItem}
use bulq.Storage.{◌>>=◌, draw_uuid4, modify}
use bulq.Repo.Bids.{bids_of_run, get_bids_by_run}
use bulq.Repo.Shopping.{item_key, new_item, create_shopping_list_item}
use bulq.RunStateService.ShoppingList.{
  add_quantity, counts, product_quantities, create_items, generate_shopping_list,
}

-- What the entries of a tally hold for a product.
abbrev pub tally_of : ℕ → List (ℕ × ℤ) → ℤ
tally_of p [] = pos 0
tally_of p ((j, q) ∷ d) = if j == p then q +ℤ tally_of p d else tally_of p d

-- What the counted bids on a product ask for: no interest-only bid, and none of 0 or less.
abbrev pub requested : ℕ → List ProductBid → ℤ
requested p [] = pos 0
requested p (b ∷ bids) =
    if counts b && b.product_id == p then b.quantity +ℤ requested p bids else requested p bids

-- What the items of a run's list ask for of a product.
abbrev pub listed : ℕ → ℕ → List ShoppingListItem → ℤ
listed r p [] = pos 0
listed r p (i ∷ items) =
    if i.run_id == r && i.product_id == p
    then i.requested_quantity +ℤ listed r p items
    else listed r p items

swap_last : (a b c : ℤ) → a +ℤ (b +ℤ c) ≡ a +ℤ b +ℤ c
swap_last a b c = omega int_laws

zero_add : (a : ℤ) → pos 0 +ℤ a ≡ a
zero_add a = omega int_laws

add_zero : (a : ℤ) → a +ℤ pos 0 ≡ a
add_zero a = omega int_laws

rotate : (a b c : ℤ) → a +ℤ b +ℤ c ≡ a +ℤ c +ℤ b
rotate a b c = omega int_laws

tally-add_quantity :
    (p j : ℕ) (q : ℤ) (d : List (ℕ × ℤ))
    → tally_of p (add_quantity j q d) ≡ (if j == p then tally_of p d +ℤ q else tally_of p d)
unfolding add_quantity
tally-add_quantity p j q [] = ground (arith, zero_add q, add_zero q, add_zero (pos 0 +ℤ q))
tally-add_quantity p j q ((i, x) ∷ d) =
    ground
      (arith, tally-add_quantity p j q d, rotate x q (tally_of p d), swap_last x (tally_of p d) q)

tally-product_quantities :
    (p : ℕ) (bids : List ProductBid) (d : List (ℕ × ℤ))
    → tally_of p (product_quantities bids d) ≡ tally_of p d +ℤ requested p bids
unfolding product_quantities
tally-product_quantities p [] d = sym (add_zero (tally_of p d))
tally-product_quantities p (b ∷ bids) d = elim (Bool-cases (counts b)) [
  | inl counted ↦ rw counted (
      tally-product_quantities p bids (add_quantity b.product_id b.quantity d)
      ∙ rw (tally-add_quantity p b.product_id b.quantity d)
          (ground (arith, swap_last (tally_of p d) b.quantity (requested p bids))))
  | inr skipped ↦ rw skipped (tally-product_quantities p bids d)
]

listed-append :
    (r p : ℕ) (items : List ShoppingListItem) (i : ShoppingListItem)
    → listed r p (items ++ i ∷ []) ≡ (
        if i.run_id == r && i.product_id == p
        then listed r p items +ℤ i.requested_quantity
        else listed r p items)
listed-append r p [] i =
    ground (arith, add_zero i.requested_quantity, zero_add i.requested_quantity)
listed-append r p (j ∷ items) i = ground (
  arith,
  listed-append r p items i,
  swap_last j.requested_quantity (listed r p items) i.requested_quantity,
)

-- The ids that are still to be drawn are new to the table and differ from one another.
pub record IsFresh (uuid4 : ℕ → ℕ) (items : List ShoppingListItem) : Type 0 where
  pub unused : (n : ℕ) → IsNew item_key (uuid4 n) items
  pub distinct : (m n : ℕ) → uuid4 m ≡ uuid4 n → m ≡ n

IsNew-append :
    (k : ℕ) (items : List ShoppingListItem) (i : ShoppingListItem)
    → IsNew item_key k items
    → i.id ≢ k
    → IsNew item_key k (items ++ i ∷ [])
IsNew-append k [] i h ne = (ne, tt)
IsNew-append k (j ∷ items) i h ne = (h.0, IsNew-append k items i h.1 ne)

IsFresh-append :
    (uuid4 : ℕ → ℕ) (items : List ShoppingListItem) (i : ShoppingListItem)
    → i.id ≡ uuid4 0
    → IsFresh uuid4 items
    → IsFresh (λ n. uuid4 (suc n)) (items ++ i ∷ [])
IsFresh-append uuid4 items i e h = record {
  unused = λ n.
      IsNew-append (uuid4 (suc n)) items i (h.unused (suc n))
        (λ x. let c : zero ≡ suc n = h.distinct zero (suc n) (sym e ∙ x) in omega arith);
  distinct = λ m n x. let c : suc m ≡ suc n = h.distinct (suc m) (suc n) x in omega arith;
}

listed-create_items :
    (r p : ℕ) (d : List (ℕ × ℤ)) (s : MemoryStorage)
    → IsFresh s.uuid4 s.shopping_list_items
    → listed r p (create_items r d s).1.shopping_list_items
      ≡ listed r p s.shopping_list_items +ℤ tally_of p d
unfolding create_items create_shopping_list_item draw_uuid4 modify ◌>>=◌
listed-create_items r p [] s h = sym (add_zero (listed r p s.shopping_list_items))
listed-create_items r p ((j, q) ∷ d) s h =
    let i = new_item (s.uuid4 0) r j q in
    let appended : put item_key i s.shopping_list_items ≡ s.shopping_list_items ++ i ∷ [] =
      put-IsNew item_key i s.shopping_list_items (h.unused 0) in
    let s' = record s {
      shopping_list_items = s.shopping_list_items ++ i ∷ [];
      uuid4 = λ n. s.uuid4 (suc n);
    } in
    let before = listed r p s.shopping_list_items in
    rw appended (
      listed-create_items r p d s' (IsFresh-append s.uuid4 s.shopping_list_items i refl h)
      ∙ rw (listed-append r p s.shopping_list_items i)
          (ground (arith, ==_refl r, swap_last before q (tally_of p d))))

-- Where the ids still to be drawn are new and distinct, the list that is made asks, for each
-- product, for as much more as the run's bids that count ask for in all: those that are not for
-- interest only and are above 0.
pub generate_shopping_list-requested :
    (r p : ℕ) (s : MemoryStorage)
    → IsFresh s.uuid4 s.shopping_list_items
    → listed r p (generate_shopping_list r s).1.shopping_list_items
      ≡ listed r p s.shopping_list_items +ℤ requested p (bids_of_run r s)
unfolding generate_shopping_list get_bids_by_run ◌>>=◌
generate_shopping_list-requested r p s h =
    let d = product_quantities (bids_of_run r s) [] in
    let before = listed r p s.shopping_list_items in
    listed-create_items r p d s h
    ∙ ap (λ t. before +ℤ t)
        (tally-product_quantities p (bids_of_run r s) [] ∙ zero_add (requested p (bids_of_run r s)))
