-- ===== src/AdminService/Merged.antt =====
-- Merging redirects every reference, changes nothing else of the rows, and deletes the source.
use bulq.Common.{
  ℕ, ◌+◌, ◌≡◌, ◌≢◌, refl, sym, subst, ◌∙◌, none, List, [], ◌∷◌, map, length, keep, ◌==◌, ==_iff,
  arith, Bool-cases, inl, inr, if◌then◌else◌,
}
use bulq.Error.{Error, Result, ok}
use bulq.Table.{get, IsKeyed}
use bulq.Table.Find.{get-delete}
use bulq.Model.{MemoryStorage, Run, ProductBid, ShoppingListItem, ProductAvailability}
use bulq.Storage.{pure, gets, modify, raise_if, ◌>>=◌, ◌>>◌}
use bulq.Repo.Merging.{
  product_key, store_key, count_refs, redirect, bid_product, item_product, availability_product,
  availability_store, run_store, set_bid_product, set_item_product, set_availability_product,
  set_availability_store, set_run_store, bulk_update_product_bids,
  bulk_update_product_availabilities, bulk_update_shopping_list_items, bulk_update_runs,
  bulk_update_store_availabilities,
}
use bulq.Repo.Merging as Merging
use bulq.Storage.Rules.{Reads-raise_if}
use bulq.Access.Reads.{Reads-get_product_by_id, Reads-get_store_by_id}
use bulq.Access.Outcomes.{bind-on, raise_if-ok}
use bulq.AdminService.{merge_products, merge_stores}

-- The id that stands for the same row after the merge.
abbrev pub merged_id : (source target i : ℕ) → ℕ
merged_id source target i = if i == source then target else i

redirect-map :
    {R : Type 0} (ref : R → ℕ) (set : ℕ → R → R) (old new : ℕ) (f : R → R)
    → ((r : R) → (if ref r == old then set new r else r) ≡ f r)
    → (rows : List R) → redirect ref set old new rows ≡ map f rows
redirect-map ref set old new f same [] = refl
redirect-map ref set old new f same (r ∷ rows) =
    rw (same r, redirect-map ref set old new f same rows) refl

count_refs-length :
    {R : Type 0} (ref : R → ℕ) (i : ℕ) (rows : List R)
    → count_refs ref i rows ≡ length (keep (λ r. ref r == i) rows)
count_refs-length ref i [] = refl
count_refs-length ref i (r ∷ rows) = ground (arith, count_refs-length ref i rows)

distinct_ids :
    (a b : ℕ) (e : Error) (s : MemoryStorage) {v : Unit {0}}
    → (raise_if (a == b) e s).0 ≡ ok v
    → a ≢ b
distinct_ids a b e s h same =
    let f = raise_if-ok (a == b) e s h in let t = (==_iff a b).1 same in cc

ok_inj : {A : Type 0} {a b : A} → ok a ≡ ok b → b ≡ a
ok_inj h = cc

module _ (source target : ℕ) where
  -- The rows that refer to products, with the one product for the other.
  abbrev pub bid_merged : ProductBid → ProductBid
  bid_merged b = record b { product_id = merged_id source target b.product_id }

  abbrev pub item_merged : ShoppingListItem → ShoppingListItem
  item_merged i = record i { product_id = merged_id source target i.product_id }

  abbrev pub price_merged : ProductAvailability → ProductAvailability
  price_merged a = record a { product_id = merged_id source target a.product_id }

  -- The rows that refer to stores, likewise.
  abbrev pub run_merged : Run → Run
  run_merged r = record r { store_id = merged_id source target r.store_id }

  abbrev pub store_price_merged : ProductAvailability → ProductAvailability
  store_price_merged a = record a { store_id = merged_id source target a.store_id }

  bid_set :
      (b : ProductBid)
      → (if b.product_id == source then set_bid_product target b else b) ≡ bid_merged b
  bid_set b = elim (Bool-cases (b.product_id == source)) [
    | inl same ↦ rw same refl
    | inr other ↦ rw other refl
  ]

  item_set :
      (i : ShoppingListItem)
      → (if i.product_id == source then set_item_product target i else i) ≡ item_merged i
  item_set i = elim (Bool-cases (i.product_id == source)) [
    | inl same ↦ rw same refl
    | inr other ↦ rw other refl
  ]

  price_set :
      (a : ProductAvailability)
      → (if a.product_id == source then set_availability_product target a else a) ≡ price_merged a
  price_set a = elim (Bool-cases (a.product_id == source)) [
    | inl same ↦ rw same refl
    | inr other ↦ rw other refl
  ]

  run_set : (r : Run) → (if r.store_id == source then set_run_store target r else r) ≡ run_merged r
  run_set r = elim (Bool-cases (r.store_id == source)) [
    | inl same ↦ rw same refl
    | inr other ↦ rw other refl
  ]

  store_price_set :
      (a : ProductAvailability)
      → (if a.store_id == source then set_availability_store target a else a) ≡ store_price_merged a
  store_price_set a = elim (Bool-cases (a.store_id == source)) [
    | inl same ↦ rw same refl
    | inr other ↦ rw other refl
  ]

-- The storage `t` is `s` after `n` references to the product `source` were made ones to `target`, and
-- the product deleted.
pub record AreMergedProducts (source target j n : ℕ) (s t : MemoryStorage) : Type 0 where
  pub are_distinct : source ≢ target
  pub bids : t.bids ≡ map (bid_merged source target) s.bids
  pub items : t.shopping_list_items ≡ map (item_merged source target) s.shopping_list_items
  pub prices : t.product_availabilities ≡ map (price_merged source target) s.product_availabilities
  pub product :
      get product_key j t.products ≡ (if source == j then none else get product_key j s.products)
  pub runs : t.runs ≡ s.runs
  pub count :
      n
      ≡ length (keep (λ (b : ProductBid). b.product_id == source) s.bids)
        + length
            (keep (λ (a : ProductAvailability). a.product_id == source) s.product_availabilities)
        + length (keep (λ (i : ShoppingListItem). i.product_id == source) s.shopping_list_items)

-- Likewise with stores, to which runs and prices refer.
pub record AreMergedStores (source target j n : ℕ) (s t : MemoryStorage) : Type 0 where
  pub are_distinct : source ≢ target
  pub runs : t.runs ≡ map (run_merged source target) s.runs
  pub prices :
      t.product_availabilities ≡ map (store_price_merged source target) s.product_availabilities
  pub store : get store_key j t.stores ≡ (if source == j then none else get store_key j s.stores)
  pub bids : t.bids ≡ s.bids
  pub items : t.shopping_list_items ≡ s.shopping_list_items
  pub count :
      n
      ≡ length (keep (λ (r : Run). r.store_id == source) s.runs)
        + length (keep (λ (a : ProductAvailability). a.store_id == source) s.product_availabilities)

module _ (source target : ℕ) (s : MemoryStorage) (j : ℕ) where
  products_written :
      {n : ℕ}
      → source ≢ target
      → IsKeyed product_key s.products
      → let m =
          (bulk_update_product_bids source target >>= λ b.
          bulk_update_product_availabilities source target >>= λ a.
          bulk_update_shopping_list_items source target >>= λ i.
          Merging.delete_product source >> pure (b + a + i))
            s in
        m.0 ≡ ok n → AreMergedProducts source target j n s m.1
  unfolding bulk_update_product_bids bulk_update_product_availabilities
      bulk_update_shopping_list_items Merging.delete_product pure gets modify ◌>>=◌
  products_written ne keyed h = record {
    are_distinct = ne;
    bids = redirect-map bid_product set_bid_product source target _ (bid_set source target) s.bids;
    items =
        redirect-map item_product set_item_product source target _ (item_set source target)
          s.shopping_list_items;
    prices =
        redirect-map availability_product set_availability_product source target _
          (price_set source target) s.product_availabilities;
    product = get-delete product_key source j s.products keyed;
    runs = refl;
    count =
        ok_inj h
        ∙ rw
            (
              count_refs-length bid_product source s.bids,
              count_refs-length availability_product source s.product_availabilities,
              count_refs-length item_product source s.shopping_list_items,
            )
            refl;
  }

  stores_written :
      {n : ℕ}
      → source ≢ target
      → IsKeyed store_key s.stores
      → let m =
          (bulk_update_runs source target >>= λ r.
          bulk_update_store_availabilities source target >>= λ a.
          Merging.delete_store source >> pure (r + a))
            s in
        m.0 ≡ ok n → AreMergedStores source target j n s m.1
  unfolding bulk_update_runs bulk_update_store_availabilities Merging.delete_store pure gets modify
      ◌>>=◌
  stores_written ne keyed h = record {
    are_distinct = ne;
    runs = redirect-map run_store set_run_store source target _ (run_set source target) s.runs;
    prices =
        redirect-map availability_store set_availability_store source target _
          (store_price_set source target) s.product_availabilities;
    store = get-delete store_key source j s.stores keyed;
    bids = refl;
    items = refl;
    count =
        ok_inj h
        ∙ rw
            (
              count_refs-length run_store source s.runs,
              count_refs-length availability_store source s.product_availabilities,
            )
            refl;
  }

  -- Where the products have ids of their own and `merge_products` returns: source and target are not
  -- the same; the bids, the shopping lists and the prices are as they were, but that what was of the
  -- source is of the target; the source is no product any more, and the other products and the runs
  -- are as they were. What is returned is how many rows were of the source.
  pub merge_products-AreMergedProducts :
      {n : ℕ}
      → IsKeyed product_key s.products
      → (merge_products source target s).0 ≡ ok n
      → AreMergedProducts source target j n s (merge_products source target s).1
  unfolding merge_products
  merge_products-AreMergedProducts {n} keyed h =
      let (_, _, e0, h0) = bind-on _ _ s (Reads-get_product_by_id source) h in
      let (_, _, e1, h1) = bind-on _ _ s (Reads-get_product_by_id target) h0 in
      let (_, _, e2, h2) = bind-on _ _ s (Reads-raise_if _ _) h1 in
      let (_, _, e3, h3) = bind-on _ _ s (Reads-raise_if _ _) h2 in
      let (_, other, e4, h4) = bind-on _ _ s (Reads-raise_if _ _) h3 in
      subst (λ (v : Result ℕ × MemoryStorage). AreMergedProducts source target j n s v.1)
        (sym (e0 ∙ e1 ∙ e2 ∙ e3 ∙ e4))
        (products_written (distinct_ids source target _ s other) keyed h4)

  -- Where the stores have ids of their own and `merge_stores` returns: source and target are not the
  -- same; the runs and the prices are as they were, but that what was of the source is of the target;
  -- the source is no store any more, and the other stores, the bids and the shopping lists are as
  -- they were. What is returned is how many rows were of the source.
  pub merge_stores-AreMergedStores :
      {n : ℕ}
      → IsKeyed store_key s.stores
      → (merge_stores source target s).0 ≡ ok n
      → AreMergedStores source target j n s (merge_stores source target s).1
  unfolding merge_stores
  merge_stores-AreMergedStores {n} keyed h =
      let (_, _, e0, h0) = bind-on _ _ s (Reads-get_store_by_id source) h in
      let (_, _, e1, h1) = bind-on _ _ s (Reads-get_store_by_id target) h0 in
      let (_, _, e2, h2) = bind-on _ _ s (Reads-raise_if _ _) h1 in
      let (_, _, e3, h3) = bind-on _ _ s (Reads-raise_if _ _) h2 in
      let (_, other, e4, h4) = bind-on _ _ s (Reads-raise_if _ _) h3 in
      subst (λ (v : Result ℕ × MemoryStorage). AreMergedStores source target j n s v.1)
        (sym (e0 ∙ e1 ∙ e2 ∙ e3 ∙ e4))
        (stores_written (distinct_ids source target _ s other) keyed h4)
