-- ===== src/Repo/Bids/Lookup.antt =====
-- The bids as a map from a participation and a product: what `get_bid` finds after the writing
-- methods of memory/bid.py, and the form of the table that they keep.
use bulq.Common.{ℕ, ◌≡◌, refl, Bool, Option, none, some, if◌then◌else◌, ◌==◌, String, ◌&&◌, is_some}
use bulq.Common.Int.{ℤ}
use bulq.Error.{Result, ok}
use bulq.Table.{IsNew}
use bulq.Table.Find.{test-find}
use bulq.Model.{MemoryStorage, ProductBid}
use bulq.Storage.{◌>>=◌, modify, pure, gets, draw_uuid4}
use bulq.Repo.Bids.{
  bid_key, is_bid, get_bid, new_product_bid, rebid, write_bid, create_or_update_bid, delete_bid,
  delete_found,
}
use bulq.Repo.Bids.Rows.{
  bid_for, IsSound, IsSound-update, IsSound-delete, IsSound-put, lookup-put, lookup-absent,
  lookup-update, lookup-delete, asked_at,
}

-- A row as the arguments of `create_or_update_bid` have it.
abbrev pub IsAsked : ℕ → ℕ → ℤ → Bool → Option String → ProductBid → Type 0
IsAsked p i q b c r =
    (r.participation_id ≡ p)
    × (r.product_id ≡ i)
    × (r.quantity ≡ q)
    × (r.interested_only ≡ b)
    × (r.comment ≡ c)

module _ (p i : ℕ) (q : ℤ) (b : Bool) (c : Option String) (s : MemoryStorage) where
  -- The outcome of a write with this result: the table is as it was but for the row.
  abbrev pub IsWritten : Result ProductBid × MemoryStorage → Type 0
  IsWritten (r, t) =
      (row : ProductBid) × (r ≡ ok row)
      × IsAsked p i q b c row
      × IsSound t.bids
      × ((p' i' : ℕ)
          → bid_for p' i' t.bids ≡ (if p == p' && i == i' then some row else bid_for p' i' s.bids))

  written :
      (o : Option ProductBid)
      → IsSound s.bids
      → IsNew bid_key (s.uuid4 0) s.bids
      → bid_for p i s.bids ≡ o
      → IsWritten (write_bid p i q b c o s)
  unfolding write_bid ◌>>=◌ modify pure draw_uuid4
  written none sound new f = (
    new_product_bid (s.uuid4 0) p i q b c,
    refl,
    (refl, refl, refl, refl, refl),
    IsSound-put (new_product_bid (s.uuid4 0) p i q b c) s.bids new f sound,
    λ p' i'. lookup-put (new_product_bid (s.uuid4 0) p i q b c) p' i' s.bids new f,
  )
  written (some e) sound new f =
      let at_pair = asked_at p i e (test-find bid_key (is_bid p i) s.bids f) in
      (
        rebid q b c e,
        refl,
        (at_pair.0, at_pair.1, refl, refl, refl),
        IsSound-update q b c e.id s.bids sound,
        λ p' i'. lookup-update p i p' i' s.bids {e = e} q b c sound f,
      )

  -- `create_or_update_bid` on a well-formed table, with a new id at hand, returns the row as asked,
  -- keeps the table well-formed, and afterwards `get_bid` finds this row for this participation and
  -- product, and for any others what it found before.
  pub create_or_update_bid-get_bid :
      IsSound s.bids
      → IsNew bid_key (s.uuid4 0) s.bids
      → IsWritten (create_or_update_bid p i q b c s)
  unfolding create_or_update_bid get_bid gets ◌>>=◌
  create_or_update_bid-get_bid sound new = written (bid_for p i s.bids) sound new refl

module _ (p i : ℕ) (s : MemoryStorage) where
  -- The outcome of a removal: the table is as it was but for the row of this pair.
  abbrev pub IsDeleted : Result Bool × MemoryStorage → Type 0
  IsDeleted (r, t) =
      (r ≡ ok (is_some (bid_for p i s.bids)))
      × IsSound t.bids
      × ((p' i' : ℕ)
          → bid_for p' i' t.bids ≡ (if p == p' && i == i' then none else bid_for p' i' s.bids))

  deleted :
      (o : Option ProductBid)
      → IsSound s.bids
      → bid_for p i s.bids ≡ o
      → IsDeleted (delete_found o s)
  unfolding delete_found ◌>>=◌ modify pure
  deleted none sound f = (rw f refl, sound, λ p' i'. lookup-absent p i p' i' s.bids f)
  deleted (some e) sound f = (
    rw f refl,
    IsSound-delete e.id s.bids sound,
    λ p' i'. lookup-delete p i p' i' s.bids {e = e} sound f,
  )

  -- `delete_bid` on a well-formed table returns whether `get_bid` would find a row, keeps the table
  -- well-formed, and afterwards `get_bid` finds none for this participation and product, and for any
  -- others what it found before.
  pub delete_bid-get_bid : IsSound s.bids → IsDeleted (delete_bid p i s)
  unfolding delete_bid get_bid gets ◌>>=◌
  delete_bid-get_bid sound = deleted (bid_for p i s.bids) sound refl
