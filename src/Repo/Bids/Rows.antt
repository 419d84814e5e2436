-- ===== src/Repo/Bids/Rows.antt =====
-- The table of bids of memory/bid.py: its form, which every write to it keeps, and what a search
-- finds after the write.
use bulq.Common.{
  ℕ, ◌≡◌, refl, sym, subst, ◌∙◌, Bool, true, Option, none, some, List, [], ◌∷◌, ◌++◌, arith, find?,
  if◌then◌else◌, ◌==◌, String, ◌&&◌, Option-cases, Bool-cases, inl, inr,
}
use bulq.Common.Int.{ℤ}
use bulq.Table.{update, delete, put, IsNew, IsKeyed, put-IsNew, IsKeyed-put, IsKeyed-update}
use bulq.Table.Find.{
  get-find, IsNew-find, test-find, find-update, find-update-none, find-update_other,
  find-delete_other, find-delete-none, IsKeyed-delete, find-snoc,
}
use bulq.Model.{ProductBid}
use bulq.Repo.Bids.{bid_key, is_bid, rebid}

-- the search of `get_bid`
abbrev pub bid_for : ℕ → ℕ → List ProductBid → Option ProductBid
bid_for p i d = find? (is_bid p i) d

-- No two rows stand for the same participation and product.
abbrev pub AreUnique : List ProductBid → Type 0
AreUnique [] = Unit
AreUnique (b ∷ d) = (bid_for b.participation_id b.product_id d ≡ none) × AreUnique d

-- The table is well-formed: one row for an id, and one for a participation and product.
abbrev pub IsSound : List ProductBid → Type 0
IsSound d = IsKeyed bid_key d × AreUnique d

module _ (q : ℤ) (b : Bool) (c : Option String) where
  AreUnique-update :
      (k : ℕ) (d : List ProductBid) → AreUnique d → AreUnique (update bid_key k (rebid q b c) d)
  AreUnique-update k [] h = tt
  AreUnique-update k (x ∷ d) h = ground (
    arith,
    AreUnique-update k d h.1,
    find-update-none bid_key (rebid q b c) (is_bid x.participation_id x.product_id) k d (λ r. refl)
        h.0,
  )

  pub IsSound-update :
      (k : ℕ) (d : List ProductBid) → IsSound d → IsSound (update bid_key k (rebid q b c) d)
  IsSound-update k d h =
      (IsKeyed-update bid_key (rebid q b c) (λ r. refl) k d h.0, AreUnique-update k d h.1)

AreUnique-delete : (k : ℕ) (d : List ProductBid) → AreUnique d → AreUnique (delete bid_key k d)
AreUnique-delete k [] h = tt
AreUnique-delete k (x ∷ d) h = ground (
  arith,
  AreUnique-delete k d h.1,
  find-delete-none bid_key (is_bid x.participation_id x.product_id) k d h.0,
)

pub IsSound-delete : (k : ℕ) (d : List ProductBid) → IsSound d → IsSound (delete bid_key k d)
IsSound-delete k d h = (IsKeyed-delete bid_key k d h.0, AreUnique-delete k d h.1)

is_bid_same :
    (p i p' i' : ℕ) (b : ProductBid) → is_bid p i b ≡ true → is_bid p' i' b ≡ (p == p' && i == i')
is_bid_same p i p' i' b h = ground arith

AreUnique-snoc :
    (r : ProductBid) (d : List ProductBid)
    → bid_for r.participation_id r.product_id d ≡ none
    → AreUnique d
    → AreUnique (d ++ r ∷ [])
AreUnique-snoc r [] n h = (refl, tt)
AreUnique-snoc r (x ∷ d) n h =
    ground (arith, AreUnique-snoc r d, h, find-snoc (is_bid x.participation_id x.product_id) r d)

pub IsSound-put :
    (r : ProductBid) (d : List ProductBid)
    → IsNew bid_key r.id d
    → bid_for r.participation_id r.product_id d ≡ none
    → IsSound d
    → IsSound (put bid_key r d)
IsSound-put r d new n h = (
  IsKeyed-put bid_key r d h.0,
  subst AreUnique (sym (put-IsNew bid_key r d new)) (AreUnique-snoc r d n h.1),
)

unique_at :
    (p i : ℕ) (x : ProductBid) (d : List ProductBid)
    → bid_for x.participation_id x.product_id d ≡ none
    → is_bid p i x ≡ true
    → bid_for p i d ≡ none
unique_at p i x d n h =
    let same_participation : x.participation_id ≡ p = ground arith in
    let same_product : x.product_id ≡ i = ground arith in
    rw (← same_participation, ← same_product) n

-- A row that a search for its pair finds is the only one for the pair.
delete_gone :
    (p i : ℕ) (d : List ProductBid) {e : ProductBid}
    → IsSound d
    → bid_for p i d ≡ some e
    → bid_for p i (delete bid_key e.id d) ≡ none
delete_gone p i [] h f = cc
delete_gone p i (x ∷ d) {e} h f = ground (
  arith,
  delete_gone p i d {e = e} (h.0.1, h.1.1),
  h,
  IsNew-find bid_key (is_bid p i) x.id d {e = e} h.0.0,
  unique_at p i x d h.1.0,
)

same_pair : (p i p' i' : ℕ) → (p == p' && i == i') ≡ true → (p ≡ p') × (i ≡ i')
same_pair p i p' i' h = ground arith

pub lookup-put :
    (r : ProductBid) (p' i' : ℕ) (d : List ProductBid)
    → IsNew bid_key r.id d
    → bid_for r.participation_id r.product_id d ≡ none
    → bid_for p' i' (put bid_key r d)
      ≡ (if r.participation_id == p' && r.product_id == i' then some r else bid_for p' i' d)
lookup-put r p' i' d new n =
    rw (put-IsNew bid_key r d new, find-snoc (is_bid p' i') r d)
      (elim (Bool-cases (r.participation_id == p' && r.product_id == i')) [
        | inl same ↦
            let (e, e') = same_pair r.participation_id r.product_id p' i' same in
            let none_there : bid_for p' i' d ≡ none = rw (← e, ← e') n in rw (none_there, same) refl
        | inr other ↦ elim (Option-cases (bid_for p' i' d)) [
          | inl f ↦ rw (f, other) refl
          | inr (x, f) ↦ rw (f, other) refl
        ]
      ])

module _ (p i p' i' : ℕ) (d : List ProductBid) {e : ProductBid} where
  pub lookup-update :
      (q : ℤ) (b : Bool) (c : Option String)
      → IsSound d
      → bid_for p i d ≡ some e
      → bid_for p' i' (update bid_key e.id (rebid q b c) d)
        ≡ (if p == p' && i == i' then some (rebid q b c e) else bid_for p' i' d)
  lookup-update q b c h f = elim (Bool-cases (p == p' && i == i')) [
    | inl same ↦
        let (x, x') = same_pair p i p' i' same in
        rw same (
          find-update bid_key (rebid q b c) (is_bid p' i') d {e = e} (λ r. refl) h.0
            (rw (← x, ← x') f))
    | inr other ↦
        let off = is_bid_same p i p' i' e (test-find bid_key (is_bid p i) d f) ∙ other in
        rw other (
          find-update_other bid_key (rebid q b c) (is_bid p' i') e.id d {e = e}
            (get-find bid_key (is_bid p i) d h.0 f) off off)
  ]

  pub lookup-delete :
      IsSound d
      → bid_for p i d ≡ some e
      → bid_for p' i' (delete bid_key e.id d)
        ≡ (if p == p' && i == i' then none else bid_for p' i' d)
  lookup-delete h f = elim (Bool-cases (p == p' && i == i')) [
    | inl same ↦
        let (x, x') = same_pair p i p' i' same in
        rw same (delete_gone p' i' d {e = e} h (rw (← x, ← x') f))
    | inr other ↦
        let off = is_bid_same p i p' i' e (test-find bid_key (is_bid p i) d f) ∙ other in
        rw other (
          find-delete_other bid_key (is_bid p' i') e.id d {e = e}
            (get-find bid_key (is_bid p i) d h.0 f) off)
  ]

pub lookup-absent :
    (p i p' i' : ℕ) (d : List ProductBid)
    → bid_for p i d ≡ none
    → bid_for p' i' d ≡ (if p == p' && i == i' then none else bid_for p' i' d)
lookup-absent p i p' i' d n = elim (Bool-cases (p == p' && i == i')) [
  | inl same ↦ let (x, x') = same_pair p i p' i' same in rw same (rw (← x, ← x') n)
  | inr other ↦ rw other refl
]

pub asked_at :
    (p i : ℕ) (e : ProductBid) → is_bid p i e ≡ true → (e.participation_id ≡ p) × (e.product_id ≡ i)
asked_at p i e h = ground arith
