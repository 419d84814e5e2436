-- ===== src/Table/Find.antt =====
-- A search of the rows of a table by a test, as `get_participation` and `get_bid` make it, after
-- writes to the table.
use bulq.Common.{
  ℕ, ◌≡◌, ◌≢◌, refl, Bool, true, false, none, some, List, [], ◌∷◌, ◌++◌, arith, find?, ◌==◌,
  if◌then◌else◌,
}
use bulq.Table.{get, update, delete, IsNew, IsNew-get, IsKeyed}

module _ {R : Type 0} (key : R → ℕ) where
  pub IsNew-find :
      (P : R → Bool) (k : ℕ) (d : List R) {e : R} → IsNew key k d → find? P d ≡ some e → key e ≢ k
  IsNew-find P k [] h p = cc
  IsNew-find P k (x ∷ d) {e} h p = ground (arith, IsNew-find P k d {e = e} h.1)

  -- The row that a search finds is the row under its id.
  pub get-find :
      (P : R → Bool) (d : List R) {e : R}
      → IsKeyed key d
      → find? P d ≡ some e
      → get key (key e) d ≡ some e
  get-find P [] h p = cc
  get-find P (x ∷ d) {e} h p =
      ground (arith, get-find P d {e = e} h.1, IsNew-find P (key x) d {e = e} h.0)

  pub test-find : (P : R → Bool) (d : List R) {e : R} → find? P d ≡ some e → P e ≡ true
  test-find P [] p = cc
  test-find P (x ∷ d) {e} p = ground (arith, test-find P d {e = e})

  module _ (f : R → R) where
    pub find-update :
        (P : R → Bool) (d : List R) {e : R}
        → ((r : R) → P (f r) ≡ P r)
        → IsKeyed key d
        → find? P d ≡ some e
        → find? P (update key (key e) f d) ≡ some (f e)
    find-update P [] same h p = cc
    find-update P (x ∷ d) {e} same h p =
        ground (arith, find-update P d {e = e} same h.1, IsNew-find P (key x) d {e = e} h.0, same x)

    pub find-update-none :
        (P : R → Bool) (k : ℕ) (d : List R)
        → ((r : R) → P (f r) ≡ P r)
        → find? P d ≡ none
        → find? P (update key k f d) ≡ none
    find-update-none P k [] same p = refl
    find-update-none P k (x ∷ d) same p = ground (arith, find-update-none P k d same, same x)

    pub find-update_other :
        (P : R → Bool) (k : ℕ) (d : List R) {e : R}
        → get key k d ≡ some e
        → P e ≡ false
        → P (f e) ≡ false
        → find? P (update key k f d) ≡ find? P d
    find-update_other P k [] g n n' = refl
    find-update_other P k (x ∷ d) {e} g n n' = ground (arith, find-update_other P k d {e = e})

  pub find-delete_other :
      (P : R → Bool) (k : ℕ) (d : List R) {e : R}
      → get key k d ≡ some e
      → P e ≡ false
      → find? P (delete key k d) ≡ find? P d
  find-delete_other P k [] g n = refl
  find-delete_other P k (x ∷ d) {e} g n = ground (arith, find-delete_other P k d {e = e})

  pub find-delete-none :
      (P : R → Bool) (k : ℕ) (d : List R) → find? P d ≡ none → find? P (delete key k d) ≡ none
  find-delete-none P k [] n = refl
  find-delete-none P k (x ∷ d) n = ground (arith, find-delete-none P k d)

  -- What `delete` leaves of a table whose rows have ids of their own.
  pub get-delete :
      (k j : ℕ) (d : List R)
      → IsKeyed key d
      → get key j (delete key k d) ≡ (if k == j then none else get key j d)
  get-delete k j [] h = ground arith
  get-delete k j (x ∷ d) h = ground (arith, get-delete k j d h.1, IsNew-get key j d, h)

  pub IsNew-delete : (k j : ℕ) (d : List R) → IsNew key j d → IsNew key j (delete key k d)
  IsNew-delete k j [] h = tt
  IsNew-delete k j (x ∷ d) h = ground (arith, IsNew-delete k j d h.1)

  pub IsKeyed-delete : (k : ℕ) (d : List R) → IsKeyed key d → IsKeyed key (delete key k d)
  IsKeyed-delete k [] h = tt
  IsKeyed-delete k (x ∷ d) h = ground (arith, IsKeyed-delete k d h.1, IsNew-delete k (key x) d h.0)

pub find-snoc :
    {R : Type 0} (P : R → Bool) (r : R) (d : List R)
    → find? P (d ++ r ∷ [])
      ≡ elim (find? P d) [ none ↦ if P r then some r else none | some e ↦ some e ]
find-snoc P r [] = refl
find-snoc P r (x ∷ d) = ground (arith, find-snoc P r d)
