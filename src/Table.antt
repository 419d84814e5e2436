-- ===== src/Table.antt =====
-- A dict from id to row, as the list of its rows in insertion order. A row knows its own id, which
-- `key` reads. A row is an object: what assigns to a field of the row found under an id is `update`.
pub mod Find
pub mod Compose
use bulq.Common.{
  ℕ, ◌≡◌, ◌≢◌, refl, Bool, true, false, not, Option, none, some, List, [], ◌∷◌, ◌++◌, arith, ◌==◌,
  if◌then◌else◌, All, keep,
}
use mathlib.Core.Option

module _ {R : Type 0} (key : R → ℕ) where
  -- `d.get(k)`
  abbrev pub get : ℕ → List R → Option R
  get k [] = none
  get k (r ∷ d) = if key r == k then some r else get k d

  -- `row = d.get(k); if row: row.field = …`
  abbrev pub update : ℕ → (R → R) → List R → List R
  update k f [] = []
  update k f (r ∷ d) = if key r == k then f r ∷ d else r ∷ update k f d

  -- `d[r.id] = r`
  abbrev pub put : R → List R → List R
  put r [] = r ∷ []
  put r (x ∷ d) = if key x == key r then r ∷ d else x ∷ put r d

  -- `del d[k]`
  abbrev pub delete : ℕ → List R → List R
  delete k [] = []
  delete k (r ∷ d) = if key r == k then d else r ∷ delete k d

  -- No row has the id `k`.
  abbrev pub IsNew : ℕ → List R → Type 0
  IsNew k [] = Unit
  IsNew k (r ∷ d) = (key r ≢ k) × IsNew k d

  -- Every id belongs to one row.
  abbrev pub IsKeyed : List R → Type 0
  IsKeyed [] = Unit
  IsKeyed (r ∷ d) = IsNew (key r) d × IsKeyed d

  pub key-get : (k : ℕ) (d : List R) {r : R} → get k d ≡ some r → key r ≡ k
  key-get k [] h = cc
  key-get k (x ∷ d) {r} h = ground (arith, key-get k d {r = r})

  pub IsNew-get : (k : ℕ) (d : List R) → IsNew k d → get k d ≡ none
  IsNew-get k [] h = refl
  IsNew-get k (x ∷ d) h = ground (arith, IsNew-get k d h.1)

  pub put-IsNew : (r : R) (d : List R) → IsNew (key r) d → put r d ≡ d ++ r ∷ []
  put-IsNew r [] h = refl
  put-IsNew r (x ∷ d) h = ground (arith, put-IsNew r d h.1)

  pub get-put :
      (r : R) (j : ℕ) (d : List R) → get j (put r d) ≡ (if key r == j then some r else get j d)
  get-put r j [] = refl
  get-put r j (x ∷ d) = ground (arith, get-put r j d)

  pub IsNew-put : (r : R) (j : ℕ) (d : List R) → key r ≢ j → IsNew j d → IsNew j (put r d)
  IsNew-put r j [] ne h = (ne, tt)
  IsNew-put r j (x ∷ d) ne h = ground (arith, IsNew-put r j d ne h.1)

  pub IsKeyed-put : (r : R) (d : List R) → IsKeyed d → IsKeyed (put r d)
  IsKeyed-put r [] h = (tt, tt)
  IsKeyed-put r (x ∷ d) h = ground (arith, IsKeyed-put r d h.1, IsNew-put r (key x) d)

  module _ (f : R → R) (keeps : (r : R) → key (f r) ≡ key r) where
    pub get-update :
        (k j : ℕ) (d : List R)
        → get j (update k f d) ≡ (if k == j then Option.map f (get j d) else get j d)
    get-update k j [] = ground arith
    get-update k j (x ∷ d) = ground (arith, get-update k j d, keeps x)

    pub IsNew-update : (k j : ℕ) (d : List R) → IsNew j d → IsNew j (update k f d)
    IsNew-update k j [] h = tt
    IsNew-update k j (x ∷ d) h = ground (arith, IsNew-update k j d h.1, keeps x)

    pub IsKeyed-update : (k : ℕ) (d : List R) → IsKeyed d → IsKeyed (update k f d)
    IsKeyed-update k [] h = tt
    IsKeyed-update k (x ∷ d) h =
        ground (arith, IsKeyed-update k d h.1, IsNew-update k (key x) d, keeps x)
