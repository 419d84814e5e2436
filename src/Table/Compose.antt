-- ===== src/Table/Compose.antt =====
-- One write to a row after another.
use bulq.Common.{ℕ, ◌≡◌, refl, some, List, [], ◌∷◌, arith}
use bulq.Table.{get, update}

module _ {R : Type 0} (key : R → ℕ) where
  pub update-update :
      (f g : R → R) (k : ℕ) (d : List R)
      → ((r : R) → key (f r) ≡ key r)
      → update key k g (update key k f d) ≡ update key k (λ r. g (f r)) d
  update-update f g k [] keeps = refl
  update-update f g k (x ∷ d) keeps = ground (arith, update-update f g k d keeps, keeps x)

  -- What is written depends on the row that is there only.
  pub update-same :
      (f g : R → R) (k : ℕ) (d : List R) {x : R}
      → get key k d ≡ some x
      → f x ≡ g x
      → update key k f d ≡ update key k g d
  update-same f g k [] h e = refl
  update-same f g k (r ∷ d) {x} h e = ground (arith, update-same f g k d {x = x})

  pub update-id :
      (f : R → R) (k : ℕ) (d : List R) {x : R}
      → get key k d ≡ some x
      → f x ≡ x
      → update key k f d ≡ d
  update-id f k [] h e = refl
  update-id f k (r ∷ d) {x} h e = ground (arith, update-id f k d {x = x})
