-- ===== src/Repo/Directory.antt =====
-- memory/user.py, memory/store.py, memory/product.py: the look-ups of groups, stores and products.
use bulq.Common.{
  ℕ, Option, none, some, List, [], ◌∷◌, contains, find?, ◌==◌, if◌then◌else◌, ◌&&◌, String, is_some,
}
use bulq.Table.{get}
use bulq.Model.{User, Group, Store, Run}
use bulq.Storage.{Action, gets, ◌>>=◌, pure}

abbrev pub group_key : Group → ℕ
group_key g = g.id

-- The loop of `get_user_groups` over `group_memberships.items()`; the rest of it fills in
-- relationships that are not modelled.
abbrev pub groups_of : ℕ → List Group → List (ℕ × List ℕ) → List ℕ
groups_of user_id groups [] = []
groups_of user_id groups ((group_id, member_ids) ∷ rest) =
    if contains user_id member_ids && is_some (get group_key group_id groups)
    then group_id ∷ groups_of user_id groups rest
    else groups_of user_id groups rest

-- `get_user_groups` reads the user's id only.
unfoldable pub get_groups_of : ℕ → Action (List ℕ)
get_groups_of user_id = gets (λ s. groups_of user_id s.groups s.group_memberships)

unfoldable pub get_user_groups : User → Action (List ℕ)
get_user_groups user = gets (λ s. groups_of user.id s.groups s.group_memberships)

-- The source sorts the stores by name; the services only search them by their ids, which belong to one
-- store each, so that the order does not matter.
unfoldable pub get_all_stores : Action (List Store)
get_all_stores = gets (λ s. s.stores)

unfoldable pub get_product_by_id : ℕ → Action (Option ℕ)
get_product_by_id product_id = gets (λ s. find? (λ p. p == product_id) s.products)

unfoldable pub get_user_by_id : ℕ → Action (Option ℕ)
get_user_by_id user_id = gets (λ s. find? (λ u. u == user_id) s.users)

abbrev pub name_or_unknown : Option Store → String
name_or_unknown none = "Unknown Store"
name_or_unknown (some store) = store.name

-- `next((s for s in all_stores if s.id == run.store_id), None)`, and the name of what it finds
abbrev pub store_name_in : List Store → Run → String
store_name_in all_stores run =
    name_or_unknown (find? (λ (s : Store). s.id == run.store_id) all_stores)

unfoldable pub get_store_by_id : ℕ → Action (Option Store)
get_store_by_id store_id = gets (λ s. find? (λ (x : Store). x.id == store_id) s.stores)

-- `_get_store_name` of reassignment_service.py
unfoldable pub get_store_name : ℕ → Action String
get_store_name store_id = do store ← get_store_by_id store_id; pure (name_or_unknown store)
