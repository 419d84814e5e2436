-- ===== src/GroupService/Lists.antt =====
-- Lists of members after one joins or goes.
use bulq.Common.{
  ℕ, ◌≡◌, refl, true, false, not, List, [], ◌∷◌, ◌++◌, ◌==◌, ◌&&◌, ◌||◌, contains, arith,
}
use bulq.Repo.Groups.{remove_first}
use bulq.GroupService.Roles.{are_distinct}

pub contains-append :
    (a v : ℕ) (xs : List ℕ) → contains a (xs ++ v ∷ []) ≡ (contains a xs || a == v)
contains-append a v [] = ground arith
contains-append a v (x ∷ xs) = ground (arith, contains-append a v xs)

pub distinct-append :
    (v : ℕ) (xs : List ℕ)
    → are_distinct xs ≡ true
    → contains v xs ≡ false
    → are_distinct (xs ++ v ∷ []) ≡ true
distinct-append v [] d n = refl
distinct-append v (x ∷ xs) d n = ground (arith, distinct-append v xs, contains-append x v xs)

pub contains-remove_first :
    (a v : ℕ) (xs : List ℕ)
    → are_distinct xs ≡ true
    → contains a (remove_first v xs) ≡ (contains a xs && not (v == a))
contains-remove_first a v [] d = refl
contains-remove_first a v (x ∷ xs) d = ground (arith, contains-remove_first a v xs)

pub distinct-remove_first :
    (v : ℕ) (xs : List ℕ) → are_distinct xs ≡ true → are_distinct (remove_first v xs) ≡ true
distinct-remove_first v [] d = refl
distinct-remove_first v (x ∷ xs) d =
    ground (arith, distinct-remove_first v xs, contains-remove_first x v xs)
