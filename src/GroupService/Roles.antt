-- ===== src/GroupService/Roles.antt =====
-- Groups as their clients see them: who is a member of which group, and as what. The lists of members
-- and the table of admins are one way to keep this.
use bulq.Common.{
  ℕ, ◌≡◌, ◌≢◌, ◌⊎◌, Bool, true, false, not, Option, none, some, List, [], ◌∷◌, ◌==◌, ◌&&◌, contains,
  if◌then◌else◌,
}
use bulq.Model.{MemoryStorage}
use bulq.Repo.Groups.{member_ids_of}

-- What a user is in a group: nothing, a member or an admin.
abbrev pub Roles : Type 0
Roles = ℕ → ℕ → Option Bool

abbrev pub assign : ℕ → ℕ → Option Bool → Roles → Roles
assign g u role roles h v = if g == h && u == v then role else roles h v

-- What a request of the user `u` may do to the roles.
pub data Step (u : ℕ) (before now : Roles) : Type 0 where
  kept : ((h v : ℕ) → now h v ≡ before h v) → Step u before now
  created :
      (g : ℕ)
      → ((v : ℕ) → before g v ≡ none)
      → ((h v : ℕ) → now h v ≡ assign g u (some true) before h v)
      → Step u before now
  joined :
      (g : ℕ)
      → before g u ≡ none
      → ((h v : ℕ) → now h v ≡ assign g u (some false) before h v)
      → Step u before now
  removed :
      (g m : ℕ)
      → before g u ≡ some true
      → before g m ≡ some false
      → ((h v : ℕ) → now h v ≡ assign g m none before h v)
      → Step u before now
  promoted :
      (g m : ℕ)
      → before g u ≡ some true
      → before g m ≡ some false
      → ((h v : ℕ) → now h v ≡ assign g m (some true) before h v)
      → Step u before now
  left_group :
      (g : ℕ)
      → (before g u ≡ some false) ⊎ ((m : ℕ) × (m ≢ u) × (before g m ≡ some true))
      → ((h v : ℕ) → now h v ≡ assign g u none before h v)
      → Step u before now

-- The part of the storage that keeps the roles.
abbrev pub Part : Type 0
Part = List (ℕ × List ℕ) × (ℕ → ℕ → Bool)

abbrev pub part_of : MemoryStorage → Part
part_of s = (s.group_memberships, s.group_admin_status)

abbrev pub roles_in : Part → Roles
roles_in p g u = if contains u (member_ids_of g p.0) then some (p.1 g u) else none

abbrev pub are_distinct : List ℕ → Bool
are_distinct [] = true
are_distinct (x ∷ xs) = not (contains x xs) && are_distinct xs

-- Nobody is listed twice, and who is an admin is listed.
pub record IsSound (p : Part) : Type 0 where
  pub distinct : (g : ℕ) → are_distinct (member_ids_of g p.0) ≡ true
  pub listed_admins : (g u : ℕ) → p.1 g u ≡ true → contains u (member_ids_of g p.0) ≡ true
