-- ===== src/GroupService/Admins.antt =====
-- What follows from the steps on the roles: groups keep their admins, and only admins touch others.
use bulq.Common.{
  ℕ, ◌≡◌, ◌≢◌, ◌⊎◌, inl, inr, refl, sym, ◌∙◌, Bool, true, false, Option, none, some, ◌==◌, ◌&&◌,
  ==_iff, arith, Bool-cases,
}
use bulq.Table.{get}
use bulq.Model.{MemoryStorage, User}
use bulq.Repo.Groups.{members_key}
use bulq.GroupService.Roles.{
  Roles, Step, kept, created, joined, removed, promoted, left_group, assign, part_of, roles_in,
  IsSound,
}
use bulq.GroupService.Requests.{GroupCall, perform_group}
use bulq.GroupService.Refinement.{perform_group-Yields}

assign-same : (g u : ℕ) (r : Option Bool) (roles : Roles) → assign g u r roles g u ≡ r
assign-same g u r roles = ground arith

assign-other :
    (g u h v : ℕ) (r : Option Bool) (roles : Roles) → u ≢ v → assign g u r roles h v ≡ roles h v
assign-other g u h v r roles ne = ground arith

assign-changed :
    (g u h v : ℕ) (r : Option Bool) (roles : Roles)
    → assign g u r roles h v ≢ roles h v
    → (g ≡ h) × (u ≡ v)
assign-changed g u h v r roles changed = elim (Bool-cases (g == h && u == v)) [
  | inl same ↦ (ground arith, ground arith)
  | inr other ↦ absurd (changed (rw other refl))
]

plain_ne : {r : Option Bool} → r ≡ some false → r ≢ some true
plain_ne p q = cc

none_ne : {r : Option Bool} → r ≡ none → r ≢ some true
none_ne p q = cc

module _ (before now : Roles) where
  -- An admin whom the step does not touch, or makes one, is an admin afterwards.
  spared :
      (k w : ℕ) (r : Option Bool) (g m : ℕ)
      → ((h v : ℕ) → now h v ≡ assign k w r before h v)
      → (before k w ≢ some true) ⊎ (r ≡ some true)
      → before g m ≡ some true
      → now g m ≡ some true
  spared k w r g m e why h = e g m ∙ elim (Bool-cases (k == g && w == m)) [
    | inr other ↦ rw other h
    | inl same ↦
        let same_group : k ≡ g = ground arith in
        let same_user : w ≡ m = ground arith in
        elim why [
          | inl plain ↦ absurd (plain (rw (same_group, same_user) h))
          | inr admin ↦ rw same admin
        ]
  ]

module _ {u : ℕ} {before now : Roles} where
  Step-admin :
      (g : ℕ)
      → Step u before now
      → (m : ℕ) × (before g m ≡ some true)
      → (m : ℕ) × (now g m ≡ some true)
  Step-admin g (kept e) (m, h) = (m, e g m ∙ h)
  Step-admin g (created k n e) (m, h) = (m, spared before now k u _ g m e (inr refl) h)
  Step-admin g (joined k n e) (m, h) = (m, spared before now k u _ g m e (inl (none_ne n)) h)
  Step-admin g (removed k m' a b e) (m, h) =
      (m, spared before now k m' _ g m e (inl (plain_ne b)) h)
  Step-admin g (promoted k m' a b e) (m, h) = (m, spared before now k m' _ g m e (inr refl) h)
  Step-admin g (left_group k (inl plain) e) (m, h) =
      (m, spared before now k u _ g m e (inl (plain_ne plain)) h)
  Step-admin g (left_group k (inr (m', ne, admin)) e) (m, h) = elim (Bool-cases (k == g)) [
    | inl same ↦
        let same_group : k ≡ g = (==_iff k g).0 same in
        (m', e g m' ∙ assign-other k u g m' none before (λ p. ne (sym p)) ∙ rw (← same_group) admin)
    | inr other ↦ (m, e g m ∙ rw other h)
  ]

  Step-authority :
      (g v : ℕ) → Step u before now → now g v ≢ before g v → (v ≡ u) ⊎ (before g u ≡ some true)
  Step-authority g v (kept e) changed = absurd (changed (e g v))
  Step-authority g v (created k n e) changed =
      inl (sym (assign-changed k u g v _ before (λ p. changed (e g v ∙ p))).1)
  Step-authority g v (joined k n e) changed =
      inl (sym (assign-changed k u g v _ before (λ p. changed (e g v ∙ p))).1)
  Step-authority g v (left_group k why e) changed =
      inl (sym (assign-changed k u g v _ before (λ p. changed (e g v ∙ p))).1)
  Step-authority g v (removed k m a b e) changed =
      let (same, _) = assign-changed k m g v _ before (λ p. changed (e g v ∙ p)) in
      inr (rw (← same) a)
  Step-authority g v (promoted k m a b e) changed =
      let (same, _) = assign-changed k m g v _ before (λ p. changed (e g v ∙ p)) in
      inr (rw (← same) a)

module _ (max_groups max_members : ℕ) (u : User) (s : MemoryStorage) (c : GroupCall)
    (sound : IsSound (part_of s)) (new : get members_key (s.uuid4 0) s.group_memberships ≡ none)
    (g : ℕ) where
  -- Under the same conditions, a group that has an admin has one after any request on groups.
  pub perform_group-admin :
      (m : ℕ) × (roles_in (part_of s) g m ≡ some true)
      → (m : ℕ) × (roles_in (part_of (perform_group max_groups max_members u c s)) g m ≡ some true)
  perform_group-admin h =
      Step-admin g (perform_group-Yields max_groups max_members u s c sound new).step h

  -- Under the same conditions, if a request on groups changes what a user `v` is in a group, then
  -- `v` is the one who asks, or the one who asks was an admin of the group.
  pub perform_group-authority :
      (v : ℕ)
      → roles_in (part_of (perform_group max_groups max_members u c s)) g v
        ≢ roles_in (part_of s) g v
      → (v ≡ u.id) ⊎ (roles_in (part_of s) g u.id ≡ some true)
  perform_group-authority v changed =
      Step-authority g v (perform_group-Yields max_groups max_members u s c sound new).step changed
