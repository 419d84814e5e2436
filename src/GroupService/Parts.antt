-- ===== src/GroupService/Parts.antt =====
-- The writes to the part of the storage that keeps the roles, and what they do to the roles.
use bulq.Common.{
  ℕ, ◌≡◌, refl, ap, ◌∙◌, Bool, true, false, Option, none, some, List, [], ◌∷◌, ◌++◌, ◌==◌, ◌&&◌,
  contains, is_some, if◌then◌else◌, arith, Bool-cases, ==_iff, inl, inr,
}
use mathlib.Core.Option
use bulq.Table.{get, update, put, get-update, get-put}
use bulq.Repo.Groups.{
  members_key, listed, member_ids_of, set_admin_status, append_member, remove_first, drop_member,
}
use bulq.GroupService.Roles.{Part, roles_in, assign, IsSound}
use bulq.GroupService.Lists.{
  contains-append, distinct-append, contains-remove_first, distinct-remove_first,
}

-- `add_group_member`, `remove_group_member` and `set_group_member_admin`, where they write
abbrev pub added : ℕ → ℕ → Bool → Part → Part
added g u is_admin p =
    (update members_key g (append_member u) p.0, set_admin_status g u is_admin p.1)

abbrev pub dropped : ℕ → ℕ → Part → Part
dropped g u p = (update members_key g (drop_member u) p.0, set_admin_status g u false p.1)

abbrev pub ranked : ℕ → ℕ → Bool → Part → Part
ranked g u is_admin p = (p.0, set_admin_status g u is_admin p.1)

listed-append :
    (u : ℕ) (o : Option (ℕ × List ℕ))
    → is_some o ≡ true
    → listed (Option.map (append_member u) o) ≡ listed o ++ u ∷ []
listed-append u none h = cc
listed-append u (some r) h = refl

listed-drop :
    (u : ℕ) (o : Option (ℕ × List ℕ))
    → listed (Option.map (drop_member u) o) ≡ remove_first u (listed o)
listed-drop u none = refl
listed-drop u (some r) = refl

module _ (g u : ℕ) (memberships : List (ℕ × List ℕ)) where
  ids-append :
      (h : ℕ)
      → is_some (get members_key g memberships) ≡ true
      → member_ids_of h (update members_key g (append_member u) memberships)
        ≡ (if g == h then member_ids_of h memberships ++ u ∷ [] else member_ids_of h memberships)
  ids-append h there =
      ap listed (get-update members_key (append_member u) (λ r. refl) g h memberships)
      ∙ elim (Bool-cases (g == h)) [
        | inl same ↦
            let e : g ≡ h = (==_iff g h).0 same in
            rw same (listed-append u (get members_key h memberships) (rw (← e) there))
        | inr other ↦ rw other refl
      ]

  ids-drop :
      (h : ℕ)
      → member_ids_of h (update members_key g (drop_member u) memberships) ≡ (
          if g == h
          then remove_first u (member_ids_of h memberships)
          else member_ids_of h memberships)
  ids-drop h =
      ap listed (get-update members_key (drop_member u) (λ r. refl) g h memberships)
      ∙ elim (Bool-cases (g == h)) [
        | inl same ↦ rw same (listed-drop u (get members_key h memberships))
        | inr other ↦ rw other refl
      ]

module _ (g u : ℕ) (p : Part) (sound : IsSound p) where
  module _ (b : Bool) (there : is_some (get members_key g p.0) ≡ true)
      (absent : contains u (member_ids_of g p.0) ≡ false) where
    pub roles-added :
        (h v : ℕ) → roles_in (added g u b p) h v ≡ assign g u (some b) (roles_in p) h v
    roles-added h v =
        rw (ids-append g u p.0 h there) (ground (arith, contains-append v u (member_ids_of h p.0)))

    pub added-IsSound : IsSound (added g u b p)
    added-IsSound = record {
      distinct = λ h. rw (ids-append g u p.0 h there) (
          ground
            (arith, sound.distinct h, distinct-append u (member_ids_of h p.0) (sound.distinct h)));
      listed_admins = λ h v k.
          rw (ids-append g u p.0 h there)
            (ground (arith, sound.listed_admins h v, contains-append v u (member_ids_of h p.0)));
    }

  pub roles-dropped : (h v : ℕ) → roles_in (dropped g u p) h v ≡ assign g u none (roles_in p) h v
  roles-dropped h v =
      rw (ids-drop g u p.0 h)
        (ground (arith, contains-remove_first v u (member_ids_of h p.0) (sound.distinct h)))

  pub dropped-IsSound : IsSound (dropped g u p)
  dropped-IsSound = record {
    distinct = λ h. rw (ids-drop g u p.0 h) (
        ground (
          arith,
          sound.distinct h,
          distinct-remove_first u (member_ids_of h p.0) (sound.distinct h),
        ));
    listed_admins = λ h v k. rw (ids-drop g u p.0 h) (
        ground (
          arith,
          sound.listed_admins h v,
          contains-remove_first v u (member_ids_of h p.0) (sound.distinct h),
        ));
  }

  module _ (there : contains u (member_ids_of g p.0) ≡ true) where
    pub roles-ranked :
        (h v : ℕ) → roles_in (ranked g u true p) h v ≡ assign g u (some true) (roles_in p) h v
    roles-ranked h v = ground arith

    pub ranked-IsSound : IsSound (ranked g u true p)
    ranked-IsSound = record {
      distinct = sound.distinct;
      listed_admins = λ h v k. ground (arith, sound.listed_admins h v);
    }

-- A new group with its creator in it as an admin, as `create_group` makes it.
abbrev pub founded : ℕ → ℕ → Part → Part
founded g u p = added g u true (put members_key (g, []) p.0, p.1)

module _ (g u : ℕ) (p : Part) (sound : IsSound p) (new : get members_key g p.0 ≡ none) where
  ids-put :
      (h : ℕ)
      → member_ids_of h (put members_key (g, []) p.0) ≡ (if g == h then [] else member_ids_of h p.0)
  ids-put h = ap listed (get-put members_key (g, []) h p.0) ∙ ground arith

  ids-none : member_ids_of g p.0 ≡ []
  ids-none = ap listed new

  pub nobody-new : (v : ℕ) → roles_in p g v ≡ none
  nobody-new v = rw ids-none refl

  emptied-IsSound : IsSound (put members_key (g, []) p.0, p.1)
  emptied-IsSound = record {
    distinct = λ h. rw (ids-put h) (ground (arith, sound.distinct h));
    listed_admins = λ h v k. rw (ids-put h) (
        let before = sound.listed_admins h v k in
        elim (Bool-cases (g == h)) [
          | inl same ↦ let e : g ≡ h = (==_iff g h).0 same in absurd (let n = ids-none in cc)
          | inr other ↦ rw other before
        ]);
  }

  roles-emptied : (h v : ℕ) → roles_in (put members_key (g, []) p.0, p.1) h v ≡ roles_in p h v
  roles-emptied h v = rw (ids-put h) (elim (Bool-cases (g == h)) [
    | inl same ↦ let e : g ≡ h = (==_iff g h).0 same in rw (same, ← e, ids-none) refl
    | inr other ↦ rw other refl
  ])

  pub there : is_some (get members_key g (put members_key (g, []) p.0)) ≡ true
  there = ap is_some (get-put members_key (g, []) g p.0) ∙ ground arith

  pub absent : contains u (member_ids_of g (put members_key (g, []) p.0)) ≡ false
  absent = ap (contains u) (ids-put g) ∙ ground arith

  pub founded-IsSound : IsSound (founded g u p)
  founded-IsSound = added-IsSound g u _ emptied-IsSound true there absent

  pub roles-founded :
      (h v : ℕ) → roles_in (founded g u p) h v ≡ assign g u (some true) (roles_in p) h v
  roles-founded h v =
      roles-added g u _ emptied-IsSound true there absent h v
      ∙ ap (λ r. if g == h && u == v then some true else r) (roles-emptied h v)
