-- ===== src/GroupService/Joining.antt =====
-- What `join_group` has done when it returns, and the limits that it keeps.
use bulq.Common.{
  ℕ, suc, ◌≤◌, ◌≡◌, refl, sym, ap, subst, ◌∙◌, Bool, true, false, not, List, [], ◌∷◌, ◌++◌, keep,
  find?, is_some, length, leb, ◌==◌, ◌&&◌, arith,
}
use bulq.Error.{ok, bad_request, group_join_failed}
use bulq.Table.{get, update}
use bulq.Model.{MemoryStorage, User, Group, member_joined}
use bulq.Storage.{Action, pure, gets, modify, raise_if, emit, ◌>>=◌, ◌>>◌}
use bulq.Storage.Rules.{Reads-raise_if}
use bulq.Access.Reads.{Reads-get_user_groups}
use bulq.Access.Outcomes.{bind-ok, bind-on, raise_if-ok}
use bulq.Repo.Directory.{groups_of, get_user_groups}
use bulq.Repo.Groups.{
  members_key, member_ids_of, get_group_members, append_member, can_be_listed, is_listed,
  set_admin_status, write_if, add_group_member,
}
use bulq.GroupService.Frames.{
  Reads-validate_group_invite, Reads-check_membership_constraints, Reads-get_group_members,
}
use bulq.GroupService.Methods.{check_membership_constraints, join_group}

-- The members of the group that are users.
abbrev pub members_in : ℕ → MemoryStorage → List ℕ
members_in g s =
    keep (λ uid. is_some (find? (λ u. u == uid) s.users)) (member_ids_of g s.group_memberships)

-- The groups of the user.
abbrev pub groups_in : User → MemoryStorage → List ℕ
groups_in u s = groups_of u.id s.groups s.group_memberships

-- The one who joined comes last among the group's members, who are within their limit, and the user's
-- groups are within theirs.
pub record HasJoined (max_groups max_members : ℕ) (u : User) (g : ℕ) (s t : MemoryStorage)
    : Type 0 where
  pub members : members_in g t ≡ members_in g s ++ u.id ∷ []
  pub members_bound : length (members_in g t) ≤ max_members
  pub groups_bound : length (groups_in u t) ≤ max_groups

length-snoc : (xs : List ℕ) (x : ℕ) → length (xs ++ x ∷ []) ≡ suc (length xs)
length-snoc [] x = refl
length-snoc (y ∷ xs) x = ap suc (length-snoc xs x)

keep-snoc :
    (p : ℕ → Bool) (xs : List ℕ) (x : ℕ) → p x ≡ true → keep p (xs ++ x ∷ []) ≡ keep p xs ++ x ∷ []
keep-snoc p [] x h = rw h refl
keep-snoc p (y ∷ xs) x h = ground (arith, keep-snoc p xs x)

append-ids :
    (g u : ℕ) (ms : List (ℕ × List ℕ))
    → is_some (get members_key g ms) ≡ true
    → member_ids_of g (update members_key g (append_member u) ms) ≡ member_ids_of g ms ++ u ∷ []
append-ids g u [] h = cc
append-ids g u ((k, ids) ∷ ms) h = ground (arith, append-ids g u ms)

groups-append :
    (g u : ℕ) (groups : List Group) (ms : List (ℕ × List ℕ))
    → length (groups_of u groups (update members_key g (append_member u) ms))
      ≤ suc (length (groups_of u groups ms))
groups-append g u groups [] = ground arith
groups-append g u groups ((k, ids) ∷ ms) = ground (arith, groups-append g u groups ms)

module _ (max_groups max_members : ℕ) (u : User) (s : MemoryStorage) where
  check-ok :
      (group : Group) {v : Unit {0}}
      → (check_membership_constraints max_groups max_members u group s).0 ≡ ok v
      → (leb max_groups (length (groups_in u s)) ≡ false)
        × (leb max_members (length (members_in group.id s)) ≡ false)
  unfolding check_membership_constraints get_user_groups get_group_members gets
  check-ok group h =
      let (gs, e0, h0) = bind-ok _ _ s (Reads-get_user_groups u) h in
      let (_, e1, h1) = bind-ok _ _ s (Reads-raise_if _ _) h0 in
      let (_, e2, h2) = bind-ok _ _ s (Reads-raise_if _ _) h1 in
      let (ms, e3, h3) = bind-ok _ _ s (Reads-get_group_members group.id) h2 in
      let groups_read : groups_in u s ≡ gs = cc in
      let members_read : members_in group.id s ≡ ms = cc in
      (rw groups_read (raise_if-ok _ _ s e2), rw members_read (raise_if-ok _ _ s h3))

  abbrev added : ℕ → MemoryStorage → MemoryStorage
  added g t = record t {
    group_memberships = update members_key g (append_member u.id) t.group_memberships;
    group_admin_status = set_admin_status g u.id false t.group_admin_status;
  }

  abbrev joined : ℕ → MemoryStorage
  joined g = record (added g s) { events = member_joined g u.id u.name ∷ s.events }

  abbrev told : ℕ → Bool → Action ℕ
  told g success =
      raise_if (not success) (bad_request group_join_failed)
      >> (emit (member_joined g u.id u.name) >> pure g)

  add-ok :
      (g : ℕ) {i : ℕ}
      → ((add_group_member g u.id false >>= told g) s).0 ≡ ok i
      → (can_be_listed g u.id s ≡ true)
        × (g ≡ i)
        × ((add_group_member g u.id false >>= told g) s).1 ≡ joined g
  unfolding add_group_member write_if gets modify emit pure raise_if ◌>>=◌
  add-ok g {i} = go (can_be_listed g u.id s)
    where
      go :
          (b : Bool)
          → ((write_if b (added g) >>= told g) s).0 ≡ ok i
          → (b ≡ true) × (g ≡ i) × (((write_if b (added g) >>= told g) s).1 ≡ joined g)
      go true h = let e : g ≡ i = cc in (refl, e, refl)
      go false h = cc

  and-left : (a b : Bool) → (a && b) ≡ true → a ≡ true
  and-left true b h = refl
  and-left false b h = cc

  joined-HasJoined :
      (g : ℕ)
      → is_some (find? (λ v. v == u.id) s.users) ≡ true
      → can_be_listed g u.id s ≡ true
      → leb max_groups (length (groups_in u s)) ≡ false
      → leb max_members (length (members_in g s)) ≡ false
      → HasJoined max_groups max_members u g s (joined g)
  joined-HasJoined g exists can few_groups few_members =
      let there : is_some (get members_key g s.group_memberships) ≡ true =
        and-left _ (not (is_listed g u.id s)) can in
      let is_user : ℕ → Bool = λ uid. is_some (find? (λ v. v == uid) s.users) in
      let members : members_in g (joined g) ≡ members_in g s ++ u.id ∷ [] =
        ap (keep is_user) (append-ids g u.id s.group_memberships there)
        ∙ keep-snoc is_user (member_ids_of g s.group_memberships) u.id exists in
      record {
        members = members;
        members_bound = rw (members, length-snoc (members_in g s) u.id) (ground arith);
        groups_bound =
            let one_more = groups-append g u.id s.groups s.group_memberships in ground arith;
      }

-- If a user that exists joins a group, the user comes last among its members, the members are within
-- their limit, and the user's groups within theirs.
pub join_group-HasJoined :
    (max_groups max_members token : ℕ) (u : User) (s : MemoryStorage) {g : ℕ}
    → is_some (find? (λ v. v == u.id) s.users) ≡ true
    → (join_group max_groups max_members token u s).0 ≡ ok g
    → HasJoined max_groups max_members u g s (join_group max_groups max_members token u s).1
unfolding join_group
join_group-HasJoined mg mm token u s {g} exists h =
    let (group, _, e0, h0) = bind-on _ _ s (Reads-validate_group_invite token) h in
    let (_, c, e1, h1) = bind-on _ _ s (Reads-check_membership_constraints mg mm u group) h0 in
    let (few_groups, few_members) = check-ok mg mm u s group c in
    let (can, same, done) = add-ok mg mm u s group.id h1 in
    subst (HasJoined mg mm u g s) (sym (ap (λ v. v.1) (e0 ∙ e1) ∙ done)) (
      subst (λ i. HasJoined mg mm u i s (joined mg mm u s group.id)) same
        (joined-HasJoined mg mm u s group.id exists can few_groups few_members))
