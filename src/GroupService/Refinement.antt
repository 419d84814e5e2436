-- ===== src/GroupService/Refinement.antt =====
-- Every request on groups is one step on the roles, or none.
use bulq.Common.{
  ℕ, String, ◌≡◌, ◌≢◌, ◌⊎◌, inl, inr, refl, sym, ◌∙◌, Bool, true, false, none, List, [], ◌∷◌, ◌&&◌,
  ◌≤◌, leb, contains, find?, is_some, ◌==◌, ==_iff, arith, Bool-cases,
}
use bulq.Error.{ok}
use bulq.Table.{get}
use bulq.Model.{MemoryStorage, User}
use bulq.Storage.{IdText, pure, gets, modify, draw_uuid4, ◌>>=◌, ◌>>◌}
use bulq.Storage.Rules.{Reads-or_raise, Reads-raise_if, leaves_rules}
use bulq.Access.Reads.{access_reads}
use bulq.Access.Outcomes.{bind-ok, raise_if-ok, not-false}
use bulq.Repo.Groups.{
  members_key, member_ids_of, with_status, add_group_member, is_user_group_admin, can_be_listed,
  write_if, remove_group_member, get_group_members_with_admin_status,
}
use bulq.Repo.Groups as Groups
use bulq.GroupService.Roles.{part_of, created, are_distinct, IsSound}
use bulq.GroupService.Parts.{added, there, absent, nobody-new, founded-IsSound, roles-founded}
use bulq.GroupService.Departure.{find_and_cancel_affected_runs, broadcast_removal_notifications}
use bulq.GroupService.Methods.{
  require_admin, count_admins, create_group, join_group, validate_member_removal_request,
  remove_member, leave_group, promote_member_to_admin,
}
use bulq.GroupService.Requests.{
  GroupCall, create_group_call, join_group_call, remove_member_call, promote_member_to_admin_call,
  regenerate_invite_token_call, leave_group_call, toggle_joining_allowed_call, perform_group,
}
use bulq.GroupService.Frames.{
  Leaves-emit, Leaves-leave_runs, Leaves-regenerate_invite_token, Leaves-toggle_joining_allowed,
  Reads-validate_group_invite, Reads-check_membership_constraints, Reads-validate_removal,
  Reads-require_group, Reads-require_admin, Reads-is_user_group_admin, Reads-get_members,
}
use bulq.GroupService.Yields.{
  Yields, Yields-part, Yields-Leaves, Yields-bind, Yields-after, Yields-join, Yields-remove,
  Yields-promote, Yields-leave,
}

module _ (g : ℕ) (status : ℕ → ℕ → Bool) (users : List ℕ) where
  some_admin :
      (ids : List ℕ)
      → 1 ≤ count_admins (with_status g status users ids)
      → (m : ℕ) × (contains m ids ≡ true) × (status g m ≡ true)
  some_admin [] h = absurd (omega arith)
  some_admin (x ∷ ids) h = elim (Bool-cases (is_some (find? (λ u. u == x) users) && status g x)) [
    | inl here ↦ (x, ground arith, ground arith)
    | inr not_here ↦
        let (m, listed, admin) = some_admin ids (ground arith) in (m, ground arith, admin)
  ]

  -- Where two are admins, one of them is another than this user.
  other_admin :
      (u : ℕ) (ids : List ℕ)
      → are_distinct ids ≡ true
      → 2 ≤ count_admins (with_status g status users ids)
      → (m : ℕ) × (m ≢ u) × (contains m ids ≡ true) × (status g m ≡ true)
  other_admin u [] d h = absurd (omega arith)
  other_admin u (x ∷ ids) d h = elim (Bool-cases (x == u)) [
    | inl same ↦
        let (m, listed, admin) = some_admin ids (ground arith) in
        let e : x ≡ u = (==_iff x u).0 same in
        let fresh : contains x ids ≡ false = ground arith in
        (m, (λ m_is_u. let f : m ≡ x = m_is_u ∙ sym e in cc), ground arith, admin)
    | inr other ↦ elim (Bool-cases (is_some (find? (λ u. u == x) users) && status g x)) [
      | inl here ↦ (x, (λ e. cc ((==_iff x u).1 e)), ground arith, ground arith)
      | inr not_here ↦
          let (m, ne, listed, admin) = other_admin u ids (ground arith) (ground arith) in
          (m, ne, ground arith, admin)
    ]
  ]

added_then :
    (g v : ℕ) (s : MemoryStorage)
    → can_be_listed g v s ≡ true
    → part_of ((add_group_member g v true >> pure g) s).1 ≡ added g v true (part_of s)
unfolding add_group_member write_if gets modify pure ◌>>=◌
added_then g v s can = rw can refl

module _ (u : User) (s : MemoryStorage) (sound : IsSound (part_of s)) where
  admin-ok :
      (g : ℕ) {v : Unit {0}} → (require_admin g u s).0 ≡ ok v → s.group_admin_status g u.id ≡ true
  unfolding require_admin is_user_group_admin gets ◌>>=◌
  admin-ok g h = not-false (s.group_admin_status g u.id) (raise_if-ok _ _ s h)

  status-ok :
      (g m : ℕ) {b : Bool} → (is_user_group_admin g m s).0 ≡ ok b → s.group_admin_status g m ≡ b
  unfolding is_user_group_admin gets
  status-ok g m h = cc

  members-ok :
      (g : ℕ) {ms : List (ℕ × Bool)}
      → (get_group_members_with_admin_status g s).0 ≡ ok ms
      → with_status g s.group_admin_status s.users (member_ids_of g s.group_memberships) ≡ ms
  unfolding get_group_members_with_admin_status gets
  members-ok g h = cc

  Yields-create_group :
      (name : String)
      → get members_key (s.uuid4 0) s.group_memberships ≡ none
      → Yields u.id s (create_group name u s).1
  unfolding create_group Groups.create_group draw_uuid4 modify pure ◌>>=◌
  Yields-create_group name new =
      let g = s.uuid4 0 in
      let p = part_of s in
      Yields-part _
        (added_then g u.id _ (
          let there = there g u.id p sound new in
          let absent = absent g u.id p sound new in rw (there, absent) refl))
        (created g (nobody-new g u.id p sound new) (roles-founded g u.id p sound new))
        (founded-IsSound g u.id p sound new)

  Yields-join_group :
      (max_groups max_members t : ℕ) → Yields u.id s (join_group max_groups max_members t u s).1
  unfolding join_group
  Yields-join_group max_groups max_members t =
      Yields-bind _ _ sound (Reads-validate_group_invite t) λ group _.
        Yields-bind _ _ sound (Reads-check_membership_constraints max_groups max_members u group)
          λ _ _.
            Yields-after _ _ (Yields-join u.id s sound group.id)
              (λ done. search (leaves_rules, access_reads, Leaves-emit) depth 8)

  Yields-promote_member : (i k : IdText) → Yields u.id s (promote_member_to_admin i k u s).1
  unfolding promote_member_to_admin
  Yields-promote_member i k = Yields-bind _ _ sound (Reads-or_raise _ i) λ g _.
      Yields-bind _ _ sound (Reads-or_raise _ k) λ m _.
        Yields-bind _ _ sound (Reads-require_group g) λ _ _.
          Yields-bind _ _ sound (Reads-require_admin g u) λ _ admin.
            Yields-bind _ _ sound (Reads-get_members g) λ ms _.
              Yields-bind _ _ sound (Reads-raise_if _ _) λ _ _.
                Yields-bind _ _ sound (Reads-is_user_group_admin g m) λ b status.
                  Yields-bind _ _ sound (Reads-raise_if _ _) λ _ plain.
                    Yields-after _ _
                      (Yields-promote u.id s sound g m (admin-ok g admin)
                        (status-ok g m status ∙ raise_if-ok b _ s plain))
                      (λ done. search (leaves_rules, access_reads))

  removal-ok :
      (i k : IdText) {g m : ℕ}
      → (validate_member_removal_request i k u s).0 ≡ ok (g, m)
      → (s.group_admin_status g u.id ≡ true) × (s.group_admin_status g m ≡ false)
  unfolding validate_member_removal_request pure
  removal-ok i k {g} {m} h =
      let (g', p0, h0) = bind-ok _ _ s (Reads-or_raise _ i) h in
      let (m', p1, h1) = bind-ok _ _ s (Reads-or_raise _ k) h0 in
      let (_, p2, h2) = bind-ok _ _ s (Reads-require_group g') h1 in
      let (_, p3, h3) = bind-ok _ _ s (Reads-require_admin g' u) h2 in
      let (b, p4, h4) = bind-ok _ _ s (Reads-is_user_group_admin g' m') h3 in
      let (_, p5, h5) = bind-ok _ _ s (Reads-raise_if _ _) h4 in
      let (ms, p6, h6) = bind-ok _ _ s (Reads-get_members g') h5 in
      let (_, p7, h7) = bind-ok _ _ s (Reads-raise_if _ _) h6 in
      let same_group : g' ≡ g = cc in
      let same_member : m' ≡ m = cc in
      (
        rw (← same_group) (admin-ok g' p3),
        rw (← same_group, ← same_member) (status-ok g' m' p4 ∙ raise_if-ok b _ s p5),
      )

  -- `_find_and_cancel_affected_runs` does to the roles what the removal from the list does.
  departed :
      (g m : ℕ)
      → Yields u.id s (remove_group_member g m s).1
      → Yields u.id s
          ((find_and_cancel_affected_runs g m >> broadcast_removal_notifications g m) s).1
  unfolding find_and_cancel_affected_runs broadcast_removal_notifications
  departed g m y =
      Yields-after _ _
        (Yields-after _ _ y
          (λ done. search (leaves_rules, access_reads, Leaves-leave_runs) depth 8))
        (λ done. search Leaves-emit)

  Yields-remove_member : (i k : IdText) → Yields u.id s (remove_member i k u s).1
  unfolding remove_member
  Yields-remove_member i k = Yields-bind _ _ sound (Reads-validate_removal i k u) λ v valid.
      let (g, m) = v in
      let (admin, plain) = removal-ok i k valid in
      departed g m (Yields-remove u.id s sound g m admin plain)

  -- Who may go: a plain member, or an admin beside another.
  may_go :
      (g : ℕ) (ms : List (ℕ × Bool)) (b : Bool)
      → with_status g s.group_admin_status s.users (member_ids_of g s.group_memberships) ≡ ms
      → s.group_admin_status g u.id ≡ b
      → (b && leb (count_admins ms) 1) ≡ false
      → (s.group_admin_status g u.id ≡ false)
        ⊎ ((m : ℕ) × (m ≢ u.id) × (s.group_admin_status g m ≡ true))
  may_go g ms false listed status h = inl status
  may_go g ms true listed status h =
      let many : 2 ≤ count_admins ms = ground arith in
      let (m, ne, _, admin) =
        other_admin g s.group_admin_status s.users u.id (member_ids_of g s.group_memberships)
          (sound.distinct g) (rw listed many) in
      inr (m, ne, admin)

  Yields-leave_group : (i : IdText) → Yields u.id s (leave_group i u s).1
  unfolding leave_group
  Yields-leave_group i = Yields-bind _ _ sound (Reads-or_raise _ i) λ g _.
      Yields-bind _ _ sound (Reads-require_group g) λ _ _.
        Yields-bind _ _ sound (Reads-get_members g) λ ms listed.
          Yields-bind _ _ sound (Reads-raise_if _ _) λ _ _.
            Yields-bind _ _ sound (Reads-is_user_group_admin g u.id) λ b status.
              Yields-bind _ _ sound (Reads-raise_if _ _) λ _ allowed. departed g u.id (
                Yields-leave u.id s sound g (
                  may_go g ms b (members-ok g listed) (status-ok g u.id status)
                    (raise_if-ok _ _ s allowed)))

module _ (max_groups max_members : ℕ) (u : User) (s : MemoryStorage) where
  -- Where nobody is listed twice in a group and the admins are listed, and no group has the next new
  -- id: a request on groups, failed or not, takes one step of `Step` on the roles, or none, and keeps
  -- the lists so. A user joins who was not in the group, an admin removes or promotes a plain member,
  -- an admin goes only where another stays, and a new group has its creator as its only admin.
  pub perform_group-Yields :
      (c : GroupCall)
      → IsSound (part_of s)
      → get members_key (s.uuid4 0) s.group_memberships ≡ none
      → Yields u.id s (perform_group max_groups max_members u c s)
  unfolding perform_group
  perform_group-Yields (create_group_call name) sound new = Yields-create_group u s sound name new
  perform_group-Yields (join_group_call t) sound new =
      Yields-join_group u s sound max_groups max_members t
  perform_group-Yields (remove_member_call i k) sound new = Yields-remove_member u s sound i k
  perform_group-Yields (promote_member_to_admin_call i k) sound new =
      Yields-promote_member u s sound i k
  perform_group-Yields (regenerate_invite_token_call i) sound new =
      Yields-Leaves _ sound (Leaves-regenerate_invite_token i u)
  perform_group-Yields (leave_group_call i) sound new = Yields-leave_group u s sound i
  perform_group-Yields (toggle_joining_allowed_call i) sound new =
      Yields-Leaves _ sound (Leaves-toggle_joining_allowed i u)
