-- ===== src/Tests/Groups.antt =====
-- Requests on the group of the test storage, and the creation of a run in it.
use bulq.Common.{ℕ, ◌≡◌, ◌≢◌, ◌⊎◌, ◌≤◌, refl, true, none, some, [], ◌∷◌, arith}
use bulq.Error.{ok}
use bulq.RunState.{is_active_run}
use bulq.Model.{MemoryStorage, Store, User}
use bulq.Storage.{pure, gets, modify, emit, or_raise, raise_if, draw_uuid4, ◌>>=◌}
use bulq.Repo.Directory.{get_user_groups, get_all_stores}
use bulq.Repo.Runs.{new_run, get_runs_by_group, create_participation}
use bulq.Repo.Runs as Runs
use bulq.Repo.Groups.{
  get_group_by_id, is_user_group_admin, set_group_member_admin, write_if,
  get_group_members_with_admin_status, get_group_by_invite_token, get_group_members,
  add_group_member,
}
use bulq.GroupService.Roles.{part_of, roles_in, IsSound}
use bulq.GroupService.Methods.{
  require_group, require_admin, promote_member_to_admin, validate_group_invite,
  check_membership_constraints, join_group,
}
use bulq.GroupService.Joining.{HasJoined, join_group-HasJoined}
use bulq.Tests.{group}
use bulq.GroupService.Requests.{
  GroupCall, remove_member_call, promote_member_to_admin_call, perform_group,
}
use bulq.GroupService.Yields.{Yields}
use bulq.GroupService.Refinement.{perform_group-Yields}
use bulq.GroupService.Admins.{perform_group-admin, perform_group-authority}
use bulq.RunMethods.{create_run}
use bulq.RunMethods.Creation.{HasNewIds, IsCreated, active_runs, create_run-IsCreated}
use bulq.Tests.{alice, bob, storage}

group_IsSound : IsSound (part_of storage)
group_IsSound = record { distinct = λ g. ground arith; listed_admins = λ g u h. ground arith }

perform_group-Yields_example :
    Yields 1 storage (perform_group 100 100 alice (remove_member_call (some 1) (some 2)) storage)
perform_group-Yields_example =
    perform_group-Yields 100 100 alice storage (remove_member_call (some 1) (some 2)) group_IsSound
      refl

abbrev promotion : GroupCall
promotion = promote_member_to_admin_call (some 1) (some 2)

perform_group-admin_example :
    (m : ℕ) × (roles_in (part_of (perform_group 100 100 alice promotion storage)) 1 m ≡ some true)
perform_group-admin_example =
    perform_group-admin 100 100 alice storage promotion group_IsSound refl 1 (1, refl)

bob_promoted : roles_in (part_of (perform_group 100 100 alice promotion storage)) 1 2 ≡ some true
unfolding perform_group promote_member_to_admin require_group get_group_by_id require_admin
    is_user_group_admin get_group_members_with_admin_status set_group_member_admin write_if pure
    gets modify or_raise raise_if ◌>>=◌
bob_promoted = refl

bob_changed :
    roles_in (part_of (perform_group 100 100 alice promotion storage)) 1 2
    ≢ roles_in (part_of storage) 1 2
bob_changed e = let p = bob_promoted in cc

perform_group-authority_example : (bob.id ≡ alice.id) ⊎ (roles_in (part_of storage) 1 1 ≡ some true)
perform_group-authority_example =
    perform_group-authority 100 100 alice storage promotion group_IsSound refl 1 2 bob_changed

-- Carol is a user, but not yet a member.
abbrev carol : User
carol = record { id = 3; name = "Carol" }

abbrev with_carol : MemoryStorage
with_carol = record storage { users = 1 ∷ 2 ∷ 3 ∷ [] }

carol_joins : (join_group 2 3 group.invite_token carol with_carol).0 ≡ ok 1
unfolding join_group validate_group_invite check_membership_constraints get_group_by_invite_token
    get_user_groups get_group_members add_group_member write_if gets modify emit pure or_raise
    raise_if ◌>>=◌
carol_joins = refl

join_group-HasJoined_example :
    HasJoined 2 3 carol 1 with_carol (join_group 2 3 group.invite_token carol with_carol).1
join_group-HasJoined_example =
    join_group-HasJoined 2 3 group.invite_token carol with_carol refl carol_joins

abbrev market : Store
market = record { id = 5; name = "Market" }

abbrev stored : MemoryStorage
stored = record storage { stores = market ∷ [] }

new_ids : HasNewIds alice stored
new_ids = record { new_run_id = ground arith; new_participation_id = ground arith; nobody = refl }

run_created_ok : (create_run 5 (some 1) (some 5) alice none stored).0 ≡ ok (new_run 100 1 5 none 2)
unfolding create_run get_group_by_id get_user_groups get_all_stores get_runs_by_group
    Runs.create_run create_participation is_active_run draw_uuid4 pure gets modify emit or_raise
    raise_if ◌>>=◌
run_created_ok = refl

create_run-IsCreated_example :
    IsCreated alice 1
      (new_run 100 1 5 none 2)
      stored
      (create_run 5 (some 1) (some 5) alice none stored).1
    × (active_runs 1 (create_run 5 (some 1) (some 5) alice none stored).1 ≤ 5)
create_run-IsCreated_example = create_run-IsCreated 5 1 5 alice none stored new_ids run_created_ok
