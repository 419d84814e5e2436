-- ===== src/GroupService/Runs.antt =====
-- What requests on groups do to the runs: those of a leader who goes are cancelled.
use bulq.Common.{ℕ, ◌≡◌, ◌⊎◌, Bool, true, false, Option, some}
use bulq.Table.{get}
use bulq.RunState.{cancelled}
use bulq.Model.{MemoryStorage, Run}
use bulq.Frame.Runs.{runs_left}
use bulq.Repo.Runs.{run_key}
use bulq.Repo.Groups as Groups
use bulq.GroupService.Frames.{
  Reads-get_group_by_id, Reads-is_user_group_admin, Reads-get_members, Reads-require_group,
  Reads-require_admin, Reads-validate_group_invite, Reads-check_membership_constraints,
  Reads-validate_removal,
}
use bulq.GroupService.Requests.{GroupCall, remove_member_call, leave_group_call}

-- The run as it was, or as it was but for being cancelled.
abbrev pub IsKeptOrCancelled : Run → Option Run → Type 0
IsKeptOrCancelled r found = (found ≡ some r) ⊎ (found ≡ some (record r { state = cancelled }))

-- So it is with every run of the storage `s₀`.
record HasKept (s₀ s : MemoryStorage) : Type 0 where
  at :
      (j : ℕ) (r : Run)
      → get run_key j s₀.runs ≡ some r
      → IsKeptOrCancelled r (get run_key j s.runs)

ruleset left = (
  runs_left, Reads-get_group_by_id, Reads-is_user_group_admin, Reads-get_members,
  Reads-require_group, Reads-require_admin, Reads-validate_group_invite,
  Reads-check_membership_constraints, Reads-validate_removal,
)

-- The requests on groups that can cancel runs: those by which a member goes.
abbrev pub is_departure : GroupCall → Bool
is_departure (remove_member_call g m) = true
is_departure (leave_group_call g) = true
is_departure _ = false
