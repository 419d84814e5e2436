-- ===== src/Access.antt =====
-- The checks with which the methods of backend/app/services begin: the run exists, the caller is a
-- member of its group, the caller leads it. The source repeats them in each service.
pub mod Reads
pub mod Outcomes
use bulq.Common.{
  ℕ, Bool, true, false, not, Option, none, some, List, any, ◌==◌, ◌&&◌, ◌||◌, if◌then◌else◌,
}
use bulq.Error.{
  Error, Code, not_found, forbidden, run_not_found, not_run_participant, not_run_leader,
  not_run_leader_or_helper, participation_not_found,
}
use bulq.Model.{MemoryStorage, User, Run, RunParticipation}
use bulq.Storage.{Action, pure, gets, raise_if, or_raise, ◌>>=◌, ◌>>◌}
use bulq.Repo.Directory.{get_user_groups}
use bulq.Repo.Runs.{get_run_by_id, get_participation}

unfoldable pub require_run : ℕ → Action Run
require_run run_uuid = do run ← get_run_by_id run_uuid; or_raise (not_found run_not_found) run

-- `if not any(g.id == run.group_id for g in user_groups): raise ForbiddenError(…)`
unfoldable pub require_member : Run → User → Action (Unit {0})
require_member run user = do
  user_groups ← get_user_groups user
  raise_if (not (any (λ g. g == run.group_id) user_groups)) (forbidden not_run_participant)

abbrev pub leads : Option RunParticipation → Bool
leads none = false
leads (some p) = p.is_leader

abbrev pub leads_or_helps : Option RunParticipation → Bool
leads_or_helps none = false
leads_or_helps (some p) = p.is_leader || p.is_helper

-- `if not participation or not participation.is_leader: raise ForbiddenError(…)`
unfoldable pub require_leader : ℕ → User → Action (Unit {0})
require_leader run_uuid user = do
  participation ← get_participation user.id run_uuid
  raise_if (not (leads participation)) (forbidden not_run_leader)

unfoldable pub require_leader_or_helper : ℕ → User → Action (Unit {0})
require_leader_or_helper run_uuid user = do
  participation ← get_participation user.id run_uuid
  raise_if (not (leads_or_helps participation)) (forbidden not_run_leader_or_helper)

-- `_get_user_participation` of bid_service.py and run_state_service.py
unfoldable pub get_user_participation : ℕ → ℕ → Action RunParticipation
get_user_participation user_id run_id = do
  participation ← get_participation user_id run_id
  or_raise (not_found participation_not_found) participation
