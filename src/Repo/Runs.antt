-- ===== src/Repo/Runs.antt =====
-- memory/run.py: runs and participations.
use bulq.Common.{ℕ, String, Bool, true, false, Option, none, some, List, keep, find?, ◌==◌, ◌&&◌}
use bulq.Table.{get, update, put}
use bulq.RunState.{
  RunState, planning, active, confirmed, shopping, adjusting, distributing, completed, cancelled,
}
use bulq.RunState.Validate.{validate_transition}
use bulq.Model.{Run, RunParticipation}
use bulq.Storage.{Action, pure, gets, lift, modify, draw_uuid4, ◌>>=◌, ◌>>◌}

abbrev pub run_key : Run → ℕ
run_key r = r.id

abbrev pub participation_key : RunParticipation → ℕ
participation_key p = p.id

unfoldable pub get_run_by_id : ℕ → Action (Option Run)
get_run_by_id run_id = gets (λ s. get run_key run_id s.runs)

-- `participation.user_id == user_id and participation.run_id == run_id`
abbrev pub is_participation : ℕ → ℕ → RunParticipation → Bool
is_participation user_id run_id p = p.user_id == user_id && p.run_id == run_id

unfoldable pub get_participation : ℕ → ℕ → Action (Option RunParticipation)
get_participation user_id run_id =
    gets (λ s. find? (is_participation user_id run_id) s.participations)

unfoldable pub get_run_participations : ℕ → Action (List RunParticipation)
get_run_participations run_id =
    gets (λ s. keep (λ (p : RunParticipation). p.run_id == run_id) s.participations)

unfoldable pub get_runs_by_group : ℕ → Action (List Run)
get_runs_by_group group_id = gets (λ s. keep (λ (r : Run). r.group_id == group_id) s.runs)

abbrev pub new_participation : ℕ → ℕ → ℕ → Bool → Bool → RunParticipation
new_participation new_id user_id run_id is_leader is_helper = record {
  id = new_id;
  user_id = user_id;
  run_id = run_id;
  is_leader = is_leader;
  is_helper = is_helper;
  is_ready = false;
  is_removed = false;
}

unfoldable pub create_participation : ℕ → ℕ → Bool → Bool → Action RunParticipation
create_participation user_id run_id is_leader is_helper = do
  new_id ← draw_uuid4
  modify (λ s. record s {
    participations =
        put participation_key (new_participation new_id user_id run_id is_leader is_helper)
          s.participations;
  })
  pure (new_participation new_id user_id run_id is_leader is_helper)

abbrev pub new_run : ℕ → ℕ → ℕ → Option String → ℕ → Run
new_run new_id group_id store_id comment now = record {
  id = new_id;
  group_id = group_id;
  store_id = store_id;
  state = planning;
  comment = comment;
  planning_at = some now;
  active_at = none;
  confirmed_at = none;
  shopping_at = none;
  adjusting_at = none;
  distributing_at = none;
  completed_at = none;
  cancelled_at = none;
}

-- `_create_participation_helper` makes the row that `create_participation` makes.
unfoldable pub create_run : ℕ → ℕ → ℕ → Option String → Action Run
create_run group_id store_id leader_id comment = do
  new_id ← draw_uuid4
  now ← gets (λ s. s.now)
  modify
      (λ s. record s { runs = put run_key (new_run new_id group_id store_id comment now) s.runs })
  create_participation leader_id new_id true false
  pure (new_run new_id group_id store_id comment now)

abbrev pub set_comment : Option String → Run → Run
set_comment comment r = record r { comment = comment }

-- The body under `if run:` of `update_run_comment`.
unfoldable pub comment_run : ℕ → Option String → Option Run → Action (Option Run)
comment_run run_id comment none = pure none
comment_run run_id comment (some run) = do
  modify (λ s. record s { runs = update run_key run_id (set_comment comment) s.runs })
  pure (some (set_comment comment run))

unfoldable pub update_run_comment : ℕ → Option String → Action (Option Run)
update_run_comment run_id comment = do run ← get_run_by_id run_id; comment_run run_id comment run

unfoldable pub update_participation_ready : ℕ → Bool → Action (Unit {0})
update_participation_ready participation_id is_ready = modify (λ s. record s {
  participations =
      update participation_key participation_id
        (λ (p : RunParticipation). record p { is_ready = is_ready }) s.participations;
})

abbrev pub set_helper : Bool → RunParticipation → RunParticipation
set_helper is_helper p = record p { is_helper = is_helper }

-- The body of the loop of `update_participation_helper`, on the row at which it returns.
unfoldable pub help_with : Bool → Option RunParticipation → Action (Option RunParticipation)
help_with is_helper none = pure none
help_with is_helper (some participation) = do
  modify (λ s. record s {
    participations =
        update participation_key participation.id (set_helper is_helper) s.participations;
  })
  pure (some (set_helper is_helper participation))

unfoldable pub update_participation_helper : ℕ → ℕ → Bool → Action (Option RunParticipation)
update_participation_helper user_id run_id is_helper = do
  participation ← get_participation user_id run_id
  help_with is_helper participation

-- `participation.is_leader = is_leader`, on the row that a service holds
unfoldable pub set_leader : ℕ → Bool → Action (Unit {0})
set_leader participation_id is_leader = modify (λ s. record s {
  participations =
      update participation_key participation_id
        (λ (p : RunParticipation). record p { is_leader = is_leader }) s.participations;
})

-- `run.state = new_state; setattr(run, f'{new_state}_at', datetime.now(UTC))`
abbrev pub enter_state : RunState → ℕ → Run → Run
enter_state planning now r = record r { state = planning; planning_at = some now }
enter_state active now r = record r { state = active; active_at = some now }
enter_state confirmed now r = record r { state = confirmed; confirmed_at = some now }
enter_state shopping now r = record r { state = shopping; shopping_at = some now }
enter_state adjusting now r = record r { state = adjusting; adjusting_at = some now }
enter_state distributing now r = record r { state = distributing; distributing_at = some now }
enter_state completed now r = record r { state = completed; completed_at = some now }
enter_state cancelled now r = record r { state = cancelled; cancelled_at = some now }

-- The body under `if run:` of `update_run_state`.
unfoldable pub move_run : ℕ → RunState → Option Run → Action (Option Run)
move_run run_id new_state none = pure none
move_run run_id new_state (some run) = do
  lift (validate_transition run.state new_state)
  modify (λ s. record s { runs = update run_key run_id (enter_state new_state s.now) s.runs })
  get_run_by_id run_id

unfoldable pub update_run_state : ℕ → RunState → Action (Option Run)
update_run_state run_id new_state = do run ← get_run_by_id run_id; move_run run_id new_state run

-- `participation.is_removed = True`, on the row that a service holds
unfoldable pub set_removed : ℕ → Action (Unit {0})
set_removed participation_id = modify (λ s. record s {
  participations =
      update participation_key participation_id
        (λ (p : RunParticipation). record p { is_removed = true }) s.participations;
})

-- `run.state = RunState.CANCELLED`, which no transition is checked for
unfoldable pub set_cancelled : ℕ → Action (Unit {0})
set_cancelled run_id = modify (λ s. record s {
  runs = update run_key run_id (λ (r : Run). record r { state = cancelled }) s.runs;
})
