-- ===== src/DistributionService/Notified.antt =====
-- The notices of a change of state leave the runs as they are, and do not raise.
use bulq.Common.{ℕ, List, [], ◌∷◌}
use bulq.RunState.{RunState}
use bulq.Model.{Run, RunParticipation, NotificationData}
use bulq.Storage.Rules.{Leaves, Returns, returns_rules}
use bulq.Access.Reads.{Returns-get_all_stores}
use bulq.Frame.Runs.{runs_of, runs_left}
use bulq.Repo.Runs.{get_run_participations}
use bulq.Repo.Notifications.{create_notification}
use bulq.DistributionService.{notify_participants, notify_run_state_change}

Leaves-notify_participants :
    (d : NotificationData) (ps : List RunParticipation) → Leaves runs_of (notify_participants d ps)
unfolding notify_participants
Leaves-notify_participants d [] = search runs_left
Leaves-notify_participants d (p ∷ ps) =
    search (runs_left, λ (u : Unit {0}). Leaves-notify_participants d ps)

pub Leaves-notify_run_state_change :
    (r : Run) (a b : RunState) → Leaves runs_of (notify_run_state_change r a b)
unfolding notify_run_state_change
Leaves-notify_run_state_change r a b = search (runs_left, Leaves-notify_participants) depth 8

pub Returns-create_notification : (u : ℕ) (d : NotificationData) → Returns (create_notification u d)
unfolding create_notification
Returns-create_notification u d = search (returns_rules) depth 8

Returns-notify_participants :
    (d : NotificationData) (ps : List RunParticipation) → Returns (notify_participants d ps)
unfolding notify_participants
Returns-notify_participants d [] = search returns_rules
Returns-notify_participants d (p ∷ ps) =
    search (
      returns_rules,
      Returns-create_notification,
      λ (v : Unit {0}). Returns-notify_participants d ps,
    )

pub Returns-notify_run_state_change :
    (r : Run) (a b : RunState) → Returns (notify_run_state_change r a b)
unfolding notify_run_state_change get_run_participations
Returns-notify_run_state_change r a b =
    search (returns_rules, Returns-get_all_stores, Returns-notify_participants) depth 8
