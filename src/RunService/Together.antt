-- ===== src/RunService/Together.antt =====
-- Requests on runs and requests on groups, in any order: where they can take a run.
use bulq.Common.{ℕ, ◌≡◌, ◌⊎◌, Option, some, List, [], ◌∷◌}
use bulq.Common.Int.{ℤ}
use bulq.RunState.{RunState, cancelled}
use bulq.RunState.Graph.{◌⟶*◌}
use bulq.Model.{MemoryStorage, User, Run}
use bulq.GroupService.Requests.{GroupCall, perform_group}
use bulq.RunService.{Call, perform}

pub data Request : Type 0 where
  on_run : Call → Request
  on_group : GroupCall → Request

-- The run is still there, for the same group and store, in a state that the diagram reaches from its
-- state before, or cancelled.
pub record IsLedOn (before : Run) (found : Option Run) : Type 0 where
  pub now : Run
  pub is_found : found ≡ some now
  pub reached : (before.state ⟶* now.state) ⊎ (now.state ≡ cancelled)
  pub same_group : now.group_id ≡ before.group_id
  pub same_store : now.store_id ≡ before.store_id

module _ (max_products max_groups max_members : ℕ) (scaled : ℤ → ℤ → ℤ → ℤ) where
  unfoldable pub perform_request : User → Request → MemoryStorage → MemoryStorage
  perform_request u (on_run c) = perform max_products scaled u c
  perform_request u (on_group c) = perform_group max_groups max_members u c

  -- The requests one after another, each at its time.
  unfoldable pub serve_requests : List (ℕ × User × Request) → MemoryStorage → MemoryStorage
  serve_requests [] s = s
  serve_requests ((now, user, request) ∷ requests) s =
      serve_requests requests (perform_request user request (record s { now = now }))
