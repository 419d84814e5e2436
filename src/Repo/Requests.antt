-- ===== src/Repo/Requests.antt =====
-- memory/reassignment.py: requests to hand over the lead of a run.
use bulq.Common.{ℕ, Bool, true, false, Option, none, some, find?, ◌==◌, ◌&&◌}
use bulq.Table.{get, update, put}
use bulq.Model.{
  LeaderReassignmentRequest, RequestStatus, pending, accepted, declined, request_cancelled,
}
use bulq.Storage.{Action, pure, gets, modify, draw_uuid4, ◌>>=◌, ◌>>◌}

abbrev pub request_key : LeaderReassignmentRequest → ℕ
request_key r = r.id

-- `request.status == 'pending'`
abbrev pub is_pending : RequestStatus → Bool
is_pending pending = true
is_pending accepted = false
is_pending declined = false
is_pending request_cancelled = false

abbrev pub new_request : ℕ → ℕ → ℕ → ℕ → ℕ → LeaderReassignmentRequest
new_request new_id run_id from_user_id to_user_id now = record {
  id = new_id;
  run_id = run_id;
  from_user_id = from_user_id;
  to_user_id = to_user_id;
  status = pending;
  created_at = now;
  resolved_at = none;
}

unfoldable pub create_reassignment_request : ℕ → ℕ → ℕ → Action LeaderReassignmentRequest
create_reassignment_request run_id from_user_id to_user_id = do
  new_id ← draw_uuid4
  now ← gets (λ s. s.now)
  modify (λ s. record s {
    reassignment_requests =
        put request_key (new_request new_id run_id from_user_id to_user_id now)
          s.reassignment_requests;
  })
  pure (new_request new_id run_id from_user_id to_user_id now)

unfoldable pub get_reassignment_request_by_id : ℕ → Action (Option LeaderReassignmentRequest)
get_reassignment_request_by_id request_id =
    gets (λ s. get request_key request_id s.reassignment_requests)

-- `request.run_id == run_id and request.status == 'pending'`
abbrev pub is_pending_for : ℕ → LeaderReassignmentRequest → Bool
is_pending_for run_id r = r.run_id == run_id && is_pending r.status

unfoldable pub get_pending_reassignment_for_run : ℕ → Action (Option LeaderReassignmentRequest)
get_pending_reassignment_for_run run_id =
    gets (λ s. find? (is_pending_for run_id) s.reassignment_requests)

unfoldable pub update_reassignment_status : ℕ → RequestStatus → Action (Unit {0})
update_reassignment_status request_id status = modify (λ s. record s {
  reassignment_requests =
      update request_key request_id
        (λ (r : LeaderReassignmentRequest). record r { status = status; resolved_at = some s.now })
        s.reassignment_requests;
})
