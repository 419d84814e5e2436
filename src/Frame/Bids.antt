-- ===== src/Frame/Bids.antt =====
-- The writing methods that leave the bids as they were.
use bulq.Common.{ℕ, refl, Bool, Option, none, some, List}
use bulq.Common.Int.{ℤ}
use bulq.RunState.{RunState}
use bulq.Model.{NotificationData, MemoryStorage, Run, ProductBid, DomainEvent, RequestStatus}
use bulq.Storage.{emit, draw_uuid4}
use bulq.Storage.Rules.{Leaves, Leaves-modify, leaves_rules}
use bulq.Access.Reads.{access_reads}
use bulq.Repo.Runs.{create_participation, update_participation_ready, update_run_state, move_run}
use bulq.Repo.Shopping.{create_shopping_list_item, update_shopping_list_item_requested_quantity}
use bulq.Repo.Notifications.{create_notification}
use bulq.Repo.Runs.{set_leader}
use bulq.Repo.Requests.{create_reassignment_request, update_reassignment_status}

abbrev pub bids_of : MemoryStorage → List ProductBid
bids_of s = s.bids

pub Leaves-emit : (e : DomainEvent) → Leaves bids_of (emit e)
unfolding emit
Leaves-emit e = record { at = λ s. refl }

pub Leaves-draw_uuid4 : Leaves bids_of draw_uuid4
unfolding draw_uuid4
Leaves-draw_uuid4 = record { at = λ s. refl }

pub ruleset left = (leaves_rules, access_reads, Leaves-emit, Leaves-draw_uuid4)

pub Leaves-create_participation :
    (u r : ℕ) (l h : Bool) → Leaves bids_of (create_participation u r l h)
unfolding create_participation
Leaves-create_participation u r l h = search (left, Leaves-modify)

pub Leaves-update_participation_ready :
    (i : ℕ) (b : Bool) → Leaves bids_of (update_participation_ready i b)
unfolding update_participation_ready
Leaves-update_participation_ready i b = search (left, Leaves-modify)

Leaves-move_run : (i : ℕ) (t : RunState) (o : Option Run) → Leaves bids_of (move_run i t o)
unfolding move_run
Leaves-move_run i t none = search (left, Leaves-modify)
Leaves-move_run i t (some x) = search (left, Leaves-modify)

pub Leaves-update_run_state : (i : ℕ) (t : RunState) → Leaves bids_of (update_run_state i t)
unfolding update_run_state
Leaves-update_run_state i t = search (left, Leaves-move_run)

pub Leaves-create_shopping_list_item :
    (r p : ℕ) (q : ℤ) → Leaves bids_of (create_shopping_list_item r p q)
unfolding create_shopping_list_item
Leaves-create_shopping_list_item r p q = search (left, Leaves-modify)

pub Leaves-update_shopping_list_item_requested_quantity :
    (i : ℕ) (q : ℤ) → Leaves bids_of (update_shopping_list_item_requested_quantity i q)
unfolding update_shopping_list_item_requested_quantity
Leaves-update_shopping_list_item_requested_quantity i q = search (left, Leaves-modify)

pub Leaves-create_reassignment_request :
    (r u v : ℕ) → Leaves bids_of (create_reassignment_request r u v)
unfolding create_reassignment_request
Leaves-create_reassignment_request r u v = search (left, Leaves-modify)

pub Leaves-update_reassignment_status :
    (i : ℕ) (t : RequestStatus) → Leaves bids_of (update_reassignment_status i t)
unfolding update_reassignment_status
Leaves-update_reassignment_status i t = search (left, Leaves-modify)

pub Leaves-create_notification :
    (u : ℕ) (d : NotificationData) → Leaves bids_of (create_notification u d)
unfolding create_notification
Leaves-create_notification u d = search (left, Leaves-modify)

pub Leaves-set_leader : (i : ℕ) (b : Bool) → Leaves bids_of (set_leader i b)
unfolding set_leader
Leaves-set_leader i b = search (left, Leaves-modify)

pub ruleset bids_left = (
  left, Leaves-create_notification, Leaves-set_leader, Leaves-create_participation,
  Leaves-update_participation_ready, Leaves-update_run_state, Leaves-create_shopping_list_item,
  Leaves-update_shopping_list_item_requested_quantity, Leaves-create_reassignment_request,
  Leaves-update_reassignment_status,
)
