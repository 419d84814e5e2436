-- ===== src/Frame/Participations.antt =====
-- The writing methods that leave the participations as they were.
pub mod Shop
use bulq.Common.{ℕ, refl, Bool, Option, none, some, String, List}
use bulq.Common.Int.{ℤ}
use bulq.RunState.{RunState}
use bulq.Model.{
  NotificationData, MemoryStorage, Run, RunParticipation, ProductBid, DomainEvent, RequestStatus,
}
use bulq.Storage.{emit, draw_uuid4}
use bulq.Storage.Rules.{Leaves, Leaves-modify, leaves_rules}
use bulq.Access.Reads.{access_reads}
use bulq.Repo.Runs.{update_run_state, move_run}
use bulq.Repo.Bids.{
  create_or_update_bid, write_bid, delete_bid, delete_found, update_bid_distributed_quantities,
  set_picked_up,
}
use bulq.Repo.Shopping.{create_shopping_list_item, update_shopping_list_item_requested_quantity}
use bulq.Repo.Notifications.{create_notification}
use bulq.Repo.Requests.{create_reassignment_request, update_reassignment_status}

abbrev pub participations_of : MemoryStorage → List RunParticipation
participations_of s = s.participations

pub Leaves-emit : (e : DomainEvent) → Leaves participations_of (emit e)
unfolding emit
Leaves-emit e = record { at = λ s. refl }

pub Leaves-draw_uuid4 : Leaves participations_of draw_uuid4
unfolding draw_uuid4
Leaves-draw_uuid4 = record { at = λ s. refl }

pub ruleset left = (leaves_rules, access_reads, Leaves-emit, Leaves-draw_uuid4)

Leaves-move_run :
    (i : ℕ) (t : RunState) (o : Option Run) → Leaves participations_of (move_run i t o)
unfolding move_run
Leaves-move_run i t none = search (left, Leaves-modify)
Leaves-move_run i t (some x) = search (left, Leaves-modify)

pub Leaves-update_run_state :
    (i : ℕ) (t : RunState) → Leaves participations_of (update_run_state i t)
unfolding update_run_state
Leaves-update_run_state i t = search (left, Leaves-move_run)

Leaves-write_bid :
    (p i : ℕ) (q : ℤ) (b : Bool) (c : Option String) (o : Option ProductBid)
    → Leaves participations_of (write_bid p i q b c o)
unfolding write_bid
Leaves-write_bid p i q b c none = search (left, Leaves-modify)
Leaves-write_bid p i q b c (some x) = search (left, Leaves-modify)

pub Leaves-create_or_update_bid :
    (p i : ℕ) (q : ℤ) (b : Bool) (c : Option String)
    → Leaves participations_of (create_or_update_bid p i q b c)
unfolding create_or_update_bid
Leaves-create_or_update_bid p i q b c = search (left, Leaves-write_bid)

Leaves-delete_found : (o : Option ProductBid) → Leaves participations_of (delete_found o)
unfolding delete_found
Leaves-delete_found none = search (left, Leaves-modify)
Leaves-delete_found (some x) = search (left, Leaves-modify)

pub Leaves-delete_bid : (p i : ℕ) → Leaves participations_of (delete_bid p i)
unfolding delete_bid
Leaves-delete_bid p i = search (left, Leaves-delete_found)

pub Leaves-update_bid_distributed_quantities :
    (i : ℕ) (q : ℤ) (c : Option ℤ)
    → Leaves participations_of (update_bid_distributed_quantities i q c)
unfolding update_bid_distributed_quantities
Leaves-update_bid_distributed_quantities i q c = search (left, Leaves-modify)

pub Leaves-set_picked_up : (i : ℕ) → Leaves participations_of (set_picked_up i)
unfolding set_picked_up
Leaves-set_picked_up i = search (left, Leaves-modify)

pub Leaves-create_shopping_list_item :
    (r p : ℕ) (q : ℤ) → Leaves participations_of (create_shopping_list_item r p q)
unfolding create_shopping_list_item
Leaves-create_shopping_list_item r p q = search (left, Leaves-modify)

pub Leaves-update_shopping_list_item_requested_quantity :
    (i : ℕ) (q : ℤ) → Leaves participations_of (update_shopping_list_item_requested_quantity i q)
unfolding update_shopping_list_item_requested_quantity
Leaves-update_shopping_list_item_requested_quantity i q = search (left, Leaves-modify)

pub Leaves-create_reassignment_request :
    (r u v : ℕ) → Leaves participations_of (create_reassignment_request r u v)
unfolding create_reassignment_request
Leaves-create_reassignment_request r u v = search (left, Leaves-modify)

pub Leaves-update_reassignment_status :
    (i : ℕ) (t : RequestStatus) → Leaves participations_of (update_reassignment_status i t)
unfolding update_reassignment_status
Leaves-update_reassignment_status i t = search (left, Leaves-modify)

pub Leaves-create_notification :
    (u : ℕ) (d : NotificationData) → Leaves participations_of (create_notification u d)
unfolding create_notification
Leaves-create_notification u d = search (left, Leaves-modify)

pub ruleset participations_left = (
  left, Leaves-create_notification, Leaves-update_run_state, Leaves-create_or_update_bid,
  Leaves-delete_bid, Leaves-update_bid_distributed_quantities, Leaves-set_picked_up,
  Leaves-create_shopping_list_item, Leaves-update_shopping_list_item_requested_quantity,
  Leaves-create_reassignment_request, Leaves-update_reassignment_status,
)
