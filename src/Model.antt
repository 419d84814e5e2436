-- ===== src/Model.antt =====
-- The rows of backend/app/core/models.py that the modelled services read or write, with the fields
-- that they use; the domain events; and the shared storage of backend/app/repositories/memory.
--
-- A UUID is a number, since ids are only compared. A timestamp is the number of its microseconds. A
-- DECIMAL(10, 2) is the integer number of its hundredths.
use bulq.Common.{ℕ, String, Bool, Option, List}
use bulq.Common.Int.{ℤ}
use bulq.RunState.{RunState}

pub record User : Type 0 where
  pub id : ℕ
  pub name : String

pub record Store : Type 0 where
  pub id : ℕ
  pub name : String

-- An invitation token is the text of a UUID.
pub record Group : Type 0 where
  pub id : ℕ
  pub name : String
  pub created_by : ℕ
  pub invite_token : ℕ
  pub is_joining_allowed : Bool

pub record Run : Type 0 where
  pub id : ℕ
  pub group_id : ℕ
  pub store_id : ℕ
  pub state : RunState
  pub comment : Option String
  pub planning_at : Option ℕ
  pub active_at : Option ℕ
  pub confirmed_at : Option ℕ
  pub shopping_at : Option ℕ
  pub adjusting_at : Option ℕ
  pub distributing_at : Option ℕ
  pub completed_at : Option ℕ
  pub cancelled_at : Option ℕ

pub record RunParticipation : Type 0 where
  pub id : ℕ
  pub user_id : ℕ
  pub run_id : ℕ
  pub is_leader : Bool
  pub is_helper : Bool
  pub is_ready : Bool
  pub is_removed : Bool

pub record ProductBid : Type 0 where
  pub id : ℕ
  pub participation_id : ℕ
  pub product_id : ℕ
  pub quantity : ℤ
  pub interested_only : Bool
  pub comment : Option String
  pub distributed_quantity : Option ℤ
  pub distributed_price_per_unit : Option ℤ
  pub is_picked_up : Bool

pub record ShoppingListItem : Type 0 where
  pub id : ℕ
  pub run_id : ℕ
  pub product_id : ℕ
  pub requested_quantity : ℤ
  pub purchased_quantity : Option ℤ
  pub purchased_price_per_unit : Option ℤ
  pub purchased_total : Option ℤ
  pub is_purchased : Bool
  pub purchase_order : Option ℕ

-- A price that somebody saw in a store.
pub record ProductAvailability : Type 0 where
  pub id : ℕ
  pub product_id : ℕ
  pub store_id : ℕ
  pub price : Option ℤ
  pub notes : String
  pub minimum_quantity : Option ℕ
  pub created_at : ℕ
  pub created_by : ℕ

pub data RequestStatus : Type 0 where
  pending accepted declined request_cancelled : RequestStatus

pub record LeaderReassignmentRequest : Type 0 where
  pub id : ℕ
  pub run_id : ℕ
  pub from_user_id : ℕ
  pub to_user_id : ℕ
  pub status : RequestStatus
  pub created_at : ℕ
  pub resolved_at : Option ℕ

-- domain_events.py: the events that the modelled services emit.
pub data DomainEvent : Type 0 where
  bid_placed :
      (run_id product_id user_id : ℕ) (user_name : String) (quantity : ℤ) (interested_only : Bool)
      (new_total : ℤ) (group_id : ℕ)
      → DomainEvent
  bid_retracted : (run_id product_id user_id : ℕ) (new_total : ℤ) (group_id : ℕ) → DomainEvent
  ready_toggled : (run_id user_id : ℕ) (is_ready : Bool) (group_id : ℕ) → DomainEvent
  run_state_changed :
      (run_id group_id : ℕ) (old_state new_state : RunState) (store_name : String) → DomainEvent
  run_cancelled : (run_id group_id : ℕ) (store_name : String) → DomainEvent
  run_created :
      (run_id group_id store_id : ℕ) (store_name : String) (state : RunState) (leader_name : String)
      → DomainEvent
  member_joined : (group_id user_id : ℕ) (user_name : String) → DomainEvent
  member_removed : (group_id user_id removed_by_id : ℕ) → DomainEvent

-- The data of a notification: backend/app/api/schemas/notification_data.py.
pub data NotificationData : Type 0 where
  run_state_changed_data :
      (run_id : ℕ) (store_name : String) (old_state new_state : RunState) (group_id : ℕ)
      → NotificationData
  leader_reassignment_request_data :
      (run_id from_user_id : ℕ) (from_user_name : String) (request_id : ℕ) (store_name : String)
      → NotificationData
  leader_reassignment_accepted_data :
      (run_id new_leader_id : ℕ) (new_leader_name store_name : String) → NotificationData
  leader_reassignment_declined_data :
      (run_id declined_by_id : ℕ) (declined_by_name store_name : String) → NotificationData

pub record Notification : Type 0 where
  pub id : ℕ
  pub user_id : ℕ
  pub content : NotificationData
  pub read : Bool
  pub created_at : ℕ

-- The tables of memory/storage.py as lists of rows in insertion order; `group_memberships` maps a
-- group to the ids of its members, and `group_admin_status` a group and a user to what is stored
-- under the pair, or to false. Of products and users only the ids are kept. `events` is what `event_bus.emit` has been given, the latest
-- first. `uuid4` is the sequence of the ids that `uuid4()` will give, and `now` what
-- `datetime.now(UTC)` gives during the request.
pub record MemoryStorage : Type 0 where
  pub groups : List Group
  pub group_memberships : List (ℕ × List ℕ)
  pub group_admin_status : ℕ → ℕ → Bool
  pub stores : List Store
  pub products : List ℕ
  pub product_availabilities : List ProductAvailability
  pub users : List ℕ
  pub runs : List Run
  pub participations : List RunParticipation
  pub bids : List ProductBid
  pub shopping_list_items : List ShoppingListItem
  pub reassignment_requests : List LeaderReassignmentRequest
  pub notifications : List Notification
  pub events : List DomainEvent
  pub uuid4 : ℕ → ℕ
  pub now : ℕ
