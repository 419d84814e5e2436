-- ===== src/Tests.antt =====
-- Data for the tests and the examples: one group of two users, with a run in each of four states.
pub mod Runs
pub mod Shop
pub mod Groups
pub mod Together
pub mod Notices
pub mod Admin
pub mod Rows
pub mod Sharing
pub mod Diagram
use bulq.Common.{
  ℕ, ◌+◌, ◌*◌, Bool, true, false, Option, none, some, List, [], ◌∷◌, zero, suc, ◌==◌, ◌&&◌,
}
use Prim.Native.Nat.{◌/◌}
use bulq.Common.Int.{ℤ, pos, negsuc}
use bulq.RunState.{RunState, planning, active, adjusting, distributing}
use bulq.Model.{
  MemoryStorage, User, Group, Store, Run, RunParticipation, ProductBid, ShoppingListItem,
  LeaderReassignmentRequest, pending,
}

abbrev pub alice : User
alice = record { id = 1; name = "Alice" }

abbrev pub bob : User
bob = record { id = 2; name = "Bob" }

abbrev pub group : Group
group = record {
  id = 1;
  name = "Neighbours";
  created_by = 1;
  invite_token = 77;
  is_joining_allowed = true;
}

abbrev pub run_in : ℕ → RunState → Run
run_in n state = record {
  id = n;
  group_id = 1;
  store_id = 1;
  state = state;
  comment = none;
  planning_at = some 1;
  active_at = none;
  confirmed_at = none;
  shopping_at = none;
  adjusting_at = none;
  distributing_at = none;
  completed_at = none;
  cancelled_at = none;
}

abbrev pub participation : (id user_id run_id : ℕ) (is_leader : Bool) → RunParticipation
participation n u r leader = record {
  id = n;
  user_id = u;
  run_id = r;
  is_leader = leader;
  is_helper = false;
  is_ready = false;
  is_removed = false;
}

abbrev pub bid : (id participation_id : ℕ) (quantity : ℤ) → ProductBid
bid n p q = record {
  id = n;
  participation_id = p;
  product_id = 7;
  quantity = q;
  interested_only = false;
  comment = none;
  distributed_quantity = none;
  distributed_price_per_unit = none;
  is_picked_up = false;
}

abbrev pub item : (requested purchased : ℤ) → ShoppingListItem
item requested purchased = record {
  id = 40;
  run_id = 12;
  product_id = 7;
  requested_quantity = requested;
  purchased_quantity = some purchased;
  purchased_price_per_unit = some (pos 250);
  purchased_total = none;
  is_purchased = true;
  purchase_order = some 1;
}

abbrev pub request : LeaderReassignmentRequest
request = record {
  id = 50;
  run_id = 11;
  from_user_id = 1;
  to_user_id = 2;
  status = pending;
  created_at = 1;
  resolved_at = none;
}

-- Run 10 is planned, 11 active, 12 in `adjusting` and 13 in distribution; Alice leads them all, and
-- Bob takes part in 11 and 12.
abbrev pub storage : MemoryStorage
storage = record {
  groups = group ∷ [];
  group_memberships = (1, 1 ∷ 2 ∷ []) ∷ [];
  group_admin_status = λ g u. (g == 1) && (u == 1);
  stores = [];
  products = 7 ∷ 8 ∷ [];
  product_availabilities = [];
  users = 1 ∷ 2 ∷ [];
  runs = run_in 10 planning ∷ run_in 11 active ∷ run_in 12 adjusting ∷ run_in 13 distributing ∷ [];
  participations =
      participation 20 1 10 true
      ∷ participation 21 1 11 true
      ∷ participation 22 2 11 false
      ∷ participation 23 1 12 true
      ∷ participation 24 2 12 false
      ∷ participation 25 1 13 true
      ∷ [];
  bids = bid 30 21 (pos 300) ∷ bid 31 22 (pos 200) ∷ bid 32 23 (pos 200) ∷ bid 33 24 (pos 100) ∷ [];
  shopping_list_items = item (pos 300) (pos 200) ∷ [];
  reassignment_requests = request ∷ [];
  notifications = [];
  events = [];
  uuid4 = λ n. suc (99 + n);
  now = 2;
}

-- `q * p / t`, rounded to the nearest, for positive numbers
abbrev pub rounded : ℤ → ℤ → ℤ → ℤ
rounded (pos q) (pos p) (pos (suc t)) = pos ((2 * (q * p) + suc t) / (2 * suc t))
rounded _ _ _ = pos 0
