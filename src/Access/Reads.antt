-- ===== src/Access/Reads.antt =====
-- The checks of `Access` and the look-ups of the repositories only read.
use bulq.Common.{ℕ}
use bulq.Model.{User, Run}
use bulq.Storage.Rules.{Reads, Returns, reads_rules, returns_rules, IsAtomic, atomic_rules}
use bulq.Repo.Directory.{
  get_user_groups, get_groups_of, get_all_stores, get_store_by_id, get_store_name,
  get_product_by_id, get_user_by_id,
}
use bulq.Repo.Runs.{get_run_by_id, get_participation, get_run_participations, get_runs_by_group}
use bulq.Repo.Bids.{get_bids_by_run, get_bid, get_bid_by_id}
use bulq.Repo.Shopping.{get_shopping_list_items}
use bulq.Repo.Requests.{get_reassignment_request_by_id, get_pending_reassignment_for_run}
use bulq.Access.{
  require_run, require_member, require_leader, require_leader_or_helper, get_user_participation,
}

pub Reads-get_run_by_id : (i : ℕ) → Reads (get_run_by_id i)
unfolding get_run_by_id
Reads-get_run_by_id i = search reads_rules

pub Returns-get_run_by_id : (i : ℕ) → Returns (get_run_by_id i)
unfolding get_run_by_id
Returns-get_run_by_id i = search returns_rules

pub Reads-get_participation : (u r : ℕ) → Reads (get_participation u r)
unfolding get_participation
Reads-get_participation u r = search reads_rules

pub Reads-get_run_participations : (r : ℕ) → Reads (get_run_participations r)
unfolding get_run_participations
Reads-get_run_participations r = search reads_rules

pub Reads-get_bids_by_run : (r : ℕ) → Reads (get_bids_by_run r)
unfolding get_bids_by_run
Reads-get_bids_by_run r = search reads_rules

pub Reads-get_bid : (p q : ℕ) → Reads (get_bid p q)
unfolding get_bid
Reads-get_bid p q = search reads_rules

pub Reads-get_bid_by_id : (i : ℕ) → Reads (get_bid_by_id i)
unfolding get_bid_by_id
Reads-get_bid_by_id i = search reads_rules

pub Reads-get_shopping_list_items : (r : ℕ) → Reads (get_shopping_list_items r)
unfolding get_shopping_list_items
Reads-get_shopping_list_items r = search reads_rules

pub Reads-get_reassignment_request_by_id : (i : ℕ) → Reads (get_reassignment_request_by_id i)
unfolding get_reassignment_request_by_id
Reads-get_reassignment_request_by_id i = search reads_rules

pub Reads-get_pending_reassignment_for_run : (r : ℕ) → Reads (get_pending_reassignment_for_run r)
unfolding get_pending_reassignment_for_run
Reads-get_pending_reassignment_for_run r = search reads_rules

pub Reads-get_user_groups : (u : User) → Reads (get_user_groups u)
unfolding get_user_groups
Reads-get_user_groups u = search reads_rules

pub Reads-get_groups_of : (u : ℕ) → Reads (get_groups_of u)
unfolding get_groups_of
Reads-get_groups_of u = search reads_rules

pub Reads-get_runs_by_group : (g : ℕ) → Reads (get_runs_by_group g)
unfolding get_runs_by_group
Reads-get_runs_by_group g = search reads_rules

pub Reads-get_all_stores : Reads get_all_stores
unfolding get_all_stores
Reads-get_all_stores = search reads_rules

pub Returns-get_all_stores : Returns get_all_stores
unfolding get_all_stores
Returns-get_all_stores = search returns_rules

pub Reads-get_product_by_id : (i : ℕ) → Reads (get_product_by_id i)
unfolding get_product_by_id
Reads-get_product_by_id i = search reads_rules

pub Reads-get_user_by_id : (i : ℕ) → Reads (get_user_by_id i)
unfolding get_user_by_id
Reads-get_user_by_id i = search reads_rules

pub ruleset lookup_reads = (
  reads_rules, Reads-get_run_by_id, Reads-get_participation, Reads-get_run_participations,
  Reads-get_bids_by_run, Reads-get_bid, Reads-get_bid_by_id, Reads-get_shopping_list_items,
  Reads-get_reassignment_request_by_id, Reads-get_pending_reassignment_for_run, Reads-get_groups_of,
  Reads-get_runs_by_group, Reads-get_user_groups, Reads-get_all_stores, Reads-get_product_by_id,
  Reads-get_user_by_id,
)

pub Reads-require_run : (i : ℕ) → Reads (require_run i)
unfolding require_run
Reads-require_run i = search lookup_reads

pub Reads-require_member : (r : Run) (u : User) → Reads (require_member r u)
unfolding require_member
Reads-require_member r u = search lookup_reads

pub Reads-require_leader : (i : ℕ) (u : User) → Reads (require_leader i u)
unfolding require_leader
Reads-require_leader i u = search lookup_reads

pub Reads-require_leader_or_helper : (i : ℕ) (u : User) → Reads (require_leader_or_helper i u)
unfolding require_leader_or_helper
Reads-require_leader_or_helper i u = search lookup_reads

pub Reads-get_user_participation : (u r : ℕ) → Reads (get_user_participation u r)
unfolding get_user_participation
Reads-get_user_participation u r = search lookup_reads

pub Reads-get_store_by_id : (i : ℕ) → Reads (get_store_by_id i)
unfolding get_store_by_id
Reads-get_store_by_id i = search reads_rules

pub Reads-get_store_name : (i : ℕ) → Reads (get_store_name i)
unfolding get_store_name
Reads-get_store_name i = search (reads_rules, Reads-get_store_by_id)

pub ruleset access_reads = (
  lookup_reads, Reads-get_store_name, Reads-require_run, Reads-require_member, Reads-require_leader,
  Reads-require_leader_or_helper, Reads-get_user_participation,
)
