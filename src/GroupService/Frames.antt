-- ===== src/GroupService/Frames.antt =====
-- What leaves the members and the admins of all groups as they were.
use bulq.Common.{ℕ, refl, Bool, Option, none, some, List, [], ◌∷◌}
use bulq.Model.{User, Group, DomainEvent, Run, RunParticipation, ProductBid}
use bulq.Storage.{IdText, emit, draw_uuid4}
use bulq.Storage.Rules.{Reads, Leaves, Leaves-modify, leaves_rules, reads_rules}
use bulq.Access.Reads.{access_reads}
use bulq.Repo.Runs.{set_removed, set_cancelled}
use bulq.Repo.Bids.{get_bids_by_participation, delete_bid, delete_found}
use bulq.Repo.Groups.{
  get_group_by_id, get_group_by_invite_token, get_group_members, is_user_group_admin,
  get_group_members_with_admin_status, amend_group, renew_token, update_group_joining_allowed,
  regenerate_group_invite_token,
}
use bulq.GroupService.Roles.{part_of}
use bulq.GroupService.Departure.{
  mark_removed, mark_all_removed, delete_bids, drop_bids, cancel_if_led, leave_runs,
}
use bulq.GroupService.Methods.{
  require_group, require_admin, validate_group_invite, check_membership_constraints,
  validate_member_removal_request, regenerate_invite_token, toggle_joining_allowed,
}

pub Reads-get_group_by_id : (g : ℕ) → Reads (get_group_by_id g)
unfolding get_group_by_id
Reads-get_group_by_id g = search reads_rules

Reads-get_group_by_invite_token : (t : ℕ) → Reads (get_group_by_invite_token t)
unfolding get_group_by_invite_token
Reads-get_group_by_invite_token t = search reads_rules

pub Reads-get_group_members : (g : ℕ) → Reads (get_group_members g)
unfolding get_group_members
Reads-get_group_members g = search reads_rules

pub Reads-is_user_group_admin : (g u : ℕ) → Reads (is_user_group_admin g u)
unfolding is_user_group_admin
Reads-is_user_group_admin g u = search reads_rules

pub Reads-get_members : (g : ℕ) → Reads (get_group_members_with_admin_status g)
unfolding get_group_members_with_admin_status
Reads-get_members g = search reads_rules

Reads-get_bids_by_participation : (p : ℕ) → Reads (get_bids_by_participation p)
unfolding get_bids_by_participation
Reads-get_bids_by_participation p = search reads_rules

pub Reads-require_group : (g : ℕ) → Reads (require_group g)
unfolding require_group
Reads-require_group g = search (reads_rules, Reads-get_group_by_id)

pub Reads-require_admin : (g : ℕ) (u : User) → Reads (require_admin g u)
unfolding require_admin
Reads-require_admin g u = search (reads_rules, Reads-is_user_group_admin)

pub Reads-validate_group_invite : (t : ℕ) → Reads (validate_group_invite t)
unfolding validate_group_invite
Reads-validate_group_invite t = search (reads_rules, Reads-get_group_by_invite_token) depth 8

pub Reads-check_membership_constraints :
    (m n : ℕ) (u : User) (g : Group) → Reads (check_membership_constraints m n u g)
unfolding check_membership_constraints
Reads-check_membership_constraints m n u g =
    search (reads_rules, access_reads, Reads-get_group_members) depth 12

pub Reads-validate_removal :
    (g m : IdText) (u : User) → Reads (validate_member_removal_request g m u)
unfolding validate_member_removal_request
Reads-validate_removal g m u =
    search
      (
        reads_rules, Reads-require_group, Reads-require_admin, Reads-is_user_group_admin,
        Reads-get_members,
      )
      depth 16

pub Leaves-emit : (e : DomainEvent) → Leaves part_of (emit e)
unfolding emit
Leaves-emit e = record { at = λ s. refl }

Leaves-draw_uuid4 : Leaves part_of draw_uuid4
unfolding draw_uuid4
Leaves-draw_uuid4 = record { at = λ s. refl }

ruleset left = (
  leaves_rules, access_reads, Reads-get_group_by_id, Reads-is_user_group_admin, Reads-require_group,
  Reads-require_admin, Reads-get_bids_by_participation, Leaves-emit, Leaves-draw_uuid4,
)

Leaves-amend_group :
    (g : ℕ) (f : Group → Group) (o : Option Group) → Leaves part_of (amend_group g f o)
unfolding amend_group
Leaves-amend_group g f none = search left
Leaves-amend_group g f (some x) = search (left, Leaves-modify)

Leaves-renew_token : (g : ℕ) (o : Option Group) → Leaves part_of (renew_token g o)
unfolding renew_token
Leaves-renew_token g none = search left
Leaves-renew_token g (some x) = search (left, Leaves-amend_group)

pub Leaves-regenerate_invite_token :
    (g : IdText) (u : User) → Leaves part_of (regenerate_invite_token g u)
unfolding regenerate_invite_token regenerate_group_invite_token
Leaves-regenerate_invite_token g u = search (left, Leaves-renew_token) depth 12

pub Leaves-toggle_joining_allowed :
    (g : IdText) (u : User) → Leaves part_of (toggle_joining_allowed g u)
unfolding toggle_joining_allowed update_group_joining_allowed
Leaves-toggle_joining_allowed g u = search (left, Leaves-amend_group) depth 12

Leaves-set_removed : (p : ℕ) → Leaves part_of (set_removed p)
unfolding set_removed
Leaves-set_removed p = search (left, Leaves-modify)

Leaves-mark_removed :
    (m : ℕ) (p : RunParticipation) (o : Option ℕ) → Leaves part_of (mark_removed m p o)
unfolding mark_removed
Leaves-mark_removed m p o = search (left, Leaves-set_removed)

Leaves-mark_all_removed :
    (m : ℕ) (ps : List RunParticipation) (o : Option ℕ) → Leaves part_of (mark_all_removed m ps o)
unfolding mark_all_removed
Leaves-mark_all_removed m [] o = search left
Leaves-mark_all_removed m (p ∷ ps) o =
    search (left, Leaves-mark_removed, λ (o' : Option ℕ). Leaves-mark_all_removed m ps o')

Leaves-delete_found : (o : Option ProductBid) → Leaves part_of (delete_found o)
unfolding delete_found
Leaves-delete_found none = search left
Leaves-delete_found (some b) = search (left, Leaves-modify)

Leaves-delete_bid : (p i : ℕ) → Leaves part_of (delete_bid p i)
unfolding delete_bid
Leaves-delete_bid p i = search (left, Leaves-delete_found)

Leaves-delete_bids : (p : ℕ) (bids : List ProductBid) → Leaves part_of (delete_bids p bids)
unfolding delete_bids
Leaves-delete_bids p [] = search left
Leaves-delete_bids p (b ∷ bids) =
    search (left, Leaves-delete_bid, λ (v : Bool). Leaves-delete_bids p bids)

Leaves-drop_bids : (r : Run) (o : Option ℕ) → Leaves part_of (drop_bids r o)
unfolding drop_bids
Leaves-drop_bids r none = search left
Leaves-drop_bids r (some p) = search (left, Leaves-delete_bids)

Leaves-set_cancelled : (r : ℕ) → Leaves part_of (set_cancelled r)
unfolding set_cancelled
Leaves-set_cancelled r = search (left, Leaves-modify)

Leaves-cancel_if_led :
    (m : ℕ) (r : Run) (ps : List RunParticipation) → Leaves part_of (cancel_if_led m r ps)
unfolding cancel_if_led
Leaves-cancel_if_led m r ps = search (left, Leaves-set_cancelled)

pub Leaves-leave_runs : (m : ℕ) (runs : List Run) → Leaves part_of (leave_runs m runs)
unfolding leave_runs
Leaves-leave_runs m [] = search left
Leaves-leave_runs m (r ∷ runs) =
    search
      (
        left,
        Leaves-mark_all_removed,
        Leaves-drop_bids,
        Leaves-cancel_if_led,
        λ (v : Unit {0}). Leaves-leave_runs m runs,
      )
      depth 8
