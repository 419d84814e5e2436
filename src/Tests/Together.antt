-- ===== src/Tests/Together.antt =====
-- Requests on runs and on groups in the test storage.
use bulq.Common.{ℕ, false, some, none, List, [], ◌∷◌}
use bulq.Common.Int.{pos}
use bulq.Model.{User}
use bulq.GroupService.Requests.{promote_member_to_admin_call, leave_group_call}
use bulq.RunService.{place_bid_call}
use bulq.RunService.Together.{Request, on_run, on_group}
use bulq.Tests.{alice, bob}

-- Bob bids, Alice makes him an admin, and leaves the group with her runs.
abbrev requests : List (ℕ × User × Request)
requests =
    (5, bob, on_run (place_bid_call (some 10) (some 7) (pos 200) false none))
    ∷ (6, alice, on_group (promote_member_to_admin_call (some 1) (some 2)))
    ∷ (7, alice, on_group (leave_group_call (some 1)))
    ∷ []
