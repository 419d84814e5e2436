-- ===== src/Tests/Notices.antt =====
-- Notifications in the test storage.
use bulq.Common.{ℕ, ◌+◌, ◌≡◌, refl, ◌↔◌, true, some, List, [], ◌∷◌, keep}
use bulq.Error.{ok}
use bulq.RunState.{active, confirmed}
use bulq.Model.{MemoryStorage, Notification, run_state_changed_data}
use bulq.Repo.Notifications.{new_notification}
use bulq.NotificationService.{
  get_unread_notifications, get_unread_count, mark_as_read, mark_all_as_read,
}
use bulq.NotificationService.Unread.{
  is_own, mark_as_read_iff, mark_as_read-unread, mark_all_as_read-unread,
}
use bulq.NotificationService.Newest.{is_newest_first, is_at, get_unread_notifications-newest}
use bulq.Tests.{alice, bob, storage}

abbrev notice : ℕ → ℕ → ℕ → Notification
notice i user_id time =
    new_notification i user_id (run_state_changed_data 11 "Market" active confirmed 1) time

-- Alice has two notifications, of the times 3 and 5, and Bob one.
abbrev inbox : MemoryStorage
inbox = record storage { notifications = notice 50 1 3 ∷ notice 51 2 3 ∷ notice 52 1 5 ∷ [] }

mark_all_as_read-unread_example :
    ((mark_all_as_read alice inbox).0 ≡ (get_unread_count alice inbox).0)
    × ((get_unread_count bob (mark_all_as_read alice inbox).1).0 ≡ (get_unread_count bob inbox).0)
mark_all_as_read-unread_example = mark_all_as_read-unread alice bob inbox

mark_as_read_iff_example :
    ((mark_as_read (some 51) alice inbox).0 ≡ ok tt) ↔ (is_own alice 51 inbox ≡ true)
mark_as_read_iff_example = mark_as_read_iff alice 51 inbox

mark_as_read-unread_example :
    (k m : ℕ) × ((get_unread_count alice (mark_as_read (some 52) alice inbox).1).0 ≡ ok k)
    × ((get_unread_count alice inbox).0 ≡ ok m)
    × (k + 1 ≡ m)
mark_as_read-unread_example = mark_as_read-unread alice alice 52 inbox refl refl

get_unread_notifications-newest_example :
    (ns : List Notification) × ((get_unread_notifications alice inbox).0 ≡ ok ns)
    × (is_newest_first ns ≡ true)
    × (keep (is_at 3) ns ≡ notice 50 1 3 ∷ [])
get_unread_notifications-newest_example = get_unread_notifications-newest alice 3 inbox
