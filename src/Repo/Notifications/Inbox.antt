-- ===== src/Repo/Notifications/Inbox.antt =====
-- memory/notification.py: the reading of notifications. `get_user_notifications`, whose pages are only
-- formatted, is not modelled.
use bulq.Common.{
  ℕ, suc, Bool, true, false, not, Option, none, some, List, [], ◌∷◌, length, keep, leb, ◌==◌, ◌&&◌,
  if◌then◌else◌,
}
use bulq.Table.{get, update}
use bulq.Model.{Notification}
use bulq.Storage.{Action, pure, gets, modify, ◌>>=◌, ◌>>◌}
use bulq.Repo.Notifications.{notification_key}

-- `n.user_id == user_id and not n.read`
abbrev pub is_unread_of : ℕ → Notification → Bool
is_unread_of user_id n = n.user_id == user_id && not n.read

abbrev pub set_read : Notification → Notification
set_read n = record n { read = true }

-- `.sort(key=lambda n: n.created_at, reverse=True)`, which keeps the order of what is of one time
abbrev pub insert_newest : Notification → List Notification → List Notification
insert_newest n [] = n ∷ []
insert_newest n (x ∷ xs) =
    let rest = insert_newest n xs in if leb x.created_at n.created_at then n ∷ x ∷ xs else x ∷ rest

abbrev pub sort_newest : List Notification → List Notification
sort_newest [] = []
sort_newest (n ∷ ns) = insert_newest n (sort_newest ns)

unfoldable pub get_unread_notifications : ℕ → Action (List Notification)
get_unread_notifications user_id =
    gets (λ s. sort_newest (keep (is_unread_of user_id) s.notifications))

unfoldable pub get_unread_count : ℕ → Action ℕ
get_unread_count user_id = gets (λ s. length (keep (is_unread_of user_id) s.notifications))

-- The body under `if notification:`, and what follows it.
unfoldable pub read_found : ℕ → Option Notification → Action Bool
read_found notification_id none = pure false
read_found notification_id (some notification) = do
  modify (λ s. record s {
    notifications = update notification_key notification_id set_read s.notifications;
  })
  pure true

unfoldable pub get_notification_by_id : ℕ → Action (Option Notification)
get_notification_by_id notification_id =
    gets (λ s. get notification_key notification_id s.notifications)

unfoldable pub mark_notification_as_read : ℕ → Action Bool
mark_notification_as_read notification_id = do
  notification ← get_notification_by_id notification_id
  read_found notification_id notification

-- The loop over all notifications, with its count.
abbrev pub mark_each : ℕ → ℕ → List Notification → ℕ × List Notification
mark_each user_id count [] = (count, [])
mark_each user_id count (n ∷ ns) =
    let unread = is_unread_of user_id n in
    let (marked, rest) = mark_each user_id (if unread then suc count else count) ns in
    (marked, (if unread then set_read n else n) ∷ rest)

unfoldable pub mark_all_notifications_as_read : ℕ → Action ℕ
mark_all_notifications_as_read user_id = do
  marked ← gets (λ s. mark_each user_id 0 s.notifications)
  modify (λ s. record s { notifications = marked.1 })
  pure marked.0
