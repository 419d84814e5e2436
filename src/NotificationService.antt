-- ===== src/NotificationService.antt =====
-- backend/app/services/notification_service.py: what users do with their notifications. The pages
-- with their groups, and the shape of responses, are not modelled.
pub mod Unread
pub mod Newest
use bulq.Common.{ℕ, Bool, not, Option, some, List, ◌==◌}
use bulq.Error.{
  not_found, forbidden, bad_request, notification_not_found, not_notification_owner,
  notification_mark_read_failed,
}
use bulq.Model.{Notification, User}
use bulq.Storage.{Action, IdText, validate_uuid, or_raise, raise_if, ◌>>=◌, ◌>>◌}
use bulq.Repo.Notifications.Inbox.{
  get_notification_by_id, mark_notification_as_read, mark_all_notifications_as_read,
}
use bulq.Repo.Notifications.Inbox as Inbox

unfoldable pub get_unread_notifications : User → Action (List Notification)
get_unread_notifications user = Inbox.get_unread_notifications user.id

unfoldable pub get_unread_count : User → Action ℕ
get_unread_count user = Inbox.get_unread_count user.id

unfoldable pub mark_as_read : IdText → User → Action (Unit {0})
mark_as_read notification_id user = do
  notification_uuid ← validate_uuid notification_id
  found ← get_notification_by_id notification_uuid
  notification ← or_raise (not_found notification_not_found) found
  raise_if (not (notification.user_id == user.id)) (forbidden not_notification_owner)
  success ← mark_notification_as_read notification_uuid
  raise_if (not success) (bad_request notification_mark_read_failed)

unfoldable pub mark_all_as_read : User → Action ℕ
mark_all_as_read user = mark_all_notifications_as_read user.id
