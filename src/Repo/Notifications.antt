-- ===== src/Repo/Notifications.antt =====
-- memory/notification.py: what users are told.
pub mod Inbox
use bulq.Common.{ℕ, false}
use bulq.Table.{put}
use bulq.Model.{Notification, NotificationData}
use bulq.Storage.{Action, pure, gets, modify, draw_uuid4, ◌>>=◌, ◌>>◌}

abbrev pub notification_key : Notification → ℕ
notification_key n = n.id

abbrev pub new_notification : ℕ → ℕ → NotificationData → ℕ → Notification
new_notification new_id user_id content now = record {
  id = new_id;
  user_id = user_id;
  content = content;
  read = false;
  created_at = now;
}

unfoldable pub create_notification : ℕ → NotificationData → Action Notification
create_notification user_id content = do
  new_id ← draw_uuid4
  now ← gets (λ s. s.now)
  modify (λ s. record s {
    notifications =
        put notification_key (new_notification new_id user_id content now) s.notifications;
  })
  pure (new_notification new_id user_id content now)
