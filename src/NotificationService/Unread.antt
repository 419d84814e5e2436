-- ===== src/NotificationService/Unread.antt =====
-- The unread notifications of users after a request.
use bulq.Common.{
  ℕ, suc, ◌+◌, ◌≡◌, refl, ap, ◌∙◌, ◌↔◌, Bool, true, false, Option, none, some, List, [], ◌∷◌,
  length, keep, ◌==◌, arith, if◌then◌else◌, Bool-cases, inl, inr, ==_iff,
}
use bulq.Error.{ok}
use bulq.Table.{get, update}
use bulq.Model.{MemoryStorage, Notification, User}
use bulq.Storage.{pure, gets, modify, or_raise, raise_if, ◌>>=◌}
use bulq.Storage.Rules.{Reads-or_raise, Reads-raise_if, reads_rules}
use bulq.Access.Outcomes.{bind-ok, validate-on, or_raise-ok, raise_if-ok, not-false}
use bulq.Repo.Notifications.{notification_key}
use bulq.Repo.Notifications.Inbox.{
  is_unread_of, set_read, insert_newest, sort_newest, mark_each, get_notification_by_id,
  mark_notification_as_read, read_found, mark_all_notifications_as_read,
}
use bulq.Repo.Notifications.Inbox as Inbox
use bulq.NotificationService.{get_unread_count, mark_as_read, mark_all_as_read}

abbrev unread_in : ℕ → List Notification → ℕ
unread_in v ns = length (keep (is_unread_of v) ns)

marked-count : (u c : ℕ) (ns : List Notification) → (mark_each u c ns).0 ≡ c + unread_in u ns
marked-count u c [] = omega arith
marked-count u c (n ∷ ns) = elim (Bool-cases (is_unread_of u n)) [
  | inl unread ↦ rw unread (marked-count u (suc c) ns ∙ omega arith)
  | inr seen ↦ rw seen (marked-count u c ns)
]

marked-rest :
    (u v c : ℕ) (ns : List Notification)
    → unread_in v (mark_each u c ns).1 ≡ (if v == u then 0 else unread_in v ns)
marked-rest u v c [] = ground arith
marked-rest u v c (n ∷ ns) = ground (arith, marked-rest u v c ns, marked-rest u v (suc c) ns)

-- After `mark_all_as_read` no notification of the user is unread, the number that it returns is that
-- of those that were, and other users have as many unread ones as before.
pub mark_all_as_read-unread :
    (u v : User) (s : MemoryStorage)
    → ((mark_all_as_read u s).0 ≡ (get_unread_count u s).0)
      × ((get_unread_count v (mark_all_as_read u s).1).0
          ≡ (if v.id == u.id then ok 0 else (get_unread_count v s).0))
unfolding mark_all_as_read get_unread_count Inbox.get_unread_count mark_all_notifications_as_read
    gets modify pure ◌>>=◌
mark_all_as_read-unread u v s = (
  ap ok (marked-count u.id 0 s.notifications ∙ omega arith),
  ap ok (marked-rest u.id v.id 0 s.notifications)
      ∙ elim (Bool-cases (v.id == u.id)) [ inl same ↦ rw same refl | inr other ↦ rw other refl ],
)

read-one :
    (v i : ℕ) (ns : List Notification) {n : Notification}
    → get notification_key i ns ≡ some n
    → unread_in v (update notification_key i set_read ns) + (if is_unread_of v n then 1 else 0)
      ≡ unread_in v ns
read-one v i [] h = cc
read-one v i (x ∷ xs) {n} h = ground (arith, read-one v i xs {n = n})

-- The notification with this id is there and is the user's.
abbrev pub is_own : User → ℕ → MemoryStorage → Bool
is_own u i s = elim (get notification_key i s.notifications) [
  | none ↦ false
  | some n ↦ n.user_id == u.id
]

abbrev marked_read : ℕ → MemoryStorage → MemoryStorage
marked_read i s = record s { notifications = update notification_key i set_read s.notifications }

mark_notification_as_read-found :
    (i : ℕ) (s : MemoryStorage) {n : Notification}
    → get notification_key i s.notifications ≡ some n
    → mark_notification_as_read i s ≡ (ok true, marked_read i s)
unfolding mark_notification_as_read get_notification_by_id read_found gets modify pure ◌>>=◌
mark_notification_as_read-found i s found = rw found refl

mark_as_read-own :
    (u : User) (i : ℕ) (s : MemoryStorage) {n : Notification}
    → get notification_key i s.notifications ≡ some n
    → (n.user_id == u.id) ≡ true
    → mark_as_read (some i) u s ≡ (ok tt, marked_read i s)
unfolding mark_as_read get_notification_by_id gets or_raise raise_if ◌>>=◌
mark_as_read-own u i s found own = rw (found, own, mark_notification_as_read-found i s found) refl

returned-own :
    (u : User) (i : ℕ) (s : MemoryStorage)
    → (mark_as_read (some i) u s).0 ≡ ok tt
    → is_own u i s ≡ true
unfolding mark_as_read get_notification_by_id gets
returned-own u i s h =
    let (_, h0) = validate-on i _ s h in
    let (o, read, h1) = bind-ok _ _ s (search reads_rules) h0 in
    let (n, p, h2) = bind-ok _ _ s (Reads-or_raise _ o) h1 in
    let (_, q, _) = bind-ok _ _ s (Reads-raise_if _ _) h2 in
    let there : get notification_key i s.notifications ≡ some n =
      let e = or_raise-ok _ o s p in cc in
    rw (is_own, there) (not-false (n.user_id == u.id) (raise_if-ok _ _ s q))

-- `mark_as_read` returns exactly when the notification is there and is the caller's.
pub mark_as_read_iff :
    (u : User) (i : ℕ) (s : MemoryStorage)
    → ((mark_as_read (some i) u s).0 ≡ ok tt) ↔ (is_own u i s ≡ true)
mark_as_read_iff u i s = (returned-own u i s, go (get notification_key i s.notifications) refl)
  where
    go :
        (o : Option Notification)
        → get notification_key i s.notifications ≡ o
        → is_own u i s ≡ true
        → (mark_as_read (some i) u s).0 ≡ ok tt
    go none e h = cc
    go (some n) e h = ap (λ v. v.0) (mark_as_read-own u i s e (rw (is_own, e) at h))

-- When a user marks a notification of theirs as read, the unread notifications of any user are one
-- fewer if this one was an unread one of that user, and as many as before otherwise.
pub mark_as_read-unread :
    (u v : User) (i : ℕ) (s : MemoryStorage) {n : Notification}
    → get notification_key i s.notifications ≡ some n
    → n.user_id ≡ u.id
    → (k m : ℕ) × ((get_unread_count v (mark_as_read (some i) u s).1).0 ≡ ok k)
      × ((get_unread_count v s).0 ≡ ok m)
      × (k + (if is_unread_of v.id n then 1 else 0) ≡ m)
unfolding get_unread_count Inbox.get_unread_count gets
mark_as_read-unread u v i s {n} found own = (
  unread_in v.id (update notification_key i set_read s.notifications),
  unread_in v.id s.notifications,
  rw (mark_as_read-own u i s found ((==_iff n.user_id u.id).1 own)) refl,
  refl,
  read-one v.id i s.notifications found,
)
