-- ===== src/NotificationService/Newest.antt =====
-- The order of the unread notifications.
use bulq.Common.{
  ℕ, ◌≡◌, refl, ◌∙◌, Bool, true, List, [], ◌∷◌, all, keep, leb, ◌==◌, ◌&&◌, arith, if◌then◌else◌,
}
use bulq.Error.{ok}
use bulq.Model.{MemoryStorage, Notification, User}
use bulq.Storage.{gets}
use bulq.Repo.Notifications.Inbox.{is_unread_of, insert_newest, sort_newest}
use bulq.Repo.Notifications.Inbox as Inbox
use bulq.NotificationService.{get_unread_notifications}

-- None of these is newer than the notification.
abbrev pub is_newest : Notification → List Notification → Bool
is_newest n ns = all (λ (x : Notification). leb x.created_at n.created_at) ns

abbrev pub is_newest_first : List Notification → Bool
is_newest_first [] = true
is_newest_first (n ∷ ns) = is_newest n ns && is_newest_first ns

abbrev pub is_at : ℕ → Notification → Bool
is_at t n = n.created_at == t

insert-is_newest :
    (m n : Notification) (ns : List Notification)
    → leb n.created_at m.created_at ≡ true
    → is_newest m ns ≡ true
    → is_newest m (insert_newest n ns) ≡ true
insert-is_newest m n [] h k = ground arith
insert-is_newest m n (x ∷ xs) h k = ground (arith, insert-is_newest m n xs h)

older-is_newest :
    (m n : Notification) (ns : List Notification)
    → leb n.created_at m.created_at ≡ true
    → is_newest n ns ≡ true
    → is_newest m ns ≡ true
older-is_newest m n [] h k = refl
older-is_newest m n (x ∷ xs) h k = ground (arith, older-is_newest m n xs h)

insert-is_newest_first :
    (n : Notification) (ns : List Notification)
    → is_newest_first ns ≡ true
    → is_newest_first (insert_newest n ns) ≡ true
insert-is_newest_first n [] h = refl
insert-is_newest_first n (x ∷ xs) h =
    ground (arith, insert-is_newest_first n xs, insert-is_newest x n xs, older-is_newest n x xs)

sort-is_newest_first : (ns : List Notification) → is_newest_first (sort_newest ns) ≡ true
sort-is_newest_first [] = refl
sort-is_newest_first (n ∷ ns) = insert-is_newest_first n (sort_newest ns) (sort-is_newest_first ns)

insert-at :
    (t : ℕ) (n : Notification) (ns : List Notification)
    → keep (is_at t) (insert_newest n ns)
      ≡ (if is_at t n then n ∷ keep (is_at t) ns else keep (is_at t) ns)
insert-at t n [] = refl
insert-at t n (x ∷ xs) = ground (arith, insert-at t n xs)

sort-at : (t : ℕ) (ns : List Notification) → keep (is_at t) (sort_newest ns) ≡ keep (is_at t) ns
sort-at t [] = refl
sort-at t (n ∷ ns) = insert-at t n (sort_newest ns) ∙ rw (sort-at t ns) refl

-- The unread notifications of a user are listed with the newest first, and those of any one time in
-- the order of the storage, none left out and none twice.
pub get_unread_notifications-newest :
    (u : User) (t : ℕ) (s : MemoryStorage)
    → (ns : List Notification) × ((get_unread_notifications u s).0 ≡ ok ns)
      × (is_newest_first ns ≡ true)
      × (keep (is_at t) ns ≡ keep (is_at t) (keep (is_unread_of u.id) s.notifications))
unfolding get_unread_notifications Inbox.get_unread_notifications gets
get_unread_notifications-newest u t s =
    let ns = keep (is_unread_of u.id) s.notifications in
    (sort_newest ns, refl, sort-is_newest_first ns, sort-at t ns)
