-- ===== src/Panel/Notifications/Laws.antt =====
-- notifications/page.tsx: what is marked and deleted.
use xp_panel.Shared.{
  ◌≡◌, refl, ◌⊎◌, inl, inr, ℕ, zero, suc, Bool, true, false, some, List, [], ◌∷◌, get_elem?, All,
  if_split, ◌<◌, arith, Option-cases,
}
use xp_panel.Panel.Runs.{PageEffect, OfCalls}
use xp_panel.Panel.Notifications.{
  Notification, NotificationCall, fetch, mark_read, mark_all_read, delete_notification,
  NotificationPage, unread_count, mark_all_disabled, mark_if_unread, delete_listed, refetch,
  NotificationEvent, picks, fetches, loaded, clicks, clicks_bin, marks_all, marked, deleted,
  all_marked, notification_step,
}

-- The notification is a line of the list.
abbrev pub IsEntry : Notification → List Notification → Type 0
IsEntry n [] = ⊥
IsEntry n (m ∷ ns) = (n ≡ m) ⊎ IsEntry n ns

get_elem-IsEntry :
    (ns : List Notification) (i : ℕ) (n : Notification) → get_elem? ns i ≡ some n → IsEntry n ns
get_elem-IsEntry [] i n h = absurd cc
get_elem-IsEntry (m ∷ ns) zero n h = inl cc
get_elem-IsEntry (m ∷ ns) (suc i) n h = inr (get_elem-IsEntry ns i n h)

-- What is marked as read is listed and unread, what is deleted is listed, and all are marked only where one is unread.
abbrev pub IsAboutListed : List Notification → NotificationCall → Type 0
IsAboutListed ns (mark_read i) =
    (n : Notification) × (IsEntry n ns × (n.id ≡ i) × (n.is_read ≡ false))
IsAboutListed ns (delete_notification i) = (n : Notification) × (IsEntry n ns × (n.id ≡ i))
IsAboutListed ns mark_all_read = 0 < unread_count ns
IsAboutListed ns (fetch f) = Unit

marks-IsAboutListed :
    (ns : List Notification) (i : ℕ)
    → All (OfCalls (IsAboutListed ns)) (mark_if_unread (get_elem? ns i))
marks-IsAboutListed ns i = elim (Option-cases (get_elem? ns i)) [
  | inl e ↦ rw e tt
  | inr (n, e) ↦ rw e (
      if_split (All (OfCalls (IsAboutListed ns))) n.is_read _ _ (λ k. tt)
        (λ k. ((n, (get_elem-IsEntry ns i n e, refl, k)), tt)))
]

deletes-IsAboutListed :
    (ns : List Notification) (i : ℕ)
    → All (OfCalls (IsAboutListed ns)) (delete_listed (get_elem? ns i))
deletes-IsAboutListed ns i = elim (Option-cases (get_elem? ns i)) [
  | inl e ↦ rw e tt
  | inr (n, e) ↦ rw e ((n, (get_elem-IsEntry ns i n e, refl)), tt)
]

refetch-IsAboutListed :
    (ns : List Notification) (ok : Bool) → All (OfCalls (IsAboutListed ns)) (refetch ok)
refetch-IsAboutListed ns true = (tt, tt)
refetch-IsAboutListed ns false = tt

-- Each event on the page marks as read only a line that is listed and unread, deletes only a line that is listed, and marks all only where one is unread.
pub notification_step-IsAboutListed :
    (e : NotificationEvent) (p : NotificationPage)
    → All (OfCalls (IsAboutListed p.listed)) (notification_step e p).1
unfolding notification_step mark_all_disabled
notification_step-IsAboutListed (picks f cached) p = tt
notification_step-IsAboutListed fetches p = (tt, tt)
notification_step-IsAboutListed (loaded o) p = tt
notification_step-IsAboutListed (clicks i) p = marks-IsAboutListed p.listed i
notification_step-IsAboutListed (clicks_bin i) p = deletes-IsAboutListed p.listed i
notification_step-IsAboutListed marks_all p =
    if_split {A = NotificationPage × List (PageEffect NotificationCall)}
      (λ r. All (OfCalls (IsAboutListed p.listed)) r.1) (mark_all_disabled p) _ _ (λ e. tt)
      (λ e. (ground arith, tt))
notification_step-IsAboutListed (marked ok) p = refetch-IsAboutListed p.listed ok
notification_step-IsAboutListed (deleted ok) p = refetch-IsAboutListed p.listed ok
notification_step-IsAboutListed (all_marked true) p = (tt, (tt, tt))
notification_step-IsAboutListed (all_marked false) p = tt
