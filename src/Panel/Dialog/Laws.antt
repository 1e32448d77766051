-- ===== src/Panel/Dialog/Laws.antt =====
-- The dialogs of the panel pages: what they send, and how often.
use xp_panel.Shared.{
  ◌≡◌, refl, sym, ℕ, zero, suc, ◌==◌, ◌≤◌, ◌<◌, Bool, true, false, not, ◌&&◌, any, some, List, [],
  ◌∷◌, length, keep, All, arith, Option-cases, inl, inr, if_split,
}
use xp_panel.Panel.Runs.{PageEffect, OfCalls, page_run, page_run-keeps}
use xp_panel.Panel.Dialog.{
  Dialog, DialogState, no_dialog, DialogEvent, opens, closes, leaves, submits, answers,
  close_dialog, leave_dialog, waits, remove_at, settle, dialog_step,
}

-- The requests under way of the form with a number.
abbrev pub requests_of : ℕ → List ℕ → ℕ
requests_of n ns = length (keep (λ m. m == n) ns)

pub record IsOrderly (s : DialogState) : Type 0 where
  pub single : (n : ℕ) → requests_of n s.in_flight ≤ 1
  pub fresh : (n : ℕ) → s.number < n → requests_of n s.in_flight ≡ 0

none_waiting : (n : ℕ) (ns : List ℕ) → any (λ m. m == n) ns ≡ false → requests_of n ns ≡ 0
none_waiting n [] h = refl
none_waiting n (m ∷ ns) h = ground (arith, none_waiting n ns)

remove_at-less :
    (n i : ℕ) (ns rest : List ℕ)
    → remove_at i ns ≡ some rest
    → requests_of n rest ≤ requests_of n ns
unfolding remove_at
remove_at-less n i [] rest h = absurd cc
remove_at-less n zero (m ∷ ns) rest h = let e : ns ≡ rest = cc in rw (sym e) (ground arith)
remove_at-less n (suc i) (m ∷ ns) rest h = elim (Option-cases (remove_at i ns)) [
  | inl e ↦ absurd (ground arith)
  | inr (less, e) ↦ let ih = remove_at-less n i ns less e in ground (arith, ih)
]

close_dialog-IsOrderly : (s : DialogState) → IsOrderly s → IsOrderly (close_dialog s)
unfolding close_dialog
close_dialog-IsOrderly s h = record { single = h.single; fresh = h.fresh }

leave_dialog-IsOrderly : (s : DialogState) → IsOrderly s → IsOrderly (leave_dialog s)
unfolding leave_dialog
leave_dialog-IsOrderly s h = record { single = h.single; fresh = λ n k. h.fresh n (ground arith) }

fewer-IsOrderly :
    (i : ℕ) (s : DialogState) (rest : List ℕ)
    → remove_at i s.in_flight ≡ some rest
    → IsOrderly s
    → IsOrderly (record s { in_flight = rest })
fewer-IsOrderly i s rest e h =
    let less : (n : ℕ) → requests_of n rest ≤ requests_of n s.in_flight =
      λ n. remove_at-less n i s.in_flight rest e in
    record {
      single = λ n. omega (arith, less n, h.single n);
      fresh = λ n k. omega (arith, less n, h.fresh n k);
    }

more-IsOrderly :
    (s : DialogState)
    → waits s ≡ false
    → IsOrderly s
    → IsOrderly (record s { in_flight = s.number ∷ s.in_flight })
more-IsOrderly s idle h =
    let none_yet = none_waiting s.number s.in_flight idle in
    record {
      single = λ n. ground (arith, none_yet, h.single n);
      fresh = λ n k. ground (arith, h.fresh n k);
    }

pub first-IsOrderly : IsOrderly no_dialog
first-IsOrderly = record { single = λ n. omega arith; fresh = λ n k. refl }

module _ {D C : Type 0} (d : Dialog D C) where
  -- A call is the request of data that the form accepts.
  abbrev pub IsAccepted : C → Type 0
  IsAccepted c = (x : D) × (c ≡ d.request x) × (d.accepts x ≡ true)

  abbrev Keeps : DialogState × List (PageEffect C) → Type 0
  Keeps r = IsOrderly r.0 × All (OfCalls IsAccepted) r.1

  settled :
      (ok : Bool) (s : DialogState) (rest : List ℕ)
      → IsOrderly (record s { in_flight = rest })
      → Keeps (settle d (some rest) ok s)
  unfolding settle
  settled false s rest h = (h, (tt, tt))
  settled true s rest h = (close_dialog-IsOrderly (record s { in_flight = rest }) h, (tt, (tt, tt)))

  settle-Keeps :
      (i : ℕ) (ok : Bool) (s : DialogState)
      → IsOrderly s
      → Keeps (settle d (remove_at i s.in_flight) ok s)
  unfolding settle
  settle-Keeps i ok s h = elim (Option-cases (remove_at i s.in_flight)) [
    | inl e ↦ rw e (h, tt)
    | inr (rest, e) ↦ rw e (settled ok s rest (fewer-IsOrderly i s rest e h))
  ]

  pub dialog_step-Keeps :
      (e : DialogEvent D) (s : DialogState) → IsOrderly s → Keeps (dialog_step d e s)
  unfolding dialog_step
  dialog_step-Keeps opens s h = (record { single = h.single; fresh = h.fresh }, tt)
  dialog_step-Keeps closes s h = (close_dialog-IsOrderly s h, tt)
  dialog_step-Keeps leaves s h = (leave_dialog-IsOrderly s h, tt)
  dialog_step-Keeps (submits x) s h =
      if_split {A = DialogState × List (PageEffect C)} Keeps
        (s.shown && not (waits s) && d.accepts x) _ _
        (λ e. (more-IsOrderly s (ground arith) h, ((x, refl, ground arith), tt))) (λ e. (h, tt))
  dialog_step-Keeps (answers i ok) s h = settle-Keeps i ok s h

  -- Whatever is done with a dialog from its first state on, each form it shows has one request under way at most, and each call is the request of data that the form accepts.
  pub dialog_run-IsOrderly :
      (es : List (DialogEvent D))
      → ((n : ℕ) → requests_of n (page_run (dialog_step d) es no_dialog).0.in_flight ≤ 1)
        × All (OfCalls IsAccepted) (page_run (dialog_step d) es no_dialog).1
  dialog_run-IsOrderly es =
      let r =
        page_run-keeps (dialog_step d) IsOrderly (OfCalls IsAccepted) dialog_step-Keeps es no_dialog
          first-IsOrderly in
      (r.0.single, r.1)
