-- ===== src/Panel/Compose/Laws.antt =====
-- docker/compose/page.tsx: what the page asks of the server.
use xp_panel.Shared.{
  ◌≡◌, refl, ◌≢◌, Text, true, false, all, List, [], ◌∷◌, All, arith, if_both, text_eq_refl, ℕ, ◌≤◌,
}
use xp_panel.Api.Docker.{DockerCall, ComposeAction, compose_action, delete_compose_project}
use xp_panel.SignIn.Characters.{is_slug_code}
use xp_panel.Panel.Runs.{PageEffect, OfCalls, page_run, page_run-keeps, All-OfCalls}
use xp_panel.Panel.Dialog.Laws.{
  IsOrderly, IsAccepted, dialog_step-Keeps, first-IsOrderly, requests_of,
}
use xp_panel.Panel.Compose.{
  ComposeRequest, accepts_project, new_project, ComposePage, compose_page, ComposeEvent, in_dialog,
  clicks, acts, deletes, acted, removed, compose_step, card_disabled, is_given, ComposeProject,
}

-- A project is created with a name of small letters, digits and hyphens and with a file.
abbrev pub IsComposeCall : DockerCall → Type 0
IsComposeCall (compose_action i a) = Unit
IsComposeCall (delete_compose_project i) = Unit
IsComposeCall c =
    (r : ComposeRequest) × (c ≡ new_project.request r)
    × (r.name ≢ [])
    × (all is_slug_code r.name ≡ true)
    × (r.compose_file ≢ [])

pub given : (s : Text) → is_given s ≡ true → s ≢ []
given [] h = absurd cc
given (c ∷ s) h = λ k. absurd cc

accepted-IsComposeCall : (c : DockerCall) → IsAccepted new_project c → IsComposeCall c
unfolding new_project accepts_project
accepted-IsComposeCall c (r, e, h) =
    rw e (r, refl, given r.name (ground arith), ground arith, given r.compose_file (ground arith))

compose_step-Keeps :
    (e : ComposeEvent) (p : ComposePage)
    → IsOrderly p.dialog
    → IsOrderly (compose_step e p).0.dialog × All (OfCalls IsComposeCall) (compose_step e p).1
unfolding compose_step
compose_step-Keeps (in_dialog e) p h =
    let r = dialog_step-Keeps new_project e p.dialog h in
    (r.0, All-OfCalls accepted-IsComposeCall _ r.1)
compose_step-Keeps (clicks q (acts a)) p h =
    if_both {A = ComposePage × List (PageEffect DockerCall)}
      (λ r. IsOrderly r.0.dialog × All (OfCalls IsComposeCall) r.1)
      (card_disabled p.action_loading q) _ _ (h, tt) (h, (tt, tt))
compose_step-Keeps (clicks q deletes) p h =
    (h, if_both (All (OfCalls IsComposeCall)) (card_disabled p.action_loading q) _ _ tt (tt, tt))
compose_step-Keeps (acted i a true) p h = (h, (tt, (tt, tt)))
compose_step-Keeps (acted i a false) p h = (h, (tt, tt))
compose_step-Keeps (removed true) p h = (h, (tt, (tt, tt)))
compose_step-Keeps (removed false) p h = (h, (tt, tt))

-- Whatever is done on the page of compose projects from its first state on, a project is only created with a name of small letters, digits and hyphens and with a file, each dialog has one request under way at most, and all else that is asked is an action on a project or its deletion.
pub compose_run-IsComposeCall :
    (es : List ComposeEvent)
    → ((n : ℕ) → requests_of n (page_run compose_step es compose_page).0.dialog.in_flight ≤ 1)
      × All (OfCalls IsComposeCall) (page_run compose_step es compose_page).1
compose_run-IsComposeCall es =
    let r =
      page_run-keeps compose_step (λ p. IsOrderly p.dialog) (OfCalls IsComposeCall)
        compose_step-Keeps es compose_page first-IsOrderly in
    (r.0.single, r.1)

-- An action on a project disables its card until an action is answered: a click on a button of the card asks for nothing.
pub action_once :
    (p : ComposePage) (q : ComposeProject) (a b : ComposeAction)
    → card_disabled p.action_loading q ≡ false
    → (compose_step (clicks q (acts b)) (compose_step (clicks q (acts a)) p).0).1 ≡ []
unfolding compose_step
action_once p q a b h = rw (h, text_eq_refl q.id) refl
