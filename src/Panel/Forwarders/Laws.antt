-- ===== src/Panel/Forwarders/Laws.antt =====
-- email/forwarders/page.tsx: what the page asks of the server.
use xp_panel.Shared.{
  ◌≢◌, ℕ, ◌≤◌, Text, true, false, not, List, [], ◌∷◌, All, arith, keep, if_split, is_empty, filled,
  map, trim,
}
use xp_panel.Api.Mail.{MailApiCall, create_forwarder, delete_forwarder}
use xp_panel.Panel.Runs.{OfCalls, page_run, page_run-keeps, All-OfCalls}
use xp_panel.Panel.Dialog.{DialogState, no_dialog}
use xp_panel.Panel.Dialog.Laws.{
  IsOrderly, IsAccepted, dialog_step-Keeps, first-IsOrderly, requests_of,
}
use xp_panel.Panel.Forwarders.{
  destinations_of, split_parts, new_forwarder, ForwarderEvent, forwarder_step, in_dialog, deletes,
  deleted,
}

abbrev pub AreFilled : List Text → Type 0
AreFilled ts = All (λ t. t ≢ []) ts

keep-AreFilled : (ts : List Text) → AreFilled (keep (λ t. not (is_empty t)) ts)
keep-AreFilled [] = tt
keep-AreFilled (t ∷ ts) =
    let rest = keep-AreFilled ts in
    if_split AreFilled (not (is_empty t)) _ _ (λ e. (filled t (ground arith), rest)) (λ e. rest)

-- No destination that is read from the text of the dialog is empty.
pub destinations_of-AreFilled : (s : Text) → AreFilled (destinations_of s)
unfolding destinations_of
destinations_of-AreFilled s =
    let parts = split_parts s in keep-AreFilled (map trim (parts.0 ∷ parts.1))

-- A forwarder is created with a local part and a domain, and no destination is empty.
abbrev pub IsForwarderCall : MailApiCall → Type 0
IsForwarderCall (create_forwarder d) =
    (d.source_local ≢ []) × (d.source_domain ≢ []) × AreFilled d.destinations
IsForwarderCall (delete_forwarder i) = Unit
IsForwarderCall c = ⊥

accepted-IsForwarderCall : (c : MailApiCall) → IsAccepted new_forwarder c → IsForwarderCall c
unfolding new_forwarder
accepted-IsForwarderCall c (d, e, h) = rw e (
  filled d.source_local (ground arith),
  filled d.source_domain (ground arith),
  destinations_of-AreFilled d.destinations,
)

forwarder_step-Keeps :
    (e : ForwarderEvent) (s : DialogState)
    → IsOrderly s
    → IsOrderly (forwarder_step e s).0 × All (OfCalls IsForwarderCall) (forwarder_step e s).1
unfolding forwarder_step
forwarder_step-Keeps (in_dialog e) s h =
    let r = dialog_step-Keeps new_forwarder e s h in
    (r.0, All-OfCalls accepted-IsForwarderCall _ r.1)
forwarder_step-Keeps (deletes i true) s h = (h, (tt, tt))
forwarder_step-Keeps (deletes i false) s h = (h, tt)
forwarder_step-Keeps (deleted true) s h = (h, (tt, (tt, tt)))
forwarder_step-Keeps (deleted false) s h = (h, (tt, tt))

-- Whatever is done on the page of the forwarders from its first state on, a form has one request under way at most, and a forwarder is only created with a local part and a domain and with destinations none of which is empty.
pub forwarder_run-IsForwarderCall :
    (es : List ForwarderEvent)
    → ((n : ℕ) → requests_of n (page_run forwarder_step es no_dialog).0.in_flight ≤ 1)
      × All (OfCalls IsForwarderCall) (page_run forwarder_step es no_dialog).1
forwarder_run-IsForwarderCall es =
    let r =
      page_run-keeps forwarder_step IsOrderly (OfCalls IsForwarderCall) forwarder_step-Keeps es
        no_dialog first-IsOrderly in
    (r.0.single, r.1)
