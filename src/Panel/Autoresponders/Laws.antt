-- ===== src/Panel/Autoresponders/Laws.antt =====
-- email/autoresponders/page.tsx: what the page asks of the server.
use xp_panel.Shared.{◌≡◌, refl, ◌≢◌, codes, true, false, not, List, [], ◌∷◌, All, arith, filled}
use xp_panel.Api.Fields.{boolean}
use xp_panel.Api.Hosting.{
  MailCall, create_autoresponder, update_autoresponder, delete_autoresponder,
}
use xp_panel.Panel.Runs.{OfCalls, page_run, page_run-keeps}
use xp_panel.Panel.Inline.{FormCall, creates, removes, FormState}
use xp_panel.Panel.Inline.Laws.{IsComplete, inline_step-keeps}
use xp_panel.Panel.Autoresponders.{
  ResponderForm, responder_form, responder_call, responder_fields, Autoresponder, ResponderEvent,
  responder_step, in_form, toggles, toggled,
}

-- An autoresponder is created with an address, a subject and a body, and changed only in its switch.
abbrev pub IsResponderCall : MailCall → Type 0
IsResponderCall (create_autoresponder d) =
    (f : ResponderForm) × (d ≡ responder_fields f)
    × (f.email ≢ [])
    × (f.subject ≢ [])
    × (f.body ≢ [])
IsResponderCall (update_autoresponder i d) =
    (a : Autoresponder) × (a.id ≡ i) × (d ≡ (codes "enabled", boolean (not a.enabled)) ∷ [])
IsResponderCall (delete_autoresponder i) = Unit
IsResponderCall c = ⊥

responder_call-IsResponderCall :
    (c : FormCall ResponderForm) → IsComplete responder_form c → IsResponderCall (responder_call c)
responder_call-IsResponderCall (creates d) h = (
  d,
  refl,
  filled d.email (ground arith),
  filled d.subject (ground arith),
  filled d.body (ground arith),
)
responder_call-IsResponderCall (removes i) h = tt

responder_step-IsResponderCall :
    (e : ResponderEvent) (p : FormState ResponderForm)
    → Unit {0}
    → Unit {0} × All (OfCalls IsResponderCall) (responder_step e p).1
unfolding responder_step
responder_step-IsResponderCall (in_form e) p h =
    inline_step-keeps responder_form responder_call IsResponderCall responder_call-IsResponderCall e
      p h
responder_step-IsResponderCall (toggles a) p h = (tt, ((a, refl, refl), tt))
responder_step-IsResponderCall (toggled true) p h = (tt, (tt, tt))
responder_step-IsResponderCall (toggled false) p h = (tt, tt)

-- Whatever is done on the page of the autoresponders, one is only created with an address, a subject and a body, and a change is only ever the other value of a switch.
pub responder_run-IsResponderCall :
    (es : List ResponderEvent) (p : FormState ResponderForm)
    → All (OfCalls IsResponderCall) (page_run responder_step es p).1
responder_run-IsResponderCall es p =
    (page_run-keeps responder_step (λ s. Unit {0}) (OfCalls IsResponderCall)
      responder_step-IsResponderCall es p tt).1
