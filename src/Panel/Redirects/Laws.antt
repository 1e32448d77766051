-- ===== src/Panel/Redirects/Laws.antt =====
-- redirects/page.tsx: what the page asks of the server.
use xp_panel.Shared.{◌≢◌, [], List, All, arith, filled}
use xp_panel.Api.Hosting.{RedirectInput, WebCall, create_redirect, delete_redirect}
use xp_panel.Panel.Runs.{OfCalls, page_run}
use xp_panel.Panel.Inline.{FormCall, creates, removes, FormState, FormEvent, inline_step}
use xp_panel.Panel.Inline.Laws.{IsComplete, inline_run-keeps}
use xp_panel.Panel.Redirects.{RedirectField, redirect_form, redirect_call}

-- A redirect is created with a domain and a destination.
abbrev pub IsRedirectCall : WebCall → Type 0
IsRedirectCall (create_redirect d) = (d.domain ≢ []) × (d.destination ≢ [])
IsRedirectCall (delete_redirect i) = Unit
IsRedirectCall c = ⊥

redirect_call-IsRedirectCall :
    (c : FormCall RedirectInput) → IsComplete redirect_form c → IsRedirectCall (redirect_call c)
redirect_call-IsRedirectCall (creates d) h =
    (filled d.domain (ground arith), filled d.destination (ground arith))
redirect_call-IsRedirectCall (removes i) h = tt

-- Whatever is done on the page of the redirects, a redirect is only created with a domain and a destination.
pub redirect_run-IsRedirectCall :
    (es : List (FormEvent RedirectField)) (p : FormState RedirectInput)
    → All (OfCalls IsRedirectCall) (page_run (inline_step redirect_form redirect_call) es p).1
redirect_run-IsRedirectCall =
    inline_run-keeps redirect_form redirect_call IsRedirectCall redirect_call-IsRedirectCall
