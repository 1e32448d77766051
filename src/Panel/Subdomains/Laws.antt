-- ===== src/Panel/Subdomains/Laws.antt =====
-- subdomains/page.tsx: what the page asks of the server.
use xp_panel.Shared.{◌≢◌, Text, some, List, [], ◌∷◌, All, arith, filled}
use xp_panel.Api.Hosting.{WebCall, create_subdomain, delete_subdomain}
use xp_panel.Panel.Runs.{OfCalls, page_run}
use xp_panel.Panel.Inline.{
  or_undefined, FormCall, creates, removes, FormState, FormEvent, inline_step,
}
use xp_panel.Panel.Inline.Laws.{IsComplete, inline_run-keeps}
use xp_panel.Panel.Subdomains.{
  SubdomainForm, SubdomainField, subdomain_form, subdomain_call, text_or, default_root,
}

-- A subdomain is created with a domain, a name and a document root, and where it redirects, it redirects to something.
abbrev pub IsSubdomainCall : WebCall → Type 0
IsSubdomainCall (create_subdomain domain subdomain root redirect) =
    (domain ≢ []) × (subdomain ≢ []) × (root ≢ []) × (redirect ≢ some [])
IsSubdomainCall (delete_subdomain i) = Unit
IsSubdomainCall c = ⊥

text_or-filled : (a b : Text) → b ≢ [] → text_or a b ≢ []
text_or-filled [] b h = h
text_or-filled (c ∷ s) b h = λ k. absurd cc

or_undefined-filled : (a : Text) → or_undefined a ≢ some []
or_undefined-filled [] = λ k. absurd cc
or_undefined-filled (c ∷ s) = λ k. absurd cc

subdomain_call-IsSubdomainCall :
    (c : FormCall SubdomainForm) → IsComplete subdomain_form c → IsSubdomainCall (subdomain_call c)
subdomain_call-IsSubdomainCall (creates d) h = (
  filled d.domain (ground arith),
  filled d.subdomain (ground arith),
  text_or-filled d.document_root (default_root d) (λ k. absurd cc),
  or_undefined-filled d.redirect_to,
)
subdomain_call-IsSubdomainCall (removes i) h = tt

-- Whatever is done on the page of the subdomains, a subdomain is only created with a domain, a name and a document root (the default one where none was typed), and an empty redirect is never sent.
pub subdomain_run-IsSubdomainCall :
    (es : List (FormEvent SubdomainField)) (p : FormState SubdomainForm)
    → All (OfCalls IsSubdomainCall) (page_run (inline_step subdomain_form subdomain_call) es p).1
subdomain_run-IsSubdomainCall =
    inline_run-keeps subdomain_form subdomain_call IsSubdomainCall subdomain_call-IsSubdomainCall
