-- ===== src/Tests/Hosting.antt =====
-- The forms of the hosting pages at concrete inputs: text that is typed, sent, answered and hidden.
use xp_panel.Shared.{trim, ◌≡◌, refl, ◌≤◌, ◌+◌, codes, true, false, none, List, [], ◌∷◌, All}
use xp_panel.Api.Hosting.{permanent, create_subdomain}
use xp_panel.Panel.Runs.{calls, OfCalls, page_run}
use xp_panel.Panel.Inline.{
  FormEvent, FormState, toggles_form, cancels, submits, types, created, deletes, first_form,
  form_step, inline_step,
}
use xp_panel.Panel.Inline.Laws.{
  creations, outstanding, answers, creations_answered, form_run-text_after,
}
use xp_panel.Panel.Redirects.{
  RedirectField, redirect_form, domain_field, source_field, destination_field,
}
use xp_panel.Panel.Forwarders.{destinations_of}
use xp_panel.Panel.Subdomains.{
  SubdomainForm, SubdomainField, subdomain_form, subdomain_call, subdomain_field,
}
use xp_panel.Panel.Subdomains.Laws.{IsSubdomainCall, subdomain_run-IsSubdomainCall}

abbrev redirecting : List (FormEvent RedirectField)
redirecting =
    toggles_form
    ∷ types (domain_field (codes "a.org"))
    ∷ submits
    ∷ types (destination_field (codes "b.org"))
    ∷ submits
    ∷ submits
    ∷ types (source_field (codes "/x"))
    ∷ created false
    ∷ cancels
    ∷ toggles_form
    ∷ submits
    ∷ []

-- The first press is refused, the third one too, and the last one sends what was typed since.
two_creations :
    creations (page_run (form_step redirect_form) redirecting (first_form redirect_form)).1 ≡ 2
unfolding page_run form_step
two_creations = refl

creations_answered_example :
    creations (page_run (form_step redirect_form) redirecting (first_form redirect_form)).1
      + outstanding (first_form redirect_form)
    ≤ answers redirecting
      + outstanding (page_run (form_step redirect_form) redirecting (first_form redirect_form)).0
creations_answered_example = creations_answered redirect_form redirecting (first_form redirect_form)

form_run-text_after_example :
    (page_run (form_step redirect_form) redirecting (first_form redirect_form)).0.form ≡ record {
      domain = codes "a.org";
      source_path = codes "/x";
      destination = codes "b.org";
      kind = permanent;
      wildcard = false;
    }
form_run-text_after_example =
    form_run-text_after redirect_form redirecting (first_form redirect_form)

abbrev named : FormState SubdomainForm
named = record {
  show_form = true;
  form = record { domain = codes "a.org"; subdomain = []; document_root = []; redirect_to = [] };
  creating = false;
}

abbrev making_subdomain : List (FormEvent SubdomainField)
making_subdomain =
    submits
    ∷ types (subdomain_field (codes "blog"))
    ∷ submits
    ∷ created true
    ∷ deletes (codes "s1")
    ∷ []

-- The default document root is sent, and no redirect.
subdomain_calls :
    (page_run
      (inline_step subdomain_form subdomain_call)
      (submits ∷ types (subdomain_field (codes "blog")) ∷ submits ∷ [])
      named).1
    ≡ calls (create_subdomain (codes "a.org") (codes "blog") (codes "/var/www/a.org/blog") none)
      ∷ []
unfolding page_run inline_step form_step
subdomain_calls = refl

subdomain_run-IsSubdomainCall_example :
    All
      (OfCalls IsSubdomainCall)
      (page_run (inline_step subdomain_form subdomain_call) making_subdomain named).1
subdomain_run-IsSubdomainCall_example = subdomain_run-IsSubdomainCall making_subdomain named

-- Runs of separators, white space and an end without a destination.
three_destinations :
    destinations_of (codes "a@x.org, b@y.org,\n\n c@z.org ,")
    ≡ codes "a@x.org" ∷ codes "b@y.org" ∷ codes "c@z.org" ∷ []
unfolding destinations_of trim
three_destinations = refl
