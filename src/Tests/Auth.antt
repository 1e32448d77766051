-- ===== src/Tests/Auth.antt =====
-- The session at concrete inputs: the store, session.ts, the role table, the hook's checks.
use xp_panel.Shared.{
  Text, codes, true, false, ◌≡◌, refl, Option, none, some, List, [], ◌∷◌, includes, text_eq, any,
  split, split_on,
}
use xp_panel.Auth.Browser.{User, signed_out, Payload, Page, Browser, plain_browser, user_of}
use xp_panel.Auth.Store.{logout}
use xp_panel.Auth.Store.Laws.{logout_complete}
use xp_panel.Auth.Store.History.{Method, sets_tokens, call_methods, call_methods-latest}
use xp_panel.Auth.Roles.{role_label}
use xp_panel.Auth.Roles.Table.{role_labels}
use xp_panel.Auth.Roles.Grants.{table}
use xp_panel.Auth.Access.{can}
use xp_panel.Auth.Access.Laws.{role_allows, can_lem}

abbrev claims : Payload
claims = record {
  sub = some (codes "7");
  email = none;
  username = some (codes "ann");
  org = none;
  roles = some (codes "user" ∷ []);
  perms = some (codes "dns:read" ∷ []);
}

-- A decoder that reads the middle part "c" only.
abbrev decode_c : Option Text → Option Payload
decode_c none = none
decode_c (some s) = elim (text_eq s (codes "c")) [ true ↦ some claims | false ↦ none ]

abbrev here : Browser
here = plain_browser decode_c

abbrev blank : Page
blank = record { memory = signed_out; stored = none; location = codes "/" }

abbrev ann : User
ann = user_of claims

split_token : split b'.' (codes "h.c.s") ≡ codes "h" ∷ codes "c" ∷ codes "s" ∷ []
unfolding split_on
split_token = refl

label_of_role : role_label (codes "auditor") ≡ some (codes "Auditor")
unfolding role_label role_labels text_eq
label_of_role = refl

label_of_other : role_label (codes "guest") ≡ some (codes "guest")
unfolding role_label role_labels text_eq includes
label_of_other = refl

-- A session whose token cannot be read keeps the user before it.
abbrev two_sign_ins : List Method
two_sign_ins =
    sets_tokens (codes "h.c.s") (codes "r1") ∷ sets_tokens (codes "h.x.s") (codes "r2") ∷ []

abbrev kept_blank : Page
kept_blank = record blank { stored = some signed_out }

call_methods-latest_example :
    (call_methods here two_sign_ins kept_blank).stored
    ≡ some (record {
      access_token = some (codes "h.x.s");
      refresh_token = some (codes "r2");
      user = some ann;
      is_authenticated = true;
    })
unfolding user_of text_eq split_on
call_methods-latest_example = (call_methods-latest here two_sign_ins kept_blank refl).1

logout_complete_example : (logout here blank).location ≡ codes "/login"
unfolding logout
logout_complete_example = (logout_complete here blank (codes "dns:read") (codes "user")).4

abbrev signed_in : Page
signed_in = record blank { memory = record signed_out { user = some ann } }

can_lem_example :
    can (codes "guest" ∷ codes "user" ∷ []) (codes "ai:use")
    ≡ some (any (λ r. role_allows r (codes "ai:use")) (codes "guest" ∷ codes "user" ∷ []))
unfolding table
can_lem_example = can_lem (codes "guest" ∷ codes "user" ∷ []) (codes "ai:use") (refl, (refl, tt))
