-- ===== src/Panel/Redirects.antt =====
-- apps/web/src/app/(panel)/redirects/page.tsx: the redirects of the domains and the form of a new one.
pub mod Laws
use xp_panel.Shared.{ℕ, Text, codes, Bool, true, false, ◌||◌, Option, List, ◌++◌, is_empty}
use xp_panel.Api.Hosting.{
  RedirectKind, permanent, redirect_code, RedirectInput, WebCall, create_redirect, delete_redirect,
}
use xp_panel.Panel.Inline.{InlineForm, FormCall, creates, removes, RowsView, rows_view}

pub data RedirectField : Type 0 where
  domain_field source_field destination_field : Text → RedirectField
  kind_field : RedirectKind → RedirectField
  wildcard_field : Bool → RedirectField

abbrev edit_redirect : RedirectField → RedirectInput → RedirectInput
edit_redirect (domain_field s) d = record d { domain = s }
edit_redirect (source_field s) d = record d { source_path = s }
edit_redirect (destination_field s) d = record d { destination = s }
edit_redirect (kind_field k) d = record d { kind = k }
edit_redirect (wildcard_field b) d = record d { wildcard = b }

abbrev pub redirect_form : InlineForm RedirectInput RedirectField
redirect_form = record {
  blank = record {
    domain = codes "";
    source_path = codes "/";
    destination = codes "";
    kind = permanent;
    wildcard = false;
  };
  edit = edit_redirect;
  incomplete = λ d. is_empty d.domain || is_empty d.destination;
  key = codes "redirects";
  success = codes "Redirect created";
  failure = codes "Failed to create redirect";
  removal = codes "Redirect deleted";
}

abbrev pub redirect_call : FormCall RedirectInput → WebCall
redirect_call (creates d) = create_redirect d
redirect_call (removes i) = delete_redirect i

pub record DomainRedirect : Type 0 where
  pub id : Text
  pub input : RedirectInput
  pub enabled : Bool
  pub created_at : Text

pub record RedirectRow : Type 0 where
  pub origin : Text
  pub target : Text
  pub code : ℕ
  pub is_permanent : Bool
  pub has_wildcard : Bool

abbrev orange : RedirectKind → Bool
orange permanent = true
orange k = false

abbrev redirect_row : DomainRedirect → RedirectRow
redirect_row r = record {
  origin = r.input.domain ++ r.input.source_path;
  target = r.input.destination;
  code = redirect_code r.input.kind;
  is_permanent = orange r.input.kind;
  has_wildcard = r.input.wildcard;
}

abbrev pub redirect_rows : Bool → Option (List DomainRedirect) → RowsView RedirectRow
redirect_rows = rows_view redirect_row
