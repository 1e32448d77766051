-- ===== src/Panel/Subdomains.antt =====
-- apps/web/src/app/(panel)/subdomains/page.tsx: the subdomains and the form of a new one.
pub mod Laws
use xp_panel.Shared.{
  Text, codes, Bool, true, false, ◌||◌, Option, none, some, List, [], ◌∷◌, ◌++◌, if◌then◌else◌,
  is_empty,
}
use xp_panel.Api.Hosting.{WebCall, create_subdomain, delete_subdomain}
use xp_panel.Panel.Inline.{
  InlineForm, or_undefined, FormCall, creates, removes, RowsView, rows_view,
}

pub record SubdomainForm : Type 0 where
  pub domain : Text
  pub subdomain : Text
  pub document_root : Text
  pub redirect_to : Text

pub data SubdomainField : Type 0 where
  domain_field subdomain_field root_field redirect_field : Text → SubdomainField

abbrev edit_subdomain : SubdomainField → SubdomainForm → SubdomainForm
edit_subdomain (domain_field s) d = record d { domain = s }
edit_subdomain (subdomain_field s) d = record d { subdomain = s }
edit_subdomain (root_field s) d = record d { document_root = s }
edit_subdomain (redirect_field s) d = record d { redirect_to = s }

abbrev pub subdomain_form : InlineForm SubdomainForm SubdomainField
subdomain_form = record {
  blank = record { domain = []; subdomain = []; document_root = []; redirect_to = [] };
  edit = edit_subdomain;
  incomplete = λ d. is_empty d.domain || is_empty d.subdomain;
  key = codes "subdomains";
  success = codes "Subdomain created";
  failure = codes "Failed to create subdomain";
  removal = codes "Subdomain deleted";
}

-- `a || b` of texts.
abbrev pub text_or : Text → Text → Text
text_or [] b = b
text_or (c ∷ s) b = c ∷ s

abbrev pub default_root : SubdomainForm → Text
default_root d = codes "/var/www/" ++ d.domain ++ codes "/" ++ d.subdomain

abbrev pub subdomain_call : FormCall SubdomainForm → WebCall
subdomain_call (creates d) =
    create_subdomain d.domain d.subdomain (text_or d.document_root (default_root d))
      (or_undefined d.redirect_to)
subdomain_call (removes i) = delete_subdomain i

-- The line below the fields: `form.domain && form.subdomain && …`.
unfoldable pub full_url : SubdomainForm → Option Text
full_url d =
    if is_empty d.domain || is_empty d.subdomain
    then none
    else some (d.subdomain ++ codes "." ++ d.domain)

pub record Subdomain : Type 0 where
  pub id : Text
  pub domain : Text
  pub subdomain : Text
  pub document_root : Text
  pub redirect_to : Option Text
  pub created_at : Text

pub record SubdomainRow : Type 0 where
  pub row_name : Text
  pub row_target : Text
  pub link : Text

-- `s.redirect_to ? … : s.document_root`: an empty redirect is none.
abbrev row_target_of : Option Text → Text → Text
row_target_of none root = root
row_target_of (some []) root = root
row_target_of (some (c ∷ s)) root = codes "→ " ++ c ∷ s

abbrev subdomain_row : Subdomain → SubdomainRow
subdomain_row s = record {
  row_name = s.subdomain ++ codes "." ++ s.domain;
  row_target = row_target_of s.redirect_to s.document_root;
  link = codes "https://" ++ s.subdomain ++ codes "." ++ s.domain;
}

abbrev pub subdomain_rows : Bool → Option (List Subdomain) → RowsView SubdomainRow
subdomain_rows = rows_view subdomain_row
