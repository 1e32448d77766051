-- ===== src/Api/Hosting.antt =====
-- apps/web/src/lib/api/hosting.api.ts: the calls of the hosting pages, each with the parameters of its query.
use xp_panel.Shared.{ℤ, pos, ℕ, Text, codes, Bool, Option, none, some, [], ◌∷◌, ◌++◌}
use xp_panel.Api.Calls.{api_get, api_post, api_put, api_delete}
use xp_panel.Api.Fields.{Fields, FieldCall, string, boolean, number, optional}

pub data FtpCall : Type 0 where
  list : FtpCall
  create : Text → Text → Text → Option ℤ → FtpCall
  update_password : Text → Text → FtpCall
  delete toggle : Text → FtpCall

pub data RedirectKind : Type 0 where
  permanent temporary : RedirectKind

abbrev pub redirect_code : RedirectKind → ℕ
redirect_code permanent = 301
redirect_code temporary = 302

pub record RedirectInput : Type 0 where
  pub domain : Text
  pub source_path : Text
  pub destination : Text
  pub kind : RedirectKind
  pub wildcard : Bool

pub data WebCall : Type 0 where
  list_subdomains : Option Text → WebCall
  create_subdomain : Text → Text → Text → Option Text → WebCall
  delete_subdomain delete_redirect delete_privacy delete_key delete_remote : Text → WebCall
  list_redirects list_keys list_remote : WebCall
  create_redirect : RedirectInput → WebCall
  list_error_pages list_privacy : Text → WebCall
  upsert_error_page : Text → ℕ → Text → WebCall
  create_privacy : Text → Text → Option Text → Text → Text → WebCall
  add_key : Text → Text → WebCall
  add_remote : Text → Option Text → WebCall
  generate_csr import_ssl : Fields → WebCall

pub data MailCall : Type 0 where
  list_autoresponders list_queue flush_queue delete_queue : MailCall
  create_autoresponder create_filter : Fields → MailCall
  update_autoresponder update_filter : Text → Fields → MailCall
  delete_autoresponder delete_filter delete_entry list_filters : Text → MailCall

pub data UsageCall : Type 0 where
  domain_bandwidth : Text → Option Text → UsageCall
  domain_disk_usage : Text → UsageCall

pub data ModsecCall : Type 0 where
  get_status list_rules : ModsecCall
  set_mode : Text → ModsecCall
  toggle_rule : Text → ℕ → Bool → ModsecCall

-- A request with its query parameters.
abbrev pub QueryCall : Type 0
QueryCall = FieldCall × Fields

abbrev plain : FieldCall → QueryCall
plain c = (c, [])

abbrev quota_field : Option ℤ → Fields
quota_field none = []
quota_field (some n) = (codes "quota_mb", number n) ∷ []

unfoldable pub ftp_request : FtpCall → QueryCall
ftp_request list = plain (api_get (codes "/webserver/ftp"))
ftp_request (create username password home_dir quota) = plain (
    api_post (codes "/webserver/ftp") (
      (codes "username", string username)
      ∷ (codes "password", string password)
      ∷ (codes "home_dir", string home_dir)
      ∷ quota_field quota))
ftp_request (update_password i password) = plain (
    api_put (codes "/webserver/ftp/" ++ i ++ codes "/password")
      ((codes "password", string password) ∷ []))
ftp_request (delete i) = plain (api_delete (codes "/webserver/ftp/" ++ i))
ftp_request (toggle i) = plain (api_post (codes "/webserver/ftp/" ++ i ++ codes "/toggle") [])

unfoldable pub web_request : WebCall → QueryCall
web_request (list_subdomains domain) =
    (api_get (codes "/webserver/subdomains"), optional (codes "domain") domain)
web_request (create_subdomain domain subdomain root redirect) = plain (
    api_post (codes "/webserver/subdomains") (
      (codes "domain", string domain)
      ∷ (codes "subdomain", string subdomain)
      ∷ (codes "document_root", string root)
      ∷ optional (codes "redirect_to") redirect))
web_request (delete_subdomain i) = plain (api_delete (codes "/webserver/subdomains/" ++ i))
web_request list_redirects = plain (api_get (codes "/webserver/redirects"))
web_request (create_redirect d) = plain (
    api_post (codes "/webserver/redirects") (
      (codes "domain", string d.domain)
      ∷ (codes "source_path", string d.source_path)
      ∷ (codes "destination", string d.destination)
      ∷ (codes "type", number (pos (redirect_code d.kind)))
      ∷ (codes "wildcard", boolean d.wildcard)
      ∷ []))
web_request (delete_redirect i) = plain (api_delete (codes "/webserver/redirects/" ++ i))
web_request (list_error_pages domain) =
    (api_get (codes "/webserver/error-pages"), (codes "domain", string domain) ∷ [])
web_request (upsert_error_page domain code html) = plain (
    api_post (codes "/webserver/error-pages") (
      (codes "domain", string domain)
      ∷ (codes "error_code", number (pos code))
      ∷ (codes "html_content", string html)
      ∷ []))
web_request (list_privacy domain) =
    (api_get (codes "/webserver/privacy"), (codes "domain", string domain) ∷ [])
web_request (create_privacy domain path realm username password) = plain (
    api_post (codes "/webserver/privacy") (
      (codes "domain", string domain) ∷ (codes "path", string path) ∷ optional (codes "realm") realm
      ++ (codes "username", string username) ∷ (codes "password", string password) ∷ []))
web_request (delete_privacy i) = plain (api_delete (codes "/webserver/privacy/" ++ i))
web_request list_keys = plain (api_get (codes "/webserver/ssh-keys"))
web_request (add_key label public_key) = plain (
    api_post (codes "/webserver/ssh-keys")
      ((codes "label", string label) ∷ (codes "public_key", string public_key) ∷ []))
web_request (delete_key i) = plain (api_delete (codes "/webserver/ssh-keys/" ++ i))
web_request list_remote = plain (api_get (codes "/webserver/mysql-remote"))
web_request (add_remote ip label) = plain (
    api_post (codes "/webserver/mysql-remote")
      ((codes "ip_address", string ip) ∷ optional (codes "label") label))
web_request (delete_remote i) = plain (api_delete (codes "/webserver/mysql-remote/" ++ i))
web_request (generate_csr d) = plain (api_post (codes "/webserver/ssl/csr") d)
web_request (import_ssl d) = plain (api_post (codes "/webserver/ssl/import") d)

unfoldable pub mail_request : MailCall → QueryCall
mail_request list_autoresponders = plain (api_get (codes "/mail/autoresponders"))
mail_request (create_autoresponder d) = plain (api_post (codes "/mail/autoresponders") d)
mail_request (update_autoresponder i d) = plain (api_put (codes "/mail/autoresponders/" ++ i) d)
mail_request (delete_autoresponder i) = plain (api_delete (codes "/mail/autoresponders/" ++ i))
mail_request (list_filters mailbox) =
    (api_get (codes "/mail/filters"), (codes "mailbox", string mailbox) ∷ [])
mail_request (create_filter d) = plain (api_post (codes "/mail/filters") d)
mail_request (update_filter i d) = plain (api_put (codes "/mail/filters/" ++ i) d)
mail_request (delete_filter i) = plain (api_delete (codes "/mail/filters/" ++ i))
mail_request list_queue = plain (api_get (codes "/mail/queue"))
mail_request flush_queue = plain (api_post (codes "/mail/queue/flush") [])
mail_request (delete_entry i) = plain (api_delete (codes "/mail/queue/" ++ i))
mail_request delete_queue = plain (api_delete (codes "/mail/queue"))

unfoldable pub usage_request : UsageCall → QueryCall
usage_request (domain_bandwidth domain period) =
    (api_get (codes "/monitoring/bandwidth/" ++ domain), optional (codes "period") period)
usage_request (domain_disk_usage domain) = plain (api_get (codes "/monitoring/disk/" ++ domain))

unfoldable pub modsec_request : ModsecCall → QueryCall
modsec_request get_status = plain (api_get (codes "/security/modsec/status"))
modsec_request (set_mode mode) =
    plain (api_put (codes "/security/modsec/mode") ((codes "mode", string mode) ∷ []))
modsec_request list_rules = plain (api_get (codes "/security/modsec/rules"))
modsec_request (toggle_rule file line enabled) = plain (
    api_post (codes "/security/modsec/rules/toggle") (
      (codes "file", string file)
      ∷ (codes "line", number (pos line))
      ∷ (codes "enabled", boolean enabled)
      ∷ []))
