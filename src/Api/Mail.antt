-- ===== src/Api/Mail.antt =====
-- apps/web/src/lib/api/mail.api.ts: the calls about mailboxes, forwarders, keys and aliases.
use xp_panel.Shared.{Text, codes, Option, none, some, List, [], ◌∷◌, ◌++◌}
use xp_panel.Api.Calls.{api_get, api_post, api_put, api_patch, api_delete}
use xp_panel.Api.Fields.{Fields, FieldCall, string, strings}

pub record ForwarderInput : Type 0 where
  pub source_local : Text
  pub source_domain : Text
  pub destinations : List Text

pub data DmarcPolicy : Type 0 where
  no_policy quarantine reject : DmarcPolicy

abbrev pub policy_name : DmarcPolicy → Text
policy_name no_policy = codes "none"
policy_name quarantine = codes "quarantine"
policy_name reject = codes "reject"

pub data MailApiCall : Type 0 where
  list_mailboxes list_forwarders list_dkim : MailApiCall
  create_mailbox generate_dkim set_catch_all create_alias : Fields → MailApiCall
  update_mailbox : Text → Fields → MailApiCall
  change_password : Text → Text → MailApiCall
  suspend_mailbox unsuspend_mailbox delete_mailbox : Text → MailApiCall
  create_forwarder : ForwarderInput → MailApiCall
  delete_forwarder get_dkim delete_dkim delete_catch_all delete_alias : Text → MailApiCall
  get_catch_all list_aliases : Option Text → MailApiCall
  get_dmarc_record : Text → Option DmarcPolicy → MailApiCall

-- `encodeURIComponent` is a parameter.
module _ (encode_uri_component : Text → Text) where
  -- `domain ? `?domain=…` : ''`.
  abbrev domain_query : Option Text → Text
  domain_query none = []
  domain_query (some []) = []
  domain_query (some (c ∷ s)) = codes "?domain=" ++ encode_uri_component (c ∷ s)

  abbrev policy_query : Option DmarcPolicy → Text
  policy_query none = []
  policy_query (some p) = codes "&policy=" ++ policy_name p

  unfoldable pub mail_api_request : MailApiCall → FieldCall
  mail_api_request list_mailboxes = api_get (codes "/mail/mailboxes")
  mail_api_request (create_mailbox d) = api_post (codes "/mail/mailboxes") d
  mail_api_request (update_mailbox i d) = api_patch (codes "/mail/mailboxes/" ++ i) d
  mail_api_request (change_password i password) =
      api_put (codes "/mail/mailboxes/" ++ i ++ codes "/password")
        ((codes "password", string password) ∷ [])
  mail_api_request (suspend_mailbox i) =
      api_put (codes "/mail/mailboxes/" ++ i ++ codes "/suspend") []
  mail_api_request (unsuspend_mailbox i) =
      api_put (codes "/mail/mailboxes/" ++ i ++ codes "/unsuspend") []
  mail_api_request (delete_mailbox i) = api_delete (codes "/mail/mailboxes/" ++ i)
  mail_api_request list_forwarders = api_get (codes "/mail/forwarders")
  mail_api_request (create_forwarder d) = api_post (codes "/mail/forwarders") (
      (codes "source_local", string d.source_local)
      ∷ (codes "source_domain", string d.source_domain)
      ∷ (codes "destinations", strings d.destinations)
      ∷ [])
  mail_api_request (delete_forwarder i) = api_delete (codes "/mail/forwarders/" ++ i)
  mail_api_request list_dkim = api_get (codes "/mail/dkim")
  mail_api_request (get_dkim domain) = api_get (codes "/mail/dkim/" ++ domain)
  mail_api_request (generate_dkim d) = api_post (codes "/mail/dkim") d
  mail_api_request (delete_dkim domain) = api_delete (codes "/mail/dkim/" ++ domain)
  mail_api_request (get_catch_all domain) = api_get (codes "/mail/catchall" ++ domain_query domain)
  mail_api_request (set_catch_all d) = api_post (codes "/mail/catchall") d
  mail_api_request (delete_catch_all domain) =
      api_delete (codes "/mail/catchall?domain=" ++ encode_uri_component domain)
  mail_api_request (list_aliases domain) = api_get (codes "/mail/aliases" ++ domain_query domain)
  mail_api_request (create_alias d) = api_post (codes "/mail/aliases") d
  mail_api_request (delete_alias i) = api_delete (codes "/mail/aliases/" ++ i)
  mail_api_request (get_dmarc_record domain policy) =
      api_get (codes "/mail/dmarc?domain=" ++ encode_uri_component domain ++ policy_query policy)
