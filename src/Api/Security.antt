-- ===== src/Api/Security.antt =====
-- apps/web/src/lib/api/security.api.ts and types/security.types.ts: firewall rules, blocked addresses and the calls about them.
use xp_panel.Shared.{ℕ, pos, Text, codes, Bool, Option, none, some, [], ◌∷◌, ◌++◌}
use xp_panel.Api.Calls.{api_get, api_post, api_delete}
use xp_panel.Api.Fields.{FieldCall, Fields, string, number, optional}

pub data Chain : Type 0 where
  input output forward : Chain

pub data RuleAction : Type 0 where
  accept drop reject : RuleAction

abbrev pub chain_name : Chain → Text
chain_name input = codes "INPUT"
chain_name output = codes "OUTPUT"
chain_name forward = codes "FORWARD"

abbrev pub rule_action_name : RuleAction → Text
rule_action_name accept = codes "ACCEPT"
rule_action_name drop = codes "DROP"
rule_action_name reject = codes "REJECT"

pub record FirewallRule : Type 0 where
  pub id : Text
  pub organization_id : Text
  pub server_id : Option Text
  pub chain : Chain
  pub action : RuleAction
  pub protocol : Option Text
  pub source_ip : Option Text
  pub dest_ip : Option Text
  pub port_range : Option Text
  pub priority : ℕ
  pub enabled : Bool
  pub comment : Option Text
  pub created_at : Text

pub record BlockedIp : Type 0 where
  pub id : Text
  pub organization_id : Text
  pub ip : Text
  pub reason : Option Text
  pub expires_at : Option Text
  pub created_at : Text

pub record RuleInput : Type 0 where
  pub chain : Chain
  pub action : RuleAction
  pub protocol : Option Text
  pub source_ip : Option Text
  pub dest_ip : Option Text
  pub port_range : Option Text
  pub priority : ℕ
  pub comment : Option Text

pub record BlockInput : Type 0 where
  pub ip : Text
  pub reason : Option Text

pub data GeoAction : Type 0 where
  block log : GeoAction

abbrev geo_action_field : Option GeoAction → Fields
geo_action_field none = []
geo_action_field (some block) = (codes "action", string (codes "block")) ∷ []
geo_action_field (some log) = (codes "action", string (codes "log")) ∷ []

pub data SecurityCall : Type 0 where
  get_score list_firewall_rules list_events list_blocklist list_geoip_blocks : SecurityCall
  create_firewall_rule : RuleInput → SecurityCall
  block_ip : BlockInput → SecurityCall
  delete_firewall_rule unblock_ip remove_geoip_block lookup_geoip : Text → SecurityCall
  add_geoip_block : Text → Text → Option GeoAction → SecurityCall

module _ (encode_component : Text → Text) where
  unfoldable pub security_request : SecurityCall → FieldCall
  security_request get_score = api_get (codes "/security/score")
  security_request list_firewall_rules = api_get (codes "/security/firewall")
  security_request (create_firewall_rule d) = api_post (codes "/security/firewall") (
      (codes "chain", string (chain_name d.chain))
        ∷ (codes "action", string (rule_action_name d.action))
        ∷ (codes "priority", number (pos d.priority))
        ∷ optional (codes "protocol") d.protocol
      ++ optional (codes "source_ip") d.source_ip
      ++ optional (codes "dest_ip") d.dest_ip
      ++ optional (codes "port_range") d.port_range
      ++ optional (codes "comment") d.comment)
  security_request (delete_firewall_rule i) = api_delete (codes "/security/firewall/" ++ i)
  security_request list_events = api_get (codes "/security/events")
  security_request list_blocklist = api_get (codes "/security/blocklist")
  security_request (block_ip d) =
      api_post (codes "/security/blocklist")
        ((codes "ip", string d.ip) ∷ optional (codes "reason") d.reason)
  security_request (unblock_ip i) = api_delete (codes "/security/blocklist/" ++ i)
  security_request list_geoip_blocks = api_get (codes "/security/geoip")
  security_request (add_geoip_block code name action) = api_post (codes "/security/geoip") (
      (codes "country_code", string code)
      ∷ (codes "country_name", string name)
      ∷ geo_action_field action)
  security_request (remove_geoip_block code) = api_delete (codes "/security/geoip/" ++ code)
  security_request (lookup_geoip ip) =
      api_get (codes "/security/geoip/lookup?ip=" ++ encode_component ip)
