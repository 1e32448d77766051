-- ===== src/Api/Dns.antt =====
-- apps/web/src/lib/api/dns.api.ts: the calls about zones and records.
use xp_panel.Shared.{Text, codes, ◌++◌}
use xp_panel.Api.Calls.{ApiCall, api_get, api_post, api_put, api_delete}
use xp_panel.Dns.Types.{CreateZoneRequest, RecordData}

pub data DnsBody : Type 0 where
  zone_body : CreateZoneRequest → DnsBody
  record_body : RecordData → DnsBody

-- The wrappers.
pub data DnsCall : Type 0 where
  list_zones list_templates : DnsCall
  get_zone delete_zone list_records : Text → DnsCall
  create_zone : CreateZoneRequest → DnsCall
  create_record : Text → RecordData → DnsCall
  update_record : Text → Text → RecordData → DnsCall
  delete_record : Text → Text → DnsCall
  check_propagation : Text → Text → DnsCall

abbrev zone_path : Text → Text
zone_path zone = codes "/dns/zones/" ++ zone

abbrev records_path : Text → Text
records_path zone = codes "/dns/zones/" ++ zone ++ codes "/records"

abbrev record_path : Text → Text → Text
record_path zone i = codes "/dns/zones/" ++ zone ++ codes "/records/" ++ i

module _ (encode_component : Text → Text) where
  unfoldable pub dns_request : DnsCall → ApiCall DnsBody
  dns_request list_zones = api_get (codes "/dns/zones")
  dns_request (get_zone zone) = api_get (zone_path zone)
  dns_request (create_zone d) = api_post (codes "/dns/zones") (zone_body d)
  dns_request (delete_zone zone) = api_delete (zone_path zone)
  dns_request (list_records zone) = api_get (records_path zone)
  dns_request (create_record zone d) = api_post (records_path zone) (record_body d)
  dns_request (update_record zone i d) = api_put (record_path zone i) (record_body d)
  dns_request (delete_record zone i) = api_delete (record_path zone i)
  dns_request list_templates = api_get (codes "/dns/templates")
  dns_request (check_propagation domain kind) =
      api_get
        (codes "/dns/propagation?domain=" ++ encode_component domain ++ codes "&type=" ++ kind)
