-- ===== src/Dns/Types.antt =====
-- apps/web/src/types/dns.types.ts: the record types, zones, records and the requests about them.
use xp_panel.Shared.{ℤ, Text, codes, Bool, List, [], ◌∷◌, ℕ, Option}

pub data DnsRecordType : Type 0 where
  a aaaa cname mx txt ns soa srv caa ptr naptr : DnsRecordType

-- The string of a type.
abbrev pub type_name : DnsRecordType → Text
type_name a = codes "A"
type_name aaaa = codes "AAAA"
type_name cname = codes "CNAME"
type_name mx = codes "MX"
type_name txt = codes "TXT"
type_name ns = codes "NS"
type_name soa = codes "SOA"
type_name srv = codes "SRV"
type_name caa = codes "CAA"
type_name ptr = codes "PTR"
type_name naptr = codes "NAPTR"

pub record DnsRecord : Type 0 where
  pub id : Text
  pub zone_id : Text
  pub name : Text
  pub record_type : DnsRecordType
  pub content : Text
  pub ttl : ℤ
  pub priority : ℤ
  pub disabled : Bool

pub data ZoneKind : Type 0 where
  native master slave : ZoneKind

pub data ZoneStatus : Type 0 where
  active suspended pending : ZoneStatus

pub record DnsZone : Type 0 where
  pub id : Text
  pub organization_id : Text
  pub domain_id : Option Text
  pub name : Text
  pub kind : ZoneKind
  pub serial : ℕ
  pub nameservers : List Text
  pub status : ZoneStatus
  pub records : Option (List DnsRecord)

abbrev pub dns_record_types : List DnsRecordType
dns_record_types = a ∷ aaaa ∷ cname ∷ mx ∷ txt ∷ ns ∷ soa ∷ srv ∷ caa ∷ ptr ∷ []

abbrev pub dns_ttl_options : List (Text × ℕ)
dns_ttl_options =
    (codes "Auto (3600)", 3600)
    ∷ (codes "1 minute", 60)
    ∷ (codes "5 minutes", 300)
    ∷ (codes "30 minutes", 1800)
    ∷ (codes "1 hour", 3600)
    ∷ (codes "6 hours", 21600)
    ∷ (codes "12 hours", 43200)
    ∷ (codes "1 day", 86400)
    ∷ []

pub record CreateZoneRequest : Type 0 where
  pub name : Text
  pub kind : Option ZoneKind
  pub nameservers : Option (List Text)

-- What the record form sends, for a new record and for a changed one.
pub record RecordData : Type 0 where
  pub name : Text
  pub record_type : DnsRecordType
  pub content : Text
  pub ttl : ℤ
  pub priority : ℤ
  pub disabled : Bool
