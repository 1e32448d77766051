-- ===== src/Dns/Form.antt =====
-- apps/web/src/components/dns/DNSRecordForm.tsx: the schema, the initial values and the choice between
-- creating and updating. What the inputs hold is checked by the schema before `onSubmit` sees it.
pub mod Laws
use xp_panel.Shared.{
  ℤ, pos, negsuc, ℕ, Text, codes, Bool, true, false, ◌&&◌, ◌||◌, leb, Option, none, some, List, [],
  ◌∷◌, ◌++◌, if◌then◌else◌, text_eq, ◌>>=◌,
}
use xp_panel.Dns.Types.{
  DnsRecordType, a, type_name, DnsRecord, DnsZone, RecordData, dns_record_types,
}
use xp_panel.Api.Dns.{DnsCall, create_record, update_record}

-- The value of a number input: a whole number, or anything else (NaN, a fraction).
pub data NumberInput : Type 0 where
  whole : ℤ → NumberInput
  other : NumberInput

pub record FormInput : Type 0 where
  pub name : Text
  pub record_type : DnsRecordType
  pub content : Text
  pub ttl : NumberInput
  pub priority : NumberInput
  pub disabled : Bool

-- `z.string().min(1)`.
abbrev pub required : Text → Option Text
required [] = none
required (c ∷ s) = some (c ∷ s)

-- `z.number().int().min(low).max(high)` and `z.number().int().min(low)`.
abbrev pub number_between : ℕ → ℕ → NumberInput → Option ℤ
number_between low high (whole (pos n)) = if leb low n && leb n high then some (pos n) else none
number_between low high (whole (negsuc n)) = none
number_between low high other = none

abbrev pub number_from : ℕ → NumberInput → Option ℤ
number_from low (whole (pos n)) = if leb low n then some (pos n) else none
number_from low (whole (negsuc n)) = none
number_from low other = none

unfoldable pub schema : FormInput → Option RecordData
schema f = do
  name ← required f.name
  content ← required f.content
  ttl ← number_between 60 86400 f.ttl
  priority ← number_from 0 f.priority
  some (record {
    name = name;
    record_type = f.record_type;
    content = content;
    ttl = ttl;
    priority = priority;
    disabled = f.disabled;
  })

-- The messages under the inputs.
abbrev min_one_message : Text → Text → Option Text
min_one_message [] message = some message
min_one_message (c ∷ s) message = none

abbrev pub name_error : FormInput → Option Text
name_error f = min_one_message f.name (codes "Name is required")

abbrev pub content_error : FormInput → Option Text
content_error f = min_one_message f.content (codes "Content is required")

unfoldable pub form_of_record : DnsRecord → FormInput
form_of_record r = record {
  name = r.name;
  record_type = r.record_type;
  content = r.content;
  ttl = whole r.ttl;
  priority = whole r.priority;
  disabled = r.disabled;
}

unfoldable pub default_values : DnsZone → Option DnsRecord → FormInput
unfolding form_of_record
default_values zone none = record {
  name = zone.name ++ codes ".";
  record_type = a;
  content = [];
  ttl = whole (pos 3600);
  priority = whole (pos 0);
  disabled = false;
}
default_values zone (some r) = form_of_record r

unfoldable pub show_priority : DnsRecordType → Bool
show_priority t = text_eq (type_name t) (codes "MX") || text_eq (type_name t) (codes "SRV")

unfoldable pub on_submit : DnsZone → Option DnsRecord → RecordData → DnsCall
on_submit zone none d = create_record zone.id d
on_submit zone (some r) d = update_record zone.id r.id d

unfoldable pub content_placeholder : DnsRecordType → Text
content_placeholder a = codes "192.0.2.1"
content_placeholder DnsRecordType.aaaa = codes "2001:db8::1"
content_placeholder DnsRecordType.cname = codes "target.example.com."
content_placeholder DnsRecordType.mx = codes "mail.example.com."
content_placeholder DnsRecordType.txt = codes "\"v=spf1 include:_spf.example.com ~all\""
content_placeholder DnsRecordType.ns = codes "ns1.example.com."
content_placeholder DnsRecordType.srv = codes "10 5060 sip.example.com."
content_placeholder DnsRecordType.caa = codes "0 issue \"letsencrypt.org\""
content_placeholder t = []

-- What the form shows for a record (or none), what its inputs hold and whether a request runs.
pub record FormView : Type 0 where
  pub title : Text
  pub type_options : List DnsRecordType
  pub type_disabled : Bool
  pub name_placeholder : Text
  pub content_hint : Text
  pub priority_shown : Bool
  pub submit_text : Text
  pub submit_disabled : Bool

abbrev title_of : Option DnsRecord → Text
title_of none = codes "Add DNS Record"
title_of (some r) = codes "Edit DNS Record"

abbrev submit_text_of : Option DnsRecord → Text
submit_text_of none = codes "Create Record"
submit_text_of (some r) = codes "Update Record"

abbrev is_edit : Option DnsRecord → Bool
is_edit none = false
is_edit (some r) = true

unfoldable pub form_view : DnsZone → Option DnsRecord → FormInput → Bool → FormView
unfolding show_priority content_placeholder
form_view zone r f pending = record {
  title = title_of r;
  type_options = dns_record_types;
  type_disabled = is_edit r;
  name_placeholder = zone.name ++ codes ".";
  content_hint = content_placeholder f.record_type;
  priority_shown = show_priority f.record_type;
  submit_text = if pending then codes "Saving..." else submit_text_of r;
  submit_disabled = pending;
}
