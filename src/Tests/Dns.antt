-- ===== src/Tests/Dns.antt =====
-- The DNS table and its form at concrete inputs.
use xp_panel.Shared.{
  pos, ◌≡◌, refl, ◌≤◌, Text, codes, true, false, none, some, List, [], ◌∷◌, ◌++◌, length, All,
  arith, text_eq,
}
use xp_panel.Dns.Types.{DnsRecord, DnsZone, RecordData, native, active, mx, txt, naptr}
use xp_panel.Dns.Form.{schema}
use xp_panel.Dns.Form.Laws.{IsAcceptable, inputs_of, schema_iff}
use xp_panel.Dns.Table.{
  initial_table, close_form, TableEvent, clicks_add, submits, answers, clicks_edit, clicks_delete,
  closes, leaves, table_step, table_run, count_of,
}
use xp_panel.Dns.Table.Runs.{IsSound, table_run-IsSound}
use xp_panel.Dns.Table.Orderly.{requests_of, one_request}

abbrev mail_data : RecordData
mail_data = record {
  name = codes "example.com.";
  record_type = mx;
  content = codes "mail.example.com.";
  ttl = pos 3600;
  priority = pos 10;
  disabled = false;
}

mail_data-IsAcceptable : IsAcceptable mail_data
mail_data-IsAcceptable = record {
  named = λ h. absurd cc;
  filled = λ h. absurd cc;
  lifetime = (3600, refl, omega arith, omega arith);
  ranked = (10, refl);
}

schema_iff_example : schema (inputs_of mail_data) ≡ some mail_data
schema_iff_example = (schema_iff (inputs_of mail_data) mail_data).1 (refl, mail_data-IsAcceptable)

abbrev mail_record : DnsRecord
mail_record = record {
  id = codes "r1";
  zone_id = codes "z1";
  name = codes "example.com.";
  record_type = mx;
  content = codes "mail.example.com.";
  ttl = pos 3600;
  priority = pos 10;
  disabled = false;
}

abbrev other_records : List DnsRecord
other_records =
    record mail_record { record_type = txt } ∷ record mail_record { record_type = naptr } ∷ []

abbrev zone : DnsZone
zone = record {
  id = codes "z1";
  organization_id = codes "o1";
  domain_id = none;
  name = codes "example.com";
  kind = native;
  serial = 1;
  nameservers = [];
  status = active;
  records = some (mail_record ∷ other_records);
}

abbrev session : List TableEvent
session =
    clicks_add
    ∷ submits (inputs_of mail_data)
    ∷ submits (inputs_of mail_data)
    ∷ closes
    ∷ leaves
    ∷ clicks_edit mail_record
    ∷ submits (inputs_of mail_data)
    ∷ clicks_delete mail_record true
    ∷ []

table_run-IsSound_example : All (IsSound zone) (table_run zone session initial_table).1
table_run-IsSound_example = table_run-IsSound zone session initial_table

one_request_example : requests_of 0 (table_run zone session initial_table).0.in_flight ≤ 1
one_request_example = one_request zone session 0

-- Three requests are under way: that of the first form, that of the second, and the deletion.
session_requests : length (table_run zone session initial_table).0.in_flight ≡ 3
unfolding table_run table_step schema inputs_of
session_requests = refl

-- The answer to the form that was cancelled closes the one that is open.
answer_closes_other :
    ((table_run zone session initial_table).0.show_form ≡ true)
    × ((table_run zone (session ++ answers 0 true ∷ []) initial_table).0.show_form ≡ false)
unfolding table_run table_step schema inputs_of close_form
answer_closes_other = (refl, refl)

abbrev as_is : Text → Text
as_is s = s

mail_count : count_of (mail_record ∷ other_records) mx ≡ 1
unfolding text_eq
mail_count = refl
