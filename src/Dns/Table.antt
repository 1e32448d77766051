-- ===== src/Dns/Table.antt =====
-- apps/web/src/components/dns/DNSRecordTable.tsx: the filters, the rows, the form over the table and
-- the requests that the table and the form make. A request is answered by a later event.
pub mod Laws
pub mod Runs
pub mod Orderly
use xp_panel.Shared.{
  ℤ, pos, negsuc, ℕ, zero, suc, ◌+◌, ◌==◌, Text, codes, Bool, true, false, ◌&&◌, ◌||◌, not, Option,
  none, some, List, [], ◌∷◌, ◌++◌, map, keep, any, length, get_or, if◌then◌else◌, text_eq,
  has_substring, ◌>>=◌,
}
use xp_panel.Dns.Types.{DnsRecordType, type_name, DnsRecord, DnsZone, RecordData, dns_record_types}
use xp_panel.Dns.Form.{FormInput, schema, on_submit}
use xp_panel.Api.Dns.{DnsCall, delete_record}

abbrev pub has_type : DnsRecord → Text → Bool
has_type r t = text_eq (type_name r.record_type) t

abbrev pub zone_records : DnsZone → List DnsRecord
zone_records zone = get_or zone.records []

-- A button of the type filter: its type, its count and whether it is the chosen one.
pub record TypeButton : Type 0 where
  pub button_type : DnsRecordType
  pub count : ℕ
  pub chosen : Bool

abbrev pub count_of : List DnsRecord → DnsRecordType → ℕ
count_of records t = length (keep (λ r. has_type r (type_name t)) records)

unfoldable pub type_buttons : List DnsRecord → Text → List DnsRecordType → List TypeButton
type_buttons records type_filter [] = []
type_buttons records type_filter (t ∷ ts) =
    let rest = type_buttons records type_filter ts in
    let button : TypeButton = record {
      button_type = t;
      count = count_of records t;
      chosen = text_eq type_filter (type_name t);
    } in
    if count_of records t == 0 then rest else button ∷ rest

-- The lines of the table.
pub record Row : Type 0 where
  pub row_name : Text
  pub disabled_badge : Bool
  pub row_type : Text
  pub shown_priority : Option ℤ
  pub row_content : Text
  pub row_ttl : ℤ

abbrev pub positive : ℤ → Option ℤ
positive (pos zero) = none
positive (pos (suc n)) = some (pos (suc n))
positive (negsuc n) = none

abbrev pub row : DnsRecord → Row
row r = record {
  row_name = r.name;
  disabled_badge = r.disabled;
  row_type = type_name r.record_type;
  shown_priority = positive r.priority;
  row_content = r.content;
  row_ttl = r.ttl;
}

pub data TableBody : Type 0 where
  message : Text → TableBody
  rows : List Row → TableBody

unfoldable pub table_body : List DnsRecord → List DnsRecord → TableBody
table_body [] [] = message (codes "No DNS records yet")
table_body (r ∷ records) [] = message (codes "No records match the filter")
table_body records (r ∷ filtered) = rows (map row (r ∷ filtered))

-- A request under way: the form that made it (none for the table's own), and its call.
pub record Pending : Type 0 where
  pub form_number : Option ℕ
  pub request : DnsCall

pub data Effect : Type 0 where
  calls : DnsCall → Effect
  tells_success : Text → Effect
  tells_error : Text → Effect
  invalidates : Text → Effect

-- The state of the table, with the number of the form that is shown, leaving or to come.
pub record DnsTable : Type 0 where
  pub show_form : Bool
  pub edit_record : Option DnsRecord
  pub filter : Text
  pub type_filter : Text
  pub form_number : ℕ
  pub in_flight : List Pending

abbrev pub initial_table : DnsTable
initial_table = record {
  show_form = false;
  edit_record = none;
  filter = [];
  type_filter = codes "all";
  form_number = 0;
  in_flight = [];
}

pub data TableEvent : Type 0 where
  picks_all clicks_add closes leaves : TableEvent
  picks_type : DnsRecordType → TableEvent
  types_filter : Text → TableEvent
  clicks_edit : DnsRecord → TableEvent
  clicks_delete : DnsRecord → Bool → TableEvent
  submits : FormInput → TableEvent
  answers : ℕ → Bool → TableEvent

-- `onClose`.
unfoldable pub close_form : DnsTable → DnsTable
close_form t = record t { show_form = false; edit_record = none }

-- The end of the animation of `AnimatePresence`: until then a form that is opened again is the same one
-- with its request; from then on it is another one.
unfoldable pub leave_form : DnsTable → DnsTable
leave_form t = record t { form_number = if t.show_form then t.form_number else suc t.form_number }

-- `isPending` of the form that is shown.
abbrev is_from : ℕ → Pending → Bool
is_from n p = elim p.form_number [ none ↦ false | some m ↦ m == n ]

abbrev pub is_pending : DnsTable → Bool
is_pending t = any (is_from t.form_number) t.in_flight

abbrev pub start_request : Option ℕ → DnsCall → DnsTable → DnsTable × List Effect
start_request n c t = (
  record t { in_flight = t.in_flight ++ record { form_number = n; request = c } ∷ [] },
  calls c ∷ [],
)

-- The request at a place of the list, and the others.
unfoldable pub take_out : ℕ → List Pending → Option (Pending × List Pending)
take_out i [] = none
take_out zero (p ∷ ps) = some (p, ps)
take_out (suc i) (p ∷ ps) = do found ← take_out i ps; some (found.0, p ∷ found.1)

-- The two messages of a mutation.
abbrev pub success_text : DnsCall → Text
success_text (DnsCall.create_record zone d) = codes "Record created"
success_text (DnsCall.update_record zone i d) = codes "Record updated"
success_text c = codes "Record deleted"

abbrev pub failure_text : DnsCall → Text
failure_text (DnsCall.create_record zone d) = codes "Failed to create record"
failure_text (DnsCall.update_record zone i d) = codes "Failed to update record"
failure_text c = codes "Failed to delete record"

-- `onClose()` belongs to the mutations of a form.
abbrev pub close_after : Option ℕ → DnsTable → DnsTable
close_after none t = t
close_after (some n) t = close_form t

module _ (zone : DnsZone) where
  unfoldable pub submit_form : Option RecordData → DnsTable → DnsTable × List Effect
  unfolding on_submit
  submit_form none t = (t, [])
  submit_form (some d) t = start_request (some t.form_number) (on_submit zone t.edit_record d) t

  unfoldable pub settle : Option (Pending × List Pending) → Bool → DnsTable → DnsTable × List Effect
  unfolding close_form
  settle none ok t = (t, [])
  settle (some (p, rest)) true t = (
    close_after p.form_number (record t { in_flight = rest }),
    invalidates zone.id ∷ tells_success (success_text p.request) ∷ [],
  )
  settle (some (p, rest)) false t =
      (record t { in_flight = rest }, tells_error (failure_text p.request) ∷ [])

  unfoldable pub table_step : TableEvent → DnsTable → DnsTable × List Effect
  unfolding close_form leave_form submit_form settle schema take_out
  table_step picks_all t = (record t { type_filter = codes "all" }, [])
  table_step (picks_type k) t = (record t { type_filter = type_name k }, [])
  table_step (types_filter s) t = (record t { filter = s }, [])
  table_step clicks_add t = (record t { edit_record = none; show_form = true }, [])
  table_step (clicks_edit r) t = (record t { edit_record = some r; show_form = true }, [])
  table_step (clicks_delete r false) t = (t, [])
  table_step (clicks_delete r true) t = start_request none (delete_record zone.id r.id) t
  table_step closes t = (close_form t, [])
  table_step leaves t = (leave_form t, [])
  table_step (submits f) t =
      if t.show_form && not (is_pending t) then submit_form (schema f) t else (t, [])
  table_step (answers i ok) t = settle (take_out i t.in_flight) ok t

  -- Events in turn, with all that they cause.
  unfoldable pub table_run : List TableEvent → DnsTable → DnsTable × List Effect
  unfolding table_step
  table_run [] t = (t, [])
  table_run (e ∷ es) t =
      let first = table_step e t in let rest = table_run es first.0 in (rest.0, first.1 ++ rest.1)

module _ (lower : Text → Text) where
  unfoldable pub shows : Text → Text → DnsRecord → Bool
  shows filter type_filter r =
      let match_type = text_eq type_filter (codes "all") || has_type r type_filter in
      let match_search =
        text_eq filter []
        || has_substring (lower r.name) (lower filter)
        || has_substring (lower r.content) (lower filter) in
      match_type && match_search

  abbrev pub filtered : List DnsRecord → Text → Text → List DnsRecord
  filtered records filter type_filter = keep (shows filter type_filter) records

  -- All that the table shows.
  pub record TableView : Type 0 where
    pub all_count : ℕ
    pub all_chosen : Bool
    pub buttons : List TypeButton
    pub body : TableBody
    pub form : Option (Option DnsRecord)

  unfoldable pub table_view : DnsZone → DnsTable → TableView
  unfolding type_buttons table_body shows
  table_view zone t = record {
    all_count = length (zone_records zone);
    all_chosen = text_eq t.type_filter (codes "all");
    buttons = type_buttons (zone_records zone) t.type_filter dns_record_types;
    body = table_body (zone_records zone) (filtered (zone_records zone) t.filter t.type_filter);
    form = if t.show_form then some t.edit_record else none;
  }
