-- ===== src/Dns/Table/Runs.antt =====
-- DNSRecordTable.tsx and DNSRecordForm.tsx together: what any run of events asks of the server.
use xp_panel.Shared.{
  ◌≡◌, refl, inl, inr, Bool, true, false, ◌&&◌, not, Option, none, some, List, [], ◌∷◌, All,
  All-append, if_both, Option-cases,
}
use xp_panel.Dns.Types.{DnsRecord, DnsZone, RecordData}
use xp_panel.Api.Dns.{DnsCall, create_record, update_record, delete_record}
use xp_panel.Dns.Form.{FormInput, schema, on_submit}
use xp_panel.Dns.Form.Laws.{IsAcceptable, schema_iff}
use xp_panel.Dns.Table.{
  Pending, Effect, calls, DnsTable, TableEvent, picks_all, picks_type, types_filter, clicks_add,
  clicks_edit, clicks_delete, closes, leaves, submits, answers, is_pending, take_out, submit_form,
  settle, table_step, table_run,
}

-- The calls that may leave the table of a zone.
abbrev pub IsAllowed : DnsZone → DnsCall → Type 0
IsAllowed zone (create_record w d) = (w ≡ zone.id) × IsAcceptable d
IsAllowed zone (update_record w i d) = (w ≡ zone.id) × IsAcceptable d
IsAllowed zone (delete_record w i) = w ≡ zone.id
IsAllowed zone c = ⊥

abbrev pub IsSound : DnsZone → Effect → Type 0
IsSound zone (calls c) = IsAllowed zone c
IsSound zone e = Unit

module _ (zone : DnsZone) where
  on_submit-IsAllowed :
      (r : Option DnsRecord) (d : RecordData) → IsAcceptable d → IsAllowed zone (on_submit zone r d)
  unfolding on_submit
  on_submit-IsAllowed none d h = (refl, h)
  on_submit-IsAllowed (some r) d h = (refl, h)

  submit_form-IsSound :
      (f : FormInput) (t : DnsTable) → All (IsSound zone) (submit_form zone (schema f) t).1
  unfolding submit_form
  submit_form-IsSound f t = elim (Option-cases (schema f)) [
    | inl e ↦ rw e tt
    | inr (d, e) ↦ rw e (on_submit-IsAllowed t.edit_record d ((schema_iff f d).0 e).1, tt)
  ]

  settle-IsSound :
      (o : Option (Pending × List Pending)) (ok : Bool) (t : DnsTable)
      → All (IsSound zone) (settle zone o ok t).1
  unfolding settle
  settle-IsSound none ok t = tt
  settle-IsSound (some p) true t = (tt, (tt, tt))
  settle-IsSound (some p) false t = (tt, tt)

  table_step-IsSound : (e : TableEvent) (t : DnsTable) → All (IsSound zone) (table_step zone e t).1
  unfolding table_step
  table_step-IsSound picks_all t = tt
  table_step-IsSound (picks_type k) t = tt
  table_step-IsSound (types_filter s) t = tt
  table_step-IsSound clicks_add t = tt
  table_step-IsSound (clicks_edit r) t = tt
  table_step-IsSound (clicks_delete r false) t = tt
  table_step-IsSound (clicks_delete r true) t = (refl, tt)
  table_step-IsSound closes t = tt
  table_step-IsSound leaves t = tt
  table_step-IsSound (submits f) t =
      if_both {A = DnsTable × List Effect} (λ r. All (IsSound zone) r.1)
        (t.show_form && not (is_pending t)) _ _ (submit_form-IsSound f t) tt
  table_step-IsSound (answers i ok) t = settle-IsSound (take_out i t.in_flight) ok t

  -- Whatever is done in the table of a zone, what it asks of the server is to create or update a record of that zone with data in the ranges of the schema, or to delete one of that zone.
  pub table_run-IsSound :
      (es : List TableEvent) (t : DnsTable) → All (IsSound zone) (table_run zone es t).1
  unfolding table_run
  table_run-IsSound [] t = tt
  table_run-IsSound (e ∷ es) t =
      All-append (IsSound zone) _ _ (table_step-IsSound e t)
        (table_run-IsSound es (table_step zone e t).0)
