-- ===== src/Dns/Table/Orderly.antt =====
-- DNSRecordTable.tsx and DNSRecordForm.tsx together: the requests that are under way.
use xp_panel.Shared.{
  ◌≡◌, refl, sym, inl, inr, ℕ, zero, suc, ◌+◌, ◌≤◌, ◌<◌, Bool, true, false, ◌&&◌, not, any, Option,
  none, some, List, [], ◌∷◌, ◌++◌, length, keep, Option-cases, Bool-cases, arith,
}
use xp_panel.Dns.Types.{DnsZone, RecordData}
use xp_panel.Api.Dns.{DnsCall, delete_record}
use xp_panel.Dns.Form.{schema, on_submit}
use xp_panel.Dns.Table.{
  Pending, DnsTable, TableEvent, picks_all, picks_type, types_filter, clicks_add, clicks_edit,
  clicks_delete, closes, leaves, submits, answers, close_form, leave_form, is_pending, is_from,
  take_out, submit_form, settle, table_step, table_run, initial_table, start_request,
}

-- The requests under way of the form with a number.
abbrev pub requests_of : ℕ → List Pending → ℕ
requests_of n ps = length (keep (is_from n) ps)

-- Each form has one request at most, and forms to come have none.
record IsOrderly (t : DnsTable) : Type 0 where
  single : (n : ℕ) → requests_of n t.in_flight ≤ 1
  fresh : (n : ℕ) → t.form_number < n → requests_of n t.in_flight ≡ 0

requests-append :
    (n : ℕ) (ps qs : List Pending) → requests_of n (ps ++ qs) ≡ requests_of n ps + requests_of n qs
requests-append n [] qs = omega arith
requests-append n (p ∷ ps) qs = ground (arith, requests-append n ps qs)

none_pending : (n : ℕ) (ps : List Pending) → any (is_from n) ps ≡ false → requests_of n ps ≡ 0
none_pending n [] h = refl
none_pending n (p ∷ ps) h = ground (arith, none_pending n ps)

take_out-less :
    (n i : ℕ) (ps : List Pending) (p : Pending) (rest : List Pending)
    → take_out i ps ≡ some (p, rest)
    → requests_of n rest ≤ requests_of n ps
unfolding take_out
take_out-less n i [] p rest h = absurd cc
take_out-less n zero (q ∷ ps) p rest h = let e : ps ≡ rest = cc in rw (sym e) (ground arith)
take_out-less n (suc i) (q ∷ ps) p rest h = elim (Option-cases (take_out i ps)) [
  | inl e ↦ absurd (ground arith)
  | inr ((p', rest'), e) ↦ let ih = take_out-less n i ps p' rest' e in ground (arith, ih)
]

fewer-IsOrderly :
    (i : ℕ) (t : DnsTable) (p : Pending) (rest : List Pending)
    → take_out i t.in_flight ≡ some (p, rest)
    → IsOrderly t
    → IsOrderly (record t { in_flight = rest })
fewer-IsOrderly i t p rest e h =
    let less : (n : ℕ) → requests_of n rest ≤ requests_of n t.in_flight =
      λ n. take_out-less n i t.in_flight p rest e in
    record {
      single = λ n. omega (arith, less n, h.single n);
      fresh = λ n k. omega (arith, less n, h.fresh n k);
    }

close_form-IsOrderly : (t : DnsTable) → IsOrderly t → IsOrderly (close_form t)
unfolding close_form
close_form-IsOrderly t h = record { single = h.single; fresh = h.fresh }

leave_form-IsOrderly : (t : DnsTable) → IsOrderly t → IsOrderly (leave_form t)
unfolding leave_form
leave_form-IsOrderly t h = record { single = h.single; fresh = λ n k. h.fresh n (ground arith) }

added :
    (n : ℕ) (c : DnsCall) (o : Option ℕ) (ps : List Pending)
    → requests_of n (ps ++ record { form_number = o; request = c } ∷ [])
      ≡ requests_of n ps + requests_of n (record { form_number = o; request = c } ∷ [])
added n c o ps = requests-append n ps (record { form_number = o; request = c } ∷ [])

start-IsOrderly :
    (c : DnsCall) (t : DnsTable)
    → is_pending t ≡ false
    → IsOrderly t
    → IsOrderly (start_request (some t.form_number) c t).0
start-IsOrderly c t idle h =
    let none_yet = none_pending t.form_number t.in_flight idle in
    record {
      single =
          λ n. ground (arith, added n c (some t.form_number) t.in_flight, none_yet, h.single n);
      fresh = λ n k. ground (arith, added n c (some t.form_number) t.in_flight, h.fresh n k);
    }

delete-IsOrderly : (c : DnsCall) (t : DnsTable) → IsOrderly t → IsOrderly (start_request none c t).0
delete-IsOrderly c t h = record {
  single = λ n. omega (arith, added n c none t.in_flight, h.single n);
  fresh = λ n k. omega (arith, added n c none t.in_flight, h.fresh n k);
}

module _ (zone : DnsZone) where
  settled :
      (p : Pending) (rest : List Pending) (ok : Bool) (t : DnsTable)
      → IsOrderly (record t { in_flight = rest })
      → IsOrderly (settle zone (some (p, rest)) ok t).0
  unfolding settle
  settled p rest false t h = h
  settled p rest true t h = elim (Option-cases p.form_number) [
    | inl e ↦ rw e h
    | inr (n, e) ↦ rw e (close_form-IsOrderly (record t { in_flight = rest }) h)
  ]

  submit-IsOrderly :
      (o : Option RecordData) (t : DnsTable)
      → is_pending t ≡ false
      → IsOrderly t
      → IsOrderly (submit_form zone o t).0
  unfolding submit_form
  submit-IsOrderly none t idle h = h
  submit-IsOrderly (some d) t idle h = start-IsOrderly (on_submit zone t.edit_record d) t idle h

  settle-IsOrderly :
      (i : ℕ) (ok : Bool) (t : DnsTable)
      → IsOrderly t
      → IsOrderly (settle zone (take_out i t.in_flight) ok t).0
  unfolding settle
  settle-IsOrderly i ok t h = elim (Option-cases (take_out i t.in_flight)) [
    | inl e ↦ rw e h
    | inr ((p, rest), e) ↦ rw e (settled p rest ok t (fewer-IsOrderly i t p rest e h))
  ]

  table_step-IsOrderly :
      (e : TableEvent) (t : DnsTable) → IsOrderly t → IsOrderly (table_step zone e t).0
  unfolding table_step
  table_step-IsOrderly picks_all t h = record { single = h.single; fresh = h.fresh }
  table_step-IsOrderly (picks_type k) t h = record { single = h.single; fresh = h.fresh }
  table_step-IsOrderly (types_filter s) t h = record { single = h.single; fresh = h.fresh }
  table_step-IsOrderly clicks_add t h = record { single = h.single; fresh = h.fresh }
  table_step-IsOrderly (clicks_edit r) t h = record { single = h.single; fresh = h.fresh }
  table_step-IsOrderly (clicks_delete r false) t h = h
  table_step-IsOrderly (clicks_delete r true) t h =
      delete-IsOrderly (delete_record zone.id r.id) t h
  table_step-IsOrderly closes t h = close_form-IsOrderly t h
  table_step-IsOrderly leaves t h = leave_form-IsOrderly t h
  table_step-IsOrderly (submits f) t h = elim (Bool-cases (t.show_form && not (is_pending t))) [
    | inl e ↦ rw e (submit-IsOrderly (schema f) t (ground arith) h)
    | inr e ↦ rw e h
  ]
  table_step-IsOrderly (answers i ok) t h = settle-IsOrderly i ok t h

  run-IsOrderly :
      (es : List TableEvent) (t : DnsTable) → IsOrderly t → IsOrderly (table_run zone es t).0
  unfolding table_run
  run-IsOrderly [] t h = h
  run-IsOrderly (e ∷ es) t h = run-IsOrderly es (table_step zone e t).0 (table_step-IsOrderly e t h)

  -- Whatever is done from the first state of the table on, each form has one request under way at most.
  pub one_request :
      (es : List TableEvent) (n : ℕ)
      → requests_of n (table_run zone es initial_table).0.in_flight ≤ 1
  one_request es n =
      (run-IsOrderly es initial_table
          (record { single = λ m. omega arith; fresh = λ m k. refl })).single
        n
