-- ===== src/Dns/Table/Laws.antt =====
-- DNSRecordTable.tsx: the counts on the buttons and the rows that a button shows.
use xp_panel.Shared.{
  ◌≡◌, refl, ℕ, ◌+◌, Text, codes, false, List, [], ◌∷◌, length, if◌then◌else◌, text_eq, arith,
}
use xp_panel.Dns.Types.{
  DnsRecordType, type_name, DnsRecord, dns_record_types, a, aaaa, cname, mx, txt, ns, soa, srv, caa,
  ptr, naptr,
}
use xp_panel.Dns.Table.{count_of, shows, filtered}

not_all : (t : DnsRecordType) → text_eq (type_name t) (codes "all") ≡ false
unfolding text_eq
not_all a = refl
not_all aaaa = refl
not_all cname = refl
not_all mx = refl
not_all txt = refl
not_all ns = refl
not_all soa = refl
not_all srv = refl
not_all caa = refl
not_all ptr = refl
not_all naptr = refl

-- The rows shown after a click on a type, with no search, are as many as its button says.
pub button_counts :
    (lower : Text → Text) (records : List DnsRecord) (t : DnsRecordType)
    → length (filtered lower records [] (type_name t)) ≡ count_of records t
unfolding shows text_eq
button_counts lower [] t = refl
button_counts lower (r ∷ records) t = ground (arith, not_all t, button_counts lower records t)

abbrev pub sum : List DnsRecordType → List DnsRecord → ℕ
sum [] records = 0
sum (t ∷ ts) records = count_of records t + sum ts records

-- What one record adds to the count of a type.
abbrev hit : DnsRecordType → DnsRecordType → ℕ
hit k t = if text_eq (type_name k) (type_name t) then 1 else 0

count_cons :
    (r : DnsRecord) (records : List DnsRecord) (t : DnsRecordType)
    → count_of (r ∷ records) t ≡ hit r.record_type t + count_of records t
count_cons r records t = ground arith

abbrev hits : DnsRecordType → List DnsRecordType → ℕ
hits k [] = 0
hits k (t ∷ ts) = hit k t + hits k ts

one_hit : (k : DnsRecordType) → hits k dns_record_types + hit k naptr ≡ 1
unfolding text_eq
one_hit a = refl
one_hit aaaa = refl
one_hit cname = refl
one_hit mx = refl
one_hit txt = refl
one_hit ns = refl
one_hit soa = refl
one_hit srv = refl
one_hit caa = refl
one_hit ptr = refl
one_hit naptr = refl

sum_cons :
    (r : DnsRecord) (records : List DnsRecord) (ts : List DnsRecordType)
    → sum ts (r ∷ records) ≡ hits r.record_type ts + sum ts records
sum_cons r records [] = refl
sum_cons r records (t ∷ ts) = omega (arith, count_cons r records t, sum_cons r records ts)

-- The counts of all buttons, and the records of the type that has none, are all records.
pub counts_cover :
    (records : List DnsRecord)
    → sum dns_record_types records + count_of records naptr ≡ length records
counts_cover [] = refl
counts_cover (r ∷ records) = omega (
  arith,
  sum_cons r records dns_record_types,
  count_cons r records naptr,
  one_hit r.record_type,
  counts_cover records,
)
