-- ===== src/Panel/Threats/Laws.antt =====
-- geomap/page.tsx: the numbers of the page, and the origins that it lists.
use xp_panel.Shared.{
  ◌≡◌, refl, sym, ◌∙◌, ℕ, zero, suc, ◌+◌, ◌≤◌, ltb, Text, Bool, true, false, List, [], ◌∷◌, ◌++◌,
  map, take, length, length-append, length-take, length-keep-le, keep, text_eq, text_eq_iff, All,
  All-take, if_split, if◌then◌else◌, arith, if_both, Bool-cases, inl, inr,
}
use xp_panel.Panel.Threats.{
  ThreatEvent, generate_threat, ThreatPage, no_threats, is_critical, add_stats, ThreatPageEvent,
  fires, toggles_live, threat_step, threat_run, count_one, count_countries, insert_count,
  sort_counts, top_countries,
}

-- At most fifty threats are kept, every threat counts as blocked, and no more are critical than there are.
pub record IsBounded (p : ThreatPage) : Type 0 where
  pub kept : length p.threats ≤ 50
  pub all_kept : length p.threats ≤ p.stats.total
  pub all_blocked : p.stats.blocked ≡ p.stats.total
  pub some_critical : p.stats.critical_count ≤ p.stats.total
  pub few_countries : p.stats.countries ≤ 47

threat_step-IsBounded :
    (e : ThreatPageEvent) (p : ThreatPage) → IsBounded p → IsBounded (threat_step e p)
unfolding threat_step add_stats
threat_step-IsBounded toggles_live p h = record {
  kept = h.kept;
  all_kept = h.all_kept;
  all_blocked = h.all_blocked;
  some_critical = h.some_critical;
  few_countries = h.few_countries;
}
threat_step-IsBounded (fires draws another) p h =
    let new = map generate_threat draws in
    let size = length-append new p.threats in
    let cut = length-take 50 (new ++ p.threats) in
    let some' = length-keep-le is_critical new in
    if_both IsBounded p.is_live _ _
      (record {
        kept = omega (arith, cut);
        all_kept = omega (arith, cut, size, h.all_kept);
        all_blocked = omega (arith, h.all_blocked);
        some_critical = omega (arith, some', h.some_critical);
        few_countries = omega arith;
      })
      h

-- After any firing of the timer and any use of the button, the page keeps at most fifty threats, every threat counts as blocked, no more are critical than there are, and at most 47 countries are counted.
pub threat_run-IsBounded : (es : List ThreatPageEvent) → IsBounded (threat_run es no_threats)
unfolding threat_run
threat_run-IsBounded es = go es no_threats (record {
  kept = omega arith;
  all_kept = omega arith;
  all_blocked = refl;
  some_critical = omega arith;
  few_countries = omega arith;
})
  where
    go : (es : List ThreatPageEvent) (p : ThreatPage) → IsBounded p → IsBounded (threat_run es p)
    go [] p h = h
    go (e ∷ es) p h = go es (threat_step e p) (threat_step-IsBounded e p h)

abbrev pub sum : List (Text × ℕ) → ℕ
sum [] = 0
sum (a ∷ l) = a.1 + sum l

-- The counts fall along the list.
abbrev pub IsFalling : List (Text × ℕ) → Type 0
IsFalling [] = Unit
IsFalling (a ∷ l) = All (λ b. b.1 ≤ a.1) l × IsFalling l

sum-count_one : (code : Text) (l : List (Text × ℕ)) → sum (count_one code l) ≡ suc (sum l)
unfolding count_one
sum-count_one code [] = refl
sum-count_one code (a ∷ l) = ground (arith, sum-count_one code l)

sum-count_countries :
    (ts : List ThreatEvent) (l : List (Text × ℕ)) → sum (count_countries ts l) ≡ length ts + sum l
unfolding count_countries
sum-count_countries [] l = omega arith
sum-count_countries (t ∷ ts) l =
    omega (arith, sum-count_countries ts (count_one t.src_country l), sum-count_one t.src_country l)

sum-insert_count : (a : Text × ℕ) (l : List (Text × ℕ)) → sum (insert_count a l) ≡ a.1 + sum l
unfolding insert_count
sum-insert_count a [] = refl
sum-insert_count a (b ∷ l) = ground (arith, sum-insert_count a l)

sum-sort_counts : (l s : List (Text × ℕ)) → sum (sort_counts l s) ≡ sum l + sum s
unfolding sort_counts
sum-sort_counts [] s = omega arith
sum-sort_counts (a ∷ l) s =
    omega (arith, sum-sort_counts l (insert_count a s), sum-insert_count a s)

insert_count-All :
    (n : ℕ) (a : Text × ℕ) (l : List (Text × ℕ))
    → a.1 ≤ n
    → All (λ b. b.1 ≤ n) l
    → All (λ b. b.1 ≤ n) (insert_count a l)
unfolding insert_count
insert_count-All n a [] h k = (h, tt)
insert_count-All n a (b ∷ l) h k =
    if_both (All (λ b. b.1 ≤ n)) (ltb b.1 a.1) _ _ (h, k) (k.0, insert_count-All n a l h k.1)

below : (m n : ℕ) (l : List (Text × ℕ)) → m ≤ n → All (λ b. b.1 ≤ m) l → All (λ b. b.1 ≤ n) l
below m n [] h k = tt
below m n (a ∷ l) h k = (omega (arith, k.0), below m n l h k.1)

insert_count-IsFalling :
    (a : Text × ℕ) (l : List (Text × ℕ)) → IsFalling l → IsFalling (insert_count a l)
unfolding insert_count
insert_count-IsFalling a [] h = (tt, tt)
insert_count-IsFalling a (b ∷ l) h =
    if_split IsFalling (ltb b.1 a.1) _ _
      (λ e. ((ground arith, below b.1 a.1 l (ground arith) h.0), h))
      (λ e. (insert_count-All b.1 a l (ground arith) h.0, insert_count-IsFalling a l h.1))

sort_counts-IsFalling : (l s : List (Text × ℕ)) → IsFalling s → IsFalling (sort_counts l s)
unfolding sort_counts
sort_counts-IsFalling [] s h = h
sort_counts-IsFalling (a ∷ l) s h =
    sort_counts-IsFalling l (insert_count a s) (insert_count-IsFalling a s h)

take-IsFalling : (n : ℕ) (l : List (Text × ℕ)) → IsFalling l → IsFalling (take n l)
take-IsFalling zero l h = tt
take-IsFalling (suc n) [] h = tt
take-IsFalling (suc n) (a ∷ l) h = (All-take _ n l h.0, take-IsFalling n l h.1)

-- The count kept for a country.
abbrev pub count_for : Text → List (Text × ℕ) → ℕ
count_for code [] = 0
count_for code (a ∷ l) = if text_eq a.0 code then a.1 else count_for code l

abbrev one_if : Bool → ℕ
one_if b = if b then 1 else 0

not_same : (a c code : Text) → text_eq a c ≡ false → text_eq a code ≡ true → text_eq c code ≡ false
not_same a c code e k = elim (Bool-cases (text_eq c code)) [
  | inl h ↦
      let same : a ≡ c = (text_eq_iff a code).0 k ∙ sym ((text_eq_iff c code).0 h) in
      absurd (differs ((text_eq_iff a c).1 same) e)
  | inr h ↦ h
]
  where
    differs : {b : Bool} → b ≡ true → b ≡ false → ⊥
    differs h k = cc

count_for-count_one :
    (code c : Text) (l : List (Text × ℕ))
    → count_for code (count_one c l) ≡ one_if (text_eq c code) + count_for code l
unfolding count_one
count_for-count_one code c [] = ground arith
count_for-count_one code c (a ∷ l) = elim (Bool-cases (text_eq a.0 c)) [
  | inl e ↦ let same : a.0 ≡ c = (text_eq_iff a.0 c).0 e in rw (e, same) (ground arith)
  | inr e ↦ elim (Bool-cases (text_eq a.0 code)) [
    | inl k ↦ rw (e, k, not_same a.0 c code e k) (omega arith)
    | inr k ↦ rw (e, k) (count_for-count_one code c l)
  ]
]

count_for-count_countries :
    (code : Text) (ts : List ThreatEvent) (l : List (Text × ℕ))
    → count_for code (count_countries ts l)
      ≡ length (keep (λ t. text_eq t.src_country code) ts) + count_for code l
unfolding count_countries
count_for-count_countries code [] l = omega arith
count_for-count_countries code (t ∷ ts) l = ground (
  arith,
  count_for-count_countries code ts (count_one t.src_country l),
  count_for-count_one code t.src_country l,
)

-- The count of each country is the number of threats kept that come from it, the counts add up to the threats kept, and the origins listed are five at most, with falling counts.
pub origins_counted :
    (ts : List ThreatEvent)
    → ((code : Text)
        → count_for code (count_countries ts [])
          ≡ length (keep (λ t. text_eq t.src_country code) ts))
      × (sum (sort_counts (count_countries ts []) []) ≡ length ts)
      × (length (top_countries ts) ≤ 5)
      × IsFalling (top_countries ts)
origins_counted ts =
    let counts = count_countries ts [] in
    let sorted = sort_counts counts [] in
    (
      λ code. omega (arith, count_for-count_countries code ts []),
      omega (arith, sum-sort_counts counts [], sum-count_countries ts []),
      omega (arith, length-take 5 sorted),
      take-IsFalling 5 sorted (sort_counts-IsFalling counts [] tt),
    )
