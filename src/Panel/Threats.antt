-- ===== src/Panel/Threats.antt =====
-- apps/web/src/app/(panel)/monitoring/geomap/page.tsx: the threats that a timer makes up, the numbers
-- about them and the two lists beside the map. Random numbers are arguments; the coordinates and the
-- drawing on the canvas are left out.
pub mod Laws
use xp_panel.Shared.{
  ℕ, zero, suc, ◌+◌, ◌*◌, min, ltb, leb, ◌==◌, Text, codes, Bool, true, false, not, Option, none,
  some, List, [], ◌∷◌, ◌++◌, map, take, keep, length, get_elem?, get_or, if◌then◌else◌, text_eq,
}

pub data Severity : Type 0 where
  low medium high critical : Severity

pub record ThreatEvent : Type 0 where
  pub id : Text
  pub src_country : Text
  pub dst_country : Text
  pub src_ip : Text
  pub kind : Text
  pub severity : Severity
  pub timestamp : ℕ

abbrev pub severity_color : Severity → Text
severity_color low = codes "#3b82f6"
severity_color medium = codes "#f59e0b"
severity_color high = codes "#ef4444"
severity_color critical = codes "#dc2626"

abbrev pub threat_types : List Text
threat_types =
    codes "brute_force"
    ∷ codes "port_scan"
    ∷ codes "sql_injection"
    ∷ codes "ddos"
    ∷ codes "malware"
    ∷ codes "phishing"
    ∷ codes "xss"
    ∷ []

abbrev pub country_names : List (Text × Text)
country_names =
    (codes "CN", codes "China")
    ∷ (codes "US", codes "United States")
    ∷ (codes "RU", codes "Russia")
    ∷ (codes "BR", codes "Brazil")
    ∷ (codes "DE", codes "Germany")
    ∷ (codes "GB", codes "United Kingdom")
    ∷ (codes "IN", codes "India")
    ∷ (codes "KR", codes "South Korea")
    ∷ (codes "FR", codes "France")
    ∷ (codes "NL", codes "Netherlands")
    ∷ (codes "UA", codes "Ukraine")
    ∷ (codes "IR", codes "Iran")
    ∷ (codes "JP", codes "Japan")
    ∷ (codes "AU", codes "Australia")
    ∷ (codes "CA", codes "Canada")
    ∷ (codes "SG", codes "Singapore")
    ∷ []

-- `COUNTRY_NAMES[code] ?? code`.
unfoldable pub name_in : List (Text × Text) → Text → Text
name_in [] code = code
name_in ((key, name) ∷ rest) code = if text_eq key code then name else name_in rest code

abbrev pub src_countries : List Text
src_countries =
    codes "CN"
    ∷ codes "RU"
    ∷ codes "IR"
    ∷ codes "KR"
    ∷ codes "IN"
    ∷ codes "BR"
    ∷ codes "UA"
    ∷ codes "TR"
    ∷ codes "VN"
    ∷ codes "ID"
    ∷ []

abbrev pub dst_countries : List Text
dst_countries =
    codes "US"
    ∷ codes "DE"
    ∷ codes "GB"
    ∷ codes "FR"
    ∷ codes "NL"
    ∷ codes "AU"
    ∷ codes "CA"
    ∷ codes "JP"
    ∷ codes "SG"
    ∷ []

abbrev pub severities : List Severity
severities = low ∷ low ∷ medium ∷ medium ∷ high ∷ critical ∷ []

-- The random choices of one threat: indices below the lengths, the address and the time.
pub record Draw : Type 0 where
  pub id : Text
  pub src : ℕ
  pub dst : ℕ
  pub address : Text
  pub kind : ℕ
  pub severity : ℕ
  pub now : ℕ

-- `randomChoice`, for the index that it draws; the default is never taken for one in range.
abbrev choice {ℓ} : {A : Type ℓ} → A → List A → ℕ → A
choice d l i = get_or (get_elem? l i) d

unfoldable pub generate_threat : Draw → ThreatEvent
generate_threat r = record {
  id = r.id;
  src_country = choice [] src_countries r.src;
  dst_country = choice [] dst_countries r.dst;
  src_ip = r.address;
  kind = choice [] threat_types r.kind;
  severity = choice low severities r.severity;
  timestamp = r.now;
}

pub record ThreatStats : Type 0 where
  pub total : ℕ
  pub critical_count : ℕ
  pub blocked : ℕ
  pub countries : ℕ

pub record ThreatPage : Type 0 where
  pub threats : List ThreatEvent
  pub stats : ThreatStats
  pub is_live : Bool

abbrev pub no_threats : ThreatPage
no_threats = record {
  threats = [];
  stats = record { total = 0; critical_count = 0; blocked = 0; countries = 0 };
  is_live = true;
}

abbrev pub is_critical : ThreatEvent → Bool
is_critical t = elim t.severity [ critical ↦ true | _ ↦ false ]

unfoldable pub add_stats : List ThreatEvent → Bool → ThreatStats → ThreatStats
add_stats new another s = record {
  total = s.total + length new;
  critical_count = s.critical_count + length (keep is_critical new);
  blocked = s.blocked + length new;
  countries = min (s.countries + (if another then 1 else 0)) 47;
}

-- A timer fires with the draws of one to three threats, and whether a country is counted; the button pauses the timer.
pub data ThreatPageEvent : Type 0 where
  fires : List Draw → Bool → ThreatPageEvent
  toggles_live : ThreatPageEvent

unfoldable pub threat_step : ThreatPageEvent → ThreatPage → ThreatPage
unfolding generate_threat add_stats
threat_step (fires draws another) p =
    let new = map generate_threat draws in
    if p.is_live
    then record p { threats = take 50 (new ++ p.threats); stats = add_stats new another p.stats }
    else p
threat_step toggles_live p = record p { is_live = not p.is_live }

unfoldable pub threat_run : List ThreatPageEvent → ThreatPage → ThreatPage
unfolding threat_step
threat_run [] p = p
threat_run (e ∷ es) p = threat_run es (threat_step e p)

-- The threats of each country, in the order of their first threat.
unfoldable pub count_one : Text → List (Text × ℕ) → List (Text × ℕ)
count_one code [] = (code, 1) ∷ []
count_one code ((key, n) ∷ rest) =
    let later = count_one code rest in
    if text_eq key code then (key, n + 1) ∷ rest else (key, n) ∷ later

unfoldable pub count_countries : List ThreatEvent → List (Text × ℕ) → List (Text × ℕ)
unfolding count_one
count_countries [] acc = acc
count_countries (t ∷ ts) acc = count_countries ts (count_one t.src_country acc)

-- `sort((a, b) => b[1] - a[1])`: a stable sort by falling counts.
unfoldable pub insert_count : Text × ℕ → List (Text × ℕ) → List (Text × ℕ)
insert_count a [] = a ∷ []
insert_count a (b ∷ bs) =
    let later = insert_count a bs in if ltb b.1 a.1 then a ∷ b ∷ bs else b ∷ later

unfoldable pub sort_counts : List (Text × ℕ) → List (Text × ℕ) → List (Text × ℕ)
unfolding insert_count
sort_counts [] sorted = sorted
sort_counts (a ∷ as') sorted = sort_counts as' (insert_count a sorted)

abbrev pub top_countries : List ThreatEvent → List (Text × ℕ)
top_countries threats = take 5 (sort_counts (count_countries threats []) [])

-- A line of the origins: its name, its count, and the width of its bar as a fraction of the first count.
pub record OriginLine : Type 0 where
  pub origin_name : Text
  pub origin_count : ℕ
  pub widest : ℕ

abbrev first_count : List (Text × ℕ) → ℕ
first_count [] = 1
first_count (a ∷ as') = a.1

unfoldable pub origin_lines : List ThreatEvent → List OriginLine
unfolding name_in count_countries sort_counts
origin_lines threats =
    let top = top_countries threats in
    map
      (λ a. record {
        origin_name = name_in country_names a.0;
        origin_count = a.1;
        widest = first_count top;
      })
      top

-- The feed: the latest thirty threats.
pub record FeedLine : Type 0 where
  pub feed_color : Text
  pub feed_kind : Text
  pub feed_countries : Text
  pub feed_ip : Text

abbrev spaced : Text → Text
spaced s = map (λ c. if c == b'_' then 32 else c) s

abbrev feed_line : ThreatEvent → FeedLine
feed_line t = record {
  feed_color = severity_color t.severity;
  feed_kind = spaced t.kind;
  feed_countries = t.src_country ++ codes "→" ++ t.dst_country;
  feed_ip = t.src_ip;
}

unfoldable pub feed : List ThreatEvent → List FeedLine
feed threats = map feed_line (take 30 threats)
