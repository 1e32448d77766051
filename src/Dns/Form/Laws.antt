-- ===== src/Dns/Form/Laws.antt =====
-- DNSRecordForm.tsx: what the schema lets through.
use xp_panel.Shared.{
  ℤ, pos, negsuc, ℕ, ◌≤◌, ◌≡◌, refl, sym, ◌≢◌, ◌↔◌, Text, Option, none, some, [], ◌∷◌, ◌>>=◌, arith,
}
use xp_panel.Dns.Types.{RecordData}
use xp_panel.Dns.Form.{
  FormInput, NumberInput, whole, other, required, number_between, number_from, schema,
}

-- The ranges of the numbers, and strings that are not empty.
pub record IsAcceptable (d : RecordData) : Type 0 where
  pub named : d.name ≢ []
  pub filled : d.content ≢ []
  pub lifetime : (n : ℕ) × (d.ttl ≡ pos n) × (60 ≤ n) × (n ≤ 86400)
  pub ranked : (n : ℕ) × (d.priority ≡ pos n)

-- The inputs that hold the data of a record.
unfoldable pub inputs_of : RecordData → FormInput
inputs_of d = record {
  name = d.name;
  record_type = d.record_type;
  content = d.content;
  ttl = whole d.ttl;
  priority = whole d.priority;
  disabled = d.disabled;
}

required_iff : (s t : Text) → (required s ≡ some t) ↔ ((s ≡ t) × (t ≢ []))
required_iff [] t = ground arith
required_iff (c ∷ s) t = ground arith

between_iff :
    (low high : ℕ) (i : NumberInput) (z : ℤ)
    → (number_between low high i ≡ some z)
      ↔ ((i ≡ whole z) × ((n : ℕ) × (z ≡ pos n) × (low ≤ n) × (n ≤ high)))
between_iff low high (whole (pos n)) z =
    (λ h. (ground arith, (n, ground arith, ground arith, ground arith)), λ h. ground arith)
between_iff low high (whole (negsuc n)) z = (λ h. absurd cc, λ h. absurd (ground arith))
between_iff low high other z = (λ h. absurd cc, λ h. absurd (ground arith))

from_iff :
    (i : NumberInput) (z : ℤ)
    → (number_from 0 i ≡ some z) ↔ ((i ≡ whole z) × ((n : ℕ) × (z ≡ pos n)))
from_iff (whole (pos n)) z = (λ h. (ground arith, (n, ground arith)), λ h. ground arith)
from_iff (whole (negsuc n)) z = (λ h. absurd cc, λ h. absurd (ground arith))
from_iff other z = (λ h. absurd cc, λ h. absurd (ground arith))

-- Four results of a chain.
all_four :
    {A B C D E : Type 0} (m : Option A) (n : Option B) (o : Option C) (p : Option D)
    (f : A → B → C → D → E) {e : E}
    → (m >>= λ a. n >>= λ b. o >>= λ c. p >>= λ d. some (f a b c d)) ≡ some e
    → (a : A) × (b : B) × (c : C) × (d : D) × ((m ≡ some a)
        × (n ≡ some b)
        × (o ≡ some c)
        × (p ≡ some d)
        × (f a b c d ≡ e))
all_four none n o p f h = absurd cc
all_four (some a) none o p f h = absurd cc
all_four (some a) (some b) none p f h = absurd cc
all_four (some a) (some b) (some c) none f h = absurd cc
all_four (some a) (some b) (some c) (some d) f h =
    (a, b, c, d, (refl, refl, refl, refl, ground arith))

build : FormInput → Text → Text → ℤ → ℤ → RecordData
build f n c t p = record {
  name = n;
  record_type = f.record_type;
  content = c;
  ttl = t;
  priority = p;
  disabled = f.disabled;
}

accepted : (f : FormInput) (d : RecordData) → schema f ≡ some d → (f ≡ inputs_of d) × IsAcceptable d
unfolding schema inputs_of build
accepted f d h =
    let (n, c, t, p, (en, ec, et, ep, e)) =
      all_four (required f.name) (required f.content) (number_between 60 86400 f.ttl)
        (number_from 0 f.priority) (build f) h in
    let hn = (required_iff f.name n).0 en in
    let hc = (required_iff f.content c).0 ec in
    let ht = (between_iff 60 86400 f.ttl t).0 et in
    let hp = (from_iff f.priority p).0 ep in
    rw (sym e)
      (ground arith, record { named = hn.1; filled = hc.1; lifetime = ht.1; ranked = hp.1 })

-- The schema accepts the inputs of a record exactly when the record is acceptable, and what it gives is that record.
pub schema_iff :
    (f : FormInput) (d : RecordData) → (schema f ≡ some d) ↔ ((f ≡ inputs_of d) × IsAcceptable d)
unfolding schema inputs_of
schema_iff f d = (
  accepted f d,
  λ h.
      let e1 = (required_iff d.name d.name).1 (refl, h.1.named) in
      let e2 = (required_iff d.content d.content).1 (refl, h.1.filled) in
      let e3 = (between_iff 60 86400 (whole d.ttl) d.ttl).1 (refl, h.1.lifetime) in
      let e4 = (from_iff (whole d.priority) d.priority).1 (refl, h.1.ranked) in
      rw (h.0, e1, e2, e3, e4) refl,
)
