-- ===== src/SignIn/Slugs/Laws.antt =====
-- The slugs of organizations: their form, and that they are fixed.
use xp_panel.Shared.{
  ℕ, ◌≤◌, ◌==◌, ◌≡◌, refl, inl, inr, ◌⊎◌, Text, Bool, true, false, [], ◌∷◌, map, if◌then◌else◌,
  arith, ap, Bool-cases,
}
use xp_panel.SignIn.Characters.{is_word, is_lower, is_digit}
use xp_panel.SignIn.Slugs.{collapse, strip_first, strip_last, auto_slug, plain_slug}

-- Words of [a-z0-9] with one hyphen between two: the flag tells that a word must begin here.
abbrev pub IsSlug : Bool → Text → Type 0
IsSlug begins [] = begins ≡ false
IsSlug begins (c ∷ s) =
    ((is_word c ≡ true) × IsSlug false s) ⊎ ((c ≡ b'-') × (begins ≡ false) × IsSlug true s)

-- The same, but the last hyphen may have nothing after it.
abbrev IsOpen : Bool → Text → Type 0
IsOpen begins [] = Unit
IsOpen begins (c ∷ s) =
    ((is_word c ≡ true) × IsOpen false s) ⊎ ((c ≡ b'-') × (begins ≡ false) × IsOpen true s)

collapse-IsOpen : (b : Bool) (s : Text) → IsOpen b (collapse b s)
unfolding collapse
collapse-IsOpen b [] = tt
collapse-IsOpen true (c ∷ s) = elim (Bool-cases (is_word c)) [
  | inl e ↦ rw e (inl (e, collapse-IsOpen false s))
  | inr e ↦ rw e (collapse-IsOpen true s)
]
collapse-IsOpen false (c ∷ s) = elim (Bool-cases (is_word c)) [
  | inl e ↦ rw e (inl (e, collapse-IsOpen false s))
  | inr e ↦ rw e (inr (refl, refl, collapse-IsOpen true s))
]

word_no_hyphen : (c : ℕ) → is_word c ≡ true → (c == b'-') ≡ false
unfolding is_word is_lower is_digit
word_no_hyphen c h = ground arith

hyphen_no_word : is_word b'-' ≡ false
unfolding is_word is_lower is_digit
hyphen_no_word = refl

is_hyphen : (c : ℕ) → c ≡ b'-' → (c == b'-') ≡ true
is_hyphen c h = ground arith

strip_first-IsOpen : (s : Text) → IsOpen false s → IsOpen true (strip_first s)
unfolding strip_first
strip_first-IsOpen [] h = tt
strip_first-IsOpen (c ∷ s) (inl h) = rw (word_no_hyphen c h.0) (inl h)
strip_first-IsOpen (c ∷ s) (inr h) = rw (is_hyphen c h.0) h.2

strip_last-IsSlug : (b : Bool) (c : ℕ) (s : Text) → IsOpen b (c ∷ s) → IsSlug b (strip_last (c ∷ s))
unfolding strip_last
strip_last-IsSlug b c [] (inl h) = rw (word_no_hyphen c h.0) (inl (h.0, refl))
strip_last-IsSlug b c [] (inr h) = rw (is_hyphen c h.0) h.1
strip_last-IsSlug b c (d ∷ s) (inl h) = inl (h.0, strip_last-IsSlug false d s h.1)
strip_last-IsSlug b c (d ∷ s) (inr h) = inr (h.0, h.1, strip_last-IsSlug true d s h.2)

strip_last_or : (s : Text) → IsOpen true s → (strip_last s ≡ []) ⊎ IsSlug true (strip_last s)
unfolding strip_last
strip_last_or [] h = inl refl
strip_last_or (c ∷ s) h = inr (strip_last-IsSlug true c s h)

-- A small letter or a digit, by its code.
abbrev pub IsWordCode : ℕ → Type 0
IsWordCode c = ((97 ≤ c) × (c ≤ 122)) ⊎ ((48 ≤ c) × (c ≤ 57))

word_code : (c : ℕ) → is_word c ≡ true → IsWordCode c
unfolding is_word is_lower is_digit
word_code c h = ground arith

no_word_code : (c : ℕ) → is_word c ≡ false → IsWordCode c → ⊥
unfolding is_word is_lower is_digit
no_word_code c h = λ k. ground arith

-- A text and its slug in the wizard: a small letter or digit stays, any other code unit is a hyphen.
abbrev pub IsPlainSlug : Text → Text → Type 0
IsPlainSlug [] [] = Unit
IsPlainSlug [] (d ∷ t) = ⊥
IsPlainSlug (c ∷ s) [] = ⊥
IsPlainSlug (c ∷ s) (d ∷ t) =
    ((IsWordCode c × (d ≡ c)) ⊎ ((IsWordCode c → ⊥) × (d ≡ b'-'))) × IsPlainSlug s t

map-IsPlainSlug : (s : Text) → IsPlainSlug s (map (λ c. if is_word c then c else b'-') s)
map-IsPlainSlug [] = tt
map-IsPlainSlug (c ∷ s) =
    let rest = map-IsPlainSlug s in
    elim (Bool-cases (is_word c)) [
      | inl e ↦ rw e (inl (word_code c e, refl), rest)
      | inr e ↦ rw e (inr (no_word_code c e, refl), rest)
    ]

module _ (lower : Text → Text) where
  -- The slug made of a name is empty, or words of small letters and digits with one hyphen between two.
  pub auto_slug-IsSlug :
      (name : Text) → (auto_slug lower name ≡ []) ⊎ IsSlug true (auto_slug lower name)
  unfolding auto_slug
  auto_slug-IsSlug name =
      strip_last_or _ (strip_first-IsOpen _ (collapse-IsOpen false (lower name)))

  -- The slug of the wizard is that of the name in lower case.
  pub plain_slug-IsPlainSlug : (name : Text) → IsPlainSlug (lower name) (plain_slug lower name)
  unfolding plain_slug
  plain_slug-IsPlainSlug name = map-IsPlainSlug (lower name)

collapse_fixed : (b : Bool) (s : Text) → IsSlug b s → collapse b s ≡ s
unfolding collapse
collapse_fixed b [] h = refl
collapse_fixed b (c ∷ s) (inl h) = rw (h.0, collapse_fixed false s h.1) refl
collapse_fixed b (c ∷ s) (inr h) = rw (h.0, hyphen_no_word, h.1, collapse_fixed true s h.2) refl

strip_last_fixed : (b : Bool) (c : ℕ) (s : Text) → IsSlug b (c ∷ s) → strip_last (c ∷ s) ≡ c ∷ s
unfolding strip_last
strip_last_fixed b c [] (inl h) = rw (word_no_hyphen c h.0) refl
strip_last_fixed b c [] (inr h) = absurd cc
strip_last_fixed b c (d ∷ s) (inl h) = ap (λ t. c ∷ t) (strip_last_fixed false d s h.1)
strip_last_fixed b c (d ∷ s) (inr h) = ap (λ t. c ∷ t) (strip_last_fixed true d s h.2)

-- A slug of that form is its own slug, where lower case leaves it as it is.
pub auto_slug_fixed :
    (lower : Text → Text) (s : Text) → IsSlug true s → lower s ≡ s → auto_slug lower s ≡ s
unfolding auto_slug collapse strip_first
auto_slug_fixed lower [] h e = absurd cc
auto_slug_fixed lower (c ∷ s) (inl h) e =
    rw (e, h.0, word_no_hyphen c h.0, collapse_fixed false s h.1)
      (strip_last_fixed true c s (inl h))
auto_slug_fixed lower (c ∷ s) (inr h) e = absurd cc
