-- ===== src/SignIn/Slugs.antt =====
-- The slug of an organization: `autoSlug` of app/(auth)/register/page.tsx, and the fallback of app/setup/page.tsx.
pub mod Laws
use xp_panel.Shared.{
  ℕ, ◌==◌, ◌≡◌, refl, inl, inr, ◌⊎◌, Text, Bool, true, false, List, [], ◌∷◌, map, all,
  if◌then◌else◌, arith, length, ap, Bool-cases, length-map,
}
use xp_panel.SignIn.Characters.{is_word, is_slug_code, is_lower, is_digit}

-- `s.replace(/[^a-z0-9]+/g, "-")`; the flag tells that the run of others before has its hyphen.
unfoldable pub collapse : Bool → Text → Text
collapse in_run [] = []
collapse in_run (c ∷ s) =
    let word = c ∷ collapse false s in
    let rest = collapse true s in if is_word c then word else if in_run then rest else b'-' ∷ rest

-- `s.replace(/^-|-$/g, "")`.
unfoldable pub strip_first : Text → Text
strip_first [] = []
strip_first (c ∷ s) = if c == b'-' then s else c ∷ s

unfoldable pub strip_last : Text → Text
strip_last [] = []
strip_last (c ∷ []) = if c == b'-' then [] else c ∷ []
strip_last (c ∷ d ∷ s) = c ∷ strip_last (d ∷ s)

module _ (lower : Text → Text) where
  unfoldable pub auto_slug : Text → Text
  unfolding collapse strip_first strip_last
  auto_slug name = strip_last (strip_first (collapse false (lower name)))

  -- `orgName.toLowerCase().replace(/[^a-z0-9]/g, '-')`.
  unfoldable pub plain_slug : Text → Text
  plain_slug name = map (λ c. if is_word c then c else b'-') (lower name)
