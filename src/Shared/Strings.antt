-- ===== src/Shared/Strings.antt =====
-- The strings of the source as lists of UTF-16 code units, with the string methods it calls.
use Prim.Native.Char.{code}
use Prim.Native.Nat.{ℕ}
use Prim.Native.String.{String}
use mathlib.Core.Path.{◌≡◌, refl}
use mathlib.Core.Logic.{◌↔◌, ◌≢◌}
use mathlib.Core.Bool.{Bool, true, false, ◌&&◌, ◌||◌}
use mathlib.Core.List.{List, [], ◌∷◌, ◌++◌, reverse}
use native.Mathlib.Omega.{arith}
use xp_panel.Shared.Tests.{◌==◌, leb, if◌then◌else◌}

-- A JavaScript string.
abbrev pub Text : Type 0
Text = List ℕ

-- The code units of a literal (those of the source that are used here have one unit for each character).
abbrev pub codes : String → Text
codes String.[] = []
codes (String.◌∷◌ c s) = code c ∷ codes s

-- `s === t`.
unfoldable pub text_eq : Text → Text → Bool
text_eq [] [] = true
text_eq [] (d ∷ t) = false
text_eq (c ∷ s) [] = false
text_eq (c ∷ s) (d ∷ t) = (c == d) && text_eq s t

pub text_eq_iff : (s t : Text) → (text_eq s t ≡ true) ↔ (s ≡ t)
unfolding text_eq
text_eq_iff [] [] = ((λ h. refl), (λ h. refl))
text_eq_iff [] (d ∷ t) = ((λ h. cc), (λ h. cc))
text_eq_iff (c ∷ s) [] = ((λ h. cc), (λ h. cc))
text_eq_iff (c ∷ s) (d ∷ t) = ground (arith, text_eq_iff s t)

pub text_eq_refl : (s : Text) → text_eq s s ≡ true
text_eq_refl s = (text_eq_iff s s).1 refl

-- `list.includes(s)`.
unfoldable pub includes : List Text → Text → Bool
includes [] s = false
includes (t ∷ ts) s = text_eq t s || includes ts s

-- `s.startsWith(t)`, for the prefix `t`.
unfoldable pub starts_with : Text → Text → Bool
starts_with s [] = true
starts_with [] (d ∷ t) = false
starts_with (c ∷ s) (d ∷ t) = (c == d) && starts_with s t

-- `s.includes(t)`, for a substring `t`.
unfoldable pub has_substring : Text → Text → Bool
unfolding starts_with
has_substring [] t = starts_with [] t
has_substring (c ∷ s) t = starts_with (c ∷ s) t || has_substring s t

-- `s.split(sep)` for a separator of one code unit: the first piece and the others.
unfoldable pub split_on : ℕ → Text → Text × List Text
split_on sep [] = ([], [])
split_on sep (c ∷ s) =
    let rest = split_on sep s in if c == sep then ([], rest.0 ∷ rest.1) else (c ∷ rest.0, rest.1)

abbrev pub split : ℕ → Text → List Text
split sep s = (split_on sep s).0 ∷ (split_on sep s).1

-- `parts.join(sep)` for a separator of one code unit.
unfoldable pub join : ℕ → List Text → Text
join sep [] = []
join sep (p ∷ []) = p
join sep (p ∷ q ∷ ps) = p ++ sep ∷ join sep (q ∷ ps)

-- The code units that `trim` drops: white space and line ends.
unfoldable pub is_space : ℕ → Bool
is_space c =
    (leb 9 c && leb c 13)
    || c == 32
    || c == 160
    || c == 0x1680
    || (leb 0x2000 c && leb c 0x200a)
    || c == 0x2028
    || c == 0x2029
    || c == 0x202f
    || c == 0x205f
    || c == 0x3000
    || c == 0xfeff

unfoldable pub trim_start : Text → Text
unfolding is_space
trim_start [] = []
trim_start (c ∷ s) = if is_space c then trim_start s else c ∷ s

-- `s.trim()`.
unfoldable pub trim : Text → Text
unfolding trim_start
trim s = reverse (trim_start (reverse (trim_start s)))

abbrev pub is_empty : Text → Bool
is_empty [] = true
is_empty (c ∷ s) = false

pub filled : (s : Text) → is_empty s ≡ false → s ≢ []
filled [] h = absurd cc
filled (c ∷ s) h = λ k. absurd cc
