-- ===== src/Files/Paths.antt =====
-- The paths of the file manager: `joinPath` of FileExplorer.tsx, the breadcrumb and `goUp` of
-- FileToolbar.tsx and the output path of CompressDialog.tsx. A path is a string as it was typed.
pub mod Laws
use xp_panel.Shared.{
  ℕ, suc, ◌-◌, ◌==◌, Text, codes, Bool, true, false, List, [], ◌∷◌, ◌++◌, length, take, keep,
  if◌then◌else◌, split, split_on, join, starts_with,
}

-- The code unit of `/`.
abbrev pub slash : ℕ
slash = 47

-- `s.endsWith('/')`.
unfoldable pub ends_with_slash : Text → Bool
ends_with_slash [] = false
ends_with_slash (c ∷ []) = c == slash
ends_with_slash (c ∷ d ∷ s) = ends_with_slash (d ∷ s)

unfoldable pub join_path : Text → Text → Text
unfolding ends_with_slash
join_path base name = (if ends_with_slash base then base else base ++ slash ∷ []) ++ name

abbrev pub final {ℓ} : {A : Type ℓ} → A → List A → A
final a [] = a
final a (b ∷ bs) = final b bs

-- `s.split('/').pop()`, which is never undefined.
unfoldable pub last_part : Text → Text
last_part s = final (split_on slash s).0 (split_on slash s).1

abbrev pub is_truthy : Text → Bool
is_truthy [] = false
is_truthy (c ∷ s) = true

-- `path.split('/').filter(Boolean)`.
unfoldable pub parts : Text → List Text
parts path = keep is_truthy (split slash path)

-- The path of the i-th button of the breadcrumb.
unfoldable pub part_path : Text → ℕ → Text
unfolding parts
part_path path i = slash ∷ join slash (take (suc i) (parts path))

-- The path that the edited breadcrumb navigates to; it is never empty.
unfoldable pub commit : Text → Text
commit val = if starts_with val (slash ∷ []) then val else slash ∷ val

-- All but the last: `slice(0, -1)`.
abbrev pub without_last {ℓ} : {A : Type ℓ} → List A → List A
without_last l = take (length l - 1) l

unfoldable pub up : List Text → Text
up [] = codes "/"
up (p ∷ ps) = slash ∷ join slash (without_last (p ∷ ps))

unfoldable pub go_up : Text → Text
unfolding parts up
go_up path = up (parts path)

-- The name that the compress dialog starts with.
unfoldable pub default_name : List Text → Text
unfolding last_part
default_name [] = codes "archive"
default_name (p ∷ []) = last_part p
default_name (p ∷ q ∷ ps) = codes "archive"

-- `outputPath`; 46 is the dot.
unfoldable pub output_path : Text → Text → Text → Text
unfolding ends_with_slash
output_path current name format =
    (if ends_with_slash current then current else current ++ slash ∷ []) ++ name ++ 46 ∷ format
