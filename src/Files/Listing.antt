-- ===== src/Files/Listing.antt =====
-- The list of files that FileExplorer.tsx shows: FileInfo of apps/web/src/lib/api/files.api.ts, the
-- filter and the sort. `locale` is `localeCompare`; `sort` is the stable sort of the language.
pub mod Laws
use xp_panel.Shared.{
  ℕ, zero, suc, ◌-◌, leb, Text, codes, Bool, true, false, not, ◌||◌, ◌&&◌, Option, none, some, List,
  [], ◌∷◌, keep, get_or, if◌then◌else◌, starts_with, ℤ, pos, negsuc,
}

pub record FileInfo : Type 0 where
  pub name : Text
  pub path : Text
  pub size : ℕ
  pub is_dir : Bool
  pub mode : Text
  pub modified_at : Text
  pub mime_type : Option Text
  pub extension : Option Text

pub data SortKey : Type 0 where
  name size modified_at extension : SortKey

pub data SortDir : Type 0 where
  asc desc : SortDir

-- `a.size - b.size`.
unfoldable pub difference : ℕ → ℕ → ℤ
difference a b = if leb b a then pos (a - b) else negsuc (b - a - 1)

unfoldable pub negate : ℤ → ℤ
negate (pos zero) = pos 0
negate (pos (suc a)) = negsuc a
negate (negsuc a) = pos (suc a)

unfoldable pub directed : SortDir → ℤ → ℤ
unfolding negate
directed asc c = c
directed desc c = negate c

unfoldable pub is_hidden : FileInfo → Bool
is_hidden f = starts_with f.name (codes ".")

unfoldable pub visible : Bool → List FileInfo → List FileInfo
unfolding is_hidden
visible show_hidden fs = keep (λ f. show_hidden || not (is_hidden f)) fs

abbrev pub not_positive : ℤ → Bool
not_positive (pos n) = leb n 0
not_positive (negsuc n) = true

-- `handleSort`.
unfoldable pub same_key : SortKey → SortKey → Bool
same_key name name = true
same_key size size = true
same_key modified_at modified_at = true
same_key extension extension = true
same_key _ _ = false

unfoldable pub other_dir : SortDir → SortDir
other_dir asc = desc
other_dir desc = asc

module _ (locale : Text → Text → ℤ) where
  unfoldable pub compare_by : SortKey → FileInfo → FileInfo → ℤ
  unfolding difference
  compare_by name a b = locale a.name b.name
  compare_by size a b = difference a.size b.size
  compare_by modified_at a b = locale a.modified_at b.modified_at
  compare_by extension a b = locale (get_or a.extension []) (get_or b.extension [])

  -- The comparison that is given to `sort`.
  unfoldable pub compare_files : Bool → SortKey → SortDir → FileInfo → FileInfo → ℤ
  unfolding compare_by directed
  compare_files searching key dir a b =
      let by_key = directed dir (compare_by key a b) in
      if searching
      then by_key
      else if a.is_dir
      then (if b.is_dir then by_key else negsuc 0)
      else (if b.is_dir then pos 1 else by_key)

module _ (cmp : FileInfo → FileInfo → ℤ) where
  unfoldable pub insert : FileInfo → List FileInfo → List FileInfo
  insert f [] = f ∷ []
  insert f (g ∷ gs) =
      let rest = insert f gs in if not_positive (cmp f g) then f ∷ g ∷ gs else g ∷ rest

  -- `sort`: equal elements keep their order.
  unfoldable pub sort : List FileInfo → List FileInfo
  unfolding insert
  sort [] = []
  sort (f ∷ fs) = insert f (sort fs)

unfoldable pub listed :
    (Text → Text → ℤ) → Bool → Bool → SortKey → SortDir → List FileInfo → List FileInfo
unfolding sort visible compare_files
listed locale show_hidden searching key dir raw =
    sort (compare_files locale searching key dir) (visible show_hidden raw)
