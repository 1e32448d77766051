-- ===== src/Files/Listing/Laws.antt =====
-- FileExplorer.tsx: the list shows the visible files, each as often as it was sent, folders first.
use xp_panel.Shared.{
  ◌≡◌, refl, ◌∙◌, Text, Bool, true, false, List, [], ◌∷◌, keep, All, length, Bool-cases, inl, inr,
  ℤ, arith,
}
use xp_panel.Files.Listing.{
  FileInfo, SortKey, SortDir, insert, sort, listed, visible, is_hidden, compare_files, not_positive,
}

-- Behind an entry that is no folder there is no folder.
abbrev pub IsFoldersFirst : List FileInfo → Type 0
IsFoldersFirst [] = Unit {0}
IsFoldersFirst (f ∷ fs) = (f.is_dir ≡ false → All (λ g. g.is_dir ≡ false) fs) × IsFoldersFirst fs

module _ (cmp : FileInfo → FileInfo → ℤ) where
  insert-All :
      (P : FileInfo → Type 0) (f : FileInfo) (fs : List FileInfo)
      → P f
      → All P fs
      → All P (insert cmp f fs)
  unfolding insert
  insert-All P f [] h k = (h, tt)
  insert-All P f (g ∷ gs) h k = elim (Bool-cases (not_positive (cmp f g))) [
    | inl first ↦ rw first (h, k)
    | inr later ↦ rw later (k.0, insert-All P f gs h k.1)
  ]

  length-insert :
      (p : FileInfo → Bool) (f : FileInfo) (fs : List FileInfo)
      → length (keep p (insert cmp f fs)) ≡ length (keep p (f ∷ fs))
  unfolding insert
  length-insert p f [] = refl
  length-insert p f (g ∷ gs) = elim (Bool-cases (not_positive (cmp f g))) [
    | inl first ↦ rw first refl
    | inr later ↦ rw later (ground (arith, length-insert p f gs))
  ]

  length-sort :
      (p : FileInfo → Bool) (fs : List FileInfo)
      → length (keep p (sort cmp fs)) ≡ length (keep p fs)
  unfolding sort
  length-sort p [] = refl
  length-sort p (f ∷ fs) = length-insert p f (sort cmp fs) ∙ ground (arith, length-sort p fs)

  sort-All : (P : FileInfo → Type 0) (fs : List FileInfo) → All P fs → All P (sort cmp fs)
  unfolding sort
  sort-All P [] h = tt
  sort-All P (f ∷ fs) h = insert-All P f (sort cmp fs) h.0 (sort-All P fs h.1)

  -- The comparison puts every folder before every file.
  abbrev RanksFolders : Type 0
  RanksFolders =
      ((f g : FileInfo) → f.is_dir ≡ true → g.is_dir ≡ false → not_positive (cmp f g) ≡ true)
      × ((f g : FileInfo) → f.is_dir ≡ false → g.is_dir ≡ true → not_positive (cmp f g) ≡ false)

  goes_first :
      RanksFolders
      → (f g : FileInfo) → not_positive (cmp f g) ≡ true
      → f.is_dir ≡ false
      → g.is_dir ≡ false
  goes_first r f g first e = elim (Bool-cases g.is_dir) [
    | inl folder ↦ let wrong = r.1 f g e folder in absurd cc
    | inr file ↦ file
  ]

  goes_later :
      RanksFolders
      → (f g : FileInfo) → not_positive (cmp f g) ≡ false
      → g.is_dir ≡ false
      → f.is_dir ≡ false
  goes_later r f g later e = elim (Bool-cases f.is_dir) [
    | inl folder ↦ let wrong = r.0 f g folder e in absurd cc
    | inr file ↦ file
  ]

  insert-IsFoldersFirst :
      RanksFolders
      → (f : FileInfo) (fs : List FileInfo) → IsFoldersFirst fs
      → IsFoldersFirst (insert cmp f fs)
  unfolding insert
  insert-IsFoldersFirst r f [] h = ((λ e. tt), tt)
  insert-IsFoldersFirst r f (g ∷ gs) h = elim (Bool-cases (not_positive (cmp f g))) [
    | inl first ↦ rw first ((λ e. let file = goes_first r f g first e in (file, h.0 file)), h)
    | inr later ↦ rw later (
      (λ e. insert-All (λ x. x.is_dir ≡ false) f gs (goes_later r f g later e) (h.0 e)),
      insert-IsFoldersFirst r f gs h.1,
    )
  ]

  sort-IsFoldersFirst : RanksFolders → (fs : List FileInfo) → IsFoldersFirst (sort cmp fs)
  unfolding sort
  sort-IsFoldersFirst r [] = tt
  sort-IsFoldersFirst r (f ∷ fs) =
      insert-IsFoldersFirst r f (sort cmp fs) (sort-IsFoldersFirst r fs)

compare_files-RanksFolders :
    (locale : Text → Text → ℤ) (key : SortKey) (dir : SortDir)
    → RanksFolders (compare_files locale false key dir)
unfolding compare_files
compare_files-RanksFolders locale key dir = ((λ f g a b. ground arith), (λ f g a b. ground arith))

visible-All : (fs : List FileInfo) → All (λ f. is_hidden f ≡ false) (visible false fs)
unfolding visible
visible-All [] = tt
visible-All (f ∷ fs) = elim (Bool-cases (is_hidden f)) [
  | inl e ↦ rw e (visible-All fs)
  | inr e ↦ rw e (e, visible-All fs)
]

-- The list has exactly the visible files, each as often as it was sent, whatever the sort key and its
-- direction; without the option for hidden files none of them is shown; and while nothing is searched
-- the folders come first, for every order of texts.
pub listed_files :
    (locale : Text → Text → ℤ) (show_hidden searching : Bool) (key : SortKey) (dir : SortDir)
    (raw : List FileInfo) (p : FileInfo → Bool)
    → (length (keep p (listed locale show_hidden searching key dir raw))
        ≡ length (keep p (visible show_hidden raw)))
      × All (λ f. is_hidden f ≡ false) (listed locale false searching key dir raw)
      × IsFoldersFirst (listed locale show_hidden false key dir raw)
unfolding listed
listed_files locale show_hidden searching key dir raw p = (
  length-sort (compare_files locale searching key dir) p (visible show_hidden raw),
  sort-All (compare_files locale searching key dir) (λ f. is_hidden f ≡ false) (visible false raw)
      (visible-All raw),
  sort-IsFoldersFirst (compare_files locale false key dir)
      (compare_files-RanksFolders locale key dir) (visible show_hidden raw),
)
