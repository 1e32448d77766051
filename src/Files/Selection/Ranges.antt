-- ===== src/Files/Selection/Ranges.antt =====
-- FileList.tsx: the clicks with the shift key.
use xp_panel.Shared.{
  ◌⊎◌, min, max, ℕ, suc, zero, ◌+◌, ◌-◌, ◌<◌, ◌≤◌, ◌≡◌, refl, ◌∙◌, Text, Bool, true, false, ◌||◌,
  some, List, [], ◌∷◌, ◌++◌, length, take, drop, text_eq, includes, ℤ, pos, negsuc, min_int,
  max_int, next_int, slice, place, Bool-cases, inl, inr, arith,
}
use xp_panel.Files.Selection.{
  Click, index_of, range, select_range, select_path, anchor, toggle_select, later,
}
use xp_panel.Files.Paths.{is_truthy}
use xp_panel.Files.Selection.Laws.{includes-append, includes-distinct}

later-pos : (z : ℤ) (i : ℕ) → later z ≡ pos i → (j : ℕ) × (z ≡ pos j) × (i ≡ suc j)
unfolding later
later-pos (pos j) i h = (j, refl, ground arith)
later-pos (negsuc j) i h = absurd cc

index_of-cons :
    (p : Text) (l : List Text) (q : Text) (i : ℕ)
    → index_of (p ∷ l) q ≡ pos i
    → ((text_eq p q ≡ true) × (i ≡ 0))
      ⊎ ((text_eq p q ≡ false) × ((j : ℕ) × (index_of l q ≡ pos j) × (i ≡ suc j)))
unfolding index_of
index_of-cons p l q i h = elim (Bool-cases (text_eq p q)) [
  | inl here ↦ inl (here, ground arith)
  | inr there ↦ inr (there, later-pos (index_of l q) i (rw there at h))
]

index_of-lt : (l : List Text) (q : Text) (i : ℕ) → index_of l q ≡ pos i → i < length l
unfolding index_of
index_of-lt [] q i h = absurd cc
index_of-lt (p ∷ l) q i h = elim (index_of-cons p l q i h) [
  | inl (here, e) ↦ omega arith
  | inr (there, (j, k, e)) ↦ omega (arith, index_of-lt l q j k)
]

includes-window :
    (l : List Text) (q : Text) (m n i : ℕ)
    → index_of l q ≡ pos i
    → m ≤ i
    → i < m + n
    → includes (take n (drop m l)) q ≡ true
unfolding includes index_of
includes-window [] q m n i h a b = absurd cc
includes-window (p ∷ l) q zero zero i h a b = absurd (omega arith)
includes-window (p ∷ l) q zero (suc n) i h a b = elim (index_of-cons p l q i h) [
  | inl (here, e) ↦ rw here refl
  | inr (there, (j, k, e)) ↦ rw there (includes-window l q zero n j k (omega arith) (omega arith))
]
includes-window (p ∷ l) q (suc m) n i h a b = elim (index_of-cons p l q i h) [
  | inl (here, e) ↦ absurd (omega arith)
  | inr (there, (j, k, e)) ↦ includes-window l q m n j k (omega arith) (omega arith)
]

min_int-pos : (a b : ℕ) → min_int (pos a) (pos b) ≡ pos (min a b)
unfolding min_int
min_int-pos a b = ground arith

max_int-pos : (a b : ℕ) → max_int (pos a) (pos b) ≡ pos (max a b)
unfolding max_int
max_int-pos a b = ground arith

includes-slice :
    (l : List Text) (q : Text) (m n i : ℕ)
    → index_of l q ≡ pos i
    → m ≤ i
    → i ≤ n
    → includes (slice l (pos m) (pos (n + 1))) q ≡ true
unfolding slice place
includes-slice l q m n i h low high =
    includes-window l q (min m (length l)) (min (n + 1) (length l) - min m (length l)) i h
      (omega arith) (omega (arith, index_of-lt l q i h))

-- Where both rows are listed, the range is every row from the one to the other.
includes-range :
    (paths : List Text) (last path q : Text) (a b i : ℕ)
    → index_of paths last ≡ pos a
    → index_of paths path ≡ pos b
    → index_of paths q ≡ pos i
    → min a b ≤ i
    → i ≤ max a b
    → includes (range paths last path) q ≡ true
unfolding range next_int
includes-range paths last path q a b i ha hb hi low high =
    rw (ha, hb, min_int-pos a b, max_int-pos a b)
      (includes-slice paths q (min a b) (max a b) i hi low high)

includes-shift :
    (paths selected : List Text) (last path q : Text) (e : Click)
    → e.shift ≡ true
    → is_truthy last ≡ true
    → includes
        (toggle_select paths path e
          (record { selected = selected; last_click = some last })).selected
        q
      ≡ (includes selected q || includes (range paths last path) q)
unfolding toggle_select select_path select_range anchor
includes-shift paths selected last path q e shift truthy =
    rw (shift, truthy)
      (includes-distinct (selected ++ range paths last path) q
        ∙ includes-append selected (range paths last path) q)

or_true : (b : Bool) → (b || true) ≡ true
or_true b = ground arith

or_includes : (l : List Text) (q : Text) → (includes l q || includes [] q) ≡ includes l q
unfolding includes
or_includes l q = ground arith

take-zero : (n : ℕ) (l : List Text) → n ≡ 0 → take n l ≡ []
take-zero zero l h = refl
take-zero (suc n) l h = absurd (omega arith)

stale-range :
    (paths : List Text) (last path : Text) (b : ℕ)
    → index_of paths last ≡ negsuc 0
    → index_of paths path ≡ pos b
    → b + 1 < length paths
    → range paths last path ≡ []
unfolding range slice place min_int max_int next_int
stale-range paths last path b ha hb h = rw (ha, hb) (take-zero _ _ (omega arith))

-- A click with the shift key on a listed row, after a click on a listed row, selects both rows and all
-- between them, and keeps what was selected.
pub shift_selects :
    (paths selected : List Text) (last path q : Text) (e : Click) (a b i : ℕ)
    → e.shift ≡ true
    → is_truthy last ≡ true
    → index_of paths last ≡ pos a
    → index_of paths path ≡ pos b
    → (includes selected q ≡ true) ⊎ ((index_of paths q ≡ pos i) × (min a b ≤ i) × (i ≤ max a b))
    → includes
        (toggle_select paths path e
          (record { selected = selected; last_click = some last })).selected
        q
      ≡ true
shift_selects paths selected last path q e a b i shift truthy ha hb (inl kept) =
    includes-shift paths selected last path q e shift truthy ∙ rw kept refl
shift_selects paths selected last path q e a b i shift truthy ha hb (inr (hq, low, high)) =
    includes-shift paths selected last path q e shift truthy
    ∙ rw (includes-range paths last path q a b i ha hb hq low high) (or_true (includes selected q))

-- The row of the last click is remembered when another folder is opened. A click with the shift key
-- then selects nothing new, not even the row that is clicked, unless this is the last row.
pub stale_shift :
    (paths selected : List Text) (last path q : Text) (e : Click) (b : ℕ)
    → e.shift ≡ true
    → is_truthy last ≡ true
    → index_of paths last ≡ negsuc 0
    → index_of paths path ≡ pos b
    → b + 1 < length paths
    → includes
        (toggle_select paths path e
          (record { selected = selected; last_click = some last })).selected
        q
      ≡ includes selected q
stale_shift paths selected last path q e b shift truthy ha hb h =
    includes-shift paths selected last path q e shift truthy
    ∙ rw (stale-range paths last path b ha hb h) (or_includes selected q)
