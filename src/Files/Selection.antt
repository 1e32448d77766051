-- ===== src/Files/Selection.antt =====
-- apps/web/src/components/files/FileList.tsx: the selection of rows in the list of files. `paths` are
-- the paths of the listed files, in their order.
pub mod Laws
pub mod Ranges
use xp_panel.Shared.{
  ℕ, suc, ◌==◌, ◌-◌, ltb, Text, Bool, true, false, not, ◌||◌, ◌&&◌, Option, none, some, List, [],
  ◌∷◌, ◌++◌, keep, length, if◌then◌else◌, text_eq, includes, ℤ, pos, negsuc, min_int, max_int,
  next_int, slice,
}
use xp_panel.Files.Paths.{is_truthy}

pub record Selection : Type 0 where
  pub selected : List Text
  pub last_click : Option Text

pub record Click : Type 0 where
  pub shift : Bool
  pub ctrl : Bool
  pub meta : Bool

-- The index in a list from the index in its tail.
unfoldable pub later : ℤ → ℤ
later (pos i) = pos (suc i)
later (negsuc i) = negsuc i

-- `indexOf`.
unfoldable pub index_of : List Text → Text → ℤ
unfolding later
index_of [] p = negsuc 0
index_of (q ∷ qs) p = let rest = index_of qs p in if text_eq q p then pos 0 else later rest

-- `[...new Set(l)]`: the first of equal elements stays.
unfoldable pub distinct : List Text → List Text
distinct [] = []
distinct (p ∷ ps) = p ∷ keep (λ q. not (text_eq q p)) (distinct ps)

-- The paths between two clicked rows, by their indices.
unfoldable pub range : List Text → Text → Text → List Text
unfolding index_of
range paths last path =
    slice paths (min_int (index_of paths last) (index_of paths path))
      (next_int (max_int (index_of paths last) (index_of paths path)))

unfoldable pub select_range : List Text → Text → Text → List Text → List Text
unfolding range distinct
select_range paths last path selected = distinct (selected ++ range paths last path)

unfoldable pub toggle_path : Text → List Text → List Text
toggle_path path selected =
    if includes selected path
    then keep (λ p. not (text_eq p path)) selected
    else selected ++ path ∷ []

unfoldable pub select_only : Text → List Text → List Text
select_only path selected = if includes selected path && length selected == 1 then [] else path ∷ []

-- The row that a click with the shift key extends from.
unfoldable pub anchor : Click → Option Text → Option Text
anchor e none = none
anchor e (some last) = if e.shift && is_truthy last then some last else none

unfoldable pub select_path : List Text → Text → Click → Option Text → List Text → List Text
unfolding toggle_path select_only select_range
select_path paths path e none selected =
    if e.ctrl || e.meta then toggle_path path selected else select_only path selected
select_path paths path e (some last) selected = select_range paths last path selected

unfoldable pub toggle_select : List Text → Text → Click → Selection → Selection
unfolding select_path anchor
toggle_select paths path e s = record {
  selected = select_path paths path e (anchor e s.last_click) s.selected;
  last_click = some path;
}

-- The check box of a row: a click with the control key.
unfoldable pub check_row : List Text → Text → Bool → Selection → Selection
unfolding toggle_select
check_row paths path shift s =
    toggle_select paths path (record { shift = shift; ctrl = true; meta = true }) s

-- The check box of the header, and whether it is checked.
unfoldable pub check_all : List Text → Bool → Selection → Selection
check_all paths on s = record s { selected = if on then paths else [] }

unfoldable pub all_checked : List Text → Selection → Bool
all_checked paths s = length s.selected == length paths && ltb 0 (length paths)

-- The right click on a row.
unfoldable pub right_click : Text → Selection → Selection
right_click path s = if includes s.selected path then s else record s { selected = path ∷ [] }
