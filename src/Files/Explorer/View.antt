-- ===== src/Files/Explorer/View.antt =====
-- FileExplorer.tsx: what its parts (toolbar, tree, list, context menu, dialogs) call, and the answers of
-- the API, as events. While a file is edited only the editor is on the screen.
pub mod Laws
use xp_panel.Shared.{
  ltb, Text, codes, Bool, true, false, not, Option, none, some, List, [], ◌∷◌, ◌++◌, length, trim,
  if◌then◌else◌,
}
use xp_panel.Files.Listing.{FileInfo, SortKey}
use xp_panel.Files.Explorer.{
  Explorer, Request, extracts, shows, shows_error, Outcome, quiet, refresh, navigate, handle_open,
  read_answer, close_editor, handle_delete, handle_new_folder, handle_new_file, handle_rename,
  handle_rename_submit, handle_copy, handle_cut, handle_paste, handle_download, handle_context_menu,
  handle_sort, context_target, changes_mode,
}
use xp_panel.Files.Explorer.Answers.{
  answered, delete_answer, mkdir_answer, new_file_answer, rename_answer, move_answer, copy_answer,
}

pub data ViewEvent : Type 0 where
  navigates searches : Text → ViewEvent
  toolbar_deletes menu_deletes : Bool → ViewEvent
  prompts_folder prompts_file : Option Text → ViewEvent
  opens_upload closes_upload refreshes toggles_hidden clicks_outside : ViewEvent
  pastes toolbar_copies toolbar_cuts toolbar_downloads toolbar_compresses : ViewEvent
  selects : List Text → ViewEvent
  opens : FileInfo → ViewEvent
  right_clicks : Option FileInfo → ViewEvent
  sorts : SortKey → ViewEvent
  submits_rename : Text → Text → ViewEvent
  menu_opens menu_downloads menu_renames menu_copies menu_cuts menu_chmods : ViewEvent
  menu_compresses menu_extracts : ViewEvent
  closes_chmod closes_compress compressed closes_preview edits_preview closes_editor : ViewEvent
  applies_mode : Text → ViewEvent
  read_answers : Text → Option Text → ViewEvent
  delete_answers mkdir_answers new_file_answers rename_answers : Bool → ViewEvent
  move_answers copy_answers extract_answers : Bool → ViewEvent
  chmod_answers : Text → Bool → ViewEvent

-- `isSearching`.
unfoldable pub is_searching : Explorer → Bool
is_searching s = ltb 1 (length (trim s.search_query))

unfoldable pub close_menu : Outcome → Outcome
close_menu o = (record o.0 { ctx_menu = none }, o.1)

-- What the menu does with the file it was opened on, if it was opened on one.
unfoldable pub with_file :
    (FileInfo → Explorer → Outcome) → Option (Option FileInfo) → Explorer → Outcome
with_file act (some (some f)) s = act f s
with_file act (some none) s = quiet s
with_file act none s = quiet s

-- The file that the menu was opened on.
unfoldable pub file_of : Option (Option FileInfo) → Option FileInfo
file_of none = none
file_of (some f) = f

unfoldable pub apply_mode : Text → Option FileInfo → Explorer → Outcome
apply_mode mode none s = quiet s
apply_mode mode (some f) s = (record s { chmod_target = none }, changes_mode f.path mode ∷ [])

unfoldable pub edit_preview : (Text → Text) → Option FileInfo → Explorer → Outcome
edit_preview lower none s = quiet s
edit_preview lower (some f) s =
    let o = handle_open lower f s in (record o.0 { preview = none }, o.1)

unfoldable pub compress_selected : Explorer → Explorer
compress_selected s = record s {
  compress_target = if ltb 0 (length s.selected) then some s.selected else s.compress_target;
}

unfoldable pub extract_answer : Bool → Explorer → Outcome
extract_answer true s = (s, refresh s ++ shows (codes "Extracted") ∷ [])
extract_answer false s = (s, shows_error (codes "Extract failed") ∷ [])

unfoldable pub chmod_answer : Text → Bool → Explorer → Outcome
chmod_answer mode true s = (s, shows (codes "Permissions set to " ++ mode) ∷ refresh s)
chmod_answer mode false s = (s, shows_error (codes "Failed to change permissions") ∷ [])

module _ (lower : Text → Text) where
  unfoldable pub view_step : ViewEvent → Explorer → Outcome
  unfolding close_menu compress_selected
  view_step (navigates p) s = quiet (navigate p s)
  view_step (searches q) s = quiet (record s { search_query = q })
  view_step (toolbar_deletes confirmed) s = handle_delete none confirmed s
  view_step (menu_deletes confirmed) s =
      close_menu (handle_delete (some (context_target s)) confirmed s)
  view_step (prompts_folder n) s = handle_new_folder n s
  view_step (prompts_file n) s = handle_new_file n s
  view_step opens_upload s = quiet (record s { show_upload = true })
  view_step closes_upload s = (record s { show_upload = false }, refresh s)
  view_step refreshes s = (s, refresh s)
  view_step toggles_hidden s = quiet (record s { show_hidden = not s.show_hidden })
  view_step clicks_outside s = quiet (record s { ctx_menu = none })
  view_step pastes s = handle_paste s
  view_step toolbar_copies s = handle_copy s.selected s
  view_step toolbar_cuts s = handle_cut s.selected s
  view_step toolbar_downloads s = handle_download s.selected s
  view_step toolbar_compresses s = quiet (compress_selected s)
  view_step (selects ps) s = quiet (record s { selected = ps })
  view_step (opens f) s = handle_open lower f s
  view_step (right_clicks f) s = quiet (handle_context_menu f s)
  view_step (sorts key) s = quiet (handle_sort key s)
  view_step (submits_rename p n) s = handle_rename_submit p n s
  view_step menu_opens s = close_menu (with_file (handle_open lower) s.ctx_menu s)
  view_step menu_downloads s = handle_download (context_target s) s
  view_step menu_renames s = with_file (λ f t. quiet (handle_rename f t)) s.ctx_menu s
  view_step menu_copies s = handle_copy (context_target s) s
  view_step menu_cuts s = handle_cut (context_target s) s
  view_step menu_chmods s = quiet (record s { chmod_target = file_of s.ctx_menu; ctx_menu = none })
  view_step menu_compresses s =
      quiet (record s { compress_target = some (context_target s); ctx_menu = none })
  view_step menu_extracts s = close_menu (with_file (λ f t. (t, extracts f.path ∷ [])) s.ctx_menu s)
  view_step closes_chmod s = quiet (record s { chmod_target = none })
  view_step closes_compress s = quiet (record s { compress_target = none })
  view_step compressed s = (record s { compress_target = none }, refresh s)
  view_step closes_preview s = quiet (record s { preview = none })
  view_step edits_preview s = edit_preview lower s.preview s
  view_step closes_editor s = close_editor s
  view_step (applies_mode mode) s = apply_mode mode s.chmod_target s
  view_step (read_answers p content) s = read_answer p content s
  view_step (delete_answers ok) s = delete_answer ok s
  view_step (mkdir_answers ok) s = mkdir_answer ok s
  view_step (new_file_answers ok) s = new_file_answer ok s
  view_step (rename_answers ok) s = rename_answer ok s
  view_step (move_answers ok) s = move_answer ok s
  view_step (copy_answers ok) s = copy_answer ok s
  view_step (extract_answers ok) s = extract_answer ok s
  view_step (chmod_answers mode ok) s = chmod_answer mode ok s
