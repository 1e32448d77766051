-- ===== src/Tests/Files.antt =====
-- The file manager at concrete inputs.
use native.Mathlib.Omega.{arith}
use xp_panel.Shared.{
  ◌≡◌, refl, inr, Bool, true, false, Text, codes, none, some, List, [], ◌∷◌, text_eq, includes,
  split_on, pos, length, keep, All,
}
use xp_panel.Files.Permissions.{Perm, Perms}
use xp_panel.Files.Paths.{parts, go_up, join_path, last_part}
use xp_panel.Files.Paths.Laws.{go_up-join_path}
use xp_panel.Files.Upload.{
  pending, done, Upload, no_files, clicks_upload, all_done, upload_run, pending_count,
  pending_files, is_pending, is_settled,
}
use xp_panel.Files.Upload.Batches.{answers, flat}
use xp_panel.Files.Upload.Laws.{upload_completes}
use xp_panel.Files.Selection.{Selection, Click, index_of, later, toggle_select}
use xp_panel.Files.Selection.Laws.{ctrl_toggles}
use xp_panel.Files.Selection.Ranges.{shift_selects}
use xp_panel.Files.Listing.{FileInfo, name, asc, listed, visible, is_hidden}
use xp_panel.Files.Listing.Laws.{IsFoldersFirst, listed_files}
use xp_panel.Files.Explorer.{Explorer, opened_at, handle_cut, handle_paste, navigate, shows_error}
use xp_panel.Files.Explorer.Answers.{delete_all, delete_answer}
use xp_panel.Files.Explorer.View.{menu_deletes, view_step}
use xp_panel.Files.Explorer.View.Laws.{is_delete, view_step-Harmless}
use xp_panel.Files.Explorer.Laws.{AreMoves, cut_paste, partial_delete}

abbrev rw_only : Perm
rw_only = record { read = true; write = true; execute = false }

abbrev rx_only : Perm
rx_only = record { read = true; write = false; execute = true }

abbrev some_perms : Perms
some_perms = record { owner = rw_only; group = rx_only; other = rx_only }

go_up-join_path_example :
    (parts (go_up (join_path (codes "/www/a/") (codes "b.txt"))) ≡ parts (codes "/www/a/"))
    × (last_part (join_path (codes "/www/a/") (codes "b.txt")) ≡ codes "b.txt")
go_up-join_path_example = go_up-join_path (codes "/www/a/") (codes "b.txt") (refl, refl)

abbrev two_files : Upload
two_files = record no_files {
  files =
      record { file = 4; status = done }
      ∷ record { file = 5; status = pending }
      ∷ record { file = 6; status = pending }
      ∷ [];
}

upload_test : Unit {0}
unfolding is_pending is_settled pending_count pending_files
upload_test = tt

upload_completes_example :
    let v = upload_run (clicks_upload ∷ answers (false ∷ [])) two_files in
    (v.uploading ≡ false) × (all_done v ≡ true) × (flat v.posted ≡ 5 ∷ 6 ∷ [])
unfolding upload_test
upload_completes_example =
    upload_completes (false ∷ []) two_files (refl, (refl, (refl, (refl, tt)))) (omega arith)
      (omega arith)

abbrev rows : List Text
rows = codes "/a" ∷ codes "/b" ∷ codes "/c" ∷ []

abbrev with_shift : Click
with_shift = record { shift = true; ctrl = false; meta = false }

abbrev with_ctrl : Click
with_ctrl = record { shift = false; ctrl = true; meta = false }

selection_test : Unit {0}
unfolding text_eq includes index_of later
selection_test = tt

abbrev b_selected : Selection
b_selected = record { selected = codes "/b" ∷ []; last_click = none }

ctrl_toggles_example :
    includes (toggle_select rows (codes "/b") with_ctrl b_selected).selected (codes "/b") ≡ false
unfolding selection_test
ctrl_toggles_example = ctrl_toggles rows (codes "/b") (codes "/b") with_ctrl b_selected refl refl

shift_selects_example :
    includes
      (toggle_select rows
        (codes "/c")
        with_shift
        (record { selected = []; last_click = some (codes "/a") })).selected
      (codes "/b")
    ≡ true
shift_selects_example =
    shift_selects rows [] (codes "/a") (codes "/c") (codes "/b") with_shift 0 2 1 refl refl
      (unfold selection_test in refl) (unfold selection_test in refl)
      (inr ((unfold selection_test in refl), omega arith, omega arith))

abbrev file_at : Text → FileInfo
file_at p = record {
  name = codes "x";
  path = p;
  size = 1;
  is_dir = false;
  mode = codes "-rw-r--r--";
  modified_at = codes "2024";
  mime_type = none;
  extension = none;
}

abbrev two_entries : List FileInfo
two_entries = file_at (codes "/x") ∷ record (file_at (codes "/d")) { is_dir = true } ∷ []

listed_files_example :
    (length (keep (λ f. f.is_dir) (listed (λ s t. pos 0) true false name asc two_entries))
      ≡ length (keep (λ f. f.is_dir) (visible true two_entries)))
    × All (λ f. is_hidden f ≡ false) (listed (λ s t. pos 0) false false name asc two_entries)
    × IsFoldersFirst (listed (λ s t. pos 0) true false name asc two_entries)
listed_files_example = listed_files (λ s t. pos 0) true false name asc two_entries (λ f. f.is_dir)

paths_test : Unit {0}
unfolding split_on last_part
paths_test = tt

abbrev home : Explorer
home = opened_at (codes "/")

cut_paste_example :
    let pasted = handle_paste (navigate (codes "/www") (handle_cut (codes "/a/x" ∷ []) home).0) in
    AreMoves (codes "/www") (codes "/a/x" ∷ []) pasted.1
    × (handle_paste pasted.0 ≡ (pasted.0, []))
    × (pasted.0.current_path ≡ codes "/www")
cut_paste_example =
    cut_paste (codes "/a/x" ∷ []) (codes "/www") home ((unfold paths_test in refl), tt)

abbrev menu_on_b : Explorer
menu_on_b = record home {
  selected = codes "/a" ∷ [];
  ctx_menu = some (some (file_at (codes "/b")));
}

abbrev b_fails : Text → Bool
b_fails p = text_eq p (codes "/b")

partial_delete_example :
    (delete_all b_fails rows ≡ (codes "/a" ∷ [], false))
    × (delete_answer (delete_all b_fails rows).1 home
        ≡ (home, shows_error (codes "Delete failed") ∷ []))
partial_delete_example =
    partial_delete b_fails (codes "/a" ∷ []) (codes "/c" ∷ []) (codes "/b") home
      ((unfold selection_test in refl), tt) (unfold selection_test in refl)

view_step-Harmless_example :
    All (λ r. is_delete r ≡ false) (view_step (λ t. t) (menu_deletes false) menu_on_b).1
view_step-Harmless_example = view_step-Harmless (λ t. t) (menu_deletes false) menu_on_b refl
