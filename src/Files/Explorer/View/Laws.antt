-- ===== src/Files/Explorer/View/Laws.antt =====
-- FileExplorer.tsx: files are deleted only with a confirmation.
use xp_panel.Shared.{
  ◌≡◌, refl, Text, Bool, true, false, Option, none, some, List, [], ◌∷◌, All, map, arith, if_both,
  includes, get_or, ltb, length, ◌&&◌, ◌||◌, starts_with, codes, Option-cases, inl, inr, ◌*◌,
}
use xp_panel.Files.Paths.{join_path}
use xp_panel.Files.Listing.{FileInfo}
use xp_panel.Files.Explorer.{
  Explorer, Request, deletes, copy, cut, ClipboardOp, ClipboardItem, downloads, handle_delete,
  handle_open, paste_one, paste_of, handle_paste, handle_download, handle_copy, handle_cut,
  new_entry, handle_new_folder, handle_new_file, handle_rename_submit, named, close_editor,
  image_extensions, text_extensions, makes_folder, makes_file, context_target, read_answer,
}
use xp_panel.Files.Explorer.Answers.{
  answered, delete_answer, mkdir_answer, new_file_answer, rename_answer, move_answer, copy_answer,
}
use xp_panel.Files.Explorer.View.{
  ViewEvent, toolbar_deletes, menu_deletes, menu_opens, menu_renames, menu_extracts, pastes,
  toolbar_downloads, menu_downloads, edits_preview, applies_mode, view_step, with_file, apply_mode,
  edit_preview, extract_answer, chmod_answer, opens, prompts_folder, prompts_file, submits_rename,
  read_answers, delete_answers, mkdir_answers, new_file_answers, rename_answers, move_answers,
  copy_answers, extract_answers, chmod_answers,
}

abbrev pub is_delete : Request → Bool
is_delete (deletes ps) = true
is_delete _ = false

-- The user was asked and has agreed.
abbrev pub confirms : ViewEvent → Bool
confirms (toolbar_deletes confirmed) = confirmed
confirms (menu_deletes confirmed) = confirmed
confirms _ = false

abbrev Harmless : List Request → Type 0
Harmless rs = All (λ r. is_delete r ≡ false) rs

paste_one-Harmless :
    (op : ClipboardOp) (folder : Text) (ps : List Text) → Harmless (map (paste_one op folder) ps)
unfolding paste_one
paste_one-Harmless op folder [] = tt
paste_one-Harmless copy folder (p ∷ ps) = (refl, paste_one-Harmless copy folder ps)
paste_one-Harmless cut folder (p ∷ ps) = (refl, paste_one-Harmless cut folder ps)

paste_of-Harmless : (c : Option ClipboardItem) (s : Explorer) → Harmless (paste_of c s).1
unfolding paste_of
paste_of-Harmless none s = tt
paste_of-Harmless (some item) s = paste_one-Harmless item.op s.current_path item.paths

downloads-Harmless : (ps : List Text) → Harmless (map downloads ps)
downloads-Harmless [] = tt
downloads-Harmless (p ∷ ps) = (refl, downloads-Harmless ps)

is_text : (Text → Text) → FileInfo → Bool
is_text lower f =
    includes text_extensions (lower (get_or f.extension []))
    || starts_with f.name (codes ".")
    || ltb f.size (1024 * 1024)

and_false : (b : Bool) → (b && false) ≡ false
and_false b = ground arith

handle_open-Harmless :
    (lower : Text → Text) (f : FileInfo) (s : Explorer) → Harmless (handle_open lower f s).1
unfolding handle_open is_text
handle_open-Harmless lower f s =
    if_both {A = Explorer × List Request} (λ o. Harmless o.1) f.is_dir _ _ tt
      (if_both {A = Explorer × List Request} (λ o. Harmless o.1)
        (includes image_extensions (lower (get_or f.extension []))) _ _ tt
        (if_both {A = Explorer × List Request} (λ o. Harmless o.1) (is_text lower f) _ _ (refl, tt)
          tt))

handle_delete-Harmless :
    (paths : Option (List Text)) (s : Explorer) → Harmless (handle_delete paths false s).1
unfolding handle_delete
handle_delete-Harmless paths s = rw (and_false (ltb 0 (length (get_or paths s.selected)))) tt

new_entry-Harmless :
    (make : Text → Request) (prompted : Option Text) (s : Explorer)
    → ((p : Text) → is_delete (make p) ≡ false)
    → Harmless (new_entry make prompted s).1
unfolding new_entry
new_entry-Harmless make prompted s h = elim (Option-cases (named prompted)) [
  | inl e ↦ rw (new_entry, e) tt
  | inr (n, e) ↦ rw (new_entry, e) (h (join_path s.current_path n), tt)
]

handle_rename_submit-Harmless :
    (p n : Text) (s : Explorer) → Harmless (handle_rename_submit p n s).1
unfolding handle_rename_submit
handle_rename_submit-Harmless p n s = elim (Option-cases (named (some n))) [
  | inl e ↦ rw (handle_rename_submit, e) tt
  | inr (m, e) ↦ rw (handle_rename_submit, e) (refl, tt)
]

answered-Harmless :
    (in_tree : Bool) (good bad : Text) (ok : Bool) (s : Explorer)
    → Harmless (answered in_tree good bad ok s)
unfolding answered
answered-Harmless true good bad true s = (refl, (refl, (refl, tt)))
answered-Harmless false good bad true s = (refl, (refl, tt))
answered-Harmless in_tree good bad false s = (refl, tt)

with_file-Harmless :
    (act : FileInfo → Explorer → Explorer × List Request) (m : Option (Option FileInfo))
    (s : Explorer)
    → ((f : FileInfo) → Harmless (act f s).1)
    → Harmless (with_file act m s).1
unfolding with_file
with_file-Harmless act none s h = tt
with_file-Harmless act (some none) s h = tt
with_file-Harmless act (some (some f)) s h = h f

edit_preview-Harmless :
    (lower : Text → Text) (o : Option FileInfo) (s : Explorer) → Harmless (edit_preview lower o s).1
unfolding edit_preview
edit_preview-Harmless lower none s = tt
edit_preview-Harmless lower (some f) s = handle_open-Harmless lower f s

apply_mode-Harmless :
    (mode : Text) (o : Option FileInfo) (s : Explorer) → Harmless (apply_mode mode o s).1
unfolding apply_mode
apply_mode-Harmless mode none s = tt
apply_mode-Harmless mode (some f) s = (refl, tt)

-- No event asks the API to delete anything unless it is a delete that the user has confirmed.
pub view_step-Harmless :
    (lower : Text → Text) (e : ViewEvent) (s : Explorer)
    → confirms e ≡ false
    → All (λ r. is_delete r ≡ false) (view_step lower e s).1
unfolding view_step handle_copy handle_cut handle_paste handle_download close_editor
    handle_new_folder handle_new_file read_answer delete_answer mkdir_answer new_file_answer
    rename_answer move_answer copy_answer extract_answer chmod_answer
view_step-Harmless lower (toolbar_deletes true) s h = absurd cc
view_step-Harmless lower (toolbar_deletes false) s h = handle_delete-Harmless none s
view_step-Harmless lower (menu_deletes true) s h = absurd cc
view_step-Harmless lower (menu_deletes false) s h =
    handle_delete-Harmless (some (context_target s)) s
view_step-Harmless lower (prompts_folder n) s h = new_entry-Harmless makes_folder n s (λ p. refl)
view_step-Harmless lower (prompts_file n) s h = new_entry-Harmless makes_file n s (λ p. refl)
view_step-Harmless lower pastes s h = paste_of-Harmless s.clipboard s
view_step-Harmless lower toolbar_downloads s h = downloads-Harmless s.selected
view_step-Harmless lower menu_downloads s h = downloads-Harmless (context_target s)
view_step-Harmless lower (opens f) s h = handle_open-Harmless lower f s
view_step-Harmless lower (submits_rename p n) s h = handle_rename_submit-Harmless p n s
view_step-Harmless lower menu_opens s h =
    with_file-Harmless (handle_open lower) s.ctx_menu s (λ f. handle_open-Harmless lower f s)
view_step-Harmless lower menu_renames s h = with_file-Harmless _ s.ctx_menu s (λ f. tt)
view_step-Harmless lower menu_extracts s h = with_file-Harmless _ s.ctx_menu s (λ f. (refl, tt))
view_step-Harmless lower edits_preview s h = edit_preview-Harmless lower s.preview s
view_step-Harmless lower (applies_mode mode) s h = apply_mode-Harmless mode s.chmod_target s
view_step-Harmless lower (read_answers p none) s h = (refl, tt)
view_step-Harmless lower (read_answers p (some content)) s h = tt
view_step-Harmless lower (delete_answers ok) s h = answered-Harmless true _ _ ok s
view_step-Harmless lower (mkdir_answers ok) s h = answered-Harmless true _ _ ok s
view_step-Harmless lower (new_file_answers ok) s h = answered-Harmless false _ _ ok s
view_step-Harmless lower (rename_answers ok) s h = answered-Harmless true _ _ ok s
view_step-Harmless lower (move_answers ok) s h = answered-Harmless true _ _ ok s
view_step-Harmless lower (copy_answers ok) s h = answered-Harmless false _ _ ok s
view_step-Harmless lower (extract_answers true) s h = (refl, (refl, tt))
view_step-Harmless lower (extract_answers false) s h = (refl, tt)
view_step-Harmless lower (chmod_answers mode true) s h = (refl, (refl, tt))
view_step-Harmless lower (chmod_answers mode false) s h = (refl, tt)
view_step-Harmless lower _ s h = ground arith
