-- ===== src/Files/Explorer/Laws.antt =====
-- FileExplorer.tsx: the clipboard, the target of the context menu and the delete mutation.
use xp_panel.Shared.{
  ◌≡◌, refl, ◌⊎◌, inl, inr, Text, codes, Bool, true, false, ◌&&◌, some, List, [], ◌∷◌, ◌++◌, All,
  map, length, ltb, includes, Bool-cases, text_eq_refl, arith, split_on,
}
use xp_panel.Files.Paths.{parts, last_part, join_path, final, is_truthy, slash}
use xp_panel.Files.Paths.Laws.{HasNoSlash, parts-join_path, split_on-HaveNoSlash}
use xp_panel.Files.Listing.{FileInfo}
use xp_panel.Files.Explorer.{
  cut, Explorer, Request, moves, shows_error, handle_paste, paste_of, paste_one, left_over,
  context_target, target_of, navigate, handle_cut,
}
use xp_panel.Files.Explorer.Answers.{delete_all, delete_answer, answered}

final-HasNoSlash :
    (x : Text) (l : List Text) → HasNoSlash x → All HasNoSlash l → HasNoSlash (final x l)
final-HasNoSlash x [] h k = h
final-HasNoSlash x (y ∷ l) h k = final-HasNoSlash y l k.0 k.1

last_part-HasNoSlash : (s : Text) → HasNoSlash (last_part s)
unfolding last_part
last_part-HasNoSlash s =
    final-HasNoSlash (split_on slash s).0 (split_on slash s).1 (split_on-HaveNoSlash s).0
      (split_on-HaveNoSlash s).1

-- The request moves the path into the folder, under its own last part.
abbrev pub Moves : Text → Text → Request → Type 0
Moves folder src r =
    (dst : Text) × (r ≡ moves src dst) × (parts dst ≡ parts folder ++ last_part src ∷ [])

unfoldable pub AreMoves : Text → List Text → List Request → Type 0
AreMoves folder [] [] = Unit {0}
AreMoves folder (p ∷ ps) (r ∷ rs) = Moves folder p r × AreMoves folder ps rs
AreMoves folder _ _ = ⊥

pasted-AreMoves :
    (folder : Text) (paths : List Text)
    → All (λ p. is_truthy (last_part p) ≡ true) paths
    → AreMoves folder paths (map (paste_one cut folder) paths)
unfolding AreMoves paste_one
pasted-AreMoves folder [] h = tt
pasted-AreMoves folder (p ∷ ps) h = (
  (
    join_path folder (last_part p),
    refl,
    parts-join_path folder (last_part p) (h.0, last_part-HasNoSlash p),
  ),
  pasted-AreMoves folder ps h.1,
)

-- Cutting paths, opening a folder and pasting moves each path, in order, into that folder under its own
-- last part; pasting once more does nothing.
pub cut_paste :
    (paths : List Text) (folder : Text) (s : Explorer)
    → All (λ p. is_truthy (last_part p) ≡ true) paths
    → let pasted = handle_paste (navigate folder (handle_cut paths s).0) in
      AreMoves folder paths pasted.1
      × (handle_paste pasted.0 ≡ (pasted.0, []))
      × (pasted.0.current_path ≡ folder)
unfolding handle_paste paste_of left_over navigate handle_cut
cut_paste paths folder s h = (pasted-AreMoves folder paths h, refl, refl)

includes_self : (p : Text) → includes (p ∷ []) p ≡ true
unfolding includes
includes_self p = rw (text_eq_refl p) refl

-- The context menu of a file acts on that file, alone or with the whole selection it belongs to.
pub context_target-clicked :
    (s : Explorer) (f : FileInfo)
    → s.ctx_menu ≡ some (some f)
    → (includes (context_target s) f.path ≡ true)
      × ((context_target s ≡ s.selected) ⊎ (context_target s ≡ f.path ∷ []))
unfolding context_target target_of
context_target-clicked s f h =
    rw h (elim (Bool-cases (includes s.selected f.path && ltb 1 (length s.selected))) [
      | inl all_of ↦ rw all_of (ground arith, inl refl)
      | inr one ↦ rw one (includes_self f.path, inr refl)
    ])

stops :
    (fails : Text → Bool) (before after : List Text) (p : Text)
    → All (λ q. fails q ≡ false) before
    → fails p ≡ true
    → delete_all fails (before ++ p ∷ after) ≡ (before, false)
unfolding delete_all
stops fails [] after p h k = rw k refl
stops fails (q ∷ qs) after p h k = rw (h.0, stops fails qs after p h.1 k) refl

-- Where a path fails, the paths before it are deleted and the failure is reported, but the list is not
-- refreshed and the selection keeps the deleted paths; the paths after it are not tried.
pub partial_delete :
    (fails : Text → Bool) (before after : List Text) (p : Text) (s : Explorer)
    → All (λ q. fails q ≡ false) before
    → fails p ≡ true
    → let done = delete_all fails (before ++ p ∷ after) in
      (done ≡ (before, false))
      × (delete_answer done.1 s ≡ (s, shows_error (codes "Delete failed") ∷ []))
unfolding delete_answer answered
partial_delete fails before after p s h k =
    let stopped = stops fails before after p h k in (stopped, rw stopped refl)
