-- ===== src/Files/Menu/Laws.antt =====
-- ContextMenu.tsx: on a file, nothing is disabled; on the background, what needs a file is not offered.
use xp_panel.Shared.{
  ◌==◌, ◌≡◌, refl, Text, Bool, true, false, not, none, some, List, ◌∷◌, All, length, ltb, arith,
}
use xp_panel.Files.Listing.{FileInfo}
use xp_panel.Files.Menu.{
  Entry, rename, permissions, context_menu, entries, opening, is_archive, extract, download,
}

abbrev pub needs_file : Entry → Bool
needs_file rename = true
needs_file permissions = true
needs_file download = true
needs_file extract = true
needs_file _ = false

not_empty : (p : Text) (ps : List Text) → (length (p ∷ ps) == 0) ≡ false
not_empty p ps = ground arith

enabled :
    (o : Entry) (single has_clipboard extractable : Bool)
    → All (λ i. i.disabled ≡ false) (entries o single false false has_clipboard extractable)
unfolding entries
enabled o single has_clipboard extractable = ground arith

background :
    (o : Entry) (copy_off nothing has_clipboard : Bool)
    → All (λ i. needs_file i.entry ≡ false) (entries o false copy_off nothing has_clipboard false)
unfolding entries
background o copy_off nothing true = (refl, (refl, (refl, (refl, (refl, (refl, (refl, tt)))))))
background o copy_off nothing false = (refl, (refl, (refl, (refl, (refl, (refl, tt))))))

-- The menu of a file, which always acts on something, has no disabled entry; and the menu of the background
-- offers nothing that needs a file, so its callbacks never see a missing file.
pub menu_entries :
    (f : FileInfo) (p : Text) (ps targets : List Text) (has_clipboard : Bool)
    → All (λ i. i.disabled ≡ false) (context_menu (p ∷ ps) (some f) has_clipboard)
      × All (λ i. needs_file i.entry ≡ false) (context_menu targets none has_clipboard)
unfolding context_menu
menu_entries f p ps targets has_clipboard = (
  rw (not_empty p ps) (
      enabled (opening (some f)) (not (ltb 1 (length (p ∷ ps)))) has_clipboard
        (is_archive (some f))),
  background (opening none) (length targets == 0) (length targets == 0) has_clipboard,
)
