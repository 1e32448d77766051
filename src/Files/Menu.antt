-- ===== src/Files/Menu.antt =====
-- apps/web/src/components/files/ContextMenu.tsx: the entries of the context menu, in their order.
pub mod Laws
use xp_panel.Shared.{
  ℕ, ltb, Text, codes, Bool, true, false, not, ◌||◌, ◌&&◌, ◌==◌, Option, none, some, is_some, List,
  [], ◌∷◌, ◌++◌, length, get_or, if◌then◌else◌, includes,
}
use xp_panel.Files.Listing.{FileInfo}

pub data Entry : Type 0 where
  open_file edit_file download rename copy_entry cut_entry paste : Entry
  compress extract permissions new_file new_folder delete : Entry

pub record Item : Type 0 where
  pub entry : Entry
  pub disabled : Bool

abbrev pub item : Entry → Item
item e = record { entry = e; disabled = false }

abbrev pub item_unless : Bool → Entry → Item
item_unless off e = record { entry = e; disabled = off }

abbrev archive_extensions : List Text
archive_extensions =
    codes "zip" ∷ codes "tar" ∷ codes "gz" ∷ codes "bz2" ∷ codes "rar" ∷ codes "7z" ∷ []

unfoldable pub is_archive : Option FileInfo → Bool
is_archive none = false
is_archive (some f) = includes archive_extensions (get_or f.extension [])

-- The entry that opens the file.
abbrev pub opening : Option FileInfo → Entry
opening none = edit_file
opening (some f) = if f.is_dir then open_file else edit_file

-- The entries, by the conditions of the source: one file, nothing to copy, nothing to act on, a
-- clipboard, an archive.
unfoldable pub entries : Entry → Bool → Bool → Bool → Bool → Bool → List Item
entries open_entry single copy_off nothing has_clipboard extractable =
    (if single then item open_entry ∷ item download ∷ item rename ∷ [] else [])
    ++ (item_unless copy_off copy_entry ∷ item_unless copy_off cut_entry ∷ [])
    ++ (if has_clipboard then item paste ∷ [] else [])
    ++ (item_unless nothing compress ∷ [])
    ++ (if extractable then item extract ∷ [] else [])
    ++ (if single then item permissions ∷ [] else [])
    ++ (item new_file ∷ item new_folder ∷ item_unless nothing delete ∷ [])

unfoldable pub context_menu : List Text → Option FileInfo → Bool → List Item
unfolding entries is_archive
context_menu targets f has_clipboard =
    let multi = ltb 1 (length targets) in
    let nothing = length targets == 0 in
    entries (opening f) (is_some f && not multi) (not (is_some f) && nothing) nothing has_clipboard
      (is_some f && is_archive f)

-- What a click on an entry does: a disabled entry does nothing.
unfoldable pub click_item : {S : Type 0} → (S → S) → Item → S → S
click_item act i s = if i.disabled then s else act s
