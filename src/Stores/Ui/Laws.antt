-- ===== src/Stores/Ui/Laws.antt =====
-- useCommandPalette.ts: what a key press does to the interface store.
use xp_panel.Shared.{◌≡◌, refl, codes, Bool-cases, inl, inr, not, ◌&&◌, ◌||◌, text_eq}
use xp_panel.Stores.Ui.{
  UiStore, partialize_ui, Key, is_shortcut, shortcut_handler, set_command_palette_open,
}

-- A key press closes the palette on Escape, else opens it on the shortcut, else leaves it as it is, and
-- it changes nothing that is persisted.
pub shortcut_outcome :
    (k : Key) (s : UiStore)
    → ((shortcut_handler k s).command_palette_open
        ≡ (not (text_eq k.key (codes "Escape")) && (is_shortcut k || s.command_palette_open)))
      × (partialize_ui (shortcut_handler k s) ≡ partialize_ui s)
unfolding shortcut_handler set_command_palette_open partialize_ui
shortcut_outcome k s = elim (Bool-cases (text_eq k.key (codes "Escape"))) [
  | inl escape ↦ elim (Bool-cases (is_shortcut k)) [
    | inl short ↦ rw (escape, short) (refl, refl)
    | inr long ↦ rw (escape, long) (refl, refl)
  ]
  | inr other ↦ elim (Bool-cases (is_shortcut k)) [
    | inl short ↦ rw (other, short) (refl, refl)
    | inr long ↦ rw (other, long) (refl, refl)
  ]
]
