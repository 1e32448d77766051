-- ===== src/Stores/Ui.antt =====
-- apps/web/src/lib/stores/ui.store.ts and apps/web/src/lib/hooks/useCommandPalette.ts: the state of
-- the interface, what of it is persisted, and the global shortcut of the hook.
pub mod Laws
use xp_panel.Shared.{
  Text, codes, Bool, true, false, not, ◌||◌, ◌&&◌, Option, none, if◌then◌else◌, text_eq,
}

pub data Locale : Type 0 where
  en ar : Locale

pub record UiStore : Type 0 where
  pub sidebar_collapsed : Bool
  pub command_palette_open : Bool
  pub active_server_id : Option Text
  pub locale : Locale

abbrev pub initial_ui : UiStore
initial_ui = record {
  sidebar_collapsed = false;
  command_palette_open = false;
  active_server_id = none;
  locale = en;
}

unfoldable pub toggle_sidebar : UiStore → UiStore
toggle_sidebar s = record s { sidebar_collapsed = not s.sidebar_collapsed }

unfoldable pub set_sidebar_collapsed : Bool → UiStore → UiStore
set_sidebar_collapsed v s = record s { sidebar_collapsed = v }

unfoldable pub toggle_command_palette : UiStore → UiStore
toggle_command_palette s = record s { command_palette_open = not s.command_palette_open }

unfoldable pub set_command_palette_open : Bool → UiStore → UiStore
set_command_palette_open v s = record s { command_palette_open = v }

unfoldable pub set_active_server_id : Option Text → UiStore → UiStore
set_active_server_id i s = record s { active_server_id = i }

unfoldable pub set_locale : Locale → UiStore → UiStore
set_locale l s = record s { locale = l }

pub record PersistedUi : Type 0 where
  pub sidebar_collapsed : Bool
  pub active_server_id : Option Text
  pub locale : Locale

unfoldable pub partialize_ui : UiStore → PersistedUi
partialize_ui s = record {
  sidebar_collapsed = s.sidebar_collapsed;
  active_server_id = s.active_server_id;
  locale = s.locale;
}

pub record Key : Type 0 where
  pub meta : Bool
  pub ctrl : Bool
  pub key : Text

abbrev pub is_shortcut : Key → Bool
is_shortcut k = (k.meta || k.ctrl) && text_eq k.key (codes "k")

-- The keydown handler of `useCommandPalette`.
unfoldable pub shortcut_handler : Key → UiStore → UiStore
unfolding set_command_palette_open
shortcut_handler k s =
    let s' = if is_shortcut k then set_command_palette_open true s else s in
    if text_eq k.key (codes "Escape") then set_command_palette_open false s' else s'

-- `toggle` of `useCommandPalette`.
unfoldable pub toggle : UiStore → UiStore
unfolding set_command_palette_open
toggle s = set_command_palette_open (not s.command_palette_open) s
