-- ===== src/Stores/Palette.antt =====
-- apps/web/src/components/layout/CommandPalette.tsx: the command palette. `lower` is
-- `toLowerCase`, whose Unicode tables are not modelled; the icons and the markup are left out.
pub mod Laws
use xp_panel.Shared.{
  ℕ, zero, suc, ◌+◌, ◌-◌, ◌==◌, min, Text, codes, Bool, true, false, not, ◌||◌, ◌&&◌, Option, none,
  some, List, [], ◌∷◌, length, get_elem?, keep, if◌then◌else◌, text_eq, has_substring, trim, ℤ, pos,
  negsuc,
}
use xp_panel.Stores.Ui.{Key, is_shortcut}

pub record Command : Type 0 where
  pub id : Text
  pub label : Text
  pub href : Text
  pub category : Text

abbrev pub command : Text → Text → Text → Text → Command
command i l h c = record { id = i; label = l; href = h; category = c }

unfoldable pub commands : List Command
commands =
    command (codes "dashboard") (codes "Dashboard") (codes "/dashboard") (codes "Navigation")
    ∷ command (codes "domains") (codes "Domains") (codes "/domains") (codes "Navigation")
    ∷ command (codes "email") (codes "Email") (codes "/email") (codes "Navigation")
    ∷ command (codes "files") (codes "File Manager") (codes "/files") (codes "Navigation")
    ∷ command (codes "databases") (codes "Databases") (codes "/databases") (codes "Navigation")
    ∷ command (codes "php") (codes "PHP Settings") (codes "/php") (codes "Navigation")
    ∷ command (codes "ssl") (codes "SSL / TLS") (codes "/ssl") (codes "Navigation")
    ∷ command (codes "backups") (codes "Backups") (codes "/backups") (codes "Navigation")
    ∷ command (codes "docker") (codes "Docker") (codes "/docker") (codes "Navigation")
    ∷ command (codes "devops") (codes "DevOps Pipelines") (codes "/devops") (codes "Navigation")
    ∷ command (codes "security") (codes "Security") (codes "/security") (codes "Navigation")
    ∷ command (codes "monitoring") (codes "Monitoring") (codes "/monitoring") (codes "Navigation")
    ∷ command (codes "geomap") (codes "GeoMap") (codes "/monitoring/geomap") (codes "Navigation")
    ∷ command (codes "billing") (codes "Billing") (codes "/billing") (codes "Navigation")
    ∷ command (codes "marketplace") (codes "Marketplace") (codes "/marketplace")
        (codes "Navigation")
    ∷ command (codes "ai") (codes "AI Assistant") (codes "/ai") (codes "Navigation")
    ∷ command (codes "servers") (codes "Servers") (codes "/admin/servers") (codes "Admin")
    ∷ command (codes "settings") (codes "Settings") (codes "/settings") (codes "Navigation")
    ∷ []

pub record Palette : Type 0 where
  pub open_now : Bool
  pub query : Text
  pub selected : ℤ

-- `Math.min(i + 1, n - 1)`.
unfoldable pub next_index : ℕ → ℤ → ℤ
next_index n (pos i) = if n == 0 then negsuc 0 else pos (min (i + 1) (n - 1))
next_index n (negsuc zero) = if n == 0 then negsuc 0 else pos 0
next_index n (negsuc (suc k)) = negsuc k

-- `Math.max(i - 1, 0)`.
unfoldable pub previous_index : ℤ → ℤ
previous_index (pos i) = pos (i - 1)
previous_index (negsuc k) = pos 0

abbrev pub at_index {ℓ} : {A : Type ℓ} → List A → ℤ → Option A
at_index l (pos i) = get_elem? l i
at_index l (negsuc k) = none

pub data PaletteEvent : Type 0 where
  presses : Key → PaletteEvent
  types : Text → PaletteEvent
  hovers : ℕ → PaletteEvent
  picks : Command → PaletteEvent
  dismisses : PaletteEvent

module _ (lower : Text → Text) where
  unfoldable pub matches : Text → Command → Bool
  matches query c =
      has_substring (lower c.label) (lower query) || has_substring (lower c.category) (lower query)

  unfoldable pub filtered : Text → List Command
  filtered query = elim (trim query) [ [] ↦ commands | c ∷ s ↦ keep (matches query) commands ]

  -- The state and the page that the router is sent to.
  unfoldable pub enter : Option Command → Palette → Palette × Option Text
  enter none p = (p, none)
  enter (some c) p = (record p { open_now = false; query = [] }, some c.href)

  unfoldable pub navigation : Key → Palette → Palette × Option Text
  unfolding enter
  navigation k p =
      if text_eq k.key (codes "Escape")
      then (record p { open_now = false }, none)
      else if text_eq k.key (codes "ArrowDown")
      then (record p { selected = next_index (length (filtered p.query)) p.selected }, none)
      else if text_eq k.key (codes "ArrowUp")
      then (record p { selected = previous_index p.selected }, none)
      else if text_eq k.key (codes "Enter")
      then enter (at_index (filtered p.query) p.selected) p
      else (p, none)

  -- The keydown handler. The names of the keys differ, so at most one of its cases applies.
  unfoldable pub on_key : Key → Palette → Palette × Option Text
  unfolding navigation
  on_key k p =
      if is_shortcut k
      then (record p { open_now = not p.open_now; query = [] }, none)
      else if p.open_now
      then navigation k p
      else (p, none)

  -- The effect on the query.
  unfoldable pub settle : Text → Palette → Palette
  settle before p = if text_eq before p.query then p else record p { selected = pos 0 }

  unfoldable pub react : PaletteEvent → Palette → Palette × Option Text
  unfolding enter
  react (presses k) p = on_key k p
  react (types q) p = (record p { query = q }, none)
  react (hovers i) p = (record p { selected = pos i }, none)
  react (picks c) p = enter (some c) p
  react dismisses p = (record p { open_now = false }, none)

  unfoldable pub palette_step : PaletteEvent → Palette → Palette
  unfolding settle
  palette_step e p = settle p.query (react e p).0

  unfoldable pub palette_run : List PaletteEvent → Palette → Palette
  palette_run [] p = p
  palette_run (e ∷ es) p = palette_run es (palette_step e p)
