-- ===== src/Stores/Palette/Laws.antt =====
-- CommandPalette.tsx: the selection stays in range, and Enter opens a listed command.
use mathlib.Core.Path.{subst}
use xp_panel.Shared.{
  ℤ, pos, negsuc, ℕ, zero, suc, ◌<◌, ◌≡◌, refl, ◌⊎◌, inl, inr, Text, codes, true, false, Option,
  none, some, List, [], ◌∷◌, length, text_eq, text_eq_iff, if_both, Bool-cases, Option-cases, arith,
}
use xp_panel.Stores.Ui.{Key, is_shortcut}
use xp_panel.Stores.Palette.{
  Command, Palette, next_index, previous_index, at_index, PaletteEvent, presses, types, hovers,
  picks, dismisses, filtered, enter, on_key, settle, react, palette_step, palette_run,
}

-- The index is that of an entry, or 0; it may be -1 where nothing is listed.
abbrev pub IsInRange : ℕ → ℤ → Type 0
IsInRange n (pos i) = (i ≡ 0) ⊎ (i < n)
IsInRange n (negsuc k) = (k ≡ 0) × (n ≡ 0)

next_index-IsInRange : (n : ℕ) (i : ℤ) → IsInRange n i → IsInRange n (next_index n i)
unfolding next_index
next_index-IsInRange zero (pos i) h = (refl, refl)
next_index-IsInRange (suc n) (pos i) h = ground arith
next_index-IsInRange n (negsuc zero) h = ground arith
next_index-IsInRange n (negsuc (suc k)) h = absurd (omega (arith, h.0))

previous_index-IsInRange : (n : ℕ) (i : ℤ) → IsInRange n i → IsInRange n (previous_index i)
unfolding previous_index
previous_index-IsInRange n (pos i) h = ground arith
previous_index-IsInRange n (negsuc k) h = inl refl

module _ (lower : Text → Text) where
  abbrev pub Selects : Palette → Type 0
  Selects p = IsInRange (length (filtered lower p.query)) p.selected

  -- The pointer can only be over an entry that is listed.
  abbrev pub IsPossible : PaletteEvent → Palette → Type 0
  IsPossible (hovers i) p = i < length (filtered lower p.query)
  IsPossible (presses k) p = Unit {0}
  IsPossible (types q) p = Unit {0}
  IsPossible (picks c) p = Unit {0}
  IsPossible dismisses p = Unit {0}

  abbrev pub ArePossible : List PaletteEvent → Palette → Type 0
  ArePossible [] p = Unit {0}
  ArePossible (e ∷ es) p = IsPossible e p × ArePossible es (palette_step lower e p)

  abbrev KeepsRange : Palette → Palette × Option Text → Type 0
  KeepsRange p r = IsInRange (length (filtered lower p.query)) r.0.selected

  enter-KeepsRange : (o : Option Command) (p : Palette) → Selects p → KeepsRange p (enter lower o p)
  unfolding enter
  enter-KeepsRange none p h = h
  enter-KeepsRange (some c) p h = h

  on_key-KeepsRange : (k : Key) (p : Palette) → Selects p → KeepsRange p (on_key lower k p)
  unfolding on_key
  on_key-KeepsRange k p h = if_both (KeepsRange p) (is_shortcut k) _ _ h (
      if_both (KeepsRange p) p.open_now _ _
        (if_both (KeepsRange p) (text_eq k.key (codes "Escape")) _ _ h (
          if_both (KeepsRange p) (text_eq k.key (codes "ArrowDown")) _ _
            (next_index-IsInRange _ p.selected h)
            (if_both (KeepsRange p) (text_eq k.key (codes "ArrowUp")) _ _
              (previous_index-IsInRange _ p.selected h)
              (if_both (KeepsRange p) (text_eq k.key (codes "Enter")) _ _
                (enter-KeepsRange (at_index (filtered lower p.query) p.selected) p h) h))))
        h)

  react-KeepsRange :
      (e : PaletteEvent) (p : Palette) → IsPossible e p → Selects p → KeepsRange p (react lower e p)
  unfolding react
  react-KeepsRange (presses k) p i h = on_key-KeepsRange k p h
  react-KeepsRange (types q) p i h = h
  react-KeepsRange (hovers n) p i h = inr i
  react-KeepsRange (picks c) p i h = h
  react-KeepsRange dismisses p i h = h

  palette_step-Selects :
      (e : PaletteEvent) (p : Palette)
      → IsPossible e p
      → Selects p
      → Selects (palette_step lower e p)
  unfolding palette_step
  palette_step-Selects e p i h = elim (Bool-cases (text_eq p.query (react lower e p).0.query)) [
    | inl same ↦
        rw (same, settle)
          (subst (λ q. IsInRange (length (filtered lower q)) (react lower e p).0.selected)
            ((text_eq_iff p.query (react lower e p).0.query).0 same) (react-KeepsRange e p i h))
    | inr new ↦ rw (new, settle) (inl refl)
  ]

  -- From a selection in range, whatever keys are pressed, text is typed and entries are hovered or
  -- picked, the selection stays that of a listed entry or 0, or -1 where nothing is listed.
  pub palette_run-Selects :
      (es : List PaletteEvent) (p : Palette)
      → ArePossible es p
      → Selects p
      → Selects (palette_run lower es p)
  unfolding palette_run
  palette_run-Selects [] p i h = h
  palette_run-Selects (e ∷ es) p i h =
      palette_run-Selects es (palette_step lower e p) i.1 (palette_step-Selects e p i.0 h)

  -- A key that sends the router to a page does so from an open palette, to the page of the listed
  -- command that is selected; the palette is closed and its query cleared.
  pub on_key_opens :
      (k : Key) (p : Palette) (href : Text)
      → (on_key lower k p).1 ≡ some href
      → (c : Command) × (at_index (filtered lower p.query) p.selected ≡ some c)
        × (c.href ≡ href)
        × (p.open_now ≡ true)
        × ((on_key lower k p).0 ≡ record p { open_now = false; query = [] })
  unfolding on_key enter
  on_key_opens k p href h = elim (Option-cases (at_index (filtered lower p.query) p.selected)) [
    | inl none_there ↦ absurd (ground arith)
    | inr (c, there) ↦ (c, there, ground arith, ground arith, ground arith)
  ]
