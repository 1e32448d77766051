-- ===== src/Files/Editor/Laws.antt =====
-- CodeEditor.tsx: when the editor asks before it discards, and when it does not.
use xp_panel.Shared.{
  ◌↔◌, ◌≡◌, ◌≢◌, refl, Text, true, false, text_eq, text_eq_iff, text_eq_refl, Bool-cases, inl, inr,
  arith,
}
use xp_panel.Files.Editor.{
  Editor, opened_with, handle_change, can_save, save, save_answer, write_answer, may_close,
}

other_text : (v w : Text) → v ≢ w → text_eq v w ≡ false
other_text v w h = elim (Bool-cases (text_eq v w)) [
  | inl same ↦ absurd (h ((text_eq_iff v w).0 same))
  | inr other ↦ other
]

-- Until something is saved, the editor closes without a question exactly when its content is what was
-- read: one change after another, the flag compares the content with it.
pub may_close-handle_change :
    (v : Text) (e : Editor) → (may_close false (handle_change v e) ≡ true) ↔ (v ≡ e.initial_content)
unfolding may_close handle_change
may_close-handle_change v e = ground (arith, text_eq_iff v e.initial_content)

-- After a save the flag still compares with the content that was first read, and an answer clears it
-- whatever was typed meanwhile. So a file that was saved and then changed back cannot be saved again
-- and is closed without a question, though the file holds the saved text; and so is a text that was
-- typed while a write was on its way.
pub unsaved_not_dirty :
    (initial v w : Text)
    → v ≢ initial
    → let back =
        handle_change initial (save_answer true (save (handle_change v (opened_with initial)))) in
      let late =
        save_answer true (handle_change w (save (handle_change v (opened_with initial)))) in
      (back.content ≡ initial)
      × (back.saved ≡ v)
      × (can_save back ≡ false)
      × (may_close false back ≡ true)
      × (late.content ≡ w)
      × (late.saved ≡ v)
      × (can_save late ≡ false)
      × (may_close false late ≡ true)
unfolding handle_change save save_answer write_answer can_save may_close
unsaved_not_dirty initial v w h =
    rw (other_text v initial h, text_eq_refl initial)
      (refl, refl, refl, refl, refl, refl, refl, refl)
