-- ===== src/Tests/Dialogs.antt =====
-- The two-factor page, the editor and the dialogs of the file manager at concrete inputs.
use xp_panel.Shared.{refl, false, codes, trim, trim_start, is_space}
use xp_panel.Auth.TwoFactor.{fresh_page, is_box_text}
use xp_panel.Auth.TwoFactor.Laws.{HasBoxes}
use xp_panel.Files.Archive.{Compress}

abbrev dialog : Compress
dialog = record { format = codes "zip"; name = codes "site"; loading = false }

archive_test : Unit {0}
unfolding trim trim_start is_space
archive_test = tt

empty_boxes : HasBoxes fresh_page
unfolding is_box_text
empty_boxes = (refl, (refl, (refl, (refl, (refl, (refl, (refl, tt)))))))
