-- ===== src/Files/Preview/Laws.antt =====
-- PreviewModal.tsx: the spinner ends, and the image stays within its bounds.
use xp_panel.Shared.{
  ℕ, ◌+◌, ◌%◌, ◌≤◌, ◌<◌, ◌≡◌, ◌≢◌, refl, ap, true, Text, Option, none, some, arith,
}
use xp_panel.Files.Preview.{
  PreviewType, image, text, html, unsupported, is_read, fresh_preview, read_done, modal, content_of,
  spinner, View, zoom_in, zoom_out, rotate,
}

-- A zoom and a turn that the buttons can reach.
pub record IsShowable (v : View) : Type 0 where
  pub at_least : 10 ≤ v.zoom
  pub at_most : v.zoom ≤ 500
  pub turned : v.rotation < 360

four_turns : (r : ℕ) → r < 360 → ((((r + 90) % 360 + 90) % 360 + 90) % 360 + 90) % 360 ≡ r
four_turns r h = omega arith

-- The buttons keep the zoom between a tenth and five, and the turn below a full one; four turns are none.
pub view_bounds :
    (v : View)
    → IsShowable v
    → IsShowable (zoom_in v)
      × IsShowable (zoom_out v)
      × IsShowable (rotate v)
      × (rotate (rotate (rotate (rotate v))) ≡ v)
unfolding zoom_in zoom_out rotate
view_bounds v h = (
  record { at_least = omega arith; at_most = omega arith; turned = h.turned },
  record { at_least = omega arith; at_most = omega arith; turned = h.turned },
  record { at_least = h.at_least; at_most = h.at_most; turned = omega arith },
  ap (λ r. record v { rotation = r }) (four_turns v.rotation h.turned),
)

-- The modal shows the spinner exactly while a content that is to be read has not come; once the answer
-- is there, failure or not, it shows something else.
pub modal-read_done :
    (t : PreviewType) (answer : Option Text)
    → (modal t (fresh_preview t) ≡ spinner → is_read t ≡ true)
      × (modal t (read_done answer (fresh_preview t)) ≢ spinner)
unfolding modal fresh_preview read_done is_read content_of
modal-read_done image none = ((λ e. cc), (λ e. cc))
modal-read_done image (some c) = ((λ e. cc), (λ e. cc))
modal-read_done text none = ((λ e. refl), (λ e. cc))
modal-read_done text (some c) = ((λ e. refl), (λ e. cc))
modal-read_done html none = ((λ e. refl), (λ e. cc))
modal-read_done html (some c) = ((λ e. refl), (λ e. cc))
modal-read_done unsupported none = ((λ e. cc), (λ e. cc))
modal-read_done unsupported (some c) = ((λ e. cc), (λ e. cc))
