-- ===== src/Files/Preview.antt =====
-- apps/web/src/components/files/PreviewModal.tsx: what a file is previewed as, the content that is read
-- for it, and the turns of an image. The zoom is in hundredths; `lower` is `toLowerCase`.
pub mod Laws
use xp_panel.Shared.{
  ℕ, ◌+◌, ◌-◌, ◌%◌, min, max, Text, codes, Bool, true, false, ◌||◌, Option, none, some, List, [],
  ◌∷◌, get_or, if◌then◌else◌, includes, starts_with,
}
use xp_panel.Files.Listing.{FileInfo}
use xp_panel.Files.Explorer.{image_extensions}

pub data PreviewType : Type 0 where
  image text html unsupported : PreviewType

abbrev pub readable_extensions : List Text
readable_extensions =
    codes "txt"
    ∷ codes "md"
    ∷ codes "log"
    ∷ codes "csv"
    ∷ codes "json"
    ∷ codes "yaml"
    ∷ codes "yml"
    ∷ codes "xml"
    ∷ codes "env"
    ∷ codes "conf"
    ∷ codes "ini"
    ∷ codes "js"
    ∷ codes "ts"
    ∷ codes "tsx"
    ∷ codes "jsx"
    ∷ codes "go"
    ∷ codes "py"
    ∷ codes "php"
    ∷ codes "sh"
    ∷ codes "bash"
    ∷ codes "sql"
    ∷ []

unfoldable pub preview_type : (Text → Text) → FileInfo → PreviewType
preview_type lower f =
    let ext = lower (get_or f.extension []) in
    if includes image_extensions ext
    then image
    else if includes (codes "html" ∷ codes "htm" ∷ []) ext
    then html
    else if includes readable_extensions ext || starts_with f.name (codes ".")
    then text
    else unsupported

-- Whether the content is read, and whether the modal offers to edit it.
unfoldable pub is_read : PreviewType → Bool
is_read image = false
is_read text = true
is_read html = true
is_read unsupported = false

pub record Preview : Type 0 where
  pub content : Option Text
  pub loading : Bool

unfoldable pub fresh_preview : PreviewType → Preview
unfolding is_read
fresh_preview t = record { content = none; loading = is_read t }

-- The answer of `read`.
unfoldable pub read_done : Option Text → Preview → Preview
read_done none p = record { content = some (codes "Failed to load file content."); loading = false }
read_done (some c) p = record { content = some c; loading = false }

-- What the modal shows.
pub data Shown : Type 0 where
  spinner picture no_preview : Shown
  page source : Text → Shown

unfoldable pub content_of : PreviewType → Option Text → Shown
content_of image c = picture
content_of html (some c) = page c
content_of text (some c) = source c
content_of html none = no_preview
content_of text none = no_preview
content_of unsupported c = no_preview

unfoldable pub modal : PreviewType → Preview → Shown
unfolding content_of
modal t p = if p.loading then spinner else content_of t p.content

pub record View : Type 0 where
  pub zoom : ℕ
  pub rotation : ℕ

abbrev pub unturned : View
unturned = record { zoom = 100; rotation = 0 }

-- `Math.max(0.1, z - 0.25)` and `Math.min(5, z + 0.25)`.
unfoldable pub zoom_out : View → View
zoom_out v = record v { zoom = max 10 (v.zoom - 25) }

unfoldable pub zoom_in : View → View
zoom_in v = record v { zoom = min 500 (v.zoom + 25) }

unfoldable pub rotate : View → View
rotate v = record v { rotation = (v.rotation + 90) % 360 }
