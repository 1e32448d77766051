-- ===== src/Files/Archive.antt =====
-- apps/web/src/components/files/CompressDialog.tsx: the format, the name and the request of the dialog.
pub mod Laws
use xp_panel.Shared.{
  Text, codes, Bool, true, false, not, ◌||◌, Option, none, some, List, [], ◌∷◌, ◌++◌, get_or,
  if◌then◌else◌, trim,
}
use xp_panel.Files.Paths.{is_truthy, default_name, output_path}

pub record Compress : Type 0 where
  pub format : Text
  pub name : Text
  pub loading : Bool

abbrev pub formats : List Text
formats = codes "zip" ∷ codes "tar.gz" ∷ codes "tar" ∷ codes "gz" ∷ codes "bz2" ∷ []

unfoldable pub opened_for : List Text → Compress
unfolding default_name
opened_for paths = record { format = codes "zip"; name = default_name paths; loading = false }

-- What the dialog asks for: an archive of paths at an output path in a format, a message, or the end.
pub data Ask : Type 0 where
  compresses : List Text → Text → Text → Ask
  tells tells_error : Text → Ask
  succeeds : Ask

abbrev pub pick_format : Text → Compress → Compress
pick_format f c = record c { format = f }

abbrev pub set_name : Text → Compress → Compress
set_name n c = record c { name = n }

-- `handleCompress`, up to the answer, and the button, which is disabled while a request runs and where
-- the name is blank.
unfoldable pub handle_compress : List Text → Text → Compress → Compress × List Ask
unfolding output_path
handle_compress paths current c =
    if is_truthy (trim c.name)
    then (
      record c { loading = true },
      compresses paths (output_path current c.name c.format) c.format ∷ [],
    )
    else (c, tells_error (codes "Enter output filename") ∷ [])

unfoldable pub click_compress : List Text → Text → Compress → Compress × List Ask
unfolding handle_compress
click_compress paths current c =
    if c.loading || not (is_truthy (trim c.name)) then (c, []) else handle_compress paths current c

-- The answer to a request for the archive `file`; a failure may bring a message.
unfoldable pub compress_answer : Text → Option (Option Text) → Compress → Compress × List Ask
compress_answer file none c =
    (record c { loading = false }, tells (codes "Compressed to " ++ file) ∷ succeeds ∷ [])
compress_answer file (some message) c =
    (record c { loading = false }, tells_error (get_or message (codes "Compression failed")) ∷ [])
