-- ===== src/Files/Rows.antt =====
-- The rows of apps/web/src/components/files/FileList.tsx: the icon of a file, the arrow of a sorted column
-- and the box that renames a file.
use xp_panel.Shared.{
  Text, codes, ◌||◌, Option, none, some, List, [], ◌∷◌, get_or, if◌then◌else◌, text_eq, includes,
  starts_with,
}
use xp_panel.Files.Listing.{FileInfo, SortKey, SortDir, asc, desc, same_key}

pub data Icon : Type 0 where
  folder code image archive audio video text_file plain_file : Icon

abbrev code_extensions : List Text
code_extensions =
    codes "ts"
    ∷ codes "tsx"
    ∷ codes "js"
    ∷ codes "jsx"
    ∷ codes "go"
    ∷ codes "py"
    ∷ codes "php"
    ∷ codes "rb"
    ∷ codes "rs"
    ∷ codes "java"
    ∷ codes "c"
    ∷ codes "cpp"
    ∷ codes "h"
    ∷ codes "sh"
    ∷ codes "bash"
    ∷ []

abbrev picture_extensions : List Text
picture_extensions =
    codes "png"
    ∷ codes "jpg"
    ∷ codes "jpeg"
    ∷ codes "gif"
    ∷ codes "svg"
    ∷ codes "webp"
    ∷ codes "ico"
    ∷ codes "bmp"
    ∷ []

abbrev packed_extensions : List Text
packed_extensions =
    codes "zip"
    ∷ codes "tar"
    ∷ codes "gz"
    ∷ codes "bz2"
    ∷ codes "rar"
    ∷ codes "7z"
    ∷ codes "xz"
    ∷ []

abbrev audio_extensions : List Text
audio_extensions = codes "mp3" ∷ codes "wav" ∷ codes "ogg" ∷ codes "flac" ∷ codes "aac" ∷ []

abbrev video_extensions : List Text
video_extensions = codes "mp4" ∷ codes "webm" ∷ codes "mov" ∷ codes "avi" ∷ codes "mkv" ∷ []

abbrev document_extensions : List Text
document_extensions =
    codes "txt"
    ∷ codes "md"
    ∷ codes "log"
    ∷ codes "csv"
    ∷ codes "json"
    ∷ codes "yaml"
    ∷ codes "yml"
    ∷ codes "xml"
    ∷ codes "html"
    ∷ codes "htm"
    ∷ codes "css"
    ∷ codes "env"
    ∷ codes "conf"
    ∷ codes "ini"
    ∷ codes "htaccess"
    ∷ []

-- `FileIcon`; `lower` is `toLowerCase`.
unfoldable pub file_icon : (Text → Text) → FileInfo → Icon
file_icon lower f =
    let ext = lower (get_or f.extension []) in
    if f.is_dir
    then folder
    else if includes code_extensions ext
    then code
    else if includes picture_extensions ext
    then image
    else if includes packed_extensions ext
    then archive
    else if includes audio_extensions ext
    then audio
    else if includes video_extensions ext
    then video
    else if includes document_extensions ext || starts_with f.name (codes ".")
    then text_file
    else plain_file

pub data Arrow : Type 0 where
  both_ways upwards downwards : Arrow

abbrev arrow_of : SortDir → Arrow
arrow_of asc = upwards
arrow_of desc = downwards

-- `SortIcon`.
unfoldable pub sort_icon : SortKey → SortKey → SortDir → Arrow
unfolding same_key
sort_icon col key dir = if same_key key col then arrow_of dir else both_ways

pub data RenameEvent : Type 0 where
  typed pressed : Text → RenameEvent
  blurs : RenameEvent

-- `RenameInput`: the text of the box, and the name that is submitted, if one is.
unfoldable pub rename_input : Text → RenameEvent → Text → Text × Option Text
rename_input initial_name (typed new_text) value = (new_text, none)
rename_input initial_name (pressed key) value =
    if text_eq key (codes "Enter")
    then (value, some value)
    else if text_eq key (codes "Escape")
    then (value, some initial_name)
    else (value, none)
rename_input initial_name blurs value = (value, some value)
