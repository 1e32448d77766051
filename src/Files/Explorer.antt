-- ===== src/Files/Explorer.antt =====
-- apps/web/src/components/files/FileExplorer.tsx: the state of the file manager and its handlers. A
-- handler returns the new state and what it asks of the API, the cache and the user, in order; the
-- answers are further calls. `prompt` and `confirm` are arguments: the text and the choice they give.
pub mod Laws
pub mod Answers
pub mod View
use xp_panel.Shared.{
  ℕ, ◌*◌, ltb, Text, codes, Bool, true, false, not, ◌||◌, ◌&&◌, Option, none, some, is_some, List,
  [], ◌∷◌, ◌++◌, map, length, get_or, if◌then◌else◌, starts_with, includes, trim,
}
use xp_panel.Files.Paths.{join_path, last_part, is_truthy}
use xp_panel.Files.Listing.{FileInfo, SortKey, name, SortDir, asc, same_key, other_dir}

pub data ClipboardOp : Type 0 where
  copy cut : ClipboardOp

pub record ClipboardItem : Type 0 where
  pub paths : List Text
  pub op : ClipboardOp

pub record Explorer : Type 0 where
  pub current_path : Text
  pub selected : List Text
  pub editing : Option (Text × Text)
  pub show_upload : Bool
  pub show_hidden : Bool
  pub search_query : Text
  pub sort_key : SortKey
  pub sort_dir : SortDir
  pub clipboard : Option ClipboardItem
  pub ctx_menu : Option (Option FileInfo)
  pub chmod_target : Option FileInfo
  pub compress_target : Option (List Text)
  pub preview : Option FileInfo
  pub renaming : Option Text

abbrev pub opened_at : Text → Explorer
opened_at initial = record {
  current_path = initial;
  selected = [];
  editing = none;
  show_upload = false;
  show_hidden = false;
  search_query = [];
  sort_key = name;
  sort_dir = asc;
  clipboard = none;
  ctx_menu = none;
  chmod_target = none;
  compress_target = none;
  preview = none;
  renaming = none;
}

pub data Request : Type 0 where
  deletes : List Text → Request
  makes_folder makes_file reads downloads extracts : Text → Request
  renames moves copies changes_mode : Text → Text → Request
  refreshes_list : Text → Request
  refreshes_tree : Request
  shows shows_error : Text → Request
  shows_copied shows_cut : ℕ → Request

abbrev pub Outcome : Type 0
Outcome = Explorer × List Request

abbrev pub quiet : Explorer → Outcome
quiet s = (s, [])

abbrev pub refresh : Explorer → List Request
refresh s = refreshes_list s.current_path ∷ []

unfoldable pub navigate : Text → Explorer → Explorer
navigate path s = record s {
  current_path = path;
  selected = [];
  search_query = [];
  ctx_menu = none;
}

abbrev pub image_extensions : List Text
image_extensions =
    codes "png"
    ∷ codes "jpg"
    ∷ codes "jpeg"
    ∷ codes "gif"
    ∷ codes "svg"
    ∷ codes "webp"
    ∷ codes "ico"
    ∷ codes "bmp"
    ∷ []

abbrev pub text_extensions : List Text
text_extensions =
    codes "txt"
    ∷ codes "md"
    ∷ codes "log"
    ∷ codes "csv"
    ∷ codes "json"
    ∷ codes "yaml"
    ∷ codes "yml"
    ∷ codes "xml"
    ∷ codes "html"
    ∷ codes "htm"
    ∷ codes "css"
    ∷ codes "js"
    ∷ codes "ts"
    ∷ codes "tsx"
    ∷ codes "jsx"
    ∷ codes "go"
    ∷ codes "py"
    ∷ codes "php"
    ∷ codes "sh"
    ∷ codes "bash"
    ∷ codes "conf"
    ∷ codes "ini"
    ∷ codes "env"
    ∷ codes "htaccess"
    ∷ []

-- The first part of `handleOpen`, up to the answer of `read`; `lower` is `toLowerCase`.
unfoldable pub handle_open : (Text → Text) → FileInfo → Explorer → Outcome
unfolding navigate
handle_open lower f s =
    let ext = lower (get_or f.extension []) in
    if f.is_dir
    then quiet (navigate f.path s)
    else if includes image_extensions ext
    then quiet (record s { preview = some f })
    else if includes text_extensions ext
        || starts_with f.name (codes ".")
        || ltb f.size (1024 * 1024)
    then (s, reads f.path ∷ [])
    else quiet (record s { preview = some f })

unfoldable pub read_answer : Text → Option Text → Explorer → Outcome
read_answer path none s = (s, shows_error (codes "Cannot open file") ∷ [])
read_answer path (some content) s = quiet (record s { editing = some (path, content) })

unfoldable pub close_editor : Explorer → Outcome
close_editor s = (record s { editing = none }, refresh s)

unfoldable pub handle_delete : Option (List Text) → Bool → Explorer → Outcome
handle_delete paths confirmed s =
    let targets = get_or paths s.selected in
    if ltb 0 (length targets) && confirmed then (s, deletes targets ∷ []) else quiet s

-- `name?.trim()` as a test, and the path of the new entry.
unfoldable pub named : Option Text → Option Text
named none = none
named (some n) = if is_truthy (trim n) then some (trim n) else none

unfoldable pub new_entry : (Text → Request) → Option Text → Explorer → Outcome
unfolding named
new_entry make prompted s = elim (named prompted) [
  | none ↦ quiet s
  | some n ↦ (s, make (join_path s.current_path n) ∷ [])
]

unfoldable pub handle_new_folder : Option Text → Explorer → Outcome
unfolding new_entry
handle_new_folder prompted s = new_entry makes_folder prompted s

unfoldable pub handle_new_file : Option Text → Explorer → Outcome
unfolding new_entry
handle_new_file prompted s = new_entry makes_file prompted s

unfoldable pub handle_rename : FileInfo → Explorer → Explorer
handle_rename f s = record s { renaming = some f.path; ctx_menu = none }

unfoldable pub handle_rename_submit : Text → Text → Explorer → Outcome
unfolding named
handle_rename_submit old_path new_name s = elim (named (some new_name)) [
  | none ↦ quiet (record s { renaming = none })
  | some n ↦ (record s { renaming = none }, renames old_path n ∷ [])
]

unfoldable pub handle_copy : List Text → Explorer → Outcome
handle_copy paths s = (
  record s { clipboard = some (record { paths = paths; op = copy }); ctx_menu = none },
  shows_copied (length paths) ∷ [],
)

unfoldable pub handle_cut : List Text → Explorer → Outcome
handle_cut paths s = (
  record s { clipboard = some (record { paths = paths; op = cut }); ctx_menu = none },
  shows_cut (length paths) ∷ [],
)

-- The request for one path of the clipboard.
unfoldable pub paste_one : ClipboardOp → Text → Text → Request
paste_one copy current src = copies src (join_path current (last_part src))
paste_one cut current src = moves src (join_path current (last_part src))

unfoldable pub left_over : ClipboardOp → Option ClipboardItem → Option ClipboardItem
left_over copy clipboard = clipboard
left_over cut clipboard = none

unfoldable pub paste_of : Option ClipboardItem → Explorer → Outcome
unfolding paste_one left_over
paste_of none s = quiet s
paste_of (some item) s = (
  record s { clipboard = left_over item.op s.clipboard },
  map (paste_one item.op s.current_path) item.paths,
)

unfoldable pub handle_paste : Explorer → Outcome
unfolding paste_of
handle_paste s = paste_of s.clipboard s

unfoldable pub handle_download : List Text → Explorer → Outcome
handle_download paths s = (record s { ctx_menu = none }, map downloads paths)

unfoldable pub handle_context_menu : Option FileInfo → Explorer → Explorer
handle_context_menu f s = record s { ctx_menu = some f }

unfoldable pub handle_sort : SortKey → Explorer → Explorer
unfolding same_key other_dir
handle_sort key s = record s {
  sort_key = key;
  sort_dir = if same_key s.sort_key key then other_dir s.sort_dir else asc;
}

-- `contextTarget`: the paths that the context menu acts on.
unfoldable pub target_of : Option FileInfo → List Text → List Text
target_of none selected = selected
target_of (some f) selected =
    if includes selected f.path && ltb 1 (length selected) then selected else f.path ∷ []

unfoldable pub context_target : Explorer → List Text
unfolding target_of
context_target s = target_of (get_or s.ctx_menu none) s.selected
