-- ===== src/Files/Editor.antt =====
-- apps/web/src/components/files/CodeEditor.tsx: the editor of one text file. `saved` is what the last
-- write that succeeded has put into the file, or what was read; `lower` is `toLowerCase`.
pub mod Laws
use mathlib.Core.List.{List, [], ◌∷◌}
use xp_panel.Shared.{
  ℕ, Text, codes, Bool, true, false, not, ◌||◌, ◌&&◌, Option, none, some, is_some, text_eq,
  if◌then◌else◌, split_on,
}
use xp_panel.Auth.Roles.{Property, own, inherited, absent, property}
use xp_panel.Files.Paths.{final, last_part}

pub record Editor : Type 0 where
  pub initial_content : Text
  pub content : Text
  pub is_dirty : Bool
  pub saving : Option Text
  pub saved : Text

abbrev pub opened_with : Text → Editor
opened_with initial = record {
  initial_content = initial;
  content = initial;
  is_dirty = false;
  saving = none;
  saved = initial;
}

unfoldable pub handle_change : Text → Editor → Editor
handle_change value e = record e {
  content = value;
  is_dirty = not (text_eq value e.initial_content);
}

-- The save button: it is disabled while nothing is dirty or a write is on its way.
unfoldable pub can_save : Editor → Bool
can_save e = e.is_dirty && not (is_some e.saving)

unfoldable pub save : Editor → Editor
unfolding can_save
save e = if can_save e then record e { saving = some e.content } else e

unfoldable pub write_answer : Bool → Option Text → Editor → Editor
write_answer ok none e = e
write_answer true (some written) e = record e { saving = none; is_dirty = false; saved = written }
write_answer false (some written) e = record e { saving = none }

unfoldable pub save_answer : Bool → Editor → Editor
unfolding write_answer
save_answer ok e = write_answer ok e.saving e

-- `handleClose`: whether the editor closes; `confirmed` is the answer to the question, if it is asked.
unfoldable pub may_close : Bool → Editor → Bool
may_close confirmed e = not e.is_dirty || confirmed

abbrev pub languages : List (Text × Text)
languages =
    (codes "ts", codes "typescript")
    ∷ (codes "tsx", codes "typescript")
    ∷ (codes "js", codes "javascript")
    ∷ (codes "jsx", codes "javascript")
    ∷ (codes "go", codes "go")
    ∷ (codes "py", codes "python")
    ∷ (codes "php", codes "php")
    ∷ (codes "rb", codes "ruby")
    ∷ (codes "rs", codes "rust")
    ∷ (codes "java", codes "java")
    ∷ (codes "c", codes "c")
    ∷ (codes "cpp", codes "cpp")
    ∷ (codes "h", codes "c")
    ∷ (codes "html", codes "html")
    ∷ (codes "css", codes "css")
    ∷ (codes "scss", codes "scss")
    ∷ (codes "less", codes "less")
    ∷ (codes "json", codes "json")
    ∷ (codes "yaml", codes "yaml")
    ∷ (codes "yml", codes "yaml")
    ∷ (codes "toml", codes "toml")
    ∷ (codes "xml", codes "xml")
    ∷ (codes "md", codes "markdown")
    ∷ (codes "sh", codes "shell")
    ∷ (codes "bash", codes "shell")
    ∷ (codes "sql", codes "sql")
    ∷ (codes "conf", codes "ini")
    ∷ (codes "ini", codes "ini")
    ∷ (codes "env", codes "ini")
    ∷ (codes "nginx", codes "nginx")
    ∷ []

-- `getLanguage`; `none` where the lookup finds what every object inherits, which is no name. 46 is the
-- dot.
unfoldable pub get_language : (Text → Text) → Text → Option Text
get_language lower path =
    elim (property languages (lower (final (split_on 46 path).0 (split_on 46 path).1))) [
      | own name ↦ some name
      | inherited ↦ none
      | absent ↦ some (codes "plaintext")
    ]

unfoldable pub file_name : Text → Text
unfolding last_part
file_name path = last_part path
