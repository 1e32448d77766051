-- ===== src/Panel/Databases.antt =====
-- apps/web/src/app/(panel)/databases/page.tsx: the two tabs, their search, their dialogs and their rows.
-- A tab that is left loses its state; an answer to one of its requests then changes nothing in the page.
pub mod View
pub mod Laws
use xp_panel.Shared.{
  ℕ, leb, Text, codes, Bool, true, false, not, ◌&&◌, ◌||◌, Option, none, some, List, [], ◌∷◌, ◌++◌,
  keep, length, includes, if◌then◌else◌, text_eq,
}
use xp_panel.Api.Databases.{
  DbType, DatabaseInput, UserInput, DatabaseCall, create, create_user, delete, delete_user,
}
use xp_panel.Panel.Runs.{PageEffect, calls, invalidates, tells_success, tells_error}
use xp_panel.Panel.Dialog.{
  Dialog, DialogState, no_dialog, DialogEvent, opens, submits, answers, closes, dialog_step, leaves,
}

abbrev pub is_given : Text → Bool
is_given [] = false
is_given (c ∷ s) = true

unfoldable pub accepts_database : DatabaseInput → Bool
accepts_database d = is_given d.name && is_given d.password && leb 8 (length d.password)

unfoldable pub new_database : Dialog DatabaseInput DatabaseCall
unfolding accepts_database
new_database = record {
  accepts = accepts_database;
  request = create;
  key = codes "databases";
  success = codes "Database created";
  failure = codes "Failed to create database";
}

abbrev pub has_any : List Text → Bool
has_any [] = false
has_any (p ∷ ps) = true

-- The rules of the inputs, and the button that is disabled without a privilege.
unfoldable pub accepts_user : UserInput → Bool
accepts_user d =
    is_given d.username && is_given d.password && leb 8 (length d.password) && has_any d.privileges

unfoldable pub new_user : Dialog UserInput DatabaseCall
unfolding accepts_user
new_user = record {
  accepts = accepts_user;
  request = create_user;
  key = codes "db-users";
  success = codes "User created";
  failure = codes "Failed to create user";
}

abbrev pub first_privileges : List Text
first_privileges = codes "SELECT" ∷ codes "INSERT" ∷ codes "UPDATE" ∷ codes "DELETE" ∷ []

unfoldable pub toggle_privilege : Text → List Text → List Text
toggle_privilege p prev =
    if includes prev p then keep (λ x. not (text_eq x p)) prev else prev ++ p ∷ []

pub data Tab : Type 0 where
  databases_tab users_tab : Tab

pub record DatabasePage : Type 0 where
  pub tab : Tab
  pub search : Text
  pub expanded : Option Text
  pub database_dialog : DialogState
  pub user_dialog : DialogState
  pub selected_privileges : List Text

abbrev pub database_page : DatabasePage
database_page = record {
  tab = databases_tab;
  search = [];
  expanded = none;
  database_dialog = no_dialog;
  user_dialog = no_dialog;
  selected_privileges = first_privileges;
}

pub data DatabaseEvent : Type 0 where
  picks_tab : Tab → DatabaseEvent
  types_search : Text → DatabaseEvent
  toggles_row : Text → DatabaseEvent
  in_database : DialogEvent DatabaseInput → DatabaseEvent
  opens_user closes_user leaves_user : DatabaseEvent
  submits_user : Text → Text → DatabaseEvent
  answers_user : ℕ → Bool → DatabaseEvent
  toggles_privilege : Text → DatabaseEvent
  deletes_database deletes_user : Text → Bool → DatabaseEvent
  database_deleted user_deleted late_database late_user : Bool → DatabaseEvent

-- `setExpanded(isExpanded ? null : db.id)`.
unfoldable pub toggle_row : Text → Option Text → Option Text
toggle_row i none = some i
toggle_row i (some j) = if text_eq j i then none else some i

abbrev pub in_user_dialog :
    DialogEvent UserInput → DatabasePage → DatabasePage × List (PageEffect DatabaseCall)
in_user_dialog e p =
    let r = dialog_step new_user e p.user_dialog in (record p { user_dialog = r.0 }, r.1)

-- The messages of an answered mutation with its stale query.
abbrev pub told : Text → Text → Text → Bool → List (PageEffect DatabaseCall)
told key success failure true = invalidates key ∷ tells_success success ∷ []
told key success failure false = tells_error failure ∷ []

abbrev pub same_tab : Tab → Tab → Bool
same_tab databases_tab databases_tab = true
same_tab users_tab users_tab = true
same_tab t u = false

-- Another tab takes the place of the one that was shown, with all that was open in it.
unfoldable pub show_tab : Tab → DatabasePage → DatabasePage
show_tab t p = if same_tab t p.tab then p else record p {
  tab = t;
  expanded = none;
  database_dialog = no_dialog;
  user_dialog = no_dialog;
  selected_privileges = first_privileges;
}

-- A dialog that has left takes its chosen privileges along.
abbrev pub kept_privileges : DatabasePage → List Text
kept_privileges p = if p.user_dialog.shown then p.selected_privileges else first_privileges

unfoldable pub database_step :
    DatabaseEvent → DatabasePage → DatabasePage × List (PageEffect DatabaseCall)
unfolding new_database new_user dialog_step toggle_privilege toggle_row show_tab
database_step (picks_tab t) p = (show_tab t p, [])
database_step (types_search s) p = (record p { search = s }, [])
database_step (toggles_row i) p = (record p { expanded = toggle_row i p.expanded }, [])
database_step (in_database e) p =
    let r = dialog_step new_database e p.database_dialog in
    (record p { database_dialog = r.0 }, r.1)
database_step opens_user p = in_user_dialog opens p
database_step closes_user p = in_user_dialog closes p
database_step leaves_user p =
    in_user_dialog leaves (record p { selected_privileges = kept_privileges p })
database_step (submits_user username password) p =
    in_user_dialog
      (submits
        (record { username = username; password = password; privileges = p.selected_privileges }))
      p
database_step (answers_user i ok) p = in_user_dialog (answers i ok) p
database_step (toggles_privilege k) p =
    (record p { selected_privileges = toggle_privilege k p.selected_privileges }, [])
database_step (deletes_database i false) p = (p, [])
database_step (deletes_database i true) p = (p, calls (delete i) ∷ [])
database_step (deletes_user i false) p = (p, [])
database_step (deletes_user i true) p = (p, calls (delete_user i) ∷ [])
database_step (database_deleted ok) p =
    (p, told (codes "databases") (codes "Database deleted") (codes "Failed to delete database") ok)
database_step (user_deleted ok) p =
    (p, told (codes "db-users") (codes "User deleted") (codes "Failed to delete user") ok)
database_step (late_database ok) p =
    (p, told (codes "databases") (codes "Database created") (codes "Failed to create database") ok)
database_step (late_user ok) p =
    (p, told (codes "db-users") (codes "User created") (codes "Failed to create user") ok)
