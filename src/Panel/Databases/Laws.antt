-- ===== src/Panel/Databases/Laws.antt =====
-- databases/page.tsx: what the page asks of the server, and the privileges.
use xp_panel.Shared.{
  ◌≡◌, refl, ◌≢◌, ◌≤◌, ◌+◌, Text, Bool, true, false, not, List, [], ◌∷◌, ◌++◌, All, keep, length,
  if_both, none, includes, arith, text_eq, text_eq_refl, inl, inr, ◌⊎◌,
}
use xp_panel.Api.Databases.{
  UserInput, DatabaseCall, create, create_user, delete, delete_user, list, list_users, Database,
  DbType, mysql, postgresql, db_type_name,
}
use xp_panel.Panel.Runs.{PageEffect, OfCalls, All-OfCalls, page_run, page_run-keeps}
use xp_panel.Panel.Dialog.{no_dialog, DialogEvent, opens, leaves, closes, submits, answers}
use xp_panel.Panel.Dialog.Laws.{IsOrderly, IsAccepted, dialog_step-Keeps, first-IsOrderly}
use xp_panel.Panel.Databases.{
  is_given, has_any, accepts_database, new_database, accepts_user, new_user, toggle_privilege,
  DatabasePage, database_page, DatabaseEvent, database_step, in_user_dialog, told, picks_tab,
  types_search, toggles_row, in_database, opens_user, closes_user, leaves_user, show_tab, same_tab,
  first_privileges, Tab, submits_user, answers_user, toggles_privilege, deletes_database,
  deletes_user, database_deleted, user_deleted, late_database, late_user,
}
use xp_panel.Panel.Databases.View.{count_type}

-- A database has a name and a password of eight characters; a user has a name, such a password and a privilege.
abbrev pub IsDatabaseCall : DatabaseCall → Type 0
IsDatabaseCall (create d) = (d.name ≢ []) × (8 ≤ length d.password)
IsDatabaseCall (create_user d) = (d.username ≢ []) × (8 ≤ length d.password) × (d.privileges ≢ [])
IsDatabaseCall (delete i) = Unit
IsDatabaseCall (delete_user i) = Unit
IsDatabaseCall list = ⊥
IsDatabaseCall list_users = ⊥

given : (s : Text) → is_given s ≡ true → s ≢ []
given [] h = absurd cc
given (c ∷ s) h = λ k. absurd cc

any_given : (ps : List Text) → has_any ps ≡ true → ps ≢ []
any_given [] h = absurd cc
any_given (p ∷ ps) h = λ k. absurd cc

accepted_database : (c : DatabaseCall) → IsAccepted new_database c → IsDatabaseCall c
unfolding new_database accepts_database
accepted_database c (d, e, h) = rw e (given d.name (ground arith), ground arith)

accepted_user : (c : DatabaseCall) → IsAccepted new_user c → IsDatabaseCall c
unfolding new_user accepts_user
accepted_user c (d, e, h) =
    rw e (given d.username (ground arith), ground arith, any_given d.privileges (ground arith))

pub record AreOrderly (p : DatabasePage) : Type 0 where
  pub first : IsOrderly p.database_dialog
  pub second : IsOrderly p.user_dialog

abbrev Keeps : DatabasePage × List (PageEffect DatabaseCall) → Type 0
Keeps r = AreOrderly r.0 × All (OfCalls IsDatabaseCall) r.1

in_user-Keeps :
    (e : DialogEvent UserInput) (p : DatabasePage) → AreOrderly p → Keeps (in_user_dialog e p)
in_user-Keeps e p h =
    let r = dialog_step-Keeps new_user e p.user_dialog h.second in
    (record { first = h.first; second = r.0 }, All-OfCalls accepted_user _ r.1)

told-Keeps :
    (key success failure : Text) (ok : Bool)
    → All (OfCalls IsDatabaseCall) (told key success failure ok)
told-Keeps key success failure true = (tt, (tt, tt))
told-Keeps key success failure false = (tt, tt)

show_tab-AreOrderly : (t : Tab) (p : DatabasePage) → AreOrderly p → AreOrderly (show_tab t p)
unfolding show_tab
show_tab-AreOrderly t p h =
    if_both {A = DatabasePage} AreOrderly (same_tab t p.tab) _
      (record p {
        tab = t;
        expanded = none;
        database_dialog = no_dialog;
        user_dialog = no_dialog;
        selected_privileges = first_privileges;
      })
      h (record { first = first-IsOrderly; second = first-IsOrderly })

database_step-Keeps :
    (e : DatabaseEvent) (p : DatabasePage) → AreOrderly p → Keeps (database_step e p)
unfolding database_step
database_step-Keeps (picks_tab t) p h = (show_tab-AreOrderly t p h, tt)
database_step-Keeps (types_search s) p h = (record { first = h.first; second = h.second }, tt)
database_step-Keeps (toggles_row i) p h = (record { first = h.first; second = h.second }, tt)
database_step-Keeps (in_database e) p h =
    let r = dialog_step-Keeps new_database e p.database_dialog h.first in
    (record { first = r.0; second = h.second }, All-OfCalls accepted_database _ r.1)
database_step-Keeps opens_user p h = in_user-Keeps opens p h
database_step-Keeps leaves_user p h =
    in_user-Keeps leaves _ (record { first = h.first; second = h.second })
database_step-Keeps closes_user p h = in_user-Keeps closes p h
database_step-Keeps (submits_user username password) p h =
    in_user-Keeps
      (submits
        (record { username = username; password = password; privileges = p.selected_privileges }))
      p h
database_step-Keeps (answers_user i ok) p h = in_user-Keeps (answers i ok) p h
database_step-Keeps (toggles_privilege k) p h = (record { first = h.first; second = h.second }, tt)
database_step-Keeps (deletes_database i false) p h = (h, tt)
database_step-Keeps (deletes_database i true) p h = (h, (tt, tt))
database_step-Keeps (deletes_user i false) p h = (h, tt)
database_step-Keeps (deletes_user i true) p h = (h, (tt, tt))
database_step-Keeps (database_deleted ok) p h = (h, told-Keeps _ _ _ ok)
database_step-Keeps (user_deleted ok) p h = (h, told-Keeps _ _ _ ok)
database_step-Keeps (late_database ok) p h = (h, told-Keeps _ _ _ ok)
database_step-Keeps (late_user ok) p h = (h, told-Keeps _ _ _ ok)

-- Whatever is done on the databases page from its first state on, a database is only created with a name and a password of eight characters, a user only with a name, such a password and a privilege, and all else that is asked is a deletion.
pub database_run-IsDatabaseCall :
    (es : List DatabaseEvent)
    → All (OfCalls IsDatabaseCall) (page_run database_step es database_page).1
database_run-IsDatabaseCall es =
    (page_run-keeps database_step AreOrderly (OfCalls IsDatabaseCall) database_step-Keeps es
      database_page (record { first = first-IsOrderly; second = first-IsOrderly })).1

kept_not : (p : Text) (ps : List Text) → includes (keep (λ x. not (text_eq x p)) ps) p ≡ false
unfolding includes
kept_not p [] = refl
kept_not p (q ∷ ps) = ground (arith, kept_not p ps)

added : (p : Text) (ps : List Text) → includes (ps ++ p ∷ []) p ≡ true
unfolding includes
added p [] = rw (text_eq_refl p) refl
added p (q ∷ ps) = ground (arith, added p ps)

-- A click on a privilege changes whether it is selected.
pub toggle_privilege-includes :
    (p : Text) (ps : List Text) → includes (toggle_privilege p ps) p ≡ not (includes ps p)
unfolding toggle_privilege
toggle_privilege-includes p ps = ground (arith, kept_not p ps, added p ps)

one_type :
    (t : DbType)
    → (text_eq (db_type_name t) (db_type_name mysql) ≡ true)
        × (text_eq (db_type_name t) (db_type_name postgresql) ≡ false)
      ⊎ (text_eq (db_type_name t) (db_type_name mysql) ≡ false)
        × (text_eq (db_type_name t) (db_type_name postgresql) ≡ true)
unfolding text_eq
one_type mysql = inl (refl, refl)
one_type postgresql = inr (refl, refl)

-- The two counts above the list add up to all databases.
pub count_types : (ds : List Database) → count_type mysql ds + count_type postgresql ds ≡ length ds
unfolding count_type
count_types [] = refl
count_types (d ∷ ds) = elim (one_type d.db_type) [
  | inl h ↦ rw (h.0, h.1) (omega (arith, count_types ds))
  | inr h ↦ rw (h.0, h.1) (omega (arith, count_types ds))
]
