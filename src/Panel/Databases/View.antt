-- ===== src/Panel/Databases/View.antt =====
-- databases/page.tsx: what the two tabs show. How a size and a date are printed are parameters.
use xp_panel.Shared.{
  ℕ, ◌+◌, ◌*◌, Text, codes, Bool, true, false, ◌||◌, Option, none, some, List, [], ◌∷◌, ◌++◌, map,
  keep, length, has_substring, if◌then◌else◌, text_eq, get_or,
}
use xp_panel.Api.Databases.{
  DbType, mysql, postgresql, db_type_name, Database, db_status_name, DbUser,
}
use xp_panel.Panel.Databases.{is_given}

abbrev pub is_mysql : DbType → Bool
is_mysql mysql = true
is_mysql postgresql = false

abbrev pub type_label : DbType → Text
type_label mysql = codes "MySQL"
type_label postgresql = codes "PostgreSQL"

abbrev pub type_port : DbType → ℕ
type_port mysql = 3306
type_port postgresql = 5432

abbrev pub total_size : List Database → ℕ
total_size [] = 0
total_size (d ∷ ds) = d.size_mb + total_size ds

unfoldable pub count_type : DbType → List Database → ℕ
count_type t ds = length (keep (λ d. text_eq (db_type_name d.db_type) (db_type_name t)) ds)

module _ (lower : Text → Text) where
  unfoldable pub finds_database : Text → Database → Bool
  finds_database query d =
      text_eq query []
      || has_substring (lower d.name) (lower query)
      || has_substring (lower d.db_name) (lower query)

  unfoldable pub finds_user : Text → DbUser → Bool
  finds_user query u = text_eq query [] || has_substring (lower u.username) (lower query)

module _ (decimal : ℕ → Text) where
  unfoldable pub connection_string : Database → Text
  connection_string d =
      (if is_mysql d.db_type then codes "mysql" else codes "postgresql")
      ++ codes "://user:pass@"
      ++ d.host
      ++ codes ":"
      ++ decimal d.port
      ++ codes "/"
      ++ d.db_name

  unfoldable pub connection_rows : Database → List (Text × Text)
  connection_rows d =
      (codes "Host", d.host)
      ∷ (codes "Port", decimal d.port)
      ∷ (codes "Database", d.db_name)
      ∷ (
        codes "Driver",
        if is_mysql d.db_type then codes "mysql2 / PDO_MySQL" else codes "pg / PDO_PGSQL",
      )
      ∷ []

  pub record DatabaseRow : Type 0 where
    pub badge : Text
    pub row_name : Text
    pub row_db_name : Text
    pub address : Text
    pub size : Text
    pub label : Text
    pub row_status : Text
    pub connection : Option (List (Text × Text) × Text)

  module _ (bytes_text : ℕ → Text) where
    abbrev is_expanded : Option Text → Text → Bool
    is_expanded none i = false
    is_expanded (some j) i = text_eq j i

    unfoldable pub database_row : Option Text → Database → DatabaseRow
    unfolding connection_string connection_rows
    database_row expanded d = record {
      badge = if is_mysql d.db_type then codes "MY" else codes "PG";
      row_name = d.name;
      row_db_name = d.db_name;
      address = d.host ++ codes ":" ++ decimal d.port;
      size = bytes_text (d.size_mb * 1024 * 1024);
      label = type_label d.db_type;
      row_status = db_status_name d.status;
      connection =
          if is_expanded expanded d.id then some (connection_rows d, connection_string d) else none;
    }

    pub data DatabaseList : Type 0 where
      loading : DatabaseList
      message : Text → DatabaseList
      rows : List DatabaseRow → DatabaseList

    abbrev list_of : Text → Option Text → List Database → DatabaseList
    list_of query expanded [] = message (
        if is_given query then codes "No databases match your search" else codes "No databases yet")
    list_of query expanded (d ∷ ds) = rows (map (database_row expanded) (d ∷ ds))

    pub record DatabasesView : Type 0 where
      pub total : ℕ
      pub mysql_count : ℕ
      pub postgresql_count : ℕ
      pub size_total : Text
      pub body : DatabaseList

    abbrev databases_of : Option (List Database × ℕ) → List Database
    databases_of none = []
    databases_of (some d) = d.0

    abbrev total_of : Option (List Database × ℕ) → ℕ
    total_of none = 0
    total_of (some d) = d.1

    -- The data of the query: the databases and their total.
    unfoldable pub databases_view :
        (Text → Text) → Bool → Option (List Database × ℕ) → Text → Option Text → DatabasesView
    unfolding count_type finds_database
    databases_view lower is_loading o query expanded =
        let all_of = databases_of o in
        record {
          total = total_of o;
          mysql_count = count_type mysql all_of;
          postgresql_count = count_type postgresql all_of;
          size_total = bytes_text (total_size all_of * 1024 * 1024);
          body =
              if is_loading
              then loading
              else list_of query expanded (keep (finds_database lower query) all_of);
        }

-- The rows of the other tab.
pub record UserRow : Type 0 where
  pub row_username : Text
  pub row_privileges : List Text
  pub row_created : Text

pub data UserList : Type 0 where
  loading no_users : UserList
  rows : List UserRow → UserList

module _ (lower date_text : Text → Text) where
  abbrev user_row : DbUser → UserRow
  user_row u = record {
    row_username = u.username;
    row_privileges = get_or u.privileges [];
    row_created = date_text u.created_at;
  }

  abbrev users_of : List DbUser → UserList
  users_of [] = no_users
  users_of (u ∷ us) = rows (map user_row (u ∷ us))

  unfoldable pub user_list : Bool → Option (List DbUser) → Text → UserList
  unfolding finds_user
  user_list true o query = loading
  user_list false o query = users_of (keep (finds_user lower query) (get_or o []))
