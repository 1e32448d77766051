-- ===== src/Api/Databases.antt =====
-- apps/web/src/lib/api/databases.api.ts and types/database.types.ts: databases, their users and the calls about them.
use xp_panel.Shared.{ℕ, Text, codes, Option, List, [], ◌∷◌, ◌++◌}
use xp_panel.Api.Calls.{api_get, api_post, api_delete}
use xp_panel.Api.Fields.{FieldCall, string, strings}

pub data DbType : Type 0 where
  mysql postgresql : DbType

abbrev pub db_type_name : DbType → Text
db_type_name mysql = codes "mysql"
db_type_name postgresql = codes "postgresql"

pub data DbStatus : Type 0 where
  active suspended error : DbStatus

abbrev pub db_status_name : DbStatus → Text
db_status_name active = codes "active"
db_status_name suspended = codes "suspended"
db_status_name error = codes "error"

pub record DbUser : Type 0 where
  pub id : Text
  pub organization_id : Text
  pub database_id : Text
  pub username : Text
  pub privileges : Option (List Text)
  pub created_at : Text

pub record Database : Type 0 where
  pub id : Text
  pub organization_id : Text
  pub name : Text
  pub db_type : DbType
  pub db_name : Text
  pub host : Text
  pub port : ℕ
  pub status : DbStatus
  pub size_mb : ℕ
  pub created_at : Text
  pub updated_at : Text
  pub users : Option (List DbUser)

pub record DatabaseInput : Type 0 where
  pub name : Text
  pub db_type : DbType
  pub password : Text

pub record UserInput : Type 0 where
  pub username : Text
  pub password : Text
  pub privileges : List Text

abbrev pub db_privileges : List Text
db_privileges =
    codes "SELECT"
    ∷ codes "INSERT"
    ∷ codes "UPDATE"
    ∷ codes "DELETE"
    ∷ codes "CREATE"
    ∷ codes "DROP"
    ∷ codes "INDEX"
    ∷ codes "ALTER"
    ∷ codes "ALL PRIVILEGES"
    ∷ []

pub data DatabaseCall : Type 0 where
  list list_users : DatabaseCall
  create : DatabaseInput → DatabaseCall
  create_user : UserInput → DatabaseCall
  delete delete_user : Text → DatabaseCall

unfoldable pub database_request : DatabaseCall → FieldCall
database_request list = api_get (codes "/databases")
database_request (create d) = api_post (codes "/databases") (
    (codes "name", string d.name)
    ∷ (codes "db_type", string (db_type_name d.db_type))
    ∷ (codes "password", string d.password)
    ∷ [])
database_request (delete i) = api_delete (codes "/databases/" ++ i)
database_request list_users = api_get (codes "/database-users")
database_request (create_user d) = api_post (codes "/database-users") (
    (codes "username", string d.username)
    ∷ (codes "password", string d.password)
    ∷ (codes "privileges", strings d.privileges)
    ∷ [])
database_request (delete_user i) = api_delete (codes "/database-users/" ++ i)
