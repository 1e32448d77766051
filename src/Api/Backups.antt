-- ===== src/Api/Backups.antt =====
-- apps/web/src/lib/api/backup.api.ts and types/backup.types.ts: backups, schedules and the calls about them.
use xp_panel.Shared.{ℤ, ℕ, Text, codes, Bool, Option, none, some, [], ◌∷◌, ◌++◌}
use xp_panel.Api.Calls.{post, api_get, api_post, api_delete}
use xp_panel.Api.Fields.{Value, FieldCall, Fields, string, number, optional}

pub data BackupStatus : Type 0 where
  pending running completed failed : BackupStatus

pub data BackupType : Type 0 where
  full incremental database files : BackupType

abbrev pub backup_type_name : BackupType → Text
backup_type_name full = codes "full"
backup_type_name incremental = codes "incremental"
backup_type_name database = codes "database"
backup_type_name files = codes "files"

pub record Backup : Type 0 where
  pub id : Text
  pub organization_id : Text
  pub schedule_id : Option Text
  pub destination_id : Option Text
  pub name : Text
  pub backup_type : BackupType
  pub status : BackupStatus
  pub size_bytes : ℕ
  pub storage_path : Option Text
  pub encrypted : Bool
  pub error_message : Option Text
  pub started_at : Option Text
  pub completed_at : Option Text
  pub created_at : Text

pub record BackupSchedule : Type 0 where
  pub id : Text
  pub organization_id : Text
  pub name : Text
  pub cron_expr : Text
  pub destination_id : Option Text
  pub backup_type : BackupType
  pub retain_count : ℕ
  pub enabled : Bool
  pub last_run_at : Option Text
  pub next_run_at : Option Text
  pub created_at : Text

pub record BackupInput : Type 0 where
  pub name : Option Text
  pub backup_type : BackupType
  pub destination_id : Option Text

-- The number of copies is `none` where the input is not a number; JSON has null for it.
pub record ScheduleInput : Type 0 where
  pub name : Text
  pub cron_expr : Text
  pub backup_type : BackupType
  pub destination_id : Option Text
  pub retain_count : Option ℤ

abbrev retain_field : Option ℤ → Fields
retain_field none = (codes "retain_count", Value.null) ∷ []
retain_field (some n) = (codes "retain_count", number n) ∷ []

pub data BackupCall : Type 0 where
  list_backups list_schedules list_destinations : BackupCall
  create_backup : BackupInput → BackupCall
  create_schedule : ScheduleInput → BackupCall
  create_destination : Fields → BackupCall
  delete_backup restore_backup delete_schedule delete_destination : Text → BackupCall

unfoldable pub backup_request : BackupCall → FieldCall
backup_request list_backups = api_get (codes "/backups")
backup_request (create_backup d) = api_post (codes "/backups") (
    optional (codes "name") d.name
    ++ (codes "type", string (backup_type_name d.backup_type))
      ∷ optional (codes "destination_id") d.destination_id)
backup_request (delete_backup i) = api_delete (codes "/backups/" ++ i)
backup_request (restore_backup i) = record {
  method = post;
  url = codes "/backups/" ++ i ++ codes "/restore";
  body = none;
}
backup_request list_schedules = api_get (codes "/backups/schedules")
backup_request (create_schedule d) = api_post (codes "/backups/schedules") (
    (codes "name", string d.name)
      ∷ (codes "cron_expr", string d.cron_expr)
      ∷ (codes "type", string (backup_type_name d.backup_type))
      ∷ optional (codes "destination_id") d.destination_id
    ++ retain_field d.retain_count)
backup_request (delete_schedule i) = api_delete (codes "/backups/schedules/" ++ i)
backup_request list_destinations = api_get (codes "/backups/destinations")
backup_request (create_destination d) = api_post (codes "/backups/destinations") d
backup_request (delete_destination i) = api_delete (codes "/backups/destinations/" ++ i)
