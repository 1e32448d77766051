-- ===== src/Panel/Backups.antt =====
-- apps/web/src/app/(panel)/backups/page.tsx: the backups, their schedules and the two dialogs.
pub mod Laws
use xp_panel.Shared.{
  ℤ, pos, ℕ, ◌+◌, Text, codes, Bool, true, false, ◌&&◌, Option, none, some, List, [], ◌∷◌, ◌++◌,
  map, keep, length, if◌then◌else◌, get_or,
}
use xp_panel.Api.Backups.{
  BackupStatus, pending, running, completed, failed, BackupType, full, backup_type_name, Backup,
  BackupSchedule, BackupInput, ScheduleInput, BackupCall, create_backup, create_schedule,
  delete_backup, delete_schedule,
}
use xp_panel.Panel.Runs.{PageEffect, calls, invalidates, tells_success}
use xp_panel.Panel.Dialog.{Dialog, DialogState, no_dialog, DialogEvent, dialog_step}

abbrev pub status_label : BackupStatus → Text
status_label pending = codes "Pending"
status_label running = codes "Running"
status_label completed = codes "Completed"
status_label failed = codes "Failed"

abbrev pub status_color : BackupStatus → Text
status_color pending = codes "text-muted-foreground bg-muted"
status_color running = codes "text-blue-500 bg-blue-500/10"
status_color completed = codes "text-green-500 bg-green-500/10"
status_color failed = codes "text-destructive bg-destructive/10"

-- The only input of the dialog is the type.
unfoldable pub run_backup : Dialog BackupType BackupCall
run_backup = record {
  accepts = λ t. true;
  request = λ t. create_backup (record { name = none; backup_type = t; destination_id = none });
  key = codes "backups";
  success = codes "Backup started";
  failure = codes "Failed to start backup";
}

pub record ScheduleForm : Type 0 where
  pub name : Text
  pub cron_expr : Text
  pub backup_type : BackupType
  pub retain_count : Option ℤ

abbrev pub first_schedule : ScheduleForm
first_schedule = record {
  name = [];
  cron_expr = codes "0 2 * * *";
  backup_type = full;
  retain_count = some (pos 7);
}

abbrev pub is_given : Text → Bool
is_given [] = false
is_given (c ∷ s) = true

-- The name and the expression are required; the bounds of the number are left to the browser.
unfoldable pub schedule_dialog : Dialog ScheduleForm BackupCall
schedule_dialog = record {
  accepts = λ f. is_given f.name && is_given f.cron_expr;
  request = λ f. create_schedule (record {
    name = f.name;
    cron_expr = f.cron_expr;
    backup_type = f.backup_type;
    destination_id = none;
    retain_count = f.retain_count;
  });
  key = codes "backup-schedules";
  success = codes "Schedule created";
  failure = codes "Failed to create schedule";
}

pub data BackupTab : Type 0 where
  backups_tab schedules_tab : BackupTab

pub record BackupPage : Type 0 where
  pub tab : BackupTab
  pub create_dialog : DialogState
  pub schedule_form : DialogState

abbrev pub backup_page : BackupPage
backup_page = record { tab = backups_tab; create_dialog = no_dialog; schedule_form = no_dialog }

pub data BackupEvent : Type 0 where
  picks_tab : BackupTab → BackupEvent
  in_create : DialogEvent BackupType → BackupEvent
  in_schedule : DialogEvent ScheduleForm → BackupEvent
  deletes_backup deletes_schedule : Text → Bool → BackupEvent
  backup_deleted schedule_deleted : Bool → BackupEvent

unfoldable pub backup_step : BackupEvent → BackupPage → BackupPage × List (PageEffect BackupCall)
unfolding run_backup schedule_dialog dialog_step
backup_step (picks_tab t) p = (record p { tab = t }, [])
backup_step (in_create e) p =
    let r = dialog_step run_backup e p.create_dialog in (record p { create_dialog = r.0 }, r.1)
backup_step (in_schedule e) p =
    let r = dialog_step schedule_dialog e p.schedule_form in (record p { schedule_form = r.0 }, r.1)
backup_step (deletes_backup i false) p = (p, [])
backup_step (deletes_backup i true) p = (p, calls (delete_backup i) ∷ [])
backup_step (deletes_schedule i false) p = (p, [])
backup_step (deletes_schedule i true) p = (p, calls (delete_schedule i) ∷ [])
backup_step (backup_deleted true) p =
    (p, invalidates (codes "backups") ∷ tells_success (codes "Backup deleted") ∷ [])
backup_step (backup_deleted false) p = (p, [])
backup_step (schedule_deleted true) p =
    (p, invalidates (codes "backup-schedules") ∷ tells_success (codes "Schedule deleted") ∷ [])
backup_step (schedule_deleted false) p = (p, [])

abbrev pub is_completed : Backup → Bool
is_completed b = elim b.status [ completed ↦ true | _ ↦ false ]

unfoldable pub sum_sizes : List Backup → ℕ
sum_sizes [] = 0
sum_sizes (b ∷ bs) = b.size_bytes + sum_sizes bs

-- The three numbers above the tabs: all, the completed ones, and the bytes of all.
unfoldable pub backup_stats : List Backup → ℕ × ℕ × ℕ
unfolding sum_sizes
backup_stats bs = (length bs, length (keep is_completed bs), sum_sizes bs)

pub record BackupRow : Type 0 where
  pub row_name : Text
  pub row_type : Text
  pub row_status : Text
  pub row_color : Text
  pub row_size : Text
  pub row_encrypted : Text

pub record ScheduleRow : Type 0 where
  pub schedule_name : Text
  pub schedule_expr : Text
  pub schedule_type : Text
  pub schedule_copies : ℕ
  pub schedule_status : Text

abbrev pub schedule_row : BackupSchedule → ScheduleRow
schedule_row s = record {
  schedule_name = s.name;
  schedule_expr = s.cron_expr;
  schedule_type = backup_type_name s.backup_type;
  schedule_copies = s.retain_count;
  schedule_status = if s.enabled then codes "Enabled" else codes "Disabled";
}

pub data BackupTable : Type 0 where
  loading no_backups no_schedules : BackupTable
  backup_rows : List BackupRow → BackupTable
  schedule_rows : List ScheduleRow → BackupTable

-- How a size is printed is a parameter.
module _ (bytes_text : ℕ → Text) where
  abbrev pub backup_row : Backup → BackupRow
  backup_row b = record {
    row_name = b.name;
    row_type = backup_type_name b.backup_type;
    row_status = status_label b.status;
    row_color = status_color b.status;
    row_size = bytes_text b.size_bytes;
    row_encrypted = if b.encrypted then codes "AES-256" else codes "None";
  }

  abbrev backups_table : List Backup → BackupTable
  backups_table [] = no_backups
  backups_table (b ∷ bs) = backup_rows (map backup_row (b ∷ bs))

  abbrev schedules_table : List BackupSchedule → BackupTable
  schedules_table [] = no_schedules
  schedules_table (s ∷ ss) = schedule_rows (map schedule_row (s ∷ ss))

  unfoldable pub backup_table :
      BackupTab → Option (List Backup) → Option (List BackupSchedule) → Bool → Bool → BackupTable
  backup_table backups_tab bs ss true loading_schedules = loading
  backup_table backups_tab bs ss false loading_schedules = backups_table (get_or bs [])
  backup_table schedules_tab bs ss loading_backups true = loading
  backup_table schedules_tab bs ss loading_backups false = schedules_table (get_or ss [])
