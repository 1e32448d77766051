-- ===== src/Panel/Backups/Laws.antt =====
-- backups/page.tsx: what the page asks of the server.
use xp_panel.Shared.{◌≡◌, refl, ◌≢◌, Text, true, false, none, List, [], ◌∷◌, All, arith}
use xp_panel.Api.Backups.{
  BackupCall, create_backup, create_schedule, delete_backup, delete_schedule,
}
use xp_panel.Panel.Runs.{OfCalls, All-OfCalls, page_run, page_run-keeps}
use xp_panel.Panel.Dialog.Laws.{IsOrderly, IsAccepted, dialog_step-Keeps, first-IsOrderly}
use xp_panel.Panel.Backups.{
  run_backup, schedule_dialog, is_given, BackupPage, backup_page, BackupEvent, backup_step,
  picks_tab, in_create, in_schedule, deletes_backup, deletes_schedule, backup_deleted,
  schedule_deleted,
}

-- A backup is started without a name and for no destination, and a schedule has a name and an expression.
abbrev pub IsBackupCall : BackupCall → Type 0
IsBackupCall (create_backup d) = (d.name ≡ none) × (d.destination_id ≡ none)
IsBackupCall (create_schedule d) = (d.name ≢ []) × (d.cron_expr ≢ []) × (d.destination_id ≡ none)
IsBackupCall (delete_backup i) = Unit
IsBackupCall (delete_schedule i) = Unit
IsBackupCall c = ⊥

given : (s : Text) → is_given s ≡ true → s ≢ []
given [] h = absurd cc
given (c ∷ s) h = λ k. absurd cc

accepted_backup : (c : BackupCall) → IsAccepted run_backup c → IsBackupCall c
unfolding run_backup
accepted_backup c (t, e, h) = rw e (refl, refl)

accepted_schedule : (c : BackupCall) → IsAccepted schedule_dialog c → IsBackupCall c
unfolding schedule_dialog
accepted_schedule c (f, e, h) =
    rw e (given f.name (ground arith), given f.cron_expr (ground arith), refl)

pub record AreOrderly (p : BackupPage) : Type 0 where
  pub first : IsOrderly p.create_dialog
  pub second : IsOrderly p.schedule_form

backup_step-Keeps :
    (e : BackupEvent) (p : BackupPage)
    → AreOrderly p
    → AreOrderly (backup_step e p).0 × All (OfCalls IsBackupCall) (backup_step e p).1
unfolding backup_step
backup_step-Keeps (picks_tab t) p h = (record { first = h.first; second = h.second }, tt)
backup_step-Keeps (in_create e) p h =
    let r = dialog_step-Keeps run_backup e p.create_dialog h.first in
    (record { first = r.0; second = h.second }, All-OfCalls accepted_backup _ r.1)
backup_step-Keeps (in_schedule e) p h =
    let r = dialog_step-Keeps schedule_dialog e p.schedule_form h.second in
    (record { first = h.first; second = r.0 }, All-OfCalls accepted_schedule _ r.1)
backup_step-Keeps (deletes_backup i false) p h = (h, tt)
backup_step-Keeps (deletes_backup i true) p h = (h, (tt, tt))
backup_step-Keeps (deletes_schedule i false) p h = (h, tt)
backup_step-Keeps (deletes_schedule i true) p h = (h, (tt, tt))
backup_step-Keeps (backup_deleted true) p h = (h, (tt, (tt, tt)))
backup_step-Keeps (backup_deleted false) p h = (h, tt)
backup_step-Keeps (schedule_deleted true) p h = (h, (tt, (tt, tt)))
backup_step-Keeps (schedule_deleted false) p h = (h, tt)

-- Whatever is done on the backups page from its first state on, a backup is started without a name and for no destination, a schedule is created with a name and an expression, and all else that is asked is a deletion.
pub backup_run-IsBackupCall :
    (es : List BackupEvent) → All (OfCalls IsBackupCall) (page_run backup_step es backup_page).1
backup_run-IsBackupCall es =
    (page_run-keeps backup_step AreOrderly (OfCalls IsBackupCall) backup_step-Keeps es backup_page
      (record { first = first-IsOrderly; second = first-IsOrderly })).1
