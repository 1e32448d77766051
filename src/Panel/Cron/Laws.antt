-- ===== src/Panel/Cron/Laws.antt =====
-- cron/page.tsx: what is created, and what a preset does.
use xp_panel.Shared.{filled, ◌≡◌, refl, ◌≢◌, true, false, not, ◌||◌, List, [], All, arith, if_split}
use xp_panel.Api.Cron.{CronCall, create, update, delete, toggle, list}
use xp_panel.Panel.Runs.{PageEffect, OfCalls, page_run, page_run-keeps}
use xp_panel.Panel.Cron.{
  CronForm, Preset, apply_preset, body_of, CronPage, CronEvent, create_disabled, cron_step,
  toggles_form, cancels, submits, picks, types_label, types_command, types_field, deletes, toggles,
  created, deleted, toggled,
}

-- A preset sets the label as well as the schedule, and keeps the command; the last one that is applied counts.
pub apply_preset_twice :
    (p q : Preset) (f : CronForm) → apply_preset q (apply_preset p f) ≡ apply_preset q f
unfolding apply_preset
apply_preset_twice p q f = refl

-- What the page asks of the server: a job is created with a label and a command.
abbrev pub IsCronCall : CronCall → Type 0
IsCronCall (create d) = (f : CronForm) × (d ≡ body_of f) × (f.label ≢ []) × (f.command ≢ [])
IsCronCall (update i d) = ⊥
IsCronCall list = ⊥
IsCronCall (delete i) = Unit
IsCronCall (toggle i) = Unit

cron_step-IsCronCall :
    (e : CronEvent) (p : CronPage)
    → Unit {0}
    → Unit {0} × All (OfCalls IsCronCall) (cron_step e p).1
unfolding cron_step create_disabled
cron_step-IsCronCall toggles_form p h = (tt, tt)
cron_step-IsCronCall cancels p h = (tt, tt)
cron_step-IsCronCall submits p h = (
  tt,
  if_split {A = CronPage × List (PageEffect CronCall)} (λ r. All (OfCalls IsCronCall) r.1)
      (create_disabled p || not p.show_form) _ _ (λ e. tt)
      (λ e. (
        (p.form, refl, filled p.form.label (ground arith), filled p.form.command (ground arith)),
        tt,
      )),
)
cron_step-IsCronCall (picks q) p h = (tt, tt)
cron_step-IsCronCall (types_label s) p h = (tt, tt)
cron_step-IsCronCall (types_command s) p h = (tt, tt)
cron_step-IsCronCall (types_field k s) p h = (tt, tt)
cron_step-IsCronCall (deletes i) p h = (tt, (tt, tt))
cron_step-IsCronCall (toggles i) p h = (tt, (tt, tt))
cron_step-IsCronCall (created true) p h = (tt, (tt, (tt, tt)))
cron_step-IsCronCall (created false) p h = (tt, (tt, tt))
cron_step-IsCronCall (deleted true) p h = (tt, (tt, (tt, tt)))
cron_step-IsCronCall (deleted false) p h = (tt, tt)
cron_step-IsCronCall (toggled true) p h = (tt, (tt, tt))
cron_step-IsCronCall (toggled false) p h = (tt, tt)

-- Whatever is done on the cron page, a job is only created from a form with a label and a command, and otherwise jobs are deleted or switched.
pub cron_run-IsCronCall :
    (es : List CronEvent) (p : CronPage) → All (OfCalls IsCronCall) (page_run cron_step es p).1
cron_run-IsCronCall es p =
    (page_run-keeps cron_step (λ s. Unit {0}) (OfCalls IsCronCall) cron_step-IsCronCall es p tt).1
