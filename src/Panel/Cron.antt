-- ===== src/Panel/Cron.antt =====
-- apps/web/src/app/(panel)/cron/page.tsx: the form of a cron job with its presets, and the rows of the jobs.
pub mod Laws
use xp_panel.Shared.{
  is_empty, ℕ, Text, codes, Bool, true, false, not, ◌&&◌, ◌||◌, Option, none, some, List, [], ◌∷◌,
  ◌++◌, map, if◌then◌else◌, get_or,
}
use xp_panel.Api.Fields.{Fields, string}
use xp_panel.Api.Cron.{CronJob, CronCall, create, delete, toggle}
use xp_panel.Panel.Runs.{PageEffect, calls, invalidates, tells_success, tells_error}

pub record CronForm : Type 0 where
  pub label : Text
  pub command : Text
  pub minute : Text
  pub hour : Text
  pub day_month : Text
  pub month : Text
  pub day_week : Text

pub record Preset : Type 0 where
  pub label : Text
  pub minute : Text
  pub hour : Text
  pub day_month : Text
  pub month : Text
  pub day_week : Text

abbrev preset : Text → Text → Text → Text → Text → Text → Preset
preset label minute hour day_month month day_week = record {
  label = label;
  minute = minute;
  hour = hour;
  day_month = day_month;
  month = month;
  day_week = day_week;
}

abbrev star : Text
star = codes "*"

abbrev zero_text : Text
zero_text = codes "0"

abbrev pub presets : List Preset
presets =
    preset (codes "Every minute") star star star star star
    ∷ preset (codes "Every hour") zero_text star star star star
    ∷ preset (codes "Every day at midnight") zero_text zero_text star star star
    ∷ preset (codes "Every week (Sunday)") zero_text zero_text star star zero_text
    ∷ preset (codes "Every month") zero_text zero_text (codes "1") star star
    ∷ []

abbrev pub blank : CronForm
blank = record {
  label = [];
  command = [];
  minute = codes "*";
  hour = codes "*";
  day_month = codes "*";
  month = codes "*";
  day_week = codes "*";
}

-- `({ ...f, ...p })`.
unfoldable pub apply_preset : Preset → CronForm → CronForm
apply_preset p f = record {
  label = p.label;
  command = f.command;
  minute = p.minute;
  hour = p.hour;
  day_month = p.day_month;
  month = p.month;
  day_week = p.day_week;
}

-- The line under the schedule fields.
unfoldable pub expression : CronForm → Text
expression f =
    f.minute
    ++ codes " "
    ++ f.hour
    ++ codes " "
    ++ f.day_month
    ++ codes " "
    ++ f.month
    ++ codes " "
    ++ f.day_week

unfoldable pub body_of : CronForm → Fields
body_of f =
    (codes "label", string f.label)
    ∷ (codes "command", string f.command)
    ∷ (codes "minute", string f.minute)
    ∷ (codes "hour", string f.hour)
    ∷ (codes "day_month", string f.day_month)
    ∷ (codes "month", string f.month)
    ∷ (codes "day_week", string f.day_week)
    ∷ []

pub data ScheduleField : Type 0 where
  minute hour day_month month day_week : ScheduleField

unfoldable pub set_field : ScheduleField → Text → CronForm → CronForm
set_field minute s f = record f { minute = s }
set_field hour s f = record f { hour = s }
set_field day_month s f = record f { day_month = s }
set_field month s f = record f { month = s }
set_field day_week s f = record f { day_week = s }

pub record CronPage : Type 0 where
  pub form : CronForm
  pub show_form : Bool
  pub creating : Bool

abbrev pub cron_page : CronPage
cron_page = record { form = blank; show_form = false; creating = false }

pub data CronEvent : Type 0 where
  toggles_form cancels submits : CronEvent
  picks : Preset → CronEvent
  types_label types_command : Text → CronEvent
  types_field : ScheduleField → Text → CronEvent
  deletes toggles : Text → CronEvent
  created deleted toggled : Bool → CronEvent

unfoldable pub create_disabled : CronPage → Bool
create_disabled p = is_empty p.form.label || is_empty p.form.command || p.creating

unfoldable pub cron_step : CronEvent → CronPage → CronPage × List (PageEffect CronCall)
unfolding apply_preset create_disabled body_of set_field
cron_step toggles_form p = (record p { show_form = not p.show_form }, [])
cron_step cancels p = (record p { show_form = false }, [])
cron_step (picks q) p = (record p { form = apply_preset q p.form }, [])
cron_step (types_label s) p = (record p { form = record p.form { label = s } }, [])
cron_step (types_command s) p = (record p { form = record p.form { command = s } }, [])
cron_step (types_field k s) p = (record p { form = set_field k s p.form }, [])
cron_step submits p =
    if create_disabled p || not p.show_form
    then (p, [])
    else (record p { creating = true }, calls (create (body_of p.form)) ∷ [])
cron_step (created true) p = (
  record p { show_form = false; form = blank; creating = false },
  invalidates (codes "cron-jobs") ∷ tells_success (codes "Cron job created") ∷ [],
)
cron_step (created false) p =
    (record p { creating = false }, tells_error (codes "Failed to create cron job") ∷ [])
cron_step (deletes i) p = (p, calls (delete i) ∷ [])
cron_step (deleted true) p =
    (p, invalidates (codes "cron-jobs") ∷ tells_success (codes "Cron job deleted") ∷ [])
cron_step (deleted false) p = (p, [])
cron_step (toggles i) p = (p, calls (toggle i) ∷ [])
cron_step (toggled true) p = (p, invalidates (codes "cron-jobs") ∷ [])
cron_step (toggled false) p = (p, [])

-- The rows of the jobs; how a date is printed is a parameter.
pub record CronRow : Type 0 where
  pub row_label : Text
  pub row_command : Text
  pub row_schedule : Text
  pub last_run : Option Text
  pub switched_on : Bool

pub data JobsView : Type 0 where
  loading no_jobs : JobsView
  jobs : List CronRow → JobsView

pub record CronData : Type 0 where
  pub listed : List CronJob
  pub total : ℕ

module _ (date_text : Text → Text) where
  abbrev last_run_text : Option Text → Option Text
  last_run_text none = none
  last_run_text (some []) = none
  last_run_text (some (c ∷ s)) = some (codes "Last run: " ++ date_text (c ∷ s))

  abbrev pub cron_row : CronJob → CronRow
  cron_row j = record {
    row_label = j.label;
    row_command = j.command;
    row_schedule = j.schedule;
    last_run = last_run_text j.last_run_at;
    switched_on = j.enabled;
  }

  abbrev jobs_of : List CronJob → JobsView
  jobs_of [] = no_jobs
  jobs_of (j ∷ js) = jobs (map cron_row (j ∷ js))

  unfoldable pub jobs_view : Bool → Option CronData → JobsView
  jobs_view true o = loading
  jobs_view false none = no_jobs
  jobs_view false (some d) = jobs_of d.listed

abbrev pub job_total : Option CronData → ℕ
job_total none = 0
job_total (some d) = d.total
