-- ===== src/Tests/Panel.antt =====
-- The pages of the panel at concrete inputs.
use xp_panel.Shared.{
  ◌≡◌, refl, ℕ, ◌≤◌, ◌<◌, Text, codes, true, false, none, some, List, [], ◌∷◌, All, length, keep,
  text_eq, slice, place,
}
use xp_panel.Api.Docker.{up}
use xp_panel.Api.Hosting.{update_password}
use xp_panel.Api.Databases.{mysql}
use xp_panel.Panel.Runs.{OfCalls, calls, page_run}
use xp_panel.Panel.Dialog.{
  no_dialog, DialogEvent, opens, closes, leaves, submits, answers, dialog_step,
}
use xp_panel.Panel.Dialog.Laws.{requests_of, IsAccepted, dialog_run-IsOrderly}
use xp_panel.Panel.Firewall.{block_dialog}
use xp_panel.Api.Security.{BlockInput}
use xp_panel.Panel.Databases.{
  DatabaseEvent, database_page, database_step, in_database, opens_user, submits_user,
  toggles_privilege,
}
use xp_panel.Panel.Databases.Laws.{IsDatabaseCall, database_run-IsDatabaseCall}
use xp_panel.Panel.Compose.{
  ComposeProject, ComposeEvent, compose_page, compose_step, clicks, acts, acted, card_disabled,
  drop_action,
}
use xp_panel.Panel.Compose.Laws.{IsComposeCall, compose_run-IsComposeCall}
use xp_panel.Panel.Notifications.{
  Notification, alert, all_filter, NotificationPage, marks_all, notification_step,
}
use xp_panel.Panel.Notifications.Laws.{IsAboutListed, notification_step-IsAboutListed}
use xp_panel.Panel.Threats.{
  Draw, ThreatPageEvent, fires, toggles_live, no_threats, threat_run, ThreatEvent, generate_threat,
  count_countries, sort_counts, top_countries,
}
use xp_panel.Panel.Threats.Laws.{
  IsBounded, threat_run-IsBounded, count_for, sum, IsFalling, origins_counted,
}
use xp_panel.Panel.Ftp.{FtpPage, ftp_page, ftp_step, cancels_change, changes, saves}
use xp_panel.Panel.Ftp.Laws.{cancelled_password_saved}
use xp_panel.Format.{truncate, decimal, format_duration, digits_from}
use xp_panel.Format.Laws.{length-truncate}

abbrev one_address : BlockInput
one_address = record { ip = codes "10.0.0.1"; reason = none }

abbrev blocking : List (DialogEvent BlockInput)
blocking =
    opens
    ∷ submits one_address
    ∷ submits one_address
    ∷ closes
    ∷ leaves
    ∷ opens
    ∷ answers 0 true
    ∷ []

dialog_run-IsOrderly_example :
    ((n : ℕ)
      → requests_of n (page_run (dialog_step block_dialog) blocking no_dialog).0.in_flight ≤ 1)
    × All
        (OfCalls (IsAccepted block_dialog))
        (page_run (dialog_step block_dialog) blocking no_dialog).1
dialog_run-IsOrderly_example = dialog_run-IsOrderly block_dialog blocking

-- The answer to the first form closes the second one.
second_form_closed : (page_run (dialog_step block_dialog) blocking no_dialog).0.shown ≡ false
unfolding page_run dialog_step block_dialog
second_form_closed = refl

abbrev making_databases : List DatabaseEvent
making_databases =
    in_database opens
    ∷ in_database
        (submits (record { name = codes "shop"; db_type = mysql; password = codes "longenough" }))
    ∷ opens_user
    ∷ toggles_privilege (codes "DROP")
    ∷ submits_user (codes "u") (codes "longenough")
    ∷ []

database_run-IsDatabaseCall_example :
    All (OfCalls IsDatabaseCall) (page_run database_step making_databases database_page).1
database_run-IsDatabaseCall_example = database_run-IsDatabaseCall making_databases

abbrev project : Text → ComposeProject
project i = record {
  id = i;
  organization_id = codes "o";
  name = codes "app";
  compose_file = codes "f";
  status = codes "stopped";
  created_at = codes "t";
}

abbrev two_actions : List ComposeEvent
two_actions =
    clicks (project (codes "a")) (acts up)
    ∷ clicks (project (codes "b")) (acts up)
    ∷ acted (codes "a") up true
    ∷ []

compose_run-IsComposeCall_example :
    ((n : ℕ)
      → requests_of n (page_run compose_step two_actions compose_page).0.dialog.in_flight ≤ 1)
    × All (OfCalls IsComposeCall) (page_run compose_step two_actions compose_page).1
compose_run-IsComposeCall_example = compose_run-IsComposeCall two_actions

-- The action on the second project is under way, and its card is enabled.
enabled_early :
    let p = (page_run compose_step two_actions compose_page).0 in
    (p.acting ≡ (codes "b", up) ∷ [])
    × (card_disabled p.action_loading (project (codes "b")) ≡ false)
unfolding page_run compose_step text_eq drop_action
enabled_early = (refl, refl)

abbrev unread : Notification
unread = record {
  id = codes "n1";
  kind = alert;
  title = codes "t";
  body = codes "b";
  resource_type = none;
  resource_id = none;
  is_read = false;
  created_at = codes "t";
}

abbrev listing : NotificationPage
listing = record { filter = all_filter; listed = unread ∷ []; marking_all = false }

notification_step-IsAboutListed_example :
    All (OfCalls (IsAboutListed (unread ∷ []))) (notification_step marks_all listing).1
notification_step-IsAboutListed_example = notification_step-IsAboutListed marks_all listing

abbrev draw : ℕ → Draw
draw i = record {
  id = codes "d";
  src = i;
  dst = 0;
  address = codes "1.2.3.4";
  kind = 0;
  severity = 5;
  now = 0;
}

abbrev firings : List ThreatPageEvent
firings = fires (draw 0 ∷ draw 1 ∷ []) true ∷ toggles_live ∷ fires (draw 1 ∷ []) false ∷ []

threat_run-IsBounded_example : IsBounded (threat_run firings no_threats)
threat_run-IsBounded_example = threat_run-IsBounded firings

abbrev three_threats : List ThreatEvent
three_threats = generate_threat (draw 0) ∷ generate_threat (draw 1) ∷ generate_threat (draw 1) ∷ []

origins_counted_example :
    ((code : Text)
      → count_for code (count_countries three_threats [])
        ≡ length (keep (λ t. text_eq t.src_country code) three_threats))
    × (sum (sort_counts (count_countries three_threats []) []) ≡ 3)
    × (length (top_countries three_threats) ≤ 5)
    × IsFalling (top_countries three_threats)
origins_counted_example = origins_counted three_threats

top_two : top_countries three_threats ≡ (codes "RU", 2) ∷ (codes "CN", 1) ∷ []
unfolding generate_threat count_countries sort_counts text_eq
top_two = refl

abbrev typed : FtpPage
typed = record ftp_page { change_id = some (codes "a"); new_password = codes "secret" }

cancelled_password_saved_example :
    (page_run ftp_step (cancels_change ∷ changes (codes "b") ∷ saves ∷ []) typed).1
    ≡ calls (update_password (codes "b") (codes "secret")) ∷ []
cancelled_password_saved_example = cancelled_password_saved typed (codes "b") (λ h. absurd cc)

length-truncate_example :
    (3 ≤ 4 → length (truncate (codes "abcdef") 4) ≤ 4)
    × (4 < 3 → 4 < 6 → 4 < length (truncate (codes "abcdef") 4))
length-truncate_example = length-truncate (codes "abcdef") 4

truncated :
    (truncate (codes "abcdef") 4 ≡ codes "a...") × (truncate (codes "abcdef") 1 ≡ codes "abcd...")
unfolding truncate slice place
truncated = (refl, refl)

durations :
    (format_duration 59 ≡ codes "59s")
    × (format_duration 61 ≡ codes "1m 1s")
    × (format_duration 7260 ≡ codes "2h 1m")
unfolding format_duration decimal digits_from
durations = (refl, refl, refl)
