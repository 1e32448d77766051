-- ===== src/Panel/Compose.antt =====
-- apps/web/src/app/(panel)/docker/compose/page.tsx: the projects with their actions, and the dialog of a new one.
pub mod Laws
use xp_panel.Shared.{
  ℕ, zero, suc, ◌-◌, ◌+◌, ltb, ◌==◌, leb, Text, codes, Bool, true, false, not, ◌&&◌, ◌||◌, all,
  Option, none, some, List, [], ◌∷◌, ◌++◌, keep, length, map, if◌then◌else◌, text_eq, get_or,
}
use xp_panel.Api.Fields.{string}
use xp_panel.Api.Docker.{
  ComposeAction, up, down, compose_action_name, DockerCall, compose_action, delete_compose_project,
  create_compose_project,
}
use xp_panel.SignIn.Characters.{is_slug_code}
use xp_panel.Panel.Runs.{PageEffect, calls, invalidates, tells_success, tells_error}
use xp_panel.Panel.Dialog.{Dialog, DialogState, no_dialog, DialogEvent, dialog_step}

pub record ComposeProject : Type 0 where
  pub id : Text
  pub organization_id : Text
  pub name : Text
  pub compose_file : Text
  pub status : Text
  pub created_at : Text

pub record ComposeRequest : Type 0 where
  pub name : Text
  pub compose_file : Text

abbrev pub default_compose : ComposeRequest
default_compose = record {
  name = [];
  compose_file =
      codes
        "version: \"3.9\"\nservices:\n  app:\n    image: nginx:alpine\n    ports:\n      - \"8080:80\"\n    restart: unless-stopped\n";
}

abbrev pub is_given : Text → Bool
is_given [] = false
is_given (c ∷ s) = true

-- The name is required and matches `/^[a-z0-9-]+$/`; the file is required.
unfoldable pub accepts_project : ComposeRequest → Bool
accepts_project r = is_given r.name && all is_slug_code r.name && is_given r.compose_file

unfoldable pub new_project : Dialog ComposeRequest DockerCall
unfolding accepts_project
new_project = record {
  accepts = accepts_project;
  request = λ r.
      create_compose_project
        ((codes "name", string r.name) ∷ (codes "compose_file", string r.compose_file) ∷ []);
  key = codes "compose-projects";
  success = codes "Compose project created";
  failure = codes "Failed to create project";
}

-- The dot of a card.
unfoldable pub status_color : Text → Text
status_color s =
    if text_eq s (codes "running")
    then codes "bg-green-500"
    else (if text_eq s (codes "partial")
        then codes "bg-amber-500"
        else (if text_eq s (codes "error")
            then codes "bg-red-500"
            else codes "bg-muted-foreground"))

abbrev pub is_running : ComposeProject → Bool
is_running p = text_eq p.status (codes "running")

-- The buttons of a card: start, or restart and stop, then delete.
pub data CardButton : Type 0 where
  acts : ComposeAction → CardButton
  deletes : CardButton

unfoldable pub card_buttons : ComposeProject → List CardButton
card_buttons p =
    if is_running p
    then acts ComposeAction.restart ∷ acts down ∷ deletes ∷ []
    else acts up ∷ deletes ∷ []

-- `actionLoading === project.id`.
abbrev pub card_disabled : Option Text → ComposeProject → Bool
card_disabled none p = false
card_disabled (some i) p = text_eq i p.id

-- The three numbers above the list.
unfoldable pub project_stats : List ComposeProject → ℕ × ℕ × ℕ
project_stats ps =
    let running = length (keep is_running ps) in (length ps, running, length ps - running)

pub record ComposePage : Type 0 where
  pub dialog : DialogState
  pub action_loading : Option Text
  pub acting : List (Text × ComposeAction)

abbrev pub compose_page : ComposePage
compose_page = record { dialog = no_dialog; action_loading = none; acting = [] }

pub data ComposeEvent : Type 0 where
  in_dialog : DialogEvent ComposeRequest → ComposeEvent
  clicks : ComposeProject → CardButton → ComposeEvent
  acted : Text → ComposeAction → Bool → ComposeEvent
  removed : Bool → ComposeEvent

abbrev pub of_dialog :
    DialogState × List (PageEffect DockerCall)
    → ComposePage
    → ComposePage × List (PageEffect DockerCall)
of_dialog (d, es) p = (record p { dialog = d }, es)

abbrev pub is_action : Text → ComposeAction → Text × ComposeAction → Bool
is_action i a (j, b) = text_eq i j && text_eq (compose_action_name a) (compose_action_name b)

-- The action leaves those under way.
unfoldable pub drop_action :
    Text → ComposeAction → List (Text × ComposeAction) → List (Text × ComposeAction)
drop_action i a [] = []
drop_action i a (x ∷ xs) = let rest = drop_action i a xs in if is_action i a x then xs else x ∷ rest

-- `onSettled` clears the loading id, whichever action was answered.
unfoldable pub compose_step :
    ComposeEvent → ComposePage → ComposePage × List (PageEffect DockerCall)
unfolding new_project dialog_step drop_action
compose_step (in_dialog e) p = of_dialog (dialog_step new_project e p.dialog) p
compose_step (clicks q (acts a)) p = if card_disabled p.action_loading q then (p, []) else (
  record p { action_loading = some q.id; acting = (q.id, a) ∷ p.acting },
  calls (compose_action q.id a) ∷ [],
)
compose_step (clicks q deletes) p =
    (p, if card_disabled p.action_loading q then [] else calls (delete_compose_project q.id) ∷ [])
compose_step (acted i a true) p = (
  record p { action_loading = none; acting = drop_action i a p.acting },
  invalidates (codes "compose-projects")
      ∷ tells_success (codes "Compose " ++ compose_action_name a ++ codes " executed")
      ∷ [],
)
compose_step (acted i a false) p = (
  record p { action_loading = none; acting = drop_action i a p.acting },
  tells_error (codes "Action failed") ∷ [],
)
compose_step (removed true) p =
    (p, invalidates (codes "compose-projects") ∷ tells_success (codes "Project deleted") ∷ [])
compose_step (removed false) p = (p, tells_error (codes "Failed to delete project") ∷ [])

-- What the page shows under the numbers.
pub record ProjectCard : Type 0 where
  pub card_name : Text
  pub card_color : Text
  pub card_status : Text
  pub buttons : List CardButton
  pub disabled : Bool
  pub file : Option Text

pub data ProjectList : Type 0 where
  loading no_projects : ProjectList
  cards : List ProjectCard → ProjectList

unfoldable pub project_card : Option Text → (Text → Bool) → ComposeProject → ProjectCard
unfolding status_color card_buttons
project_card action_loading expanded q = record {
  card_name = q.name;
  card_color = status_color q.status;
  card_status = q.status;
  buttons = card_buttons q;
  disabled = card_disabled action_loading q;
  file = if expanded q.id then some q.compose_file else none;
}

unfoldable pub project_list : Bool → List ComposeProject → Option Text → (Text → Bool) → ProjectList
unfolding project_card
project_list true ps action_loading expanded = loading
project_list false [] action_loading expanded = no_projects
project_list false (q ∷ qs) action_loading expanded =
    cards (map (project_card action_loading expanded) (q ∷ qs))
