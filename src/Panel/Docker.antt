-- ===== src/Panel/Docker.antt =====
-- apps/web/src/app/(panel)/docker/page.tsx: the containers, the images and the compose stacks, with the
-- dialogs of a new container and of a new stack.
pub mod View
pub mod Laws
use xp_panel.Shared.{
  ℕ, Text, codes, Bool, true, false, not, ◌&&◌, Option, none, some, List, [], ◌∷◌, ◌++◌, get_elem?,
  if◌then◌else◌, text_eq,
}
use xp_panel.Api.Fields.{string, strings, empty_object}
use xp_panel.Api.Docker.{
  ContainerAction, start, stop, container_action_name, ComposeAction, up, down, DockerCall,
  container_action, compose_action, create_container, create_compose_project, delete_container,
  remove_image, delete_compose_project,
}
use xp_panel.Panel.Runs.{PageEffect, calls, invalidates, tells_success, tells_error}
use xp_panel.Panel.Dialog.{Dialog, DialogState, no_dialog, DialogEvent, opens, dialog_step}
use xp_panel.Panel.Compose.{ComposeRequest, ComposeProject, is_given}

pub record ContainerForm : Type 0 where
  pub name : Text
  pub image : Text
  pub restart : Text

-- No field of the dialog changes the ports, the variables and the labels: they stay at their initial values.
unfoldable pub new_container : Dialog ContainerForm DockerCall
new_container = record {
  accepts = λ d. is_given d.name && is_given d.image;
  request = λ d. create_container (
      (codes "name", string d.name)
      ∷ (codes "image", string d.image)
      ∷ (codes "ports", strings [])
      ∷ (codes "env", strings [])
      ∷ (codes "labels", empty_object)
      ∷ (codes "restart", string d.restart)
      ∷ []);
  key = codes "docker-containers";
  success = codes "Container created";
  failure = codes "Failed to create container";
}

-- The name of a stack is only required here.
unfoldable pub new_stack : Dialog ComposeRequest DockerCall
new_stack = record {
  accepts = λ r. is_given r.name && is_given r.compose_file;
  request = λ r.
      create_compose_project
        ((codes "name", string r.name) ∷ (codes "compose_file", string r.compose_file) ∷ []);
  key = codes "docker-compose";
  success = codes "Compose stack created";
  failure = codes "Failed to create stack";
}

pub data DockerTab : Type 0 where
  containers_tab images_tab compose_tab : DockerTab

pub record DockerPage : Type 0 where
  pub tab : DockerTab
  pub create : DialogState
  pub compose : DialogState
  pub expanded_logs : Option Text

abbrev pub docker_page : DockerPage
docker_page = record {
  tab = containers_tab;
  create = no_dialog;
  compose = no_dialog;
  expanded_logs = none;
}

-- The buttons for a status, in their order.
unfoldable pub container_buttons : Text → List ContainerAction
container_buttons status =
    if text_eq status (codes "running") then ContainerAction.restart ∷ stop ∷ [] else start ∷ []

unfoldable pub stack_buttons : Text → List ComposeAction
stack_buttons status =
    if text_eq status (codes "running") then ComposeAction.restart ∷ down ∷ [] else up ∷ []

-- A button is clicked by its place; a removal has the answer to its question.
pub data DockerEvent : Type 0 where
  shows : DockerTab → DockerEvent
  in_create : DialogEvent ContainerForm → DockerEvent
  in_compose : DialogEvent ComposeRequest → DockerEvent
  clicks_container clicks_stack : Text → Text → ℕ → DockerEvent
  toggles_logs removes_image : Text → DockerEvent
  removes_container removes_stack : Text → Bool → DockerEvent
  acted : ContainerAction → Bool → DockerEvent
  container_removed stack_acted stack_removed : Bool → DockerEvent

-- The button that opens a dialog is on one tab only.
abbrev pub is_off : {D : Type 0} → Bool → DialogEvent D → Bool
is_off on_tab opens = not on_tab
is_off on_tab e = false

abbrev on_containers : DockerTab → Bool
on_containers containers_tab = true
on_containers t = false

abbrev on_compose : DockerTab → Bool
on_compose compose_tab = true
on_compose t = false

abbrev pub toggle_logs : Option Text → Text → Option Text
toggle_logs none i = some i
toggle_logs (some j) i = if text_eq j i then none else some i

abbrev pub container_call : Text → Option ContainerAction → List (PageEffect DockerCall)
container_call i none = []
container_call i (some a) = calls (container_action i a) ∷ []

abbrev pub stack_call : Text → Option ComposeAction → List (PageEffect DockerCall)
stack_call i none = []
stack_call i (some a) = calls (compose_action i a) ∷ []

abbrev pub in_create_dialog :
    DialogState × List (PageEffect DockerCall)
    → DockerPage
    → DockerPage × List (PageEffect DockerCall)
in_create_dialog (d, es) p = (record p { create = d }, es)

abbrev pub in_compose_dialog :
    DialogState × List (PageEffect DockerCall)
    → DockerPage
    → DockerPage × List (PageEffect DockerCall)
in_compose_dialog (d, es) p = (record p { compose = d }, es)

unfoldable pub docker_step : DockerEvent → DockerPage → DockerPage × List (PageEffect DockerCall)
unfolding new_container new_stack dialog_step container_buttons stack_buttons
docker_step (shows t) p = (record p { tab = t }, [])
docker_step (in_create e) p =
    if is_off (on_containers p.tab) e
    then (p, [])
    else in_create_dialog (dialog_step new_container e p.create) p
docker_step (in_compose e) p =
    if is_off (on_compose p.tab) e
    then (p, [])
    else in_compose_dialog (dialog_step new_stack e p.compose) p
docker_step (clicks_container i status n) p =
    (p, container_call i (get_elem? (container_buttons status) n))
docker_step (clicks_stack i status n) p = (p, stack_call i (get_elem? (stack_buttons status) n))
docker_step (toggles_logs i) p = (record p { expanded_logs = toggle_logs p.expanded_logs i }, [])
docker_step (removes_image i) p = (p, calls (remove_image i) ∷ [])
docker_step (removes_container i ok) p = (p, if ok then calls (delete_container i) ∷ [] else [])
docker_step (removes_stack i ok) p = (p, if ok then calls (delete_compose_project i) ∷ [] else [])
docker_step (acted a true) p = (
  p,
  invalidates (codes "docker-containers")
      ∷ tells_success (codes "Container " ++ container_action_name a ++ codes "ed")
      ∷ [],
)
docker_step (acted a false) p = (p, tells_error (codes "Action failed") ∷ [])
docker_step (container_removed true) p =
    (p, invalidates (codes "docker-containers") ∷ tells_success (codes "Container removed") ∷ [])
docker_step (container_removed false) p = (p, tells_error (codes "Failed to remove container") ∷ [])
docker_step (stack_acted true) p =
    (p, invalidates (codes "docker-compose") ∷ tells_success (codes "Done") ∷ [])
docker_step (stack_acted false) p = (p, tells_error (codes "Compose action failed") ∷ [])
docker_step (stack_removed true) p =
    (p, invalidates (codes "docker-compose") ∷ tells_success (codes "Project removed") ∷ [])
docker_step (stack_removed false) p = (p, [])
