-- ===== src/Panel/Docker/Laws.antt =====
-- docker/page.tsx: what the page asks of the server, and its two dialogs.
use xp_panel.Shared.{
  ◌≡◌, refl, ◌≢◌, ◌⊎◌, inl, inr, ℕ, ◌≤◌, Text, true, false, Option, none, some, List, [], All,
  arith, if_both,
}
use xp_panel.Api.Docker.{
  ContainerAction, ComposeAction, DockerCall, container_action, compose_action, delete_container,
  remove_image, delete_compose_project,
}
use xp_panel.Panel.Runs.{PageEffect, OfCalls, page_run, page_run-keeps, All-OfCalls}
use xp_panel.Panel.Dialog.Laws.{
  IsOrderly, IsAccepted, dialog_step-Keeps, first-IsOrderly, requests_of,
}
use xp_panel.Panel.Compose.{ComposeRequest}
use xp_panel.Panel.Compose.Laws.{given}
use xp_panel.Panel.Docker.{
  ContainerForm, new_container, new_stack, DockerPage, docker_page, DockerEvent, docker_step,
  container_call, stack_call, shows, in_create, in_compose, clicks_container, clicks_stack,
  toggles_logs, removes_image, removes_container, removes_stack, acted, container_removed,
  stack_acted, stack_removed,
}

-- What is created is a container with a name and an image, or a stack with a name and a file.
abbrev pub IsCreation : DockerCall → Type 0
IsCreation c =
    ((d : ContainerForm) × (c ≡ new_container.request d) × (d.name ≢ []) × (d.image ≢ []))
    ⊎ ((r : ComposeRequest) × (c ≡ new_stack.request r) × (r.name ≢ []) × (r.compose_file ≢ []))

abbrev pub IsDockerCall : DockerCall → Type 0
IsDockerCall (container_action i a) = Unit
IsDockerCall (compose_action i a) = Unit
IsDockerCall (delete_container i) = Unit
IsDockerCall (delete_compose_project i) = Unit
IsDockerCall (remove_image i) = Unit
IsDockerCall c = IsCreation c

container-IsDockerCall : (c : DockerCall) → IsAccepted new_container c → IsDockerCall c
unfolding new_container
container-IsDockerCall c (d, e, h) =
    rw e (inl (d, refl, given d.name (ground arith), given d.image (ground arith)))

stack-IsDockerCall : (c : DockerCall) → IsAccepted new_stack c → IsDockerCall c
unfolding new_stack
stack-IsDockerCall c (r, e, h) =
    rw e (inr (r, refl, given r.name (ground arith), given r.compose_file (ground arith)))

abbrev AreOrderly : DockerPage → Type 0
AreOrderly p = IsOrderly p.create × IsOrderly p.compose

abbrev Keeps : DockerPage × List (PageEffect DockerCall) → Type 0
Keeps r = AreOrderly r.0 × All (OfCalls IsDockerCall) r.1

container_call-IsDockerCall :
    (i : Text) (o : Option ContainerAction) → All (OfCalls IsDockerCall) (container_call i o)
container_call-IsDockerCall i none = tt
container_call-IsDockerCall i (some a) = (tt, tt)

stack_call-IsDockerCall :
    (i : Text) (o : Option ComposeAction) → All (OfCalls IsDockerCall) (stack_call i o)
stack_call-IsDockerCall i none = tt
stack_call-IsDockerCall i (some a) = (tt, tt)

docker_step-Keeps : (e : DockerEvent) (p : DockerPage) → AreOrderly p → Keeps (docker_step e p)
unfolding docker_step
docker_step-Keeps (shows t) p h = (h, tt)
docker_step-Keeps (in_create e) p h =
    let r = dialog_step-Keeps new_container e p.create h.0 in
    if_both {A = DockerPage × List (PageEffect DockerCall)} Keeps _ _ _ (h, tt)
      ((r.0, h.1), All-OfCalls container-IsDockerCall _ r.1)
docker_step-Keeps (in_compose e) p h =
    let r = dialog_step-Keeps new_stack e p.compose h.1 in
    if_both {A = DockerPage × List (PageEffect DockerCall)} Keeps _ _ _ (h, tt)
      ((h.0, r.0), All-OfCalls stack-IsDockerCall _ r.1)
docker_step-Keeps (clicks_container i s n) p h = (h, container_call-IsDockerCall i _)
docker_step-Keeps (clicks_stack i s n) p h = (h, stack_call-IsDockerCall i _)
docker_step-Keeps (toggles_logs i) p h = (h, tt)
docker_step-Keeps (removes_image i) p h = (h, (tt, tt))
docker_step-Keeps (removes_container i true) p h = (h, (tt, tt))
docker_step-Keeps (removes_container i false) p h = (h, tt)
docker_step-Keeps (removes_stack i true) p h = (h, (tt, tt))
docker_step-Keeps (removes_stack i false) p h = (h, tt)
docker_step-Keeps (acted a true) p h = (h, (tt, (tt, tt)))
docker_step-Keeps (acted a false) p h = (h, (tt, tt))
docker_step-Keeps (container_removed true) p h = (h, (tt, (tt, tt)))
docker_step-Keeps (container_removed false) p h = (h, (tt, tt))
docker_step-Keeps (stack_acted true) p h = (h, (tt, (tt, tt)))
docker_step-Keeps (stack_acted false) p h = (h, (tt, tt))
docker_step-Keeps (stack_removed true) p h = (h, (tt, (tt, tt)))
docker_step-Keeps (stack_removed false) p h = (h, tt)

-- Whatever is done on the Docker page from its first state on, a form of either dialog has one request under way at most, a container is only created with a name and an image and a stack with a name and a file, and all else that is asked is an action, a removal of a container or a stack, or the removal of an image.
pub docker_run-IsDockerCall :
    (es : List DockerEvent)
    → (((n : ℕ) → requests_of n (page_run docker_step es docker_page).0.create.in_flight ≤ 1)
        × ((n : ℕ) → requests_of n (page_run docker_step es docker_page).0.compose.in_flight ≤ 1))
      × All (OfCalls IsDockerCall) (page_run docker_step es docker_page).1
docker_run-IsDockerCall es =
    let r =
      page_run-keeps docker_step AreOrderly (OfCalls IsDockerCall) docker_step-Keeps es docker_page
        (first-IsOrderly, first-IsOrderly) in
    ((r.0.0.single, r.0.1.single), r.1)
