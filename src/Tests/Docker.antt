-- ===== src/Tests/Docker.antt =====
-- The Docker page at a concrete run: both dialogs, a running container and a removal that is refused.
use xp_panel.Shared.{◌≡◌, refl, ℕ, ◌≤◌, text_eq, codes, true, false, List, [], ◌∷◌, All}
use xp_panel.Api.Docker.{stop, container_action}
use xp_panel.Panel.Runs.{calls, OfCalls, page_run}
use xp_panel.Panel.Dialog.{opens, submits, answers}
use xp_panel.Panel.Dialog.Laws.{requests_of}
use xp_panel.Panel.Docker.{
  ContainerForm, docker_page, DockerEvent, docker_step, in_create, in_compose, clicks_container,
  removes_container, shows, compose_tab,
}
use xp_panel.Panel.Docker.Laws.{IsDockerCall, docker_run-IsDockerCall}

abbrev web_server : ContainerForm
web_server = record { name = codes "web"; image = codes "nginx"; restart = codes "always" }

abbrev docker_events : List DockerEvent
docker_events =
    in_create opens
    ∷ in_create (submits web_server)
    ∷ in_create (submits web_server)
    ∷ shows compose_tab
    ∷ in_compose opens
    ∷ in_create (answers 0 true)
    ∷ clicks_container (codes "c1") (codes "running") 1
    ∷ removes_container (codes "c1") false
    ∷ []

-- The second button of a running container stops it, and there is no third one.
running_buttons :
    (page_run docker_step
      (clicks_container (codes "c1") (codes "running") 1
        ∷ clicks_container (codes "c1") (codes "running") 2
        ∷ [])
      docker_page).1
    ≡ calls (container_action (codes "c1") stop) ∷ []
unfolding page_run docker_step text_eq
running_buttons = refl

docker_run-IsDockerCall_example :
    (((n : ℕ)
        → requests_of n (page_run docker_step docker_events docker_page).0.create.in_flight ≤ 1)
      × ((n : ℕ)
          → requests_of n (page_run docker_step docker_events docker_page).0.compose.in_flight ≤ 1))
    × All (OfCalls IsDockerCall) (page_run docker_step docker_events docker_page).1
docker_run-IsDockerCall_example = docker_run-IsDockerCall docker_events
