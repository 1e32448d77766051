-- ===== src/Api/Docker.antt =====
-- apps/web/src/lib/api/docker.api.ts: the calls about containers, images and compose projects.
pub mod Laws
use xp_panel.Shared.{ℕ, Text, codes, Option, none, some, List, [], ◌∷◌, ◌++◌}
use xp_panel.Api.Calls.{api_get, api_post, api_delete}
use xp_panel.Api.Fields.{Fields, FieldCall, string}

pub data ContainerAction : Type 0 where
  start stop restart pause unpause : ContainerAction

pub data ComposeAction : Type 0 where
  up down restart : ComposeAction

abbrev pub container_action_name : ContainerAction → Text
container_action_name start = codes "start"
container_action_name stop = codes "stop"
container_action_name ContainerAction.restart = codes "restart"
container_action_name pause = codes "pause"
container_action_name unpause = codes "unpause"

abbrev pub compose_action_name : ComposeAction → Text
compose_action_name up = codes "up"
compose_action_name down = codes "down"
compose_action_name ComposeAction.restart = codes "restart"

pub data DockerCall : Type 0 where
  list_containers list_images list_compose_projects : DockerCall
  create_container create_compose_project : Fields → DockerCall
  container_action : Text → ContainerAction → DockerCall
  compose_action : Text → ComposeAction → DockerCall
  delete_container remove_image delete_compose_project pull_image : Text → DockerCall

unfoldable pub docker_request : DockerCall → FieldCall
docker_request list_containers = api_get (codes "/docker/containers")
docker_request (create_container d) = api_post (codes "/docker/containers") d
docker_request (container_action i a) =
    api_post (codes "/docker/containers/" ++ i ++ 47 ∷ container_action_name a) []
docker_request (delete_container i) = api_delete (codes "/docker/containers/" ++ i)
docker_request list_images = api_get (codes "/docker/images")
docker_request (pull_image image) =
    api_post (codes "/docker/images/pull") ((codes "image", string image) ∷ [])
docker_request (remove_image i) = api_delete (codes "/docker/images/" ++ i)
docker_request list_compose_projects = api_get (codes "/docker/compose")
docker_request (create_compose_project d) = api_post (codes "/docker/compose") d
docker_request (compose_action i a) =
    api_post (codes "/docker/compose/" ++ i ++ 47 ∷ compose_action_name a) []
docker_request (delete_compose_project i) = api_delete (codes "/docker/compose/" ++ i)

-- `getContainerLogs`: an address, for the configured base.
unfoldable pub container_logs_url : Option Text → Text → Text
container_logs_url none i = codes "/api/v1/docker/containers/" ++ i ++ codes "/logs"
container_logs_url (some base) i = base ++ codes "/api/v1/docker/containers/" ++ i ++ codes "/logs"
