-- ===== src/Api/Docker/Laws.antt =====
-- docker.api.ts: what an action's path tells the server.
use xp_panel.Shared.{
  ◌≡◌, refl, ◌==◌, Text, codes, false, any, [], ◌∷◌, ◌++◌, split, split_on, arith, Bool-cases, inl,
  inr,
}
use xp_panel.Api.Docker.{
  ContainerAction, ComposeAction, container_action, compose_action, container_action_name,
  compose_action_name, docker_request, start, stop, pause, unpause, up, down,
}

-- No slash stands in the text.
abbrev pub IsSegment : Text → Type 0
IsSegment s = any (λ c. c == b'/') s ≡ false

split_segment :
    (s rest : Text)
    → IsSegment s
    → split_on b'/' (s ++ b'/' ∷ rest) ≡ (s, (split_on b'/' rest).0 ∷ (split_on b'/' rest).1)
unfolding split_on
split_segment [] rest h = refl
split_segment (c ∷ s) rest h = elim (Bool-cases (c == b'/')) [
  | inl e ↦ absurd (ground arith)
  | inr e ↦ rw (e, split_segment s rest (ground arith)) refl
]

container_name :
    (a : ContainerAction) → split_on b'/' (container_action_name a) ≡ (container_action_name a, [])
unfolding split_on
container_name start = refl
container_name stop = refl
container_name ContainerAction.restart = refl
container_name pause = refl
container_name unpause = refl

compose_name :
    (b : ComposeAction) → split_on b'/' (compose_action_name b) ≡ (compose_action_name b, [])
unfolding split_on
compose_name up = refl
compose_name down = refl
compose_name ComposeAction.restart = refl

-- The pieces of an action's path between its slashes are the service, the kind of thing, its id and the name of the action, where the id has no slash.
pub action_path :
    (i : Text) (a : ContainerAction) (b : ComposeAction)
    → IsSegment i
    → (split b'/' (docker_request (container_action i a)).url
        ≡ [] ∷ codes "docker" ∷ codes "containers" ∷ i ∷ container_action_name a ∷ [])
      × (split b'/' (docker_request (compose_action i b)).url
          ≡ [] ∷ codes "docker" ∷ codes "compose" ∷ i ∷ compose_action_name b ∷ [])
unfolding docker_request split_on
action_path i a b h = (
  rw (split_segment i (container_action_name a) h, container_name a) refl,
  rw (split_segment i (compose_action_name b) h, compose_name b) refl,
)
