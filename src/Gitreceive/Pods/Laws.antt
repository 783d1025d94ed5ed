-- ===== src/Gitreceive/Pods/Laws.antt =====
-- Every pod that the hook makes is well formed and carries its settings.
use sa_builder.Base.{
  ◌≡◌, refl, Bytes, codes, List, [], ◌∷◌, Bool, true, false, ◌||◌, Option, none, some, eqb, length,
  All, if◌then◌else◌,
}
use sa_builder.Gitreceive.Pods.{
  EnvVar, VolumeMount, Volume, Container, Pod, restart_never, docker_builder_pod, slugbuilder_pod,
  slugrunner_pod, tar_url_key, put_url_key, debug_key,
}

-- The value that a container finds under a key: the last setting counts.
pub env_value : Bytes → List EnvVar → Option Bytes
unfolding eqb
env_value key [] = none
env_value key (e ∷ es) = elim (env_value key es) [
  | some v ↦ some v
  | none ↦ if eqb e.name key then some e.value else none
]

abbrev pub Has : Bytes → Option Bytes → Container → Type 0
Has key value c = env_value key c.env ≡ value

-- Some volume of the list has the name.
pub has_volume : List Volume → Bytes → Bool
unfolding eqb
has_volume [] name = false
has_volume (v ∷ vs) name = eqb v.name name || has_volume vs name

-- One container that is never restarted by the cluster, whose mounts are volumes of the pod.
pub record IsWellFormed (pod : Pod) (name namespace : Bytes) : Type 0 where
  pub named : pod.name ≡ name
  pub placed : pod.namespace ≡ namespace
  pub once : pod.restart_policy ≡ restart_never
  pub single : length pod.containers ≡ 1
  pub mounted :
      All
        (λ (c : Container).
          All (λ m. has_volume pod.volumes (VolumeMount.name m) ≡ true) c.volume_mounts)
        pod.containers

-- The build pods find their download and upload locations in their environment, the runner pod its
-- slug, and each finds `DEBUG` set exactly if the hook runs in debug mode.
pub pods_env :
    (debug with_auth : Bool) (name namespace url target : Bytes)
    → All
        (λ c.
          Has tar_url_key (some url) c
          × Has (codes "IMG_NAME") (some target) c
          × Has debug_key (if debug then some (codes "1") else none) c)
        (docker_builder_pod debug with_auth name namespace url target).containers
      × All
          (λ c.
            Has tar_url_key (some url) c
            × Has put_url_key (some target) c
            × Has debug_key (if debug then some (codes "1") else none) c)
          (slugbuilder_pod debug with_auth name namespace url target).containers
      × All
          (λ c.
            Has (codes "SLUG_URL") (some target) c
            × Has (codes "PORT") (some (codes "5000")) c
            × Has debug_key (if debug then some (codes "1") else none) c)
          (slugrunner_pod debug with_auth name namespace target).containers
unfolding docker_builder_pod slugbuilder_pod slugrunner_pod env_value
pods_env true true name namespace url target =
    (((refl, refl, refl), tt), ((refl, refl, refl), tt), ((refl, refl, refl), tt))
pods_env true false name namespace url target =
    (((refl, refl, refl), tt), ((refl, refl, refl), tt), ((refl, refl, refl), tt))
pods_env false true name namespace url target =
    (((refl, refl, refl), tt), ((refl, refl, refl), tt), ((refl, refl, refl), tt))
pods_env false false name namespace url target =
    (((refl, refl, refl), tt), ((refl, refl, refl), tt), ((refl, refl, refl), tt))
