-- ===== src/Gitreceive/Pods.antt =====
-- The pods of pkg/gitreceive/k8s_util.go. Of the cluster's `api.Pod` the record has the fields that
-- the code sets. `addEnvToPod` takes the pod by value, but the copy shares the array of containers,
-- so its caller sees the change: here the changed pod is the result.
pub mod Laws
use sa_builder.Base.{Bytes, codes, List, [], ◌∷◌, ◌++◌, Bool, true, false, take, if◌then◌else◌}

pub record EnvVar : Type 0 where
  pub name : Bytes
  pub value : Bytes

pub record VolumeMount : Type 0 where
  pub name : Bytes
  pub mount_path : Bytes
  pub read_only : Bool

pub data VolumeSource : Type 0 where
  host_path secret : Bytes → VolumeSource

pub record Volume : Type 0 where
  pub name : Bytes
  pub source : VolumeSource

pub data PullPolicy : Type 0 where
  pull_always : PullPolicy

pub data RestartPolicy : Type 0 where
  restart_never : RestartPolicy

pub record Container : Type 0 where
  pub name : Bytes
  pub image : Bytes
  pub args : List Bytes
  pub env : List EnvVar
  pub volume_mounts : List VolumeMount
  pub image_pull_policy : PullPolicy

pub record Pod : Type 0 where
  pub name : Bytes
  pub namespace : Bytes
  pub labels : List (Bytes × Bytes)
  pub restart_policy : RestartPolicy
  pub containers : List Container
  pub volumes : List Volume

abbrev pub slug_builder_name : Bytes
slug_builder_name = codes "deis-slugbuilder"

abbrev pub slug_builder_image : Bytes
slug_builder_image = codes "smothiki/slugbuilder:v1.3"

abbrev pub docker_builder_name : Bytes
docker_builder_name = codes "deis-dockerbuilder"

abbrev pub docker_builder_image : Bytes
docker_builder_image = codes "quay.io/deisci/dockerbuilder:v2-beta"

abbrev pub tar_url_key : Bytes
tar_url_key = codes "TAR_URL"

abbrev pub put_url_key : Bytes
put_url_key = codes "put_url"

abbrev pub debug_key : Bytes
debug_key = codes "DEBUG"

abbrev pub minio_user : Bytes
minio_user = codes "minio-user"

abbrev pub docker_socket_name : Bytes
docker_socket_name = codes "docker-socket"

abbrev pub docker_socket_path : Bytes
docker_socket_path = codes "/var/run/docker.sock"

-- `uuid.New()[:8]` for the `uuid` that is drawn
unfoldable pub docker_builder_pod_name : Bytes → Bytes → Bytes → Bytes
docker_builder_pod_name uuid app_name short_sha =
    codes "dockerbuild-" ++ (app_name ++ (codes "-" ++ (short_sha ++ (codes "-" ++ take 8 uuid))))

unfoldable pub slug_builder_pod_name : Bytes → Bytes → Bytes → Bytes
slug_builder_pod_name uuid app_name short_sha =
    codes "slugbuild-" ++ (app_name ++ (codes "-" ++ (short_sha ++ (codes "-" ++ take 8 uuid))))

-- An assignment to a part of `pod.Spec.Containers[0]`; `build_pod` gives one container.
unfoldable pub on_first : (Container → Container) → Pod → Pod
on_first f pod = record pod { containers = change pod.containers }
  where
    change : List Container → List Container
    change [] = []
    change (c ∷ cs) = f c ∷ cs

unfoldable pub add_env_to_pod : Pod → Bytes → Bytes → Pod
unfolding on_first
add_env_to_pod pod key value =
    on_first (λ c. record c { env = c.env ++ (record { name = key; value = value } ∷ []) }) pod

abbrev bare_container : Container
bare_container = record {
  name = [];
  image = [];
  args = [];
  env = [];
  volume_mounts = [];
  image_pull_policy = pull_always;
}

abbrev bare_pod : Bytes → Bytes → Pod
bare_pod name namespace = record {
  name = name;
  namespace = namespace;
  labels = (codes "heritage", codes "deis") ∷ (codes "version", codes "2.0.0-beta") ∷ [];
  restart_policy = restart_never;
  containers = bare_container ∷ [];
  volumes = [];
}

abbrev minio_mount : VolumeMount
minio_mount = record {
  name = minio_user;
  mount_path = codes "/var/run/secrets/object/store";
  read_only = true;
}

-- The secret's volume and its mount, which replaces the container's mounts.
add_auth : Pod → Pod
unfolding on_first
add_auth pod =
    on_first (λ c. record c { volume_mounts = minio_mount ∷ [] })
      (record pod {
        volumes = pod.volumes ++ (record { name = minio_user; source = secret minio_user } ∷ []);
      })

unfoldable pub build_pod : Bool → Bool → Bytes → Bytes → Pod
unfolding add_env_to_pod add_auth
build_pod debug with_auth name namespace =
    let pod = bare_pod name namespace in
    let pod' = if with_auth then add_auth pod else pod in
    if debug then add_env_to_pod pod' debug_key (codes "1") else pod'

abbrev set_image : Bytes → Bytes → Pod → Pod
set_image name image pod = on_first (λ c. record c { name = name; image = image }) pod

abbrev add_docker_socket : Pod → Pod
add_docker_socket pod =
    on_first
      (λ c. record c {
        volume_mounts =
            c.volume_mounts
            ++ (record {
              name = docker_socket_name;
              mount_path = docker_socket_path;
              read_only = false;
            }
                ∷ []);
      })
      (record pod {
        volumes =
            pod.volumes
            ++ (record { name = docker_socket_name; source = host_path docker_socket_path } ∷ []);
      })

unfoldable pub docker_builder_pod : Bool → Bool → Bytes → Bytes → Bytes → Bytes → Pod
unfolding build_pod
docker_builder_pod debug with_auth name namespace tar_url image_name =
    let pod =
      set_image docker_builder_name docker_builder_image
        (build_pod debug with_auth name namespace) in
    let pod1 =
      add_env_to_pod pod (codes "ACCESS_KEY_FILE")
        (codes "/var/run/secrets/object/store/access_key") in
    let pod2 =
      add_env_to_pod pod1 (codes "ACCESS_SECRET_FILE")
        (codes "/var/run/secrets/object/store/access_secret") in
    let pod3 = add_env_to_pod pod2 tar_url_key tar_url in
    add_docker_socket (add_env_to_pod pod3 (codes "IMG_NAME") image_name)

unfoldable pub slugbuilder_pod : Bool → Bool → Bytes → Bytes → Bytes → Bytes → Pod
unfolding build_pod
slugbuilder_pod debug with_auth name namespace tar_url put_url =
    let pod =
      set_image slug_builder_name slug_builder_image (build_pod debug with_auth name namespace) in
    add_env_to_pod (add_env_to_pod pod tar_url_key tar_url) put_url_key put_url

unfoldable pub slugrunner_pod : Bool → Bool → Bytes → Bytes → Bytes → Pod
unfolding build_pod
slugrunner_pod debug with_auth name namespace put_url =
    let pod =
      set_image (codes "jaffa") (codes "quay.io/deisci/slugrunner:v2-beta")
        (build_pod debug with_auth name namespace) in
    let pod' = on_first (λ c. record c { args = codes "start" ∷ codes "web" ∷ [] }) pod in
    add_env_to_pod
      (add_env_to_pod (add_env_to_pod pod' (codes "SLUG_URL") put_url) (codes "PORT")
        (codes "5000"))
      (codes "DOCKERIMAGE") (codes "1")
