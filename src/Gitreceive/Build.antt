-- ===== src/Gitreceive/Build.antt =====
-- The rest of `build` in pkg/gitreceive/build.go. Logging, and the printing of the pod as JSON for
-- the log, are left out; `wait.PollImmediate` is a parameter.
pub mod Trace
pub mod Quiet
pub mod Launch
use sa_builder.Base.{
  ℕ, Bytes, codes, List, [], ◌∷◌, ◌++◌, false, Option, none, some, Outcome, ok, err, panic, M,
  ◌>>=◌, ◌>>◌, pure, fail, crash, call, guard_nil, wrap_err,
}
use sa_builder.Base.Int.{ℤ, pos}
use sa_builder.Strings.{join}
use sa_builder.System.{
  Call, System, Answer, got, failed, PodRef, PodReply, GetError, not_found, other_error,
}
use sa_builder.Gitreceive.Sha.{Sha, new_sha}
use sa_builder.Gitreceive.Config.{Config, app, builder_pod_tick_duration, builder_pod_wait_duration}
use sa_builder.Gitreceive.Storage.{SlugBuilderInfo}
use sa_builder.Gitreceive.Pods.{
  Pod, docker_builder_pod_name, slug_builder_pod_name, docker_builder_pod, slugbuilder_pod,
  slugrunner_pod,
}
use sa_builder.Gitreceive.Wait.{Poll, wait_for_pod, wait_for_pod_end}
use sa_builder.Gitreceive.Prepare.{
  build_type_procfile, build_type_dockerfile, Prepared, prepare, repo_cmd, in_parentheses, run,
}

-- An error of the cluster's client, whatever its kind.
abbrev pub get_error_text : Option GetError → Option Bytes
get_error_text none = none
get_error_text (some (not_found e)) = some e
get_error_text (some (other_error e)) = some e

abbrev pub start_failed : Bytes → Bytes
start_failed = in_parentheses (codes "watching events for builder pod startup")

abbrev pub status_failed : Bytes → Bytes
status_failed = in_parentheses (codes "error getting builder pod status")

-- The loop over the container statuses: a container that has not terminated has no state to read.
unfoldable pub check_exit_codes : List (Option ℤ) → M Call (Unit {0})
check_exit_codes [] = pure tt
check_exit_codes (none ∷ codes') = crash
check_exit_codes (some (pos ℕ.zero) ∷ codes') = check_exit_codes codes'
check_exit_codes (some other ∷ codes') = fail (codes "Stopping build.")

-- `defer rc.Close()`
unfoldable pub then_close : {A : Type 0} → M Call A → M Call A
then_close m h = let (r, h') = m h in (r, Call.close_logs ∷ h')

-- The pod that builds, by the type of the build; its name draws a UUID.
unfoldable pub choose_pod : Config → Sha → Prepared → Bytes → Pod
choose_pod conf sha p uuid = elim (p.build_type) [
  | build_type_dockerfile ↦
      docker_builder_pod conf.debug false (docker_builder_pod_name uuid (app conf) sha.short)
        conf.pod_namespace (SlugBuilderInfo.tar_url p.info) p.slug_name
  | build_type_procfile ↦
      slugbuilder_pod conf.debug false (slug_builder_pod_name uuid (app conf) sha.short)
        conf.pod_namespace (SlugBuilderInfo.tar_url p.info) (SlugBuilderInfo.push_url p.info)
]

-- The pod that runs the application, under a name with `run` behind the application's.
unfoldable pub runner_pod : Config → Sha → SlugBuilderInfo → Bytes → Pod
runner_pod conf sha info uuid =
    slugrunner_pod conf.debug false (slug_builder_pod_name uuid (app conf ++ codes "run") sha.short)
      conf.pod_namespace info.slug_url

module _ (sys : System) (poll : Poll) where
  -- The wait for a new pod to start, if there is one.
  unfoldable pub await_started : Config → Answer PodRef → M Call PodRef
  await_started conf (failed e) = fail (in_parentheses (codes "creating builder pod") e)
  await_started conf (got new_pod) = do
    wrap_err start_failed (
        wait_for_pod sys poll new_pod.namespace new_pod.name (builder_pod_tick_duration conf)
          (builder_pod_wait_duration conf))
    pure new_pod

  -- `podsInterface.Create` and the wait
  unfoldable pub start_pod : Config → Pod → M Call PodRef
  start_pod conf pod = do
    reply ←
        call (Call.create_pod conf.pod_namespace pod)
          (λ h. System.create_pod sys h conf.pod_namespace pod)
    await_started conf reply

  -- The look at the exit codes.
  unfoldable pub check_status : PodRef → M Call (Unit {0})
  check_status new_pod = do
    reply ←
        call (Call.get_pod new_pod.namespace new_pod.name)
          (λ h. System.get_pod sys h new_pod.namespace new_pod.name)
    guard_nil (get_error_text reply.error) status_failed
    check_exit_codes reply.status.exit_codes

  -- The wait for the end of the build, and the look.
  unfoldable pub check_build_pod : Config → PodRef → M Call (Unit {0})
  check_build_pod conf new_pod = do
    wrap_err status_failed (
        wait_for_pod_end sys poll new_pod.namespace new_pod.name (builder_pod_tick_duration conf)
          (builder_pod_wait_duration conf))
    check_status new_pod

  unfoldable pub new_uuid : M Call Bytes
  new_uuid = call Call.new_uuid (λ h. System.new_uuid sys h)

  -- `git gc`
  unfoldable pub collect_garbage : Bytes → M Call (Unit {0})
  collect_garbage repo_dir = do
    let gc = repo_cmd repo_dir (codes "git" ∷ codes "gc" ∷ [])
    e ← run sys gc
    guard_nil e
        (in_parentheses (codes "cleaning up the repository with " ++ join gc.args (codes " ")))

  -- The pod of the application, and the clean-up behind it.
  unfoldable pub launch : Config → Sha → Prepared → M Call (Unit {0})
  launch conf sha p = do
    uuid ← new_uuid
    _ ← start_pod conf (runner_pod conf sha p.info uuid)
    collect_garbage p.repo_dir

  -- From the log stream on.
  unfoldable pub follow_build : Config → Sha → Prepared → PodRef → M Call (Unit {0})
  follow_build conf sha p new_pod = do
    e ← call Call.copy_logs (λ h. System.copy_logs sys h)
    guard_nil e (in_parentheses (codes "fetching builder logs"))
    check_build_pod conf new_pod
    launch conf sha p

  -- The stream of the logs, which is closed at the end.
  unfoldable pub stream_build : Config → Sha → Prepared → PodRef → M Call (Unit {0})
  stream_build conf sha p new_pod = do
    e ← call (Call.stream_logs new_pod.namespace new_pod.name) (λ h. System.stream_logs sys h)
    guard_nil e (in_parentheses (codes "attempting to stream logs"))
    then_close (follow_build conf sha p new_pod)

  -- The build pod, and what follows its start.
  unfoldable pub build_prepared : Config → Sha → Prepared → M Call (Unit {0})
  build_prepared conf sha p = do
    uuid ← new_uuid
    new_pod ← start_pod conf (choose_pod conf sha p uuid)
    stream_build conf sha p new_pod

module _ (sys : System) (unmarshal : Bytes → Option Bytes) (poll : Poll) where
  unfoldable pub build_sha : Config → Sha → M Call (Unit {0})
  build_sha conf sha = do p ← prepare sys unmarshal conf sha; build_prepared sys poll conf sha p

  unfoldable pub build : Config → Bytes → M Call (Unit {0})
  build conf raw_git_sha = elim (new_sha raw_git_sha) [
    | ok sha ↦ build_sha conf sha
    | err e ↦ fail e
    | panic ↦ crash
  ]
