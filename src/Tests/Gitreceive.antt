-- ===== src/Tests/Gitreceive.antt =====
-- The theorems on the hook, at concrete inputs.
use sa_builder.Base.{
  ◌⊎◌, ◌≡◌, ◌≢◌, refl, ◌⊎◌, Bytes, codes, [], ◌∷◌, ◌++◌, true, false, Option, none, some, ok, err,
  All, length, take, arith, After,
}
use sa_builder.Base.Int.{pos, ◌<ℤ◌}
use sa_builder.Strings.{has_prefix}
use sa_builder.System.{Call, History, System, not_found, running, succeeded, failed_phase, PodReply}
use sa_builder.Gitreceive.Sha.{Sha, sha_regex, new_sha, invalid_git_sha, IsShaText, new_sha_lem}
use sa_builder.Gitreceive.Config.{Config, check_durations, builder_pod_tick, object_storage_tick}
use sa_builder.Gitreceive.Config.Laws.{
  IsChecked, check_durations-IsChecked, check_durations_short_wait,
}
use sa_builder.Gitreceive.Pods.{
  docker_builder_pod, slugbuilder_pod, slugrunner_pod, tar_url_key, put_url_key, debug_key,
}
use sa_builder.Gitreceive.Pods.Laws.{Has, pods_env}
use sa_builder.Gitreceive.Wait.{
  pod_started, wait_for_pod, wait_for_pod_end, wait_for_pod_condition, check_pod, judge, pod_ended,
}
use sa_builder.Gitreceive.Wait.Laws.{
  waits_first, seen, wait_for_pod-ok, wait_for_pod_end-ok, wait_for_pod_failed,
}
use sa_builder.Gitreceive.Prepare.{prepare, get_build_type_for_dir, check_procfile}
use sa_builder.Gitreceive.Storage.{new_slug_builder_info}
use sa_builder.Gitreceive.Build.{
  build, build_sha, build_prepared, start_pod, await_started, stream_build, then_close,
  follow_build, check_build_pod, check_status, check_exit_codes, launch, collect_garbage, new_uuid,
  choose_pod,
}
use sa_builder.Gitreceive.Build.Launch.{Launched, Stopped, build-After}
use sa_builder.Gitreceive.Run.{PushLine, read_line, run}
use sa_builder.Gitreceive.Run.Laws.{write_line, HasNoSpace, read_line-write_line, run_other}
use sa_builder.Tests.{linux, reply_in, poll_thrice, poll_thrice-IsPoll, settings, digits}

digits-IsShaText : IsShaText digits
digits-IsShaText = (refl, omega arith)

new_sha_lem_example :
    (IsShaText digits
      × ((sha : Sha) × (new_sha digits ≡ ok sha)
          × (sha.full ≡ digits)
          × (length sha.short ≡ 8)
          × ((rest : Bytes) × (digits ≡ sha.short ++ rest))))
    ⊎ ((¬ IsShaText digits) × (new_sha digits ≡ err (invalid_git_sha digits)))
new_sha_lem_example = new_sha_lem digits

check_durations-IsChecked_example :
    IsChecked builder_pod_tick
      (pos 300000)
      (pos 200)
      (check_durations settings).builder_pod_tick_duration_msec
    × IsChecked object_storage_tick
        (pos 300000)
        (pos 700)
        (check_durations settings).object_storage_tick_duration_msec
check_durations-IsChecked_example = check_durations-IsChecked settings

abbrev hasty : Config
hasty = record settings { builder_pod_wait_duration_msec = pos 50 }

check_durations_short_wait_example :
    ¬ ((check_durations hasty).builder_pod_tick_duration_msec <ℤ pos 50)
check_durations_short_wait_example = check_durations_short_wait hasty (omega arith)

pods_env_example :
    All
      (λ c.
        Has tar_url_key (some (codes "u")) c
        × Has (codes "IMG_NAME") (some (codes "t")) c
        × Has debug_key (some (codes "1")) c)
      (docker_builder_pod true false (codes "p") (codes "deis") (codes "u") (codes "t")).containers
    × All
        (λ c.
          Has tar_url_key (some (codes "u")) c
          × Has put_url_key (some (codes "t")) c
          × Has debug_key (some (codes "1")) c)
        (slugbuilder_pod true false (codes "p") (codes "deis") (codes "u") (codes "t")).containers
    × All
        (λ c.
          Has (codes "SLUG_URL") (some (codes "t")) c
          × Has (codes "PORT") (some (codes "5000")) c
          × Has debug_key (some (codes "1")) c)
        (slugrunner_pod true false (codes "p") (codes "deis") (codes "t")).containers
pods_env_example = pods_env true false (codes "p") (codes "deis") (codes "u") (codes "t")

-- A cluster whose pods are as the reply says.
abbrev cluster_of : PodReply → System
cluster_of reply = record linux { get_pod = λ h ns name. reply }

started :
    wait_for_pod
      (cluster_of (reply_in running))
      poll_thrice
      (codes "deis")
      (codes "pod")
      (pos 1)
      (pos 9)
      []
    ≡ (ok tt, Call.get_pod (codes "deis") (codes "pod") ∷ [])
unfolding wait_for_pod wait_for_pod_condition check_pod judge pod_started
started = refl

wait_for_pod-ok_example :
    (h0 : History) × (Call.get_pod (codes "deis") (codes "pod") ∷ []
      ≡ Call.get_pod (codes "deis") (codes "pod") ∷ h0)
    × (((seen (cluster_of (reply_in running)) poll_thrice h0 (codes "deis") (codes "pod")).phase
          ≡ running)
        ⊎ ((seen (cluster_of (reply_in running)) poll_thrice h0 (codes "deis") (codes "pod")).phase
            ≡ failed_phase))
wait_for_pod-ok_example =
    wait_for_pod-ok (cluster_of (reply_in running)) poll_thrice poll_thrice-IsPoll (codes "deis")
      (codes "pod") (pos 1) (pos 9) [] started

wait_for_pod_failed_example :
    ((pod_started (reply_in failed_phase).status).1 ≢ none)
    × (wait_for_pod
          (cluster_of (reply_in failed_phase))
          poll_thrice
          (codes "deis")
          (codes "pod")
          (pos 1)
          (pos 9)
          []
        ≡ (ok tt, Call.get_pod (codes "deis") (codes "pod") ∷ []))
wait_for_pod_failed_example =
    wait_for_pod_failed (cluster_of (reply_in failed_phase)) poll_thrice poll_thrice-IsPoll
      (codes "deis") (codes "pod") (pos 1) (pos 9) [] refl refl

ended :
    wait_for_pod_end linux poll_thrice (codes "deis") (codes "pod") (pos 1) (pos 9) []
    ≡ (ok tt, Call.get_pod (codes "deis") (codes "pod") ∷ [])
unfolding wait_for_pod_end wait_for_pod_condition check_pod judge pod_ended
ended = refl

wait_for_pod_end-ok_example :
    (h0 : History) × (Call.get_pod (codes "deis") (codes "pod") ∷ []
      ≡ Call.get_pod (codes "deis") (codes "pod") ∷ h0)
    × (((seen linux poll_thrice h0 (codes "deis") (codes "pod")).phase ≡ succeeded)
        ⊎ ((seen linux poll_thrice h0 (codes "deis") (codes "pod")).phase ≡ failed_phase))
wait_for_pod_end-ok_example =
    wait_for_pod_end-ok linux poll_thrice poll_thrice-IsPoll (codes "deis") (codes "pod") (pos 1)
      (pos 9) [] ended

abbrev pub accept_all : Bytes → Option Bytes
accept_all text = none

abbrev sha : Sha
sha = record { full = digits; short = take 8 digits }

digits_accepted : new_sha digits ≡ ok sha
unfolding new_sha sha_regex
digits_accepted = refl

build-After_example :
    After
      (build linux accept_all poll_thrice settings digits [])
      (λ _ h'. Launched linux settings sha [] h')
      (Stopped linux settings sha [])
build-After_example =
    build-After linux accept_all poll_thrice poll_thrice-IsPoll settings digits [] digits_accepted

abbrev pub line : PushLine
line = record { old_rev = codes "00"; new_rev = digits; ref_name = codes "refs/heads/master" }

pub line-HasNoSpace : HasNoSpace line
line-HasNoSpace = (omega arith, omega arith, omega arith)

read_line-write_line_example : read_line (write_line line) ≡ ok line
read_line-write_line_example = read_line-write_line line line-HasNoSpace

pub receives : has_prefix settings.ssh_original_command (codes "git-receive-pack") ≡ true
unfolding has_prefix
receives = refl

abbrev fetching : Config
fetching = record settings { ssh_original_command = codes "git-upload-pack 'my.app.git'" }

uploads : has_prefix fetching.ssh_original_command (codes "git-receive-pack") ≡ false
unfolding has_prefix
uploads = refl

run_other_example :
    (run linux accept_all poll_thrice fetching none (write_line line ∷ []) none []).1 ≡ []
run_other_example =
    run_other linux accept_all poll_thrice fetching (write_line line ∷ []) none [] uploads

-- The build above ends well.
build_done : (build linux accept_all poll_thrice settings digits []).0 ≡ ok tt
unfolding build build_sha prepare build_prepared start_pod await_started stream_build then_close
    follow_build check_build_pod check_status check_exit_codes launch collect_garbage new_uuid
    wait_for_pod wait_for_pod_end wait_for_pod_condition check_pod judge pod_started pod_ended
    get_build_type_for_dir check_procfile new_sha sha_regex new_slug_builder_info choose_pod
build_done = refl

waits_first_example :
    ((System.get_pod (cluster_of (reply_in running)) [] (codes "deis") (codes "pod")).error ≡ none
      → (seen (cluster_of (reply_in running)) poll_thrice [] (codes "deis") (codes "pod")).phase
        ≡ running
      → wait_for_pod
          (cluster_of (reply_in running))
          poll_thrice
          (codes "deis")
          (codes "pod")
          (pos 1)
          (pos 9)
          []
        ≡ (ok tt, Call.get_pod (codes "deis") (codes "pod") ∷ []))
    × ((m : Bytes)
        → (System.get_pod (cluster_of (reply_in running)) [] (codes "deis") (codes "pod")).error
          ≡ some (not_found m)
        → (wait_for_pod
              (cluster_of (reply_in running))
              poll_thrice
              (codes "deis")
              (codes "pod")
              (pos 1)
              (pos 9)
              []
            ≡ (err m, Call.get_pod (codes "deis") (codes "pod") ∷ []))
          × (wait_for_pod_end
                (cluster_of (reply_in running))
                poll_thrice
                (codes "deis")
                (codes "pod")
                (pos 1)
                (pos 9)
                []
              ≡ (err m, Call.get_pod (codes "deis") (codes "pod") ∷ [])))
waits_first_example =
    waits_first (cluster_of (reply_in running)) poll_thrice poll_thrice-IsPoll (codes "deis")
      (codes "pod") (pos 1) (pos 9) []
