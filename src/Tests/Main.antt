-- ===== src/Tests/Main.antt =====
-- The theorems on the program as a whole, at concrete inputs.
use sa_builder.Base.{◌≡◌, refl, inr, Bytes, codes, [], ◌∷◌, none, some, ok, err, panic}
use mathlib.Core.List.{map}
use sa_builder.Base.Int.{pos}
use sa_builder.System.{History, got}
use sa_builder.Gitreceive.Config.{check_durations, builder_pod_tick, object_storage_tick}
use sa_builder.Gitreceive.Config.Laws.{IsChecked}
use sa_builder.Gitreceive.Run.Laws.{write_line, build_all}
use sa_builder.Routes.Request.{route_names}
use sa_builder.Main.{Cli, IsCli, exited, returned, find_command, EnvConfig, World, main}
use sa_builder.Main.Laws.{begun, main_git_receive}
use sa_builder.Tests.{linux, settings, one_key, poll_thrice}
use sa_builder.Tests.Routes.{plain, four_bytes, contexts, plain_router, one_conn}
use sa_builder.Tests.Gitreceive.{accept_all, line, line-HasNoSpace, receives}

abbrev plain_cli : Cli
plain_cli cs (program ∷ name ∷ args) = find_command cs name
plain_cli cs _ = none

plain_cli-IsCli : IsCli plain_cli
plain_cli-IsCli = record { runs_command = λ cs program name. refl }

abbrev variables : EnvConfig
variables = record {
  process_server = λ name.
      got (record {
        fetcher_port = pos 3000;
        ssh_host_ip = codes "0.0.0.0";
        ssh_host_port = pos 2223;
      });
  process_git_receive = λ name. got settings;
}

abbrev world : World
world = record {
  sys = linux;
  env = variables;
  cli = plain_cli;
  unmarshal = accept_all;
  poll = poll_thrice;
  contexts = contexts;
  dispatcher = plain_router;
  crypto = one_key;
  exec_value = plain;
  marshal = four_bytes;
  parse_private_key = some;
  routes = route_names;
  empty = [];
  net = one_conn;
  client_error = none;
  lines = map write_line (line ∷ []);
  scan_error = none;
}

main_git_receive_example :
    let conf = check_durations settings in
    let built = build_all linux accept_all poll_thrice conf (line ∷ []) (begun []) in
    let ends = main world 0 (codes "boot" ∷ codes "gr" ∷ []) [] in
    ((h' : History) → built ≡ (ok tt, h') → ends ≡ some (ok returned, h'))
    × ((e : Bytes) (h' : History) → built ≡ (err e, h') → ends ≡ some (ok (exited 1), h'))
    × ((h' : History) → built ≡ (panic, h') → ends ≡ some (panic, h'))
    × IsChecked builder_pod_tick conf.builder_pod_wait_duration_msec
        settings.builder_pod_tick_duration_msec conf.builder_pod_tick_duration_msec
    × IsChecked object_storage_tick conf.object_storage_wait_duration_msec
        settings.object_storage_tick_duration_msec conf.object_storage_tick_duration_msec
main_git_receive_example =
    main_git_receive world plain_cli-IsCli (codes "boot") (codes "gr") [] 0 settings (line ∷ [])
      (inr refl) refl refl refl refl receives (line-HasNoSpace, tt)
