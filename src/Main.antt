-- ===== src/Main.antt =====
-- `main` of boot.go with its two commands. The command line is read by a library, and so are the
-- settings of each command from the environment (`EnvConfig` of pkg/conf/config.go).
pub mod Laws
use sa_builder.Base.{
  ◌≡◌, ℕ, Bytes, codes, List, [], ◌∷◌, Bool, true, false, ◌||◌, Option, none, some, Outcome, ok,
  err, panic, M, eqb, if◌then◌else◌,
}
use sa_builder.Base.Int.{ℤ}
use sa_builder.System.{Call, History, System, Answer, got, failed}
use sa_builder.Cookoo.{Contexts, Dispatcher, Runner}
use sa_builder.Routes.{Fn, run_fn}
use sa_builder.Sshd.Keys.{Crypto}
use sa_builder.Sshd.Server.{Routes}
use sa_builder.Sshd.Listener.{Network}
use sa_builder.Boot.{run}
use sa_builder.Gitreceive.Config.{Config, check_durations}
use sa_builder.Gitreceive.Wait.{Poll}
use sa_builder.Gitreceive.Run

abbrev pub server_conf_app_name : Bytes
server_conf_app_name = codes "deis-builder-server"

abbrev pub git_receive_conf_app_name : Bytes
git_receive_conf_app_name = codes "deis-builder-git-receive"

-- `Config` of pkg/sshd/config.go
pub record ServerConfig : Type 0 where
  pub fetcher_port : ℤ
  pub ssh_host_ip : Bytes
  pub ssh_host_port : ℤ

pub data Action : Type 0 where
  server git_receive : Action

-- `cli.Command`
pub record Command : Type 0 where
  pub name : Bytes
  pub aliases : List Bytes
  pub action : Action

abbrev pub commands : List Command
commands =
    record { name = codes "server"; aliases = codes "srv" ∷ []; action = server }
    ∷ record { name = codes "git-receive"; aliases = codes "gr" ∷ []; action = git_receive }
    ∷ []

-- `app.Run(os.Args)`: the action that it runs, if it runs one.
abbrev pub Cli : Type 0
Cli = List Command → List Bytes → Option Action

-- What is documented of commands: the first whose name or one of whose aliases is the first argument
-- behind the program's name.
abbrev any_eq : Bytes → List Bytes → Bool
any_eq name [] = false
any_eq name (a ∷ as') = eqb a name || any_eq name as'

unfoldable pub find_command : List Command → Bytes → Option Action
unfolding eqb
find_command [] name = none
find_command (c ∷ cs) name =
    let rest = find_command cs name in
    if any_eq name (c.name ∷ c.aliases) then some c.action else rest

pub record IsCli (cli : Cli) : Type 0 where
  pub runs_command :
      (cs : List Command) (program name : Bytes)
      → cli cs (program ∷ name ∷ []) ≡ find_command cs name

-- How the program ends: with `os.Exit`, or by returning from `main`.
pub data Exit : Type 0 where
  exited : ℕ → Exit
  returned : Exit

-- `os.Exit(pkg.Run(...))`, none if it still runs
unfoldable pub exit_with : Option (Outcome ℕ × History) → Option (Outcome Exit × History)
exit_with none = none
exit_with (some (ok n, h)) = some (ok (exited n), h)
exit_with (some (err e, h)) = some (err e, h)
exit_with (some (panic, h)) = some (panic, h)

-- `os.Exit(1)` for an error of the hook
unfoldable pub exit_on_error : Outcome (Unit {0}) × History → Outcome Exit × History
exit_on_error (ok a, h) = (ok returned, h)
exit_on_error (err e, h) = (ok (exited 1), h)
exit_on_error (panic, h) = (panic, h)

-- `envconfig.Process` for each command's settings, by the name of the application
pub record EnvConfig : Type 0 where
  pub process_server : Bytes → Answer ServerConfig
  pub process_git_receive : Bytes → Answer Config

-- The hook: what its settings say, the error of the cluster's client, the lines and their end.
module _ (sys : System) (unmarshal : Bytes → Option Bytes) (poll : Poll) where
  unfoldable pub git_receive_action :
      Answer Config → Option Bytes → List Bytes → Option Bytes → History → Outcome Exit × History
  git_receive_action (failed e) client_error lines scan_error h = (ok (exited 1), h)
  git_receive_action (got cnf) client_error lines scan_error h =
      exit_on_error
        (Run.run sys unmarshal poll (check_durations cnf) client_error lines scan_error h)

module _ (C : Contexts) (D : Dispatcher C Fn) (runs : Runner C Fn) (empty : Contexts.Context C)
    (net : Network) where
  unfoldable pub server_action : ℕ → Answer ServerConfig → History → Option (Outcome Exit × History)
  server_action fuel (failed e) h = some (ok (exited 1), h)
  server_action fuel (got cnf) h = exit_with (
      run C D runs empty net fuel cnf.ssh_host_ip cnf.ssh_host_port
        (Call.spawn_fetcher cnf.fetcher_port ∷ h))

-- All that comes from outside.
pub record World : Type 1 where
  pub sys : System
  pub env : EnvConfig
  pub cli : Cli
  pub unmarshal : Bytes → Option Bytes
  pub poll : Poll
  pub contexts : Contexts
  pub dispatcher : Dispatcher contexts Fn
  pub crypto : Crypto
  pub exec_value : Bytes → Bytes
  pub marshal : ℕ → Bytes
  pub parse_private_key : Bytes → Option Bytes
  pub routes : Routes
  pub empty : Contexts.Context contexts
  pub net : Network
  pub client_error : Option Bytes
  pub lines : List Bytes
  pub scan_error : Option Bytes

module _ (w : World) where
  abbrev pub runs_of : Runner w.contexts Fn
  runs_of = run_fn w.sys w.crypto w.exec_value w.marshal w.parse_private_key w.routes w.contexts

  unfoldable pub run_action : ℕ → Option Action → History → Option (Outcome Exit × History)
  run_action fuel none h = some (ok returned, h)
  run_action fuel (some server) h =
      server_action w.contexts w.dispatcher runs_of w.empty w.net fuel
        (w.env.process_server server_conf_app_name) h
  run_action fuel (some git_receive) h = some (
      git_receive_action w.sys w.unmarshal w.poll
        (w.env.process_git_receive git_receive_conf_app_name) w.client_error w.lines w.scan_error h)

  -- The variable `DEBUG` only sets how much is logged.
  unfoldable pub main : ℕ → List Bytes → History → Option (Outcome Exit × History)
  main fuel args h = run_action fuel (w.cli commands args) (Call.getenv (codes "DEBUG") ∷ h)
