-- ===== src/Routes.antt =====
-- The registry of pkg/routes.go, and the functions behind its tasks with the parameters that they
-- take from it.
pub mod Request
pub mod Auth
use sa_builder.Base.{
  ℕ, Bytes, codes, List, [], ◌∷◌, ◌++◌, Bool, true, false, not, ◌&&◌, Option, none, some, Outcome,
  ok, err, panic, M, ◌>>=◌, ◌>>◌, pure, crash, call, if◌then◌else◌,
}
use sa_builder.System.{Call, System}
use sa_builder.Cookoo.{
  Value, text, public_key, permissions, signers, channel, request, router, server_config, truth,
  nothing, Param, Task, Route, Params, param, Contexts, as_text, Runner,
}
use sa_builder.Environment.{get_env}
use sa_builder.Sshd.Keys.{Crypto, Permissions, auth_key}
use sa_builder.Sshd.HostKeys.{gen_ssh_keys, parse_host_keys}
use sa_builder.Sshd.Server.{Routes}
use sa_builder.Sshd.Connection.{ping}
use sa_builder.Git.Receive.{receive}
use sa_builder.Commands.{kill_on_exit}

-- The functions that the tasks name.
pub data Fn : Type 0 where
  gen_ssh_keys_fn parse_host_keys_fn configure_fn env_get_fn kill_on_exit_fn ping_fn auth_key_fn
        receive_fn :
      Fn

-- `{Name: ..., From: "cxt:..."}`
abbrev pub from_context : Bytes → Bytes → Param
from_context name key = record { name = name; from = some key; default = nothing }

abbrev pub task : Bytes → Fn → List Param → Task Fn
task name fn using = record { name = name; fn = fn; using = using }

abbrev pub host_keys_key : Bytes
host_keys_key = codes "ssh.HostKeys"

abbrev pub address_key : Bytes
address_key = codes "ssh.Address"

abbrev pub server_config_key : Bytes
server_config_key = codes "ssh.ServerConfig"

abbrev pub gen_task : Task Fn
gen_task = task (codes "installSshHostKeys") gen_ssh_keys_fn []

abbrev pub host_keys_task : Task Fn
host_keys_task = task host_keys_key parse_host_keys_fn []

abbrev pub configure_task : Task Fn
configure_task = task server_config_key configure_fn []

abbrev pub port_task : Task Fn
port_task =
    task (codes "externalport") env_get_fn
      (record { name = codes "EXTERNAL_PORT"; from = none; default = text [] } ∷ [])

abbrev pub listen_task : Task Fn
listen_task =
    task (codes "listen") kill_on_exit_fn (from_context (codes "sshd") (codes "sshdstart") ∷ [])

abbrev pub boot_route : Route Fn
boot_route = record {
  name = codes "boot";
  does = gen_task ∷ host_keys_task ∷ configure_task ∷ port_task ∷ listen_task ∷ [];
}

abbrev pub ping_route : Route Fn
ping_route = record {
  name = codes "sshPing";
  does =
      task (codes "ping") ping_fn (
        from_context (codes "request") (codes "request")
        ∷ from_context (codes "channel") (codes "channel")
        ∷ [])
      ∷ [];
}

abbrev pub auth_task : Task Fn
auth_task = task (codes "authN") auth_key_fn (
    from_context (codes "metadata") (codes "metadata")
    ∷ from_context (codes "key") (codes "key")
    ∷ from_context (codes "repoName") (codes "repository")
    ∷ [])

abbrev pub auth_route : Route Fn
auth_route = record { name = codes "pubkeyAuth"; does = auth_task ∷ [] }

abbrev pub receive_task : Task Fn
receive_task = task (codes "receive") receive_fn (
    from_context (codes "request") (codes "request")
    ∷ from_context (codes "channel") (codes "channel")
    ∷ from_context (codes "operation") (codes "operation")
    ∷ from_context (codes "repoName") (codes "repository")
    ∷ from_context (codes "permissions") (codes "authN")
    ∷ [])

abbrev pub receive_route : Route Fn
receive_route = record { name = codes "sshGitReceive"; does = receive_task ∷ [] }

unfoldable pub registry : List (Route Fn)
registry = boot_route ∷ ping_route ∷ auth_route ∷ receive_route ∷ []

abbrev pub is_channel : Option Value → Bool
is_channel (some channel) = true
is_channel _ = false

abbrev pub is_request : Option Value → Bool
is_request (some request) = true
is_request _ = false

abbrev pub is_router : Option Value → Bool
is_router (some router) = true
is_router _ = false

abbrev pub given : Option Value → Bool
given none = false
given (some v) = true

abbrev pub lift : {A : Type 0} → Outcome A → M Call A
lift r h = (r, h)

-- The permissions that `AuthKey` returns, or its nil.
abbrev pub permissions_value : Option Permissions → Value
permissions_value none = nothing
permissions_value (some p) = permissions p

-- `c.Get("enableV1", false).(bool)`
abbrev pub as_flag : Option Value → Outcome Bool
as_flag none = ok false
as_flag (some truth) = ok true
as_flag (some _) = panic

module _ (sys : System) (crypto : Crypto) where
  -- `AuthKey` with its parameter; a key that is nil panics.
  unfoldable pub run_auth_key : Option Value → M Call Value
  run_auth_key (some (public_key key)) = do p ← auth_key sys crypto key; pure (permissions_value p)
  run_auth_key _ = crash

  -- `channel.(ssh.Channel)`, which is reached if both are given
  abbrev pub check_channel : Option Value → Option Value → M Call (Unit {0})
  check_channel c r = if given c && (given r && not (is_channel c)) then crash else pure tt

  -- `Receive` with its parameters. The channel, the texts and the connection are read before
  -- anything is done, and panic if they have another type.
  unfoldable pub run_receive : Params → Option Value → M Call (Unit {0})
  run_receive ps connection = do
    repo_name ← lift (as_text [] (param (codes "repoName") ps))
    operation ← lift (as_text [] (param (codes "operation") ps))
    check_channel (param (codes "channel") ps) (param (codes "request") ps)
    git_home ← lift (as_text (codes "/home/git") (param (codes "gitHome") ps))
    conn ← lift (as_text (codes "0 0 0 0") connection)
    receive sys crypto
        (record {
          has_channel = given (param (codes "channel") ps);
          has_request = given (param (codes "request") ps);
          repo_name = repo_name;
          operation = operation;
          git_home = git_home;
        })
        conn

module _ (sys : System) (crypto : Crypto) (exec_value : Bytes → Bytes) (marshal : ℕ → Bytes)
    (parse_private_key : Bytes → Option Bytes) (routes : Routes) (C : Contexts) where
  open C use {Context, get}

  -- The function behind each task.
  unfoldable pub run_fn : Runner C Fn
  run_fn gen_ssh_keys_fn ps cxt = do gen_ssh_keys sys parse_private_key; pure (nothing, cxt)
  run_fn parse_host_keys_fn ps cxt = do
    enable_v1 ← lift (as_flag (get cxt (codes "enableV1")))
    keys ← parse_host_keys sys parse_private_key enable_v1
    pure (signers keys, cxt)
  run_fn configure_fn ps cxt =
      if is_router (get cxt (codes "cookoo.Router")) then pure (server_config, cxt) else crash
  run_fn env_get_fn ps cxt = do cxt' ← get_env sys C ps cxt; pure (truth, cxt')
  run_fn kill_on_exit_fn ps cxt = do kill_on_exit ps; pure (nothing, cxt)
  run_fn ping_fn ps cxt =
      if is_channel (param (codes "channel") ps) && is_request (param (codes "request") ps)
      then (do ping sys exec_value marshal routes; pure (nothing, cxt))
      else crash
  run_fn auth_key_fn ps cxt = do v ← run_auth_key sys crypto (param (codes "key") ps); pure (v, cxt)
  run_fn receive_fn ps cxt = do
    run_receive sys crypto ps (get cxt (codes "SSH_CONNECTION"))
    pure (nothing, cxt)
