-- ===== src/Boot.antt =====
-- `Run` of pkg/builder.go: the boot route, the names of the other routes and the SSH service. The
-- address is built by `fmt` from the host and the port.
pub mod Tasks
pub mod Laws
pub mod Signal
use sa_builder.Base.{
  ℕ, zero, suc, Bytes, codes, List, [], ◌∷◌, ◌++◌, Bool, true, false, Option, none, some, Outcome,
  ok, err, panic, M, ◌>>=◌, ◌>>◌, pure,
}
use sa_builder.Base.Int.{ℤ}
use sa_builder.Strings.Decimal.{decimal_ℤ}
use sa_builder.System.{Call, History, System}
use sa_builder.Cookoo.{
  Value, text, router, signers, server_config, Contexts, Dispatcher, Runner, as_text,
}
use sa_builder.Sshd.Listener.{Network, Run, serve}
use sa_builder.Routes.{Fn, registry, host_keys_key, server_config_key, address_key, lift}

abbrev pub status_ok : ℕ
status_ok = 0

abbrev pub status_local_error : ℕ
status_local_error = 1

-- `c.Get(HostKeys, ...).([]ssh.Signer)`
abbrev pub as_signers : Option Value → Outcome (List Bytes)
as_signers none = ok []
as_signers (some (signers keys)) = ok keys
as_signers (some _) = panic

-- `c.Get(ServerConfig, ...).(*ssh.ServerConfig)`
abbrev pub check_config : Option Value → Outcome (Unit {0})
check_config none = ok tt
check_config (some server_config) = ok tt
check_config (some _) = panic

-- The status that a run of the SSH service gives.
unfoldable pub status_of : Run → Option (Outcome ℕ × History)
status_of none = none
status_of (some (ok a, h)) = some (ok status_ok, h)
status_of (some (err e, h)) = some (ok status_local_error, h)
status_of (some (panic, h)) = some (panic, h)

unfoldable pub address : Bytes → ℤ → Bytes
address ip port = ip ++ (codes ":" ++ decimal_ℤ port)

module _ (C : Contexts) where
  open C use {Context, get, put}

  -- The host keys and the address that `Serve` takes from the context, with the configuration.
  unfoldable pub serve_inputs : Context → M Call (List Bytes × Bytes)
  serve_inputs cxt = do
    keys ← lift (as_signers (get cxt host_keys_key))
    addr ← lift (as_text (codes "0.0.0.0:2223") (get cxt address_key))
    lift (check_config (get cxt server_config_key))
    pure (keys, addr)

  unfoldable pub serve_from : Network → ℕ → Context → History → Run
  serve_from net fuel cxt h =
      let (r, h') = serve_inputs cxt h in
      elim r [
        | ok (keys, addr) ↦ serve net fuel keys addr h'
        | err e ↦ some (err e, h')
        | panic ↦ some (panic, h')
      ]

  -- What `Run` puts into the context behind the boot.
  unfoldable pub with_names : Bytes → ℤ → Context → Context
  with_names ip port cxt =
      put
        (put
          (put (put cxt address_key (text (address ip port))) (codes "route.sshd.pubkeyAuth")
            (text (codes "pubkeyAuth")))
          (codes "route.sshd.sshPing") (text (codes "sshPing")))
        (codes "route.sshd.sshGitReceive") (text (codes "sshGitReceive"))

  -- What follows the boot route.
  unfoldable pub booted :
      Network
      → ℕ
      → Bytes
      → ℤ
      → Outcome (Context × Option Bytes) × History
      → Option (Outcome ℕ × History)
  booted net fuel ip port (ok (cxt, some e), h) = some (ok status_local_error, h)
  booted net fuel ip port (ok (cxt, none), h) =
      status_of (serve_from net fuel (with_names ip port cxt) h)
  booted net fuel ip port (err e, h) = some (err e, h)
  booted net fuel ip port (panic, h) = some (panic, h)

  -- The empty context is the library's.
  unfoldable pub run :
      Dispatcher C Fn
      → Runner C Fn
      → Context
      → Network
      → ℕ
      → Bytes
      → ℤ
      → History
      → Option (Outcome ℕ × History)
  run D runs empty net fuel ip port h =
      booted net fuel ip port
        (D.handle_request runs registry (codes "boot") (put empty (codes "cookoo.Router") router) h)
