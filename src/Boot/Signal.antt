-- ===== src/Boot/Signal.antt =====
-- What a signal stops: `KillOnExit` of pkg/commands.go on the boot route of pkg/routes.go.
use sa_builder.Base.{ℕ, ◌≡◌, refl, Bytes, codes, List, [], ◌∷◌, Option, none, some, ok}
use sa_builder.Base.Int.{ℤ}
use sa_builder.System.{Call, History, System}
use sa_builder.Cookoo.{router, Contexts, Dispatcher, Runner, handle_request-ok}
use sa_builder.Sshd.Keys.{Crypto}
use sa_builder.Sshd.Server.{Routes}
use sa_builder.Sshd.HostKeys.{gen_ssh_keys}
use sa_builder.Commands.{kill_each}
use sa_builder.Routes.{Fn, registry, boot_route}
use sa_builder.Boot.Tasks.{runs as boot_runs, boot_tasks_ok}
use sa_builder.Boot.Laws.{find_boot_route}

module _ (sys : System) (crypto : Crypto) (exec_value : Bytes → Bytes) (marshal : ℕ → Bytes)
    (parse_private_key : Bytes → Option Bytes) (routes : Routes) (C : Contexts)
    (D : Dispatcher C Fn) where
  open C use {Context, get}

  abbrev runs : Runner C Fn
  runs = boot_runs sys crypto exec_value marshal parse_private_key routes C

  -- The boot route takes over the signals and starts the wait for one, in a context that holds the
  -- router and nothing under `enableV1` and `sshdstart`, if `ssh-keygen` succeeds. What is run behind
  -- a signal, whenever it comes, then looks for no process and kills none.
  pub boot_kills_nothing :
      (c0 : Context) (h : History) {h1 : History}
      → get c0 (codes "enableV1") ≡ none
      → get c0 (codes "sshdstart") ≡ none
      → get c0 (codes "cookoo.Router") ≡ some router
      → gen_ssh_keys sys parse_private_key h ≡ (ok tt, h1)
      → (c : Context) × (pids : List (Option ℤ)) × (h2 : History) × (D.handle_request runs registry
            (codes "boot")
            c0
            h
          ≡ (ok (c, none), Call.spawn_watch pids ∷ Call.notify_signals ∷ h2))
        × ((later : History) → kill_each sys pids 0 later ≡ (ok 0, later))
  unfolding kill_each
  boot_kills_nothing c0 h v1 start rt gen =
      let (c, keys, h2, e, there, found) =
        boot_tasks_ok sys crypto exec_value marshal parse_private_key routes C c0 h v1 start rt
          gen in
      (
        c,
        none ∷ [],
        h2,
        handle_request-ok C D runs registry (codes "boot") boot_route c0 h find_boot_route e,
        (λ later. refl),
      )
