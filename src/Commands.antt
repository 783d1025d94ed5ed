-- ===== src/Commands.antt =====
-- `KillOnExit` of pkg/commands.go. The goroutine waits for a signal and then runs its loop; the call
-- that starts it carries what the loop reads of the parameters. They come as a map in the source,
-- and here in the order in which the loop happens to take them.
use sa_builder.Base.{ℕ, suc, List, [], ◌∷◌, Option, none, some, Bytes, M, ◌>>=◌, ◌>>◌, pure, call}
use sa_builder.Base.Int.{ℤ}
use sa_builder.System.{Call, System}
use sa_builder.Cookoo.{Value, integer, Params}

-- `pid.(int)` of each parameter, none where it is no integer
abbrev pub as_int : Value → Option ℤ
as_int (integer pid) = some pid
as_int _ = none

unfoldable pub process_ids : Params → List (Option ℤ)
process_ids [] = []
process_ids ((name, v) ∷ ps) = as_int v ∷ process_ids ps

unfoldable pub kill_on_exit : Params → M Call (Unit {0})
kill_on_exit ps = do
  call {A = Unit {0}} Call.notify_signals (λ h. tt)
  call (Call.spawn_watch (process_ids ps)) (λ h. tt)

module _ (sys : System) where
  -- `proc.Kill()`, of which the error is dropped, if the process was found
  unfoldable pub kill_found : ℤ → ℕ → Option Bytes → M Call ℕ
  kill_found pid killed (some e) = pure killed
  kill_found pid killed none = do
    call {A = Unit {0}} (Call.kill_process pid) (λ h. tt)
    pure (suc killed)

  -- The loop behind a signal.
  unfoldable pub kill_each : List (Option ℤ) → ℕ → M Call ℕ
  kill_each [] killed = pure killed
  kill_each (none ∷ pids) killed = kill_each pids killed
  kill_each (some pid ∷ pids) killed = do
    e ← call (Call.find_process pid) (λ h. System.find_process sys h pid)
    killed' ← kill_found pid killed e
    kill_each pids killed'
