-- ===== src/Gitreceive/Run.antt =====
-- pkg/gitreceive/run.go. The lines are those that the scanner gives, and the error is what it ends
-- with; the client of the cluster is made once, by a library.
pub mod Laws
use sa_builder.Base.{
  Bytes, codes, List, [], ◌∷◌, ◌++◌, true, false, Option, none, some, Outcome, ok, err, panic, M,
  ◌>>=◌, ◌>>◌, pure, fail, guard_nil,
}
use sa_builder.Strings.{has_prefix, split}
use sa_builder.System.{Call, System}
use sa_builder.Gitreceive.Config.{Config}
use sa_builder.Gitreceive.Wait.{Poll}
use sa_builder.Gitreceive.Build.{build}

-- The old revision, the new one and the name of the reference.
pub record PushLine : Type 0 where
  pub old_rev : Bytes
  pub new_rev : Bytes
  pub ref_name : Bytes

unfoldable pub malformed : Bytes → Bytes
malformed line = codes "malformed line [" ++ (line ++ codes "]")

unfoldable pub read_parts : Bytes → List Bytes → Outcome PushLine
read_parts line (a ∷ b ∷ c ∷ []) = ok (record { old_rev = a; new_rev = b; ref_name = c })
read_parts line _ = err (malformed line)

unfoldable pub read_line : Bytes → Outcome PushLine
unfolding read_parts
read_line line = read_parts line (split line b' ')

unfoldable pub reading_stdin : Bytes → Bytes
reading_stdin e = codes "reading STDIN (" ++ (e ++ codes ")")

module _ (sys : System) (unmarshal : Bytes → Option Bytes) (poll : Poll) where
  -- One round: the build runs only behind a `git-receive-pack`.
  unfoldable pub receive_line : Config → Outcome PushLine → M Call (Unit {0})
  receive_line conf (err e) = fail (reading_stdin e)
  receive_line conf panic = λ h. (panic, h)
  receive_line conf (ok line) =
      elim (has_prefix conf.ssh_original_command (codes "git-receive-pack")) [
        | true ↦ build sys unmarshal poll conf line.new_rev
        | false ↦ pure tt
      ]

  -- `for scanner.Scan()`, and the scanner's error behind it
  unfoldable pub receive_lines : Config → List Bytes → Option Bytes → M Call (Unit {0})
  receive_lines conf [] scan_error = guard_nil scan_error (λ e. e)
  receive_lines conf (line ∷ lines) scan_error = do
    receive_line conf (read_line line)
    receive_lines conf lines scan_error

  unfoldable pub run : Config → Option Bytes → List Bytes → Option Bytes → M Call (Unit {0})
  run conf client_error lines scan_error = do
    guard_nil client_error (λ e. codes "couldn't reach the api server (" ++ (e ++ codes ")"))
    receive_lines conf lines scan_error
