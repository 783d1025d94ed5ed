-- ===== src/Git/Receive.antt =====
-- `Receive` of pkg/git/git.go. The router supplies the parameters. Logging is left out, but the
-- fingerprint that one log line shows is computed.
pub mod Laws
use sa_builder.Base.{
  Bytes, codes, List, [], ◌∷◌, ◌++◌, Bool, true, false, Option, none, some, Outcome, ok, err, panic,
  M, ◌>>=◌, ◌>>◌, fail, call, guard_nil, wrap_err, ◌&&◌, if◌then◌else◌,
}
use sa_builder.System.{Call, System, Cmd}
use sa_builder.Sshd.Keys.{Crypto, fingerprint}
use sa_builder.Git.RepoName.{clean_repo_name, repo_of_name, repo_path, shell_command}
use sa_builder.Git.Repo.{create_repo, create_pre_receive_hook}

-- `cookoo.Params`: whether the two required ones are there, and the others with a default.
pub record Params : Type 0 where
  pub has_channel : Bool
  pub has_request : Bool
  pub repo_name : Bytes
  pub operation : Bytes
  pub git_home : Bytes

-- `Missing requirements %q`
abbrev missing_text : Bool → Bool → Bytes
missing_text false true = codes "Missing requirements [\"channel\"]"
missing_text true false = codes "Missing requirements [\"request\"]"
missing_text _ _ = codes "Missing requirements [\"channel\" \"request\"]"

abbrev wrapped : Bytes → Bytes → Bytes
wrapped what e = what ++ (codes " (" ++ (e ++ codes ")"))

unfoldable pub git_shell_cmd : Bytes → Bytes → Bytes → Bytes → Bytes → List Bytes → Cmd
git_shell_cmd git_home operation repo fp conn environ = record {
  args = codes "git-shell" ∷ codes "-c" ∷ shell_command operation repo ∷ [];
  dir = git_home;
  env =
      codes "RECEIVE_USER=builder"
      ∷ (codes "RECEIVE_REPO=" ++ repo)
      ∷ (codes "RECEIVE_FINGERPRINT=" ++ fp)
      ∷ (codes "SSH_ORIGINAL_COMMAND=" ++ shell_command operation repo)
      ∷ (codes "SSH_CONNECTION=" ++ conn)
      ∷ environ;
}

abbrev start_failed : Bytes → Option Bytes → Option Bytes
start_failed text none = none
start_failed text (some e) =
    some (wrapped (codes "Failed to start git pre-receive hook: " ++ e) text)

abbrev wait_failed : Bytes → Option Bytes → Option Bytes
wait_failed text none = none
wait_failed text (some e) = some (wrapped (codes "Failed to run git pre-receive hook: " ++ text) e)

module _ (sys : System) (crypto : Crypto) where
  -- The pipe, the start of the command, the copy and the wait.
  unfoldable pub run_git_shell : Cmd → M Call (Unit {0})
  run_git_shell cmd = do
    e ← call (Call.stdin_pipe cmd) (λ h. System.stdin_pipe sys h)
    guard_nil e (λ m. m)
    e' ←
        call (Call.start_cmd cmd)
          (λ h. start_failed (System.stderr_text sys h) (System.start_cmd sys h cmd))
    guard_nil e' (λ m. m)
    e'' ← call Call.copy_input (λ h. System.copy_input sys h)
    guard_nil e'' (wrapped (codes "Failed to write git objects into the git pre-receive hook"))
    e''' ←
        call (Call.wait_cmd cmd)
          (λ h. wait_failed (System.stderr_text sys h) (System.wait_cmd sys h))
    guard_nil e''' (λ m. m)

  -- The repository and its hook.
  unfoldable pub ready_repo : Bytes → Bytes → M Call (Unit {0})
  ready_repo git_home repo = do
    let path = repo_path git_home repo
    _ ← wrap_err (wrapped (codes "Did not create new repo")) (create_repo sys path)
    wrap_err (wrapped (codes "Did not write pre-receive hook"))
        (create_pre_receive_hook sys git_home path)

  -- The command with its environment, and its run.
  unfoldable pub serve_repo : Bytes → Bytes → Bytes → Bytes → M Call (Unit {0})
  serve_repo git_home operation repo conn = do
    fp ← fingerprint sys crypto
    environ ← call Call.environ (λ h. System.environ sys h)
    run_git_shell (git_shell_cmd git_home operation repo fp conn environ)

  -- The result of `cleanRepoName` decides.
  unfoldable pub receive_name : Bytes → Bytes → Bytes → Outcome Bytes → M Call (Unit {0})
  receive_name git_home operation conn panic = λ h. (panic, h)
  receive_name git_home operation conn (err e) = do
    _ ← call {A = Unit {0}} (Call.stderr_write (codes "No repo given")) (λ h. tt)
    fail e
  receive_name git_home operation conn (ok name) = do
    ready_repo git_home (repo_of_name name)
    serve_repo git_home operation (repo_of_name name) conn

  -- `conn` is the context's `SSH_CONNECTION`, or `0 0 0 0`.
  unfoldable pub receive : Params → Bytes → M Call (Unit {0})
  receive p conn =
      if p.has_channel && p.has_request
      then (do
        _ ← fingerprint sys crypto
        receive_name p.git_home p.operation conn (clean_repo_name p.repo_name))
      else fail (missing_text p.has_channel p.has_request)
