-- ===== src/Git/Repo.antt =====
-- `createRepo` and `createPreReceiveHook` of pkg/git/git.go. Logging is left out.
pub mod Laws
use sa_builder.Base.{
  Bytes, codes, List, [], ◌∷◌, ◌++◌, Bool, true, false, Option, none, some, Outcome, ok, err, M,
  ◌>>=◌, ◌>>◌, pure, fail, call, guard_nil,
}
use sa_builder.FilePath.{join_path}
use sa_builder.System.{Call, System, Cmd, Stat, entry, missing, stat_failed}

-- `createLock.Lock()` with `defer createLock.Unlock()`
unfoldable pub locked : {A : Type 0} → M Call A → M Call A
locked m h = let (r, h') = m (Call.lock ∷ h) in (r, Call.unlock ∷ h')

unfoldable pub git_init_cmd : Bytes → Cmd
git_init_cmd repo_path = record {
  args = codes "git" ∷ codes "init" ∷ codes "--bare" ∷ [];
  dir = repo_path;
  env = [];
}

-- The template of the hook around the Git home.
abbrev hook_before : Bytes
hook_before =
    codes
      "#!/bin/bash\nstrip_remote_prefix() {\n    stdbuf -i0 -o0 -e0 sed \"s/^/\"$'\\e[1G'\"/\"\n}\n\nGIT_HOME="

abbrev hook_after : Bytes
hook_after =
    codes
      " \\\nSSH_CONNECTION=\"$SSH_CONNECTION\" \\\nSSH_ORIGINAL_COMMAND=\"$SSH_ORIGINAL_COMMAND\" \\\nREPOSITORY=\"$RECEIVE_REPO\" \\\nUSERNAME=\"$RECEIVE_USER\" \\\nFINGERPRINT=\"$RECEIVE_FINGERPRINT\" \\\nPOD_NAMESPACE=\"$POD_NAMESPACE\" \\\nboot git-receive | strip_remote_prefix\n"

unfoldable pub hook_text : Bytes → Bytes
hook_text git_home = hook_before ++ (git_home ++ hook_after)

unfoldable pub hook_path : Bytes → Bytes
hook_path repo_path = join_path (repo_path ∷ codes "hooks" ∷ codes "pre-receive" ∷ [])

module _ (sys : System) where
  -- The directory and the empty repository in it.
  unfoldable pub init_repo : Bytes → M Call Bool
  init_repo repo_path = do
    e ← call (Call.mkdir_all repo_path 0o755) (λ h. System.mkdir_all sys h repo_path)
    guard_nil e (λ m. m)
    let cmd = git_init_cmd repo_path
    e' ← call (Call.run_cmd cmd) (λ h. System.run_cmd sys h cmd)
    guard_nil e' (λ m. m)
    pure true

  -- What follows `os.Stat`.
  unfoldable pub on_stat : Bytes → Stat → M Call Bool
  on_stat repo_path (entry true) = pure false
  on_stat repo_path (missing e) = init_repo repo_path
  on_stat repo_path (entry false) = fail (codes "Expected directory, found file.")
  on_stat repo_path (stat_failed e) = fail e

  unfoldable pub create_repo : Bytes → M Call Bool
  create_repo repo_path =
      locked
        do fi ← call (Call.stat repo_path) (λ h. System.stat sys h repo_path); on_stat repo_path fi

  unfoldable pub create_pre_receive_hook : Bytes → Bytes → M Call (Unit {0})
  create_pre_receive_hook git_home repo_path = do
    let path = hook_path repo_path
    e ← call (Call.write_file path (hook_text git_home) 0o755) (λ h. System.write_file sys h path)
    guard_nil e (λ m.
        codes "Cannot write pre-receive hook to " ++ (path ++ (codes " (" ++ (m ++ codes ")"))))
