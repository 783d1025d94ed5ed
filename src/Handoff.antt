-- ===== src/Handoff.antt =====
-- From `Receive` of pkg/git/git.go to the settings of pkg/gitreceive/config.go: the environment of
-- `git-shell`, the assignments in the text of the hook, and the tags of the settings. The shell that
-- runs the hook is a parameter.
use sa_builder.Base.{
  ◌≡◌, refl, ap, ◌∙◌, Bytes, codes, List, [], ◌∷◌, ◌++◌, Bool, true, false, none, Option, All,
  Lacks, leb, ℕ, ◌&&◌, ◌||◌, arith, eqb, if◌then◌else◌,
}
use mathlib.Core.List.{map}
use mathlib.Core.Path.{ap₂}
use sa_builder.FilePath.{join_path}
use sa_builder.Strings.{has_prefix, strip_prefix}
use sa_builder.Strings.Laws.{has_prefix-append}
use sa_builder.System.{System, History, Cmd}
use sa_builder.Git.RepoName.{repo_of_name, repo_path, shell_command}
use sa_builder.Git.Receive.{git_shell_cmd}
use sa_builder.Gitreceive.Config.{Config, app, check_durations}
use sa_builder.Gitreceive.Config.Laws.{app_of_git}
use sa_builder.Gitreceive.Wait.{Poll}
use sa_builder.Gitreceive.Run.{PushLine, run}
use sa_builder.Gitreceive.Run.Laws.{write_line, HasNoSpace, build_all, run-build_all}

-- The shell: the value of a variable, given its environment, and of a text without quotes.
pub record Shell : Type 0 where
  pub variable : List Bytes → Bytes → Bytes
  pub word : Bytes → Bytes

abbrev pub entry : Bytes → Bytes → Bytes
entry key value = key ++ (codes "=" ++ value)

abbrev pub IsNotFor : Bytes → Bytes → Type 0
IsNotFor key e = has_prefix e (key ++ codes "=") ≡ false

-- A slash, a digit or a small letter, none of which means anything to the shell.
abbrev pub is_plain_byte : ℕ → Bool
is_plain_byte c = (leb b'/' c && leb c b'9') || (leb b'a' c && leb c b'z')

abbrev pub IsPlainWord : Bytes → Type 0
IsPlainWord = All (λ c. is_plain_byte c ≡ true)

-- What is documented of it: a variable with one entry in the environment has that value, and a text
-- without special characters stands for itself. Of two entries for one variable nothing is assumed.
pub record IsShell (shell : Shell) : Type 0 where
  pub has_value :
      (before after : List Bytes) (key value : Bytes)
      → Lacks b'=' key
      → All (IsNotFor key) before
      → All (IsNotFor key) after
      → shell.variable (before ++ entry key value ∷ after) key ≡ value
  pub is_word : (s : Bytes) → IsPlainWord s → shell.word s ≡ s

-- The assignments in front of `boot git-receive` in the hook.
unfoldable pub hook_env : Bytes → (Bytes → Bytes) → List (Bytes × Bytes)
hook_env git_home var =
    (codes "GIT_HOME", git_home)
    ∷ (codes "SSH_CONNECTION", var (codes "SSH_CONNECTION"))
    ∷ (codes "SSH_ORIGINAL_COMMAND", var (codes "SSH_ORIGINAL_COMMAND"))
    ∷ (codes "REPOSITORY", var (codes "RECEIVE_REPO"))
    ∷ (codes "USERNAME", var (codes "RECEIVE_USER"))
    ∷ (codes "FINGERPRINT", var (codes "RECEIVE_FINGERPRINT"))
    ∷ (codes "POD_NAMESPACE", var (codes "POD_NAMESPACE"))
    ∷ []

unfoldable pub assigned : Bytes → List (Bytes × Bytes) → Bytes
unfolding eqb
assigned key [] = []
assigned key ((name, value) ∷ vars) =
    let rest = assigned key vars in if eqb name key then value else rest

-- The settings that the tags of the hook's variables name.
abbrev pub IsRead : Config → List (Bytes × Bytes) → Type 0
IsRead cnf vars =
    (cnf.git_home ≡ assigned (codes "GIT_HOME") vars)
    × (cnf.ssh_connection ≡ assigned (codes "SSH_CONNECTION") vars)
    × (cnf.ssh_original_command ≡ assigned (codes "SSH_ORIGINAL_COMMAND") vars)
    × (cnf.repository ≡ assigned (codes "REPOSITORY") vars)
    × (cnf.username ≡ assigned (codes "USERNAME") vars)
    × (cnf.fingerprint ≡ assigned (codes "FINGERPRINT") vars)
    × (cnf.pod_namespace ≡ assigned (codes "POD_NAMESPACE") vars)

-- The environment of the builder has no entry for what `Receive` adds.
abbrev pub IsClear : List Bytes → Type 0
IsClear environ =
    All (IsNotFor (codes "RECEIVE_USER")) environ
    × All (IsNotFor (codes "RECEIVE_REPO")) environ
    × All (IsNotFor (codes "RECEIVE_FINGERPRINT")) environ
    × All (IsNotFor (codes "SSH_ORIGINAL_COMMAND")) environ
    × All (IsNotFor (codes "SSH_CONNECTION")) environ

module _ (shell : Shell) (law : IsShell shell) (git_home operation repo fp conn : Bytes)
    (environ : List Bytes) (clear : IsClear environ) where
  abbrev env : List Bytes
  env = Cmd.env (git_shell_cmd git_home operation repo fp conn environ)

  abbrev user_entry : Bytes
  user_entry = codes "RECEIVE_USER=builder"

  abbrev repo_entry : Bytes
  repo_entry = codes "RECEIVE_REPO=" ++ repo

  abbrev fingerprint_entry : Bytes
  fingerprint_entry = codes "RECEIVE_FINGERPRINT=" ++ fp

  abbrev command_entry : Bytes
  command_entry = codes "SSH_ORIGINAL_COMMAND=" ++ shell_command operation repo

  abbrev conn_entry : Bytes
  conn_entry = codes "SSH_CONNECTION=" ++ conn

  in_shell :
      (shell.variable env (codes "RECEIVE_USER") ≡ codes "builder")
      × (shell.variable env (codes "RECEIVE_REPO") ≡ repo)
      × (shell.variable env (codes "RECEIVE_FINGERPRINT") ≡ fp)
      × (shell.variable env (codes "SSH_ORIGINAL_COMMAND") ≡ shell_command operation repo)
      × (shell.variable env (codes "SSH_CONNECTION") ≡ conn)
  unfolding git_shell_cmd has_prefix strip_prefix
  in_shell = (
    law.has_value ([]) (repo_entry ∷ fingerprint_entry ∷ command_entry ∷ conn_entry ∷ environ)
        (codes "RECEIVE_USER") (codes "builder") (omega arith) tt
        (refl, (refl, (refl, (refl, clear.0)))),
    law.has_value (user_entry ∷ []) (fingerprint_entry ∷ command_entry ∷ conn_entry ∷ environ)
        (codes "RECEIVE_REPO") repo (omega arith) (refl, tt) (refl, (refl, (refl, clear.1))),
    law.has_value (user_entry ∷ repo_entry ∷ []) (command_entry ∷ conn_entry ∷ environ)
        (codes "RECEIVE_FINGERPRINT") fp (omega arith) (refl, (refl, tt)) (refl, (refl, clear.2)),
    law.has_value (user_entry ∷ repo_entry ∷ fingerprint_entry ∷ []) (conn_entry ∷ environ)
        (codes "SSH_ORIGINAL_COMMAND") (shell_command operation repo) (omega arith)
        (refl, (refl, (refl, tt))) (refl, clear.3),
    law.has_value (user_entry ∷ repo_entry ∷ fingerprint_entry ∷ command_entry ∷ []) (environ)
        (codes "SSH_CONNECTION") conn (omega arith) (refl, (refl, (refl, (refl, tt)))) clear.4,
  )

module _ (shell : Shell) (law : IsShell shell) (sys : System) (unmarshal : Bytes → Option Bytes)
    (poll : Poll) where
  -- What `Receive` hands to the hook of a push is what the hook builds. The settings of the hook, the
  -- checked ones, name the application that `Receive` was given, the repository that it made, and
  -- its user, fingerprint and connection; and the hook builds the new revision of each line. The
  -- path of the Git home is of small letters, digits and slashes. Git passes the environment of
  -- `git-shell` on, and neither the builder's own environment nor what Git adds sets a variable of
  -- `Receive`. The shell works as documented, the settings are the hook's assignments, and the lines
  -- are as Git writes them and end without an error.
  pub handoff :
      (git_home name fp conn : Bytes) (environ added : List Bytes) (cnf : Config)
      (ls : List PushLine) (h : History)
      → IsPlainWord git_home
      → IsClear (environ ++ added)
      → (let repo = repo_of_name name in
          let cmd = git_shell_cmd git_home (codes "git-receive-pack") repo fp conn environ in
          IsRead cnf (hook_env (shell.word git_home) (shell.variable (Cmd.env cmd ++ added))))
      → All HasNoSpace ls
      → let conf = check_durations cnf in
        (app conf ≡ name)
        × (join_path (conf.git_home ∷ conf.repository ∷ [])
            ≡ repo_path git_home (repo_of_name name))
        × (conf.username ≡ codes "builder")
        × (conf.fingerprint ≡ fp)
        × (conf.ssh_connection ≡ conn)
        × (run sys unmarshal poll conf none (map write_line ls) none h
            ≡ build_all sys unmarshal poll conf ls h)
  unfolding git_shell_cmd hook_env assigned check_durations eqb repo_of_name repo_path shell_command
  handoff git_home name fp conn environ added cnf ls h plain clear
        (home, con, cmd, rep, user, finger, ns) hs =
      let repo = repo_of_name name in
      let conf = check_durations cnf in
      let there =
        in_shell shell law git_home (codes "git-receive-pack") repo fp conn (environ ++ added)
          clear in
      let same_repo : conf.repository ≡ repo = rep ∙ there.1 in
      (
        app_of_git conf name same_repo,
        ap₂ (λ a b. join_path (a ∷ b ∷ [])) (home ∙ law.is_word git_home plain) same_repo,
        user ∙ there.0,
        finger ∙ there.2,
        con ∙ there.4,
        run-build_all sys unmarshal poll conf ls h
            (ap (λ s. has_prefix s (codes "git-receive-pack")) (cmd ∙ there.3)
              ∙ has_prefix-append (codes "git-receive-pack") (codes " '" ++ (repo ++ codes "'")))
            hs,
      )
