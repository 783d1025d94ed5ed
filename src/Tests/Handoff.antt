-- ===== src/Tests/Handoff.antt =====
-- The theorem on the way from `Receive` to the hook, at a concrete input: a shell that takes the first
-- entry of a variable.
use sa_builder.Base.{
  ◌≡◌, refl, sym, ap, ◌∙◌, Bytes, codes, List, [], ◌∷◌, ◌++◌, Option, none, some, All, eqb,
  append_assoc, Option-cases, inl, inr,
}
use mathlib.Core.List.{map}
use sa_builder.FilePath.{join_path}
use sa_builder.Strings.{strip_prefix, has_prefix}
use sa_builder.Strings.Laws.{strip_prefix-append}
use sa_builder.System.{Cmd}
use sa_builder.Git.RepoName.{repo_of_name, repo_path, shell_command}
use sa_builder.Git.Receive.{git_shell_cmd}
use sa_builder.Gitreceive.Config.{app, check_durations}
use sa_builder.Gitreceive.Run.{run}
use sa_builder.Gitreceive.Run.Laws.{write_line, build_all}
use sa_builder.Handoff.{
  Shell, IsNotFor, entry, IsShell, hook_env, assigned, IsRead, IsClear, IsPlainWord, handoff,
}
use sa_builder.Tests.{linux, settings, poll_thrice}
use sa_builder.Tests.Gitreceive.{accept_all, line, line-HasNoSpace}

abbrev or_else : Option Bytes → Bytes → Bytes
or_else none rest = rest
or_else (some v) rest = v

first_entry : List Bytes → Bytes → Bytes
first_entry [] key = []
first_entry (e ∷ env) key = or_else (strip_prefix e (key ++ codes "=")) (first_entry env key)

abbrev bash : Shell
bash = record { variable = first_entry; word = λ s. s }

no_strip : (e key : Bytes) → IsNotFor key e → strip_prefix e (key ++ codes "=") ≡ none
unfolding has_prefix
no_strip e key h = elim (Option-cases (strip_prefix e (key ++ codes "="))) [
  | inl f ↦ f
  | inr (v, f) ↦ absurd (cc (f, h))
]

strip_entry : (key value : Bytes) → strip_prefix (entry key value) (key ++ codes "=") ≡ some value
strip_entry key value =
    ap (λ s. strip_prefix s (key ++ codes "=")) (sym (append_assoc key (codes "=") value))
    ∙ strip_prefix-append (key ++ codes "=") value

first_entry_lem :
    (before after : List Bytes) (key value : Bytes)
    → All (IsNotFor key) before
    → first_entry (before ++ entry key value ∷ after) key ≡ value
unfolding first_entry
first_entry_lem [] after key value _ = rw (strip_entry key value) refl
first_entry_lem (e ∷ before) after key value (h, hs) =
    rw (no_strip e key h) (first_entry_lem before after key value hs)

bash-IsShell : IsShell bash
bash-IsShell = record {
  has_value = λ before after key value _ hs _. first_entry_lem before after key value hs;
  is_word = λ s _. refl;
}

abbrev builder_env : List Bytes
builder_env = codes "PATH=/bin" ∷ codes "POD_NAMESPACE=deis" ∷ []

abbrev git_env : List Bytes
git_env = codes "GIT_DIR=." ∷ []

env-IsClear : IsClear (builder_env ++ git_env)
unfolding has_prefix strip_prefix
env-IsClear = (
  (refl, (refl, (refl, tt))),
  (refl, (refl, (refl, tt))),
  (refl, (refl, (refl, tt))),
  (refl, (refl, (refl, tt))),
  (refl, (refl, (refl, tt))),
)

abbrev push_cmd : Cmd
push_cmd =
    git_shell_cmd (codes "/home/git") (codes "git-receive-pack") (repo_of_name (codes "my.app"))
      (codes "00:11") (codes "0 0 0 0") builder_env

settings-IsRead :
    IsRead settings (hook_env (codes "/home/git") (first_entry (push_cmd.env ++ git_env)))
unfolding first_entry hook_env assigned git_shell_cmd shell_command strip_prefix repo_of_name eqb
settings-IsRead = (refl, refl, refl, refl, refl, refl, refl)

home_plain : IsPlainWord (codes "/home/git")
home_plain = (refl, (refl, (refl, (refl, (refl, (refl, (refl, (refl, (refl, tt)))))))))

handoff_example :
    let conf = check_durations settings in
    (app conf ≡ codes "my.app")
    × (join_path (conf.git_home ∷ conf.repository ∷ [])
        ≡ repo_path (codes "/home/git") (repo_of_name (codes "my.app")))
    × (conf.username ≡ codes "builder")
    × (conf.fingerprint ≡ codes "00:11")
    × (conf.ssh_connection ≡ codes "0 0 0 0")
    × (run linux accept_all poll_thrice conf none (map write_line (line ∷ [])) none []
        ≡ build_all linux accept_all poll_thrice conf (line ∷ []) [])
handoff_example =
    handoff bash bash-IsShell linux accept_all poll_thrice (codes "/home/git") (codes "my.app")
      (codes "00:11") (codes "0 0 0 0") builder_env git_env settings (line ∷ []) [] home_plain
      env-IsClear settings-IsRead (line-HasNoSpace, tt)
