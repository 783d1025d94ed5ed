-- ===== src/Git/RepoName.antt =====
-- `cleanRepoName`, and the path that `Receive` builds from its result.
pub mod Quotes
pub mod Escape
use sa_builder.Base.{
  ℕ, Bytes, codes, List, [], ◌∷◌, ◌++◌, Bool, true, false, Outcome, ok, err, if◌then◌else◌,
}
use sa_builder.Strings.{contains, replace_byte, trim_prefix, trim_suffix}
use sa_builder.FilePath.{dot_dot, slash, join_path}

abbrev pub git_suffix : Bytes
git_suffix = codes ".git"

-- The single quote.
abbrev pub quote : ℕ
quote = 39

-- The value that the code returns beside an error is not used.
unfoldable pub clean_repo_name : Bytes → Outcome Bytes
clean_repo_name [] = err (codes "Empty repo name.")
clean_repo_name (c ∷ s) =
    if contains (c ∷ s) dot_dot
    then err (codes "Cannot change directory in file name.")
    else ok (trim_prefix (trim_suffix (replace_byte (c ∷ s) quote []) git_suffix) slash)

-- `repo += ".git"`
unfoldable pub repo_of_name : Bytes → Bytes
repo_of_name name = name ++ git_suffix

-- `filepath.Join(gitHome, repo)`
unfoldable pub repo_path : Bytes → Bytes → Bytes
repo_path git_home repo = join_path (git_home ∷ repo ∷ [])

-- The argument of `git-shell -c`, and the command in the hook's environment: `%s '%s'`.
unfoldable pub shell_command : Bytes → Bytes → Bytes
shell_command operation repo = operation ++ (codes " '" ++ (repo ++ codes "'"))
