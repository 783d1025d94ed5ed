-- ===== src/Git/RepoName/Quotes.antt =====
-- A cleaned name cannot end the quotes that it is put in.
use sa_builder.Base.{
  ◌≡◌, refl, Bytes, codes, [], ◌∷◌, ◌++◌, append_assoc, false, ok, Lacks, All-append, arith,
}
use sa_builder.Strings.{contains, replace_byte, trim_prefix, trim_suffix, split}
use sa_builder.Strings.Laws.{replace_byte-Lacks, trim_prefix-Lacks, trim_suffix-Lacks}
use sa_builder.Strings.Split.{split-append}
use sa_builder.FilePath.{dot_dot, slash}
use sa_builder.Git.RepoName.{clean_repo_name, repo_of_name, shell_command, quote, git_suffix}

-- What an accepted name is cleaned to.
pub clean_repo_name_sound :
    (name : Bytes) {r : Bytes}
    → clean_repo_name name ≡ ok r
    → (contains name dot_dot ≡ false)
      × (r ≡ trim_prefix (trim_suffix (replace_byte name quote []) git_suffix) slash)
unfolding clean_repo_name
clean_repo_name_sound [] h = cc
clean_repo_name_sound (c ∷ s) h = ground arith

clean_repo_name-Lacks : (name : Bytes) {r : Bytes} → clean_repo_name name ≡ ok r → Lacks quote r
clean_repo_name-Lacks name h =
    let (_, e) = clean_repo_name_sound name h in
    rw e (
      trim_prefix-Lacks quote _ slash
        (trim_suffix-Lacks quote _ git_suffix (replace_byte-Lacks name quote [] tt)))

-- The shell command of an accepted name splits at its quotes into the operation, the repository
-- and nothing else, if the operation has no quote: the name cannot leave its quotes.
pub shell_command-split :
    (operation name : Bytes) {r : Bytes}
    → Lacks quote operation
    → clean_repo_name name ≡ ok r
    → split (shell_command operation (repo_of_name r)) quote
      ≡ (operation ++ codes " ") ∷ repo_of_name r ∷ [] ∷ []
unfolding shell_command repo_of_name
shell_command-split operation name {r} ho h =
    rw
      (
        ← append_assoc operation (codes " ") (quote ∷ ((r ++ git_suffix) ++ codes "'")),
        split-append (operation ++ codes " ") ((r ++ git_suffix) ++ codes "'") quote
            (All-append _ operation (codes " ") ho (omega arith)),
        split-append (r ++ git_suffix) [] quote
            (All-append _ r git_suffix (clean_repo_name-Lacks name h) (omega arith)),
      )
      (unfold split in refl)
