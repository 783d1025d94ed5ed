-- ===== src/Tests/Git.antt =====
-- The theorems on the Git server, at concrete inputs.
use sa_builder.Base.{
  ◌≡◌, Lacks, refl, Bytes, codes, List, [], ◌∷◌, ◌++◌, true, none, ok, All, arith, After,
}
use sa_builder.Strings.{split, join, contains, has_prefix, replace_byte, trim_prefix, trim_suffix}
use sa_builder.FilePath.{slash}
use sa_builder.FilePath.Laws.{IsPlain}
use sa_builder.System.{Call, System}
use sa_builder.Git.RepoName.{
  clean_repo_name, repo_of_name, repo_path, shell_command, quote, git_suffix,
}
use sa_builder.Git.RepoName.Quotes.{shell_command-split}
use sa_builder.Git.RepoName.Escape.{default_git_home, repo_path_below, clean_repo_name_climbs}
use sa_builder.Git.Repo.{create_repo, git_init_cmd, locked, on_stat, init_repo}
use sa_builder.Git.Repo.Laws.{IsInside, IsMissing, create_repo_locks, create_repo-true}
use sa_builder.Git.Receive.{Params, receive}
use sa_builder.Git.Receive.Laws.{Served, NotServed, receive-After}
use sa_builder.Tests.{linux, one_key}

abbrev given : Bytes
given = codes "/my.app.git"

given_cleaned : clean_repo_name given ≡ ok (codes "my.app")
unfolding clean_repo_name contains has_prefix replace_byte trim_prefix trim_suffix
given_cleaned = refl

shell_command-split_example :
    split (shell_command (codes "git-receive-pack") (repo_of_name (codes "my.app"))) quote
    ≡ (codes "git-receive-pack" ++ codes " ") ∷ repo_of_name (codes "my.app") ∷ [] ∷ []
shell_command-split_example =
    shell_command-split (codes "git-receive-pack") given (omega arith) given_cleaned

repo_path_below_example :
    (rest : List Bytes) × All IsPlain rest
    × All (Lacks b'/') rest
    × (repo_path default_git_home (repo_of_name (codes "my.app"))
        ≡ slash ++ join (codes "home" ∷ codes "git" ∷ rest) slash)
repo_path_below_example = repo_path_below given (omega arith) given_cleaned

clean_repo_name_climbs_example :
    (clean_repo_name (codes ".'./" ++ (codes "other" ++ git_suffix))
      ≡ ok (codes "../" ++ codes "other"))
    × (repo_path default_git_home (repo_of_name (codes "../" ++ codes "other"))
        ≡ codes "/home/" ++ (codes "other" ++ git_suffix))
clean_repo_name_climbs_example =
    clean_repo_name_climbs (codes "other") (omega arith) (omega arith) (omega arith)

abbrev place : Bytes
place = codes "/home/git/my.app.git"

create_repo_locks_example :
    (mid : List Call) × All IsInside mid
    × ((create_repo linux place []).1 ≡ Call.unlock ∷ (mid ++ Call.stat place ∷ Call.lock ∷ []))
    × (¬ IsMissing (System.stat linux (Call.lock ∷ []) place) → mid ≡ [])
create_repo_locks_example = create_repo_locks linux place []

place_made : (create_repo linux place []).0 ≡ ok true
unfolding create_repo locked on_stat init_repo
place_made = refl

create_repo-true_example :
    let h1 = Call.stat place ∷ Call.lock ∷ [] in
    IsMissing (System.stat linux (Call.lock ∷ []) place)
    × (System.mkdir_all linux h1 place ≡ none)
    × (System.run_cmd linux (Call.mkdir_all place 0o755 ∷ h1) (git_init_cmd place) ≡ none)
create_repo-true_example = create_repo-true linux place [] place_made

abbrev push : Params
push = record {
  has_channel = true;
  has_request = true;
  repo_name = given;
  operation = codes "git-receive-pack";
  git_home = default_git_home;
}

receive-After_example :
    After
      (receive linux one_key push (codes "0 0 0 0") [])
      (λ _ h'.
        Served linux one_key default_git_home
          (codes "git-receive-pack")
          (codes "0 0 0 0")
          (clean_repo_name given)
          []
          h')
      (NotServed linux one_key default_git_home
        (codes "git-receive-pack")
        (codes "0 0 0 0")
        (clean_repo_name given)
        [])
receive-After_example = receive-After linux one_key push (codes "0 0 0 0") []
