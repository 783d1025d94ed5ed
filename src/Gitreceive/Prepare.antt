-- ===== src/Gitreceive/Prepare.antt =====
-- The first part of `build` in pkg/gitreceive/build.go, up to the type of the build, which
-- build_type.go finds. Logging is left out; `yaml.Unmarshal` is a parameter.
use sa_builder.Base.{
  Bytes, codes, List, [], ◌∷◌, ◌++◌, Option, M, ◌>>=◌, ◌>>◌, pure, fail, call, guard_nil,
}
use sa_builder.FilePath.{join_path}
use sa_builder.Strings.{join}
use sa_builder.System.{Call, System, Cmd, got, failed, entry}
use sa_builder.Gitreceive.Sha.{Sha}
use sa_builder.Gitreceive.Config.{Config, app}
use sa_builder.Gitreceive.Storage.{SlugBuilderInfo, new_slug_builder_info}

pub data BuildType : Type 0 where
  build_type_procfile build_type_dockerfile : BuildType

-- `repoCmd`; the child has the environment of the hook.
unfoldable pub repo_cmd : Bytes → List Bytes → Cmd
repo_cmd repo_dir args = record { args = args; dir = repo_dir; env = [] }

-- The messages of `fmt.Errorf`.
abbrev pub in_parentheses : Bytes → Bytes → Bytes
in_parentheses what e = what ++ (codes " (" ++ (e ++ codes ")"))

abbrev pub cmd_failed : Cmd → Bytes → Bytes
cmd_failed cmd e = in_parentheses (codes "running " ++ join (Cmd.args cmd) (codes " ")) e

-- What the first part of `build` leaves to the rest.
pub record Prepared : Type 0 where
  pub repo_dir : Bytes
  pub slug_name : Bytes
  pub info : SlugBuilderInfo
  pub build_type : BuildType

-- `run`, the command's `Run`
abbrev pub run : System → Cmd → M Call (Option Bytes)
run sys cmd = call (Call.run_cmd cmd) (λ h. System.run_cmd sys h cmd)

module _ (sys : System) (unmarshal : Bytes → Option Bytes) where
  unfoldable pub get_build_type_for_dir : Bytes → M Call BuildType
  get_build_type_for_dir dir_name = do
    let file = dir_name ++ codes "/Dockerfile"
    s ← call (Call.stat file) (λ h. System.stat sys h file)
    pure (elim s [ entry _ ↦ build_type_dockerfile | _ ↦ build_type_procfile ])

  -- The Procfile is read and parsed, and its content is not used.
  unfoldable pub check_procfile : Bytes → BuildType → M Call (Unit {0})
  check_procfile tmp_dir build_type_dockerfile = pure tt
  check_procfile tmp_dir build_type_procfile = do
    let file = tmp_dir ++ codes "/Procfile"
    raw ← call (Call.read_file file) (λ h. System.read_file sys h file)
    elim raw [
      | failed e ↦ fail (codes "reading " ++ (tmp_dir ++ codes "/Procfile"))
      | got text ↦
          guard_nil (unmarshal text)
            (in_parentheses (codes "procfile " ++ (tmp_dir ++ codes "/ProcFile is malformed")))
    ]

  -- From the directories to the type of the build.
  unfoldable pub prepare : Config → Sha → M Call Prepared
  unfolding get_build_type_for_dir check_procfile
  prepare conf sha = do
    let repo_dir = join_path (conf.git_home ∷ conf.repository ∷ [])
    let build_dir = join_path (repo_dir ∷ codes "build" ∷ [])
    let slug_name = app conf ++ (codes ":git-" ++ sha.short)
    e ← call (Call.mkdir_all build_dir 0x80000000) (λ h. System.mkdir_all sys h build_dir)
    guard_nil e (in_parentheses (codes "making the build directory " ++ build_dir))
    let tmp_dir = build_dir ++ sha.short
    e' ← call (Call.mkdir_all tmp_dir 0o777) (λ h. System.mkdir_all sys h tmp_dir)
    guard_nil e' (in_parentheses (codes "unable to create tmpdir " ++ build_dir))
    info ← new_slug_builder_info sys (app conf) slug_name sha
    let app_tgz = app conf ++ codes ".tar.gz"
    let archive = repo_cmd repo_dir (
        codes "git"
        ∷ codes "archive"
        ∷ codes "--format=tar.gz"
        ∷ (codes "--output=" ++ app_tgz)
        ∷ sha.short
        ∷ [])
    e'' ← run sys archive
    guard_nil e'' (cmd_failed archive)
    let untar =
        repo_cmd repo_dir
          (codes "tar" ∷ codes "-xzf" ∷ app_tgz ∷ codes "-C" ∷ (tmp_dir ++ codes "/") ∷ [])
    e''' ← run sys untar
    guard_nil e''' (cmd_failed untar)
    b_type ← get_build_type_for_dir tmp_dir
    check_procfile tmp_dir b_type
    pure (record { repo_dir = repo_dir; slug_name = slug_name; info = info; build_type = b_type })
