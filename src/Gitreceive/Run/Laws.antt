-- ===== src/Gitreceive/Run/Laws.antt =====
-- What the hook does with the lines of a push.
use sa_builder.Base.{
  ◌≡◌, refl, Bytes, codes, List, [], ◌∷◌, ◌++◌, true, false, Option, none, some, Outcome, ok, err,
  panic, M, Lacks, All, ◌>>◌, pure,
}
use mathlib.Core.List.{map}
use mathlib.Core.Path.{fun_ext, ap, ap₂, ◌∙◌}
use sa_builder.Strings.{has_prefix}
use sa_builder.Strings.Split.{split-append, split_of_Lacks}
use sa_builder.System.{Call, System, History}
use sa_builder.Gitreceive.Config.{Config}
use sa_builder.Gitreceive.Wait.{Poll}
use sa_builder.Gitreceive.Build.{build}
use sa_builder.Gitreceive.Run.{PushLine, read_line, receive_line, receive_lines, run}

-- A push line as Git writes it.
pub write_line : PushLine → Bytes
write_line l = l.old_rev ++ b' ' ∷ (l.new_rev ++ b' ' ∷ l.ref_name)

abbrev pub HasNoSpace : PushLine → Type 0
HasNoSpace l = Lacks b' ' l.old_rev × Lacks b' ' l.new_rev × Lacks b' ' l.ref_name

-- Reading a written line gives its three parts back, if none of them holds a space.
pub read_line-write_line : (l : PushLine) → HasNoSpace l → read_line (write_line l) ≡ ok l
unfolding read_line write_line
read_line-write_line l (ho, hn, hr) = rw (
  split-append l.old_rev _ b' ' ho,
  split-append l.new_rev l.ref_name b' ' hn,
  split_of_Lacks l.ref_name b' ' hr,
)

module _ (sys : System) (unmarshal : Bytes → Option Bytes) (poll : Poll) where
  -- Building the new revisions one behind the other, up to the first that fails.
  pub build_all : Config → List PushLine → M Call (Unit {0})
  build_all conf [] = pure tt
  build_all conf (l ∷ ls) = build sys unmarshal poll conf l.new_rev >> build_all conf ls

  receive_line_git :
      (conf : Config) (l : PushLine)
      → has_prefix conf.ssh_original_command (codes "git-receive-pack") ≡ true
      → receive_line sys unmarshal poll conf (ok l) ≡ build sys unmarshal poll conf l.new_rev
  unfolding receive_line
  receive_line_git conf l e = rw (e, receive_line)

  receive_lines-build_all :
      (conf : Config) (ls : List PushLine)
      → has_prefix conf.ssh_original_command (codes "git-receive-pack") ≡ true
      → All HasNoSpace ls
      → receive_lines sys unmarshal poll conf (map write_line ls) none ≡ build_all conf ls
  unfolding receive_lines build_all
  receive_lines-build_all conf [] e _ = fun_ext (λ h. refl)
  receive_lines-build_all conf (l ∷ ls) e (hl, hs) =
      ap₂ (λ a b. a >> b)
        (ap (receive_line sys unmarshal poll conf) (read_line-write_line l hl)
          ∙ receive_line_git conf l e)
        (receive_lines-build_all conf ls e hs)

  receive_line_other :
      (conf : Config) (r : Outcome PushLine) (k : M Call (Unit {0})) (h : History)
      → has_prefix conf.ssh_original_command (codes "git-receive-pack") ≡ false
      → (k h).1 ≡ h
      → ((receive_line sys unmarshal poll conf r >> k) h).1 ≡ h
  unfolding receive_line
  receive_line_other conf (ok l) k h e q = rw (e, receive_line) q
  receive_line_other conf (err m) k h e q = refl
  receive_line_other conf panic k h e q = refl

  receive_lines_other :
      (conf : Config) (lines : List Bytes) (scan_error : Option Bytes) (h : History)
      → has_prefix conf.ssh_original_command (codes "git-receive-pack") ≡ false
      → (receive_lines sys unmarshal poll conf lines scan_error h).1 ≡ h
  unfolding receive_lines
  receive_lines_other conf [] none h e = refl
  receive_lines_other conf [] (some m) h e = refl
  receive_lines_other conf (line ∷ lines) scan_error h e =
      receive_line_other conf (read_line line)
        (receive_lines sys unmarshal poll conf lines scan_error) h e
        (receive_lines_other conf lines scan_error h e)

  -- Behind a `git-receive-pack` the hook builds the new revision of each line in turn, up to the
  -- first build that fails, if it reached the cluster, the lines are as Git writes them, and the
  -- input ends without an error.
  pub run-build_all :
      (conf : Config) (ls : List PushLine) (h : History)
      → has_prefix conf.ssh_original_command (codes "git-receive-pack") ≡ true
      → All HasNoSpace ls
      → run sys unmarshal poll conf none (map write_line ls) none h ≡ build_all conf ls h
  unfolding run
  run-build_all conf ls h e ok_lines = ap (λ m. m h) (receive_lines-build_all conf ls e ok_lines)

  -- Behind any other command the hook makes no call, whatever the lines are.
  pub run_other :
      (conf : Config) (lines : List Bytes) (scan_error : Option Bytes) (h : History)
      → has_prefix conf.ssh_original_command (codes "git-receive-pack") ≡ false
      → (run sys unmarshal poll conf none lines scan_error h).1 ≡ h
  unfolding run
  run_other conf lines scan_error h e = receive_lines_other conf lines scan_error h e
