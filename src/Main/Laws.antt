-- ===== src/Main/Laws.antt =====
-- How the program ends, from its arguments to its status.
use sa_builder.Base.{
  ℕ, ◌≡◌, refl, ap, ◌∙◌, ◌⊎◌, inl, inr, Bytes, codes, List, [], ◌∷◌, true, false, Option, none,
  some, Outcome, ok, err, panic, All,
}
use mathlib.Core.List.{map}
use sa_builder.Strings.{has_prefix}
use sa_builder.System.{Call, History, Answer, got, failed}
use sa_builder.Sshd.HostKeys.{gen_ssh_keys, parse_host_keys, ssh_keygen}
use sa_builder.Sshd.Listener.Laws.{IsClosed}
use sa_builder.Sshd.Listener.{add_host_keys}
use sa_builder.Boot.{address}
use sa_builder.Gitreceive.Config.{Config, check_durations, builder_pod_tick, object_storage_tick}
use sa_builder.Gitreceive.Config.Laws.{IsChecked, check_durations-IsChecked}
use sa_builder.Gitreceive.Run.{PushLine}
use sa_builder.Gitreceive.Run.Laws.{write_line, HasNoSpace, build_all, run-build_all}
use sa_builder.Main.{
  ServerConfig, Action, git_receive, commands, find_command, IsCli, Exit, exited, returned,
  exit_on_error, git_receive_conf_app_name, git_receive_action, World, run_action, main,
}

-- The history behind the look at `DEBUG`.
abbrev pub begun : History → History
begun h = Call.getenv (codes "DEBUG") ∷ h

abbrev IsNamed : Bytes → Bytes → Bytes → Type 0
IsNamed name long short = (name ≡ long) ⊎ (name ≡ short)

find_git_receive :
    (name : Bytes)
    → IsNamed name (codes "git-receive") (codes "gr")
    → find_command commands name ≡ some git_receive
unfolding find_command
find_git_receive name (inl e) = rw e refl
find_git_receive name (inr e) = rw e refl

module _ (w : World) (cnf : ServerConfig) where
  abbrev pub addr_of : Bytes
  addr_of = address cnf.ssh_host_ip cnf.ssh_host_port

  -- The host keys that are found behind `ssh-keygen`.
  abbrev pub Found : History → List Bytes → Type 0
  Found h0 keys =
      let h1 = Call.run_cmd ssh_keygen ∷ h0 in
      (gen_ssh_keys w.sys w.parse_private_key h0 ≡ (ok tt, h1))
      × ((h3 : History) × (parse_host_keys w.sys w.parse_private_key false h1 ≡ (ok keys, h3)))

  -- `ssh-keygen` failed, or the address could not be listened on.
  abbrev pub NotStarted : History → History → Type 0
  NotStarted h0 h' =
      ((m : Bytes) × (gen_ssh_keys w.sys w.parse_private_key h0 ≡ (err m, h')))
      ⊎ ((keys : List Bytes) × Found h0 keys
          × (h2 : History) × (e : Bytes) × (w.net.listen_error (add_host_keys keys h2) addr_of
              ≡ some e)
          × (h' ≡ Call.listen addr_of ∷ add_host_keys keys h2))

  -- It listened with these host keys, up to the close.
  abbrev pub Served : History → History → Type 0
  Served h0 h' =
      (keys : List Bytes) × Found h0 keys
      × (h2 : History) × IsClosed w.net (Call.listen addr_of ∷ add_host_keys keys h2) (ok tt) h'

  -- The service ended with status 1 if it did not start, and with status 0 behind the close.
  abbrev pub Exits : History → Option (Outcome Exit × History) → Type 0
  Exits h0 r =
      (h' : History) × (((r ≡ some (ok (exited 1), h')) × NotStarted h0 h')
        ⊎ ((r ≡ some (ok (exited 0), h')) × Served h0 h'))

-- How the command ends, by its settings: with status 1 and nothing done where they cannot be read, and
-- else as the service does behind the start of the fetcher.
abbrev pub Ended : World → Answer ServerConfig → History → Option (Outcome Exit × History) → Type 0
Ended w (failed e) h r = r ≡ some (ok (exited 1), h)
Ended w (got cnf) h r = Exits w cnf (Call.spawn_fetcher cnf.fetcher_port ∷ h) r

module _ (w : World) (law : IsCli w.cli) (program name : Bytes) (h : History) where
  main_action :
      (fuel : ℕ) {a : Action}
      → find_command commands name ≡ some a
      → main w fuel (program ∷ name ∷ []) h ≡ run_action w fuel (some a) (begun h)
  unfolding main
  main_action fuel e =
      ap (λ o. run_action w fuel o (begun h)) (law.runs_command commands program name ∙ e)

  abbrev hook_exit :
      Answer Config → Option Bytes → List Bytes → Option Bytes → Option (Outcome Exit × History)
  hook_exit load client lines scan =
      some (git_receive_action w.sys w.unmarshal w.poll load client lines scan (begun h))

  -- `git-receive`, or `gr`, on the lines of a push: the program returns if all builds of the new
  -- revisions do, one behind the other, and ends with status 1 if one returns an error, the first; it
  -- panics if one does. The builds have checked settings: each tick is at least its default, and below
  -- its wait if the default is. The settings are read, the cluster is reached, the lines are as Git
  -- writes them and end without an error, and the command was a `git-receive-pack`. The command line
  -- is read as documented.
  pub main_git_receive :
      (fuel : ℕ) (cnf : Config) (ls : List PushLine)
      → (name ≡ codes "git-receive") ⊎ (name ≡ codes "gr")
      → w.env.process_git_receive git_receive_conf_app_name ≡ got cnf
      → w.client_error ≡ none
      → w.lines ≡ map write_line ls
      → w.scan_error ≡ none
      → has_prefix cnf.ssh_original_command (codes "git-receive-pack") ≡ true
      → All HasNoSpace ls
      → let conf = check_durations cnf in
        let built = build_all w.sys w.unmarshal w.poll conf ls (begun h) in
        let ends = main w fuel (program ∷ name ∷ []) h in
        ((h' : History) → built ≡ (ok tt, h') → ends ≡ some (ok returned, h'))
        × ((e : Bytes) (h' : History) → built ≡ (err e, h') → ends ≡ some (ok (exited 1), h'))
        × ((h' : History) → built ≡ (panic, h') → ends ≡ some (panic, h'))
        × IsChecked builder_pod_tick conf.builder_pod_wait_duration_msec
            cnf.builder_pod_tick_duration_msec conf.builder_pod_tick_duration_msec
        × IsChecked object_storage_tick conf.object_storage_wait_duration_msec
            cnf.object_storage_tick_duration_msec conf.object_storage_tick_duration_msec
  unfolding run_action git_receive_action check_durations exit_on_error
  main_git_receive fuel cnf ls named env client lines scan e clear =
      let whole =
        main_action fuel (find_git_receive name named)
        ∙ ap (λ l. hook_exit l w.client_error w.lines w.scan_error) env
        ∙ ap (λ c. hook_exit (got cnf) c w.lines w.scan_error) client
        ∙ ap (λ l. hook_exit (got cnf) none l w.scan_error) lines
        ∙ ap (λ c. hook_exit (got cnf) none (map write_line ls) c) scan
        ∙ ap (λ r. some (exit_on_error r))
            (run-build_all w.sys w.unmarshal w.poll (check_durations cnf) ls (begun h) e clear) in
      (
        (λ h' b. whole ∙ ap (λ r. some (exit_on_error r)) b),
        (λ m h' b. whole ∙ ap (λ r. some (exit_on_error r)) b),
        (λ h' b. whole ∙ ap (λ r. some (exit_on_error r)) b),
        (check_durations-IsChecked cnf).0,
        (check_durations-IsChecked cnf).1,
      )
