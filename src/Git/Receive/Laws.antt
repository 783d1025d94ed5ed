-- ===== src/Git/Receive/Laws.antt =====
-- What `Receive` starts.
use sa_builder.Base.{
  ◌≡◌, refl, ◌∙◌, ap, ◌⊎◌, inl, inr, Bytes, List, [], ◌∷◌, Outcome, ok, err, panic, M, ◌>>=◌, ◌>>◌,
  wrap_err, After, After-bind, After-map, After-wrap_err, After-guard_nil, Option-cases, codes,
  call, guard_nil, Keeps, After-keeps, After-of-Keeps, wrap_err-Keeps, Bool-cases, ◌&&◌, arith,
}
use sa_builder.System.{Call, start_cmd, write_file, History, System, Cmd}
use sa_builder.Sshd.Keys.{Crypto, fingerprint}
use sa_builder.Git.RepoName.{clean_repo_name, repo_of_name, repo_path}
use sa_builder.Git.Repo.{
  create_repo, create_pre_receive_hook, hook_path, hook_text, locked, on_stat, init_repo,
}
use sa_builder.Git.Receive.{
  Params, git_shell_cmd, run_git_shell, ready_repo, serve_repo, receive_name, receive, wrapped,
  wait_failed,
}

-- The calls that start a command to be waited for or write a file, the latest first.
abbrev pub acts : History → List Call
acts [] = []
acts (start_cmd cmd ∷ h) = start_cmd cmd ∷ acts h
acts (write_file path text mode ∷ h) = write_file path text mode ∷ acts h
acts (_ ∷ h) = acts h

-- The write of the hook of a repository.
abbrev pub hook_write : Bytes → Bytes → Call
hook_write git_home repo =
    write_file (hook_path (repo_path git_home repo)) (hook_text git_home) 0o755

module _ (sys : System) (crypto : Crypto) where
  fingerprint-Keeps : Keeps acts (fingerprint sys crypto)
  unfolding fingerprint
  fingerprint-Keeps h = refl

  create_repo-Keeps : (path : Bytes) → Keeps acts (create_repo sys path)
  unfolding create_repo locked on_stat init_repo
  create_repo-Keeps path h = ground arith

  hook-After :
      (git_home repo : Bytes) (h : History) (before : List Call)
      → acts h ≡ before
      → After
          (create_pre_receive_hook sys git_home (repo_path git_home repo) h)
          (λ _ h'. acts h' ≡ hook_write git_home repo ∷ before)
          (λ h'. (acts h' ≡ before) ⊎ (acts h' ≡ hook_write git_home repo ∷ before))
  unfolding create_pre_receive_hook
  hook-After git_home repo h before e =
      After-guard_nil (System.write_file sys h (hook_path (repo_path git_home repo))) _
        (hook_write git_home repo ∷ h) _ _ (ap (λ l. hook_write git_home repo ∷ l) e)
        (inr (ap (λ l. hook_write git_home repo ∷ l) e))

  copy_and_wait : Cmd → M Call (Unit {0})
  copy_and_wait cmd = do
    e ← call Call.copy_input (λ h. System.copy_input sys h)
    guard_nil e (wrapped (codes "Failed to write git objects into the git pre-receive hook"))
    e' ←
        call (Call.wait_cmd cmd)
          (λ h. wait_failed (System.stderr_text sys h) (System.wait_cmd sys h))
    guard_nil e' (λ m. m)

  copy_and_wait-Keeps : (cmd : Cmd) → Keeps acts (copy_and_wait cmd)
  unfolding copy_and_wait
  copy_and_wait-Keeps cmd h = ground arith

  abbrev MaybeStarted : Cmd → History → History → Type 0
  MaybeStarted cmd h h' = (acts h' ≡ acts h) ⊎ (acts h' ≡ start_cmd cmd ∷ acts h)

  -- The shell is started, unless its pipe is refused.
  run_git_shell-After :
      (cmd : Cmd) (h : History)
      → After
          (run_git_shell sys crypto cmd h)
          (λ _ h'. acts h' ≡ start_cmd cmd ∷ acts h)
          (MaybeStarted cmd h)
  unfolding run_git_shell copy_and_wait
  run_git_shell-After cmd h = elim (Option-cases (System.stdin_pipe sys h)) [
    | inl e ↦ rw e (elim (Option-cases (System.start_cmd sys (Call.stdin_pipe cmd ∷ h) cmd)) [
      | inl f ↦ rw f (
          After-map (copy_and_wait cmd (start_cmd cmd ∷ Call.stdin_pipe cmd ∷ h)) (λ _ h' k. k)
            (λ h' k. inr k) (After-of-Keeps acts (copy_and_wait cmd) _ (copy_and_wait-Keeps cmd)))
      | inr (m, f) ↦ rw f (inr refl)
    ])
    | inr (m, e) ↦ rw e (inl refl)
  ]

  -- What a push to a repository may have done: nothing, the hook alone, or the hook and then the
  -- shell for this operation and repository.
  abbrev pub Started : Bytes → Bytes → Bytes → Bytes → History → History → Type 0
  Started git_home operation repo conn h h' =
      (fp : Bytes) × (environ : List Bytes) × (acts h'
        ≡ start_cmd (git_shell_cmd git_home operation repo fp conn environ)
          ∷ hook_write git_home repo
          ∷ acts h)

  abbrev pub Stopped : Bytes → Bytes → Bytes → Bytes → History → History → Type 0
  Stopped git_home operation repo conn h h' =
      (acts h' ≡ acts h)
      ⊎ ((acts h' ≡ hook_write git_home repo ∷ acts h) ⊎ Started git_home operation repo conn h h')

  ready_repo-After :
      (git_home repo : Bytes) (h : History)
      → After
          (ready_repo sys crypto git_home repo h)
          (λ _ h'. acts h' ≡ hook_write git_home repo ∷ acts h)
          (λ h'. (acts h' ≡ acts h) ⊎ (acts h' ≡ hook_write git_home repo ∷ acts h))
  unfolding ready_repo
  ready_repo-After git_home repo h =
      let path = repo_path git_home repo in
      let hook =
        wrap_err (wrapped (codes "Did not write pre-receive hook"))
          (create_pre_receive_hook sys git_home path) in
      let Q : Unit {0} → History → Type 0 = λ _ h'. acts h' ≡ hook_write git_home repo ∷ acts h in
      let S : History → Type 0 =
        λ h'. (acts h' ≡ acts h) ⊎ (acts h' ≡ hook_write git_home repo ∷ acts h) in
      After-keeps acts (wrap_err (wrapped (codes "Did not create new repo")) (create_repo sys path))
        (λ _. hook) h Q S
        (wrap_err-Keeps acts (wrapped (codes "Did not create new repo")) (create_repo sys path)
          (create_repo-Keeps path))
        (λ _ h1 e.
          After-wrap_err (wrapped (codes "Did not write pre-receive hook"))
            (create_pre_receive_hook sys git_home path) h1 Q S
            (hook-After git_home repo h1 (acts h) e))
        (λ h' e. inl e)

  serve_repo-After :
      (git_home operation repo conn : Bytes) (h0 h : History)
      → acts h ≡ hook_write git_home repo ∷ acts h0
      → After
          (serve_repo sys crypto git_home operation repo conn h)
          (λ _ h'. Started git_home operation repo conn h0 h')
          (Stopped git_home operation repo conn h0)
  unfolding serve_repo
  serve_repo-After git_home operation repo conn h0 h e =
      After-keeps acts (fingerprint sys crypto)
        (λ fp. do
          environ ← call Call.environ (λ h1. System.environ sys h1)
          run_git_shell sys crypto (git_shell_cmd git_home operation repo fp conn environ))
        h (λ _ h'. Started git_home operation repo conn h0 h')
        (Stopped git_home operation repo conn h0) fingerprint-Keeps
        (λ fp h1 q.
          let environ = System.environ sys h1 in
          let cmd = git_shell_cmd git_home operation repo fp conn environ in
          After-map (run_git_shell sys crypto cmd (Call.environ ∷ h1))
            {Q' = λ _ h'. Started git_home operation repo conn h0 h'}
            {S' = Stopped git_home operation repo conn h0}
            (λ _ h' k. (fp, environ, k ∙ ap (λ l. start_cmd cmd ∷ l) (q ∙ e)))
            (λ h' k. elim k [
              | inl none_new ↦ inr (inl (none_new ∙ (q ∙ e)))
              | inr new ↦ inr (inr (fp, environ, new ∙ ap (λ l. start_cmd cmd ∷ l) (q ∙ e)))
            ])
            (run_git_shell-After cmd (Call.environ ∷ h1)))
        (λ h' q. inr (inl (q ∙ e)))

  abbrev pub Served : Bytes → Bytes → Bytes → Outcome Bytes → History → History → Type 0
  Served git_home operation conn cleaned h h' =
      (name : Bytes) × (cleaned ≡ ok name)
      × Started git_home operation (repo_of_name name) conn h h'

  abbrev pub NotServed : Bytes → Bytes → Bytes → Outcome Bytes → History → History → Type 0
  NotServed git_home operation conn cleaned h h' =
      (acts h' ≡ acts h)
      ⊎ ((name : Bytes) × (cleaned ≡ ok name)
          × Stopped git_home operation (repo_of_name name) conn h h')

  receive_name-After :
      (git_home operation conn : Bytes) (cleaned : Outcome Bytes) (h0 h : History)
      → acts h ≡ acts h0
      → After
          (receive_name sys crypto git_home operation conn cleaned h)
          (λ _ h'. Served git_home operation conn cleaned h0 h')
          (NotServed git_home operation conn cleaned h0)
  unfolding receive_name
  receive_name-After git_home operation conn panic h0 h e = inl e
  receive_name-After git_home operation conn (err m) h0 h e = inl e
  receive_name-After git_home operation conn (ok name) h0 h e =
      let repo = repo_of_name name in
      let Q : Unit {0} → History → Type 0 =
        λ _ h'. Served git_home operation conn (ok name) h0 h' in
      let S : History → Type 0 = NotServed git_home operation conn (ok name) h0 in
      let step : hook_write git_home repo ∷ acts h ≡ hook_write git_home repo ∷ acts h0 =
        ap (λ l. hook_write git_home repo ∷ l) e in
      After-bind (ready_repo sys crypto git_home repo)
        (λ _. serve_repo sys crypto git_home operation repo conn) h Q S
        (After-map (ready_repo sys crypto git_home repo h)
          {Q' = λ _ h1. After (serve_repo sys crypto git_home operation repo conn h1) Q S} {S' = S}
          (λ _ h1 k.
            After-map (serve_repo sys crypto git_home operation repo conn h1) {Q' = Q} {S' = S}
              (λ _ h' w. (name, refl, w)) (λ h' w. inr (name, refl, w))
              (serve_repo-After git_home operation repo conn h0 h1 (k ∙ step)))
          (λ h' k. elim k [
            | inl same ↦ inl (same ∙ e)
            | inr hook ↦ inr (name, refl, inr (inl (hook ∙ step)))
          ])
          (ready_repo-After git_home repo h))

  -- Of the calls that start a command to be waited for or write a file, `Receive` makes at most two,
  -- and only for a name that `cleanRepoName` accepts: the write of that repository's hook, and
  -- behind it the start of `git-shell` for the operation on that repository. It makes none, the
  -- write alone or both, and both if it returns no error.
  pub receive-After :
      (p : Params) (conn : Bytes) (h : History)
      → After
          (receive sys crypto p conn h)
          (λ _ h'. Served p.git_home p.operation conn (clean_repo_name p.repo_name) h h')
          (NotServed p.git_home p.operation conn (clean_repo_name p.repo_name) h)
  unfolding receive
  receive-After p conn h =
      let cleaned = clean_repo_name p.repo_name in
      let Q : Unit {0} → History → Type 0 =
        λ _ h'. Served p.git_home p.operation conn cleaned h h' in
      let S : History → Type 0 = NotServed p.git_home p.operation conn cleaned h in
      elim (Bool-cases (p.has_channel && p.has_request)) [
        | inl e ↦ rw e (
            After-keeps acts (fingerprint sys crypto)
              (λ _. receive_name sys crypto p.git_home p.operation conn cleaned) h Q S
              fingerprint-Keeps
              (λ _ h1 q. receive_name-After p.git_home p.operation conn cleaned h h1 q)
              (λ h' q. inl q))
        | inr e ↦ rw e (inl refl)
      ]
