-- ===== src/Git/Repo/Laws.antt =====
-- The repository is made at most once at a time, and only where nothing is.
use sa_builder.Base.{
  ◌≡◌, ◌≢◌, refl, inl, inr, Bytes, List, [], ◌∷◌, ◌++◌, true, false, none, ok, ap, All,
  Option-cases, arith,
}
use sa_builder.System.{Call, History, System, Stat, entry, missing, stat_failed}
use sa_builder.Git.Repo.{locked, git_init_cmd, init_repo, on_stat, create_repo}

-- A call other than those of the lock.
abbrev pub IsInside : Call → Type 0
IsInside c = (c ≢ Call.lock) × (c ≢ Call.unlock)

abbrev pub IsMissing : Stat → Type 0
IsMissing s = (e : Bytes) × (s ≡ missing e)

module _ (sys : System) (repo_path : Bytes) where
  init_repo-IsInside :
      (h : History)
      → (mid : List Call) × All IsInside mid × ((init_repo sys repo_path h).1 ≡ mid ++ h)
  unfolding init_repo
  init_repo-IsInside h = elim (Option-cases (System.mkdir_all sys h repo_path)) [
    | inl e ↦ (
      Call.run_cmd (git_init_cmd repo_path) ∷ Call.mkdir_all repo_path 0o755 ∷ [],
      (((cc), (cc)), (((cc), (cc)), tt)),
      ground arith,
    )
    | inr (m, e) ↦ (Call.mkdir_all repo_path 0o755 ∷ [], (((cc), (cc)), tt), ground arith)
  ]

  on_stat-IsInside :
      (s : Stat) (h : History)
      → (mid : List Call) × All IsInside mid
        × ((on_stat sys repo_path s h).1 ≡ mid ++ h)
        × (¬ IsMissing s → mid ≡ [])
  unfolding on_stat
  on_stat-IsInside (entry true) h = ([], tt, refl, λ _. refl)
  on_stat-IsInside (entry false) h = ([], tt, refl, λ _. refl)
  on_stat-IsInside (stat_failed e) h = ([], tt, refl, λ _. refl)
  on_stat-IsInside (missing e) h =
      let (mid, inside, p) = init_repo-IsInside h in
      (mid, inside, p, λ there. absurd (there (e, refl)))

  -- However `createRepo` ends, it takes the lock once, makes its other calls under it, and gives
  -- it back at the end. The first of those calls looks at the path, and it is the only one unless
  -- nothing is there: what exists is left alone.
  pub create_repo_locks :
      (h : History)
      → (mid : List Call) × All IsInside mid
        × ((create_repo sys repo_path h).1
            ≡ Call.unlock ∷ (mid ++ Call.stat repo_path ∷ Call.lock ∷ h))
        × (¬ IsMissing (System.stat sys (Call.lock ∷ h) repo_path) → mid ≡ [])
  unfolding create_repo locked
  create_repo_locks h =
      let (mid, inside, e, alone) =
        on_stat-IsInside (System.stat sys (Call.lock ∷ h) repo_path)
          (Call.stat repo_path ∷ Call.lock ∷ h) in
      (mid, inside, ap (λ l. Call.unlock ∷ l) e, alone)

  on_stat-true :
      (s : Stat) (h : History)
      → (on_stat sys repo_path s h).0 ≡ ok true
      → IsMissing s
        × (System.mkdir_all sys h repo_path ≡ none)
        × (System.run_cmd sys (Call.mkdir_all repo_path 0o755 ∷ h) (git_init_cmd repo_path) ≡ none)
  unfolding on_stat init_repo
  on_stat-true (entry true) h e = cc
  on_stat-true (entry false) h e = cc
  on_stat-true (stat_failed m) h e = cc
  on_stat-true (missing m) h e = ((m, refl), ground arith, ground arith)

  -- `createRepo` reports a new repository only if nothing was there and both the directory and the
  -- repository in it were made.
  pub create_repo-true :
      (h : History)
      → (create_repo sys repo_path h).0 ≡ ok true
      → let h1 = Call.stat repo_path ∷ Call.lock ∷ h in
        IsMissing (System.stat sys (Call.lock ∷ h) repo_path)
        × (System.mkdir_all sys h1 repo_path ≡ none)
        × (System.run_cmd sys (Call.mkdir_all repo_path 0o755 ∷ h1) (git_init_cmd repo_path) ≡ none)
  unfolding create_repo locked
  create_repo-true h e = on_stat-true _ _ e
