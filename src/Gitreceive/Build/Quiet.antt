-- ===== src/Gitreceive/Build/Quiet.antt =====
-- What follows a request for the application's pod asks for no other.
use sa_builder.Base.{
  ◌≡◌, refl, ◌∙◌, Bytes, List, [], ◌∷◌, ◌++◌, append_assoc, sym, Bool, Outcome, ok, err, M, ◌>>=◌,
  arith, ap, Option-cases, codes, inl, inr, wrap_err, pure,
}
use sa_builder.System.{Call, create_pod, History, System, Answer, got, failed, PodRef}
use sa_builder.Gitreceive.Config.{Config, builder_pod_tick_duration, builder_pod_wait_duration}
use sa_builder.Gitreceive.Sha.{Sha}
use sa_builder.Gitreceive.Wait.{
  Poll, Polls, holds, fails, crashes, expires, again, IsPoll, Condition, pod_started, check_pod,
  wait_for_pod,
}
use sa_builder.Gitreceive.Prepare.{Prepared, repo_cmd}
use sa_builder.Gitreceive.Build.{
  start_failed, launch, runner_pod, new_uuid, await_started, start_pod, collect_garbage,
}
use sa_builder.Gitreceive.Build.Trace.{created}

-- However it ends, the computation only adds calls, none of which asks for a pod.
abbrev IsQuiet : {A : Type 0} → M Call A → Type 0
IsQuiet m = (h : History) → (after : List Call) × ((m h).1 ≡ after ++ h) × (created after ≡ [])

created-append : (l k : List Call) → created l ≡ [] → created k ≡ [] → created (l ++ k) ≡ []
created-append [] k e f = f
created-append (c ∷ l) k e f = ground (arith, created-append l k)

after-append :
    (l k h : List Call) {h1 h2 : List Call} → h1 ≡ k ++ h → h2 ≡ l ++ h1 → h2 ≡ (l ++ k) ++ h
after-append l k h e f = f ∙ (ap (λ t. l ++ t) e ∙ sym (append_assoc l k h))

bind-IsQuiet :
    {A B : Type 0} (m : M Call A) (f : A → M Call B)
    → IsQuiet m
    → ((a : A) → IsQuiet (f a))
    → IsQuiet (m >>= f)
bind-IsQuiet {A} {B} m f quiet next h = go (m h) (quiet h)
  where
    go :
        (r : Outcome A × History)
        → (after : List Call) × (r.1 ≡ after ++ h) × (created after ≡ [])
        → (after : List Call) × ((◌>>=◌ (λ _. r) f h).1 ≡ after ++ h) × (created after ≡ [])
    go (ok a, h') (k, e, q) =
        let (l, e', q') = next a h' in (l ++ k, after-append l k h e e', created-append l k q' q)
    go (err x, h') s = s
    go (Outcome.panic, h') s = s

wrap_err-IsQuiet :
    {A : Type 0} (w : Bytes → Bytes) (m : M Call A) → IsQuiet m → IsQuiet (wrap_err w m)
wrap_err-IsQuiet {A} w m quiet h = go (m h) (quiet h)
  where
    go :
        (r : Outcome A × History)
        → (after : List Call) × (r.1 ≡ after ++ h) × (created after ≡ [])
        → (after : List Call) × ((wrap_err w (λ _. r) h).1 ≡ after ++ h) × (created after ≡ [])
    go (ok a, h') s = s
    go (err x, h') s = s
    go (Outcome.panic, h') s = s

Polls-IsQuiet :
    {cond : M Call Bool} {h : History} {r : Outcome (Unit {0}) × History}
    → IsQuiet cond
    → Polls cond h r
    → (after : List Call) × (r.1 ≡ after ++ h) × (created after ≡ [])
Polls-IsQuiet quiet (holds {h = h0} e) = rw e at (quiet h0)
Polls-IsQuiet quiet (fails {h = h0} e) = rw e at (quiet h0)
Polls-IsQuiet quiet (crashes {h = h0} e) = rw e at (quiet h0)
Polls-IsQuiet quiet (expires {h = h0} e) = rw e at (quiet h0)
Polls-IsQuiet quiet (again {h = h0} e p) =
    let (k, f, q) = rw e at (quiet h0) in
    let (l, f', q') = Polls-IsQuiet quiet p in
    (l ++ k, after-append l k h0 f f', created-append l k q' q)

module _ (sys : System) (poll : Poll) (law : IsPoll poll) where
  check_pod-IsQuiet : (c : Condition) (ns name : Bytes) → IsQuiet (check_pod sys poll c ns name)
  unfolding check_pod
  check_pod-IsQuiet c ns name h = (Call.get_pod ns name ∷ [], ground arith, refl)

  await_started-IsQuiet :
      (conf : Config) (reply : Answer PodRef) → IsQuiet (await_started sys poll conf reply)
  unfolding await_started wait_for_pod
  await_started-IsQuiet conf (failed e) h = ([], refl, refl)
  await_started-IsQuiet conf (got ref) h =
      let wait =
        wait_for_pod sys poll ref.namespace ref.name (builder_pod_tick_duration conf)
          (builder_pod_wait_duration conf) in
      bind-IsQuiet (wrap_err start_failed wait) (λ _. pure ref)
        (wrap_err-IsQuiet start_failed wait (λ h'.
          Polls-IsQuiet (check_pod-IsQuiet pod_started ref.namespace ref.name) (law _ _ _ h')))
        (λ _ h'. ([], refl, refl)) h

  collect_garbage-IsQuiet : (repo_dir : Bytes) → IsQuiet (collect_garbage sys poll repo_dir)
  unfolding collect_garbage
  collect_garbage-IsQuiet repo_dir h =
      elim (Option-cases
        (System.run_cmd sys h (repo_cmd repo_dir (codes "git" ∷ codes "gc" ∷ [])))) [
          | inl e ↦ rw e (_ ∷ [], refl, refl)
          | inr (m, e) ↦ rw e (_ ∷ [], refl, refl)
        ]

  -- Launching asks for the application's pod right away, and for none after it.
  pub launch_lem :
      (conf : Config) (sha : Sha) (p : Prepared) (h : History)
      → (v : Bytes) × (after : List Call) × ((launch sys poll conf sha p h).1
          ≡ after
            ++ create_pod conf.pod_namespace (runner_pod conf sha p.info v) ∷ Call.new_uuid ∷ h)
        × (created after ≡ [])
  unfolding launch new_uuid start_pod
  launch_lem conf sha p h =
      let v = System.new_uuid sys h in
      let pod = runner_pod conf sha p.info v in
      let reply = System.create_pod sys (Call.new_uuid ∷ h) conf.pod_namespace pod in
      let rest =
        bind-IsQuiet (await_started sys poll conf reply) (λ _. collect_garbage sys poll p.repo_dir)
          (await_started-IsQuiet conf reply) (λ _. collect_garbage-IsQuiet p.repo_dir)
          (create_pod conf.pod_namespace pod ∷ Call.new_uuid ∷ h) in
      (v, rest.0, rest.1, rest.2)
