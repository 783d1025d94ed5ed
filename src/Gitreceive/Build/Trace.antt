-- ===== src/Gitreceive/Build/Trace.antt =====
-- The pods that a run of `build` creates.
use sa_builder.Base.{
  zero, suc, ◌≡◌, refl, ◌∙◌, Bytes, List, [], ◌∷◌, Bool, Option, none, some, Outcome, M, All, arith,
  After, After-bind, After-map, After-guard_nil, Keeps, After-keeps, wrap_err-Keeps, guard_nil, ap,
  wrap_err, pure,
}
use sa_builder.Base.Int.{ℤ, pos, negsuc}
use sa_builder.System.{Call, create_pod, History, System, Answer, got, failed, PodRef, PodReply}
use sa_builder.Gitreceive.Config.{Config, builder_pod_tick_duration, builder_pod_wait_duration}
use sa_builder.Gitreceive.Sha.{Sha}
use sa_builder.Gitreceive.Pods.{Pod}
use sa_builder.Gitreceive.Wait.{
  Poll, Polls, holds, fails, crashes, expires, again, IsPoll, Condition, check_pod, wait_for_pod,
  wait_for_pod_end,
}
use sa_builder.Gitreceive.Prepare.{prepare}
use sa_builder.Gitreceive.Storage.{new_slug_builder_info}
use sa_builder.Gitreceive.Build.{
  start_failed, status_failed, get_error_text, check_status, await_started, check_exit_codes,
  start_pod, check_build_pod, collect_garbage,
}

-- A pod that was asked for, with the calls before.
abbrev pub Created : Type 0
Created = Pod × History

-- The pods asked for, the latest first.
abbrev pub created : History → List Created
created [] = []
created (create_pod ns pod ∷ h) = (pod, h) ∷ created h
created (_ ∷ h) = created h

-- However it ends, the computation asks for no pod.
abbrev pub IsSilent : {A : Type 0} → M Call A → Type 0
IsSilent m = Keeps created m

module _ (sys : System) (unmarshal : Bytes → Option Bytes) where
  pub prepare-IsSilent : (conf : Config) (sha : Sha) → IsSilent (prepare sys unmarshal conf sha)
  unfolding prepare new_slug_builder_info
  prepare-IsSilent conf sha h = ground arith

Polls-IsSilent :
    {cond : M Call Bool} {h : History} {r : Outcome (Unit {0}) × History}
    → IsSilent cond
    → Polls cond h r
    → created r.1 ≡ created h
Polls-IsSilent quiet (holds {h = h0} e) = rw e at (quiet h0)
Polls-IsSilent quiet (fails {h = h0} e) = rw e at (quiet h0)
Polls-IsSilent quiet (crashes {h = h0} e) = rw e at (quiet h0)
Polls-IsSilent quiet (expires {h = h0} e) = rw e at (quiet h0)
Polls-IsSilent quiet (again {h = h0} e p) = Polls-IsSilent quiet p ∙ rw e at (quiet h0)

check_exit_codes-After :
    (cs : List (Option ℤ)) (h : History)
    → After
        (check_exit_codes cs h)
        (λ _ h'. (h' ≡ h) × All (λ c. c ≡ some (pos 0)) cs)
        (λ h'. h' ≡ h)
unfolding check_exit_codes
check_exit_codes-After [] h = (refl, tt)
check_exit_codes-After (none ∷ cs) h = refl
check_exit_codes-After (some (pos zero) ∷ cs) h =
    After-map (check_exit_codes cs h) (λ _ h' e. (e.0, (refl, e.1))) (λ h' e. e)
      (check_exit_codes-After cs h)
check_exit_codes-After (some (pos (suc n)) ∷ cs) h = refl
check_exit_codes-After (some (negsuc n) ∷ cs) h = refl

-- The last call was a look at the pod, made when the pods of the list had been asked for, and it
-- found every container ended with exit code 0.
abbrev pub CleanLook : System → PodRef → List Created → History → Type 0
CleanLook sys ref l h' =
    (h0 : History) × (h' ≡ Call.get_pod ref.namespace ref.name ∷ h0)
    × (created h0 ≡ l)
    × All (λ c. c ≡ some (pos 0))
        (PodReply.status (System.get_pod sys h0 ref.namespace ref.name)).exit_codes

module _ (sys : System) (poll : Poll) (law : IsPoll poll) where
  check_pod-IsSilent : (c : Condition) (ns name : Bytes) → IsSilent (check_pod sys poll c ns name)
  unfolding check_pod
  check_pod-IsSilent c ns name h = ground arith

  wait_for_pod-IsSilent : (ns name : Bytes) (i t : ℤ) → IsSilent (wait_for_pod sys poll ns name i t)
  unfolding wait_for_pod
  wait_for_pod-IsSilent ns name i t h =
      Polls-IsSilent (check_pod-IsSilent _ ns name) (law i t (check_pod sys poll _ ns name) h)

  wait_for_pod_end-IsSilent :
      (ns name : Bytes) (i t : ℤ) → IsSilent (wait_for_pod_end sys poll ns name i t)
  unfolding wait_for_pod_end
  wait_for_pod_end-IsSilent ns name i t h =
      Polls-IsSilent (check_pod-IsSilent _ ns name) (law i t (check_pod sys poll _ ns name) h)

  await_started-After :
      (conf : Config) (reply : Answer PodRef) (h : History)
      → After
          (await_started sys poll conf reply h)
          (λ ref h'. (created h' ≡ created h) × (reply ≡ got ref))
          (λ h'. created h' ≡ created h)
  unfolding await_started
  await_started-After conf (failed e) h = refl
  await_started-After conf (got ref) h =
      let wait =
        wait_for_pod sys poll ref.namespace ref.name (builder_pod_tick_duration conf)
          (builder_pod_wait_duration conf) in
      After-keeps created (wrap_err start_failed wait) (λ _. pure ref) h _ _
        (wrap_err-Keeps created start_failed wait (wait_for_pod-IsSilent _ _ _ _))
        (λ _ h' e. (e, refl)) (λ h' e. e)

  -- Starting a pod asks for that pod and no other, and returns the one that the cluster made.
  pub start_pod-After :
      (conf : Config) (pod : Pod) (h : History)
      → After
          (start_pod sys poll conf pod h)
          (λ ref h'.
            (created h' ≡ (pod, h) ∷ created h)
            × (System.create_pod sys h conf.pod_namespace pod ≡ got ref))
          (λ h'. created h' ≡ (pod, h) ∷ created h)
  unfolding start_pod
  start_pod-After conf pod h =
      await_started-After conf (System.create_pod sys h conf.pod_namespace pod)
        (create_pod conf.pod_namespace pod ∷ h)

  collect_garbage-IsSilent : (repo_dir : Bytes) → IsSilent (collect_garbage sys poll repo_dir)
  unfolding collect_garbage
  collect_garbage-IsSilent repo_dir h = ground arith

  check_status-After :
      (ref : PodRef) (h : History)
      → After
          (check_status sys poll ref h)
          (λ _ h'. CleanLook sys ref (created h) h')
          (λ h'. created h' ≡ created h)
  unfolding check_status
  check_status-After ref h =
      let reply = System.get_pod sys h ref.namespace ref.name in
      After-bind (guard_nil (get_error_text reply.error) status_failed)
        (λ _. check_exit_codes reply.status.exit_codes) (Call.get_pod ref.namespace ref.name ∷ h) _
        _
        (After-guard_nil (get_error_text reply.error) status_failed
          (Call.get_pod ref.namespace ref.name ∷ h) _ _
          (After-map
            (check_exit_codes reply.status.exit_codes (Call.get_pod ref.namespace ref.name ∷ h))
            (λ _ h' e. (h, e.0, refl, e.1)) (λ h' e. ap created e)
            (check_exit_codes-After reply.status.exit_codes
              (Call.get_pod ref.namespace ref.name ∷ h)))
          refl)

  pub check_build_pod-After :
      (conf : Config) (ref : PodRef) (h : History)
      → After
          (check_build_pod sys poll conf ref h)
          (λ _ h'. CleanLook sys ref (created h) h')
          (λ h'. created h' ≡ created h)
  unfolding check_build_pod
  check_build_pod-After conf ref h =
      let wait =
        wait_for_pod_end sys poll ref.namespace ref.name (builder_pod_tick_duration conf)
          (builder_pod_wait_duration conf) in
      After-keeps created (wrap_err status_failed wait) (λ _. check_status sys poll ref) h _ _
        (wrap_err-Keeps created status_failed wait (wait_for_pod_end-IsSilent _ _ _ _))
        (λ _ h1 e.
          After-map (check_status sys poll ref h1) (λ _ h' (h0, a, b, c). (h0, a, b ∙ e, c))
            (λ h' f. f ∙ e) (check_status-After ref h1))
        (λ h' e. e)
