-- ===== src/Gitreceive/Build/Launch.antt =====
-- The application is launched only after its build has ended well.
use sa_builder.Base.{
  ◌≡◌, refl, ◌∙◌, ◌⊎◌, inl, inr, Bytes, codes, List, ◌∷◌, Option, Outcome, ok, err, M, ap, ◌>>◌,
  After, After-bind, After-map, After-always, ◌++◌, [], After-guard_nil, After-keeps, guard_nil,
  ◌>>=◌,
}
use mathlib.Core.Path.{subst}
use sa_builder.System.{Call, create_pod, History, System, PodRef, got}
use sa_builder.Gitreceive.Config.{Config}
use sa_builder.Gitreceive.Sha.{Sha, new_sha}
use sa_builder.Gitreceive.Wait.{Poll, IsPoll}
use sa_builder.Gitreceive.Prepare.{Prepared, prepare, in_parentheses}
use sa_builder.Gitreceive.Build.{
  start_pod, check_build_pod, launch, follow_build, stream_build, build_prepared, build_sha, build,
  runner_pod, choose_pod, then_close, new_uuid,
}
use sa_builder.Gitreceive.Build.Trace.{
  Created, created, CleanLook, prepare-IsSilent, start_pod-After, check_build_pod-After,
}
use sa_builder.Gitreceive.Build.Quiet.{launch_lem}

then_guard :
    {B : Type 0} (e : Option Bytes) (w : Bytes → Bytes) (k : M Call B) (h : History)
    (Q : B → History → Type 0) (S : History → Type 0)
    → After (k h) Q S
    → S h
    → After ((guard_nil e w >>= λ _. k) h) Q S
then_guard e w k h Q S p s =
    After-bind (guard_nil e w) (λ _. k) h Q S
      (After-guard_nil e w h (λ _ h'. After (k h') Q S) S p s)

-- The computation asked for the pod of the application, right behind a clean look at the build pod
-- that was made when the pods of the list had been asked for, and for no pod after it.
abbrev pub Launches : System → Config → Sha → Prepared → PodRef → List Created → History → Type 0
Launches sys conf sha p ref l h' =
    (v : Bytes) × (after : List Call) × (h1 : History) × (h'
      ≡ after ++ create_pod conf.pod_namespace (runner_pod conf sha p.info v) ∷ Call.new_uuid ∷ h1)
    × (created after ≡ [])
    × CleanLook sys ref l h1

Launches-created :
    (sys : System) (conf : Config) (sha : Sha) (p : Prepared) (ref : PodRef) {l l' : List Created}
    (h' : History)
    → l ≡ l'
    → Launches sys conf sha p ref l h'
    → Launches sys conf sha p ref l' h'
Launches-created sys conf sha p ref h' e (v, after, h1, f, q, (h0, a, b, c)) =
    (v, after, h1, f, q, (h0, a, b ∙ e, c))

behind_close :
    (sys : System) (conf : Config) (sha : Sha) (p : Prepared) (ref : PodRef) (l : List Created)
    (h' : History)
    → Launches sys conf sha p ref l h'
    → Launches sys conf sha p ref l (Call.close_logs ∷ h')
behind_close sys conf sha p ref l h' (v, after, h1, e, q, look) =
    (v, Call.close_logs ∷ after, h1, ap (λ t. Call.close_logs ∷ t) e, q, look)

module _ (sys : System) (poll : Poll) (law : IsPoll poll) where
  -- What a launch behind the look leaves, for the pods asked for before.
  checked_launch-After :
      (conf : Config) (sha : Sha) (p : Prepared) (ref : PodRef) (h : History)
      → After
          ((check_build_pod sys poll conf ref >> launch sys poll conf sha p) h)
          (λ _ h'. Launches sys conf sha p ref (created h) h')
          (λ h'. (created h' ≡ created h) ⊎ Launches sys conf sha p ref (created h) h')
  checked_launch-After conf sha p ref h =
      let P : History → Type 0 = Launches sys conf sha p ref (created h) in
      let S : History → Type 0 = λ h'. (created h' ≡ created h) ⊎ P h' in
      After-bind (check_build_pod sys poll conf ref) (λ _. launch sys poll conf sha p) h
        (λ _ h'. P h') S
        (After-map (check_build_pod sys poll conf ref h)
          {Q' = λ _ h1. After (launch sys poll conf sha p h1) (λ _ h'. P h') S} {S' = S}
          (λ _ h1 look.
            let (v, after, e, q) = launch_lem sys poll law conf sha p h1 in
            After-map (launch sys poll conf sha p h1) (λ _ h' k. k) (λ h' k. inr k)
              (After-always (launch sys poll conf sha p h1) P (v, after, h1, e, q, look)))
          (λ h' e. inl e) (check_build_pod-After sys poll law conf ref h))

  follow_build-After :
      (conf : Config) (sha : Sha) (p : Prepared) (ref : PodRef) (h : History)
      → After
          (follow_build sys poll conf sha p ref h)
          (λ _ h'. Launches sys conf sha p ref (created h) h')
          (λ h'. (created h' ≡ created h) ⊎ Launches sys conf sha p ref (created h) h')
  unfolding follow_build
  follow_build-After conf sha p ref h =
      let h0 = Call.copy_logs ∷ h in
      let rest = check_build_pod sys poll conf ref >> launch sys poll conf sha p in
      then_guard (System.copy_logs sys h) (in_parentheses (codes "fetching builder logs")) rest h0
        (λ _ h'. Launches sys conf sha p ref (created h) h')
        (λ h'. (created h' ≡ created h) ⊎ Launches sys conf sha p ref (created h) h')
        (checked_launch-After conf sha p ref h0) (inl refl)

  then_close-After :
      (conf : Config) (sha : Sha) (p : Prepared) (ref : PodRef) (h : History)
      → After
          (then_close (follow_build sys poll conf sha p ref) h)
          (λ _ h'. Launches sys conf sha p ref (created h) h')
          (λ h'. (created h' ≡ created h) ⊎ Launches sys conf sha p ref (created h) h')
  unfolding then_close
  then_close-After conf sha p ref h =
      closed (follow_build sys poll conf sha p ref h) (follow_build-After conf sha p ref h)
    where
      closed :
          (r : Outcome (Unit {0}) × History)
          → After r
              (λ _ h'. Launches sys conf sha p ref (created h) h')
              (λ h'. (created h' ≡ created h) ⊎ Launches sys conf sha p ref (created h) h')
          → After
              (r.0, Call.close_logs ∷ r.1)
              (λ _ h'. Launches sys conf sha p ref (created h) h')
              (λ h'. (created h' ≡ created h) ⊎ Launches sys conf sha p ref (created h) h')
      closed (ok a, h') q = behind_close sys conf sha p ref (created h) h' q
      closed (err e, h') q = elim q [
        | inl k ↦ inl k
        | inr k ↦ inr (behind_close sys conf sha p ref (created h) h' k)
      ]
      closed (Outcome.panic, h') q = elim q [
        | inl k ↦ inl k
        | inr k ↦ inr (behind_close sys conf sha p ref (created h) h' k)
      ]

  stream_build-After :
      (conf : Config) (sha : Sha) (p : Prepared) (ref : PodRef) (h : History)
      → After
          (stream_build sys poll conf sha p ref h)
          (λ _ h'. Launches sys conf sha p ref (created h) h')
          (λ h'. (created h' ≡ created h) ⊎ Launches sys conf sha p ref (created h) h')
  unfolding stream_build
  stream_build-After conf sha p ref h =
      let h0 = Call.stream_logs ref.namespace ref.name ∷ h in
      then_guard (System.stream_logs sys h) (in_parentheses (codes "attempting to stream logs"))
        (then_close (follow_build sys poll conf sha p ref)) h0
        (λ _ h'. Launches sys conf sha p ref (created h) h')
        (λ h'. (created h' ≡ created h) ⊎ Launches sys conf sha p ref (created h) h')
        (then_close-After conf sha p ref h0) (inl refl)

-- What a finished `build` has asked the cluster for: the pod of the build, and then that of the
-- application as `Launches` says of the pod that the cluster made for the first.
abbrev pub Launched : System → Config → Sha → List Created → History → Type 0
Launched sys conf sha l h' =
    (p : Prepared) × (u : Bytes) × (h0 : History) × (ref : PodRef) × (System.create_pod sys h0
        conf.pod_namespace (choose_pod conf sha p u)
      ≡ got ref)
    × Launches sys conf sha p ref ((choose_pod conf sha p u, h0) ∷ l) h'

-- The build pod alone.
abbrev pub BuildOnly : Config → Sha → List Created → History → Type 0
BuildOnly conf sha l h' =
    (p : Prepared) × (u : Bytes) × (h0 : History) × (created h' ≡ (choose_pod conf sha p u, h0) ∷ l)

abbrev pub Stopped : System → Config → Sha → List Created → History → Type 0
Stopped sys conf sha l h' = (created h' ≡ l) ⊎ BuildOnly conf sha l h' ⊎ Launched sys conf sha l h'

module _ (sys : System) (poll : Poll) (law : IsPoll poll) where
  build_prepared-After :
      (conf : Config) (sha : Sha) (p : Prepared) (h : History)
      → After
          (build_prepared sys poll conf sha p h)
          (λ _ h'. Launched sys conf sha (created h) h')
          (Stopped sys conf sha (created h))
  unfolding build_prepared new_uuid
  build_prepared-After conf sha p h =
      let u = System.new_uuid sys h in
      let pod = choose_pod conf sha p u in
      let h0 = Call.new_uuid ∷ h in
      After-bind (start_pod sys poll conf pod) (λ ref. stream_build sys poll conf sha p ref) h0
        (λ _ h'. Launched sys conf sha (created h) h') (Stopped sys conf sha (created h))
        (After-map (start_pod sys poll conf pod h0)
          (λ ref h1 (e, made).
            After-map (stream_build sys poll conf sha p ref h1)
              (λ _ h' k. (p, u, h0, ref, made, Launches-created sys conf sha p ref h' e k))
              (λ h' stopped. elim stopped [
                | inl f ↦ inr (inl (p, u, h0, f ∙ e))
                | inr k ↦
                    inr (inr (p, u, h0, ref, made, Launches-created sys conf sha p ref h' e k))
              ])
              (stream_build-After sys poll law conf sha p ref h1))
          (λ h' e. inr (inl (p, u, h0, e))) (start_pod-After sys poll law conf pod h0))

module _ (sys : System) (unmarshal : Bytes → Option Bytes) (poll : Poll) (law : IsPoll poll) where
  build_sha-After :
      (conf : Config) (sha : Sha) (h : History)
      → After
          (build_sha sys unmarshal poll conf sha h)
          (λ _ h'. Launched sys conf sha (created h) h')
          (Stopped sys conf sha (created h))
  unfolding build_sha
  build_sha-After conf sha h =
      After-keeps created (prepare sys unmarshal conf sha) (λ p. build_prepared sys poll conf sha p)
        h (λ _ h'. Launched sys conf sha (created h) h') (Stopped sys conf sha (created h))
        (prepare-IsSilent sys unmarshal conf sha)
        (λ p h1 e.
          subst
            (λ l.
              After (build_prepared sys poll conf sha p h1) (λ _ h'. Launched sys conf sha l h')
                (Stopped sys conf sha l))
            e (build_prepared-After sys poll law conf sha p h1))
        (λ h' e. inl e)

  -- `build` for a valid SHA, whatever the system answers and however it ends: it asks the cluster
  -- for no pod, for the pod of the build alone, or for that and then the pod of the application.
  -- The last it asks for right behind a look at the pod that the cluster made for the build, which
  -- found all its exit codes 0, and it has done so wherever it returns no error. `PollImmediate` is
  -- any that polls as documented.
  pub build-After :
      (conf : Config) (raw : Bytes) {sha : Sha} (h : History)
      → new_sha raw ≡ ok sha
      → After
          (build sys unmarshal poll conf raw h)
          (λ _ h'. Launched sys conf sha (created h) h')
          (Stopped sys conf sha (created h))
  unfolding build
  build-After conf raw {sha} h e = rw (e, build) (build_sha-After conf sha h)
