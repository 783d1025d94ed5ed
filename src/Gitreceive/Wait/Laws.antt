-- ===== src/Gitreceive/Wait/Laws.antt =====
-- What a finished wait has seen.
use sa_builder.Base.{◌≡◌, ◌≢◌, ◌⊎◌, Bytes, ◌∷◌, Bool, true, none, some, Outcome, ok, err, M, arith}
use sa_builder.Base.Int.{ℤ}
use sa_builder.System.{
  Call, History, System, not_found, running, succeeded, failed_phase, PodStatus, PodReply,
}
use sa_builder.Gitreceive.Wait.{
  Poll, Polls, holds, fails, crashes, expires, again, IsPoll, Condition, pod_started, pod_ended,
  check_pod, wait_for_pod_condition, wait_for_pod, wait_for_pod_end,
}

gives_up : (s : PodStatus) → s.phase ≡ failed_phase → (pod_started s).1 ≢ none
unfolding pod_started
gives_up s q = ground arith

module _ (sys : System) (poll : Poll) where
  -- The pod that the check at `h` is told of.
  abbrev pub seen : History → Bytes → Bytes → PodStatus
  seen h ns name = PodReply.status (System.get_pod sys h ns name)

  -- A check reads the pod once. It says yes exactly if the condition holds and the pod is not
  -- reported missing.
  check_pod-true :
      (condition : Condition) (ns name : Bytes) (h : History) {h' : History}
      → check_pod sys poll condition ns name h ≡ (ok true, h')
      → (h' ≡ Call.get_pod ns name ∷ h) × ((condition (seen h ns name)).0 ≡ true)
  unfolding check_pod
  check_pod-true condition ns name h e = ground arith

  -- A loop that returns nothing made its last check with the answer yes.
  Polls-ok :
      {cond : M Call Bool} {h : History} {h' : History} {r : Outcome (Unit {0}) × History}
      → Polls cond h r
      → r ≡ (ok tt, h')
      → (h0 : History) × (cond h0 ≡ (ok true, h'))
  Polls-ok (holds {h = h0} e) q = (h0, cc)
  Polls-ok (fails e) q = cc
  Polls-ok (crashes e) q = cc
  Polls-ok (expires e) q = cc
  Polls-ok (again e p) q = Polls-ok p q

  -- A wait that returns no error has last seen the pod satisfy the condition, and did nothing
  -- after that.
  wait_for_pod_condition-ok :
      IsPoll poll
      → (ns name : Bytes) (condition : Condition) (interval timeout : ℤ) (h : History)
        {h' : History}
      → wait_for_pod_condition sys poll ns name condition interval timeout h ≡ (ok tt, h')
      → (h0 : History) × (h' ≡ Call.get_pod ns name ∷ h0) × ((condition (seen h0 ns name)).0 ≡ true)
  unfolding wait_for_pod_condition
  wait_for_pod_condition-ok law ns name condition interval timeout h e =
      let cond = check_pod sys poll condition ns name in
      let (h0, f) = Polls-ok (law interval timeout cond h) e in
      let (g, k) = check_pod-true condition ns name h0 f in (h0, g, k)

  pod_started_iff :
      (s : PodStatus) → (pod_started s).0 ≡ true → (s.phase ≡ running) ⊎ (s.phase ≡ failed_phase)
  unfolding pod_started
  pod_started_iff s h = ground arith

  pod_ended_iff :
      (s : PodStatus) → (pod_ended s).0 ≡ true → (s.phase ≡ succeeded) ⊎ (s.phase ≡ failed_phase)
  unfolding pod_ended
  pod_ended_iff s h = ground arith

  -- `waitForPod` returns no error only if the last look at the pod found it running or failed, for
  -- every `PollImmediate` that polls as documented.
  pub wait_for_pod-ok :
      IsPoll poll
      → (ns name : Bytes) (interval timeout : ℤ) (h : History) {h' : History}
      → wait_for_pod sys poll ns name interval timeout h ≡ (ok tt, h')
      → (h0 : History) × (h' ≡ Call.get_pod ns name ∷ h0)
        × (((seen h0 ns name).phase ≡ running) ⊎ ((seen h0 ns name).phase ≡ failed_phase))
  unfolding wait_for_pod
  wait_for_pod-ok law ns name interval timeout h e =
      let (h0, f, g) = wait_for_pod_condition-ok law ns name pod_started interval timeout h e in
      (h0, f, pod_started_iff (seen h0 ns name) g)

  -- `waitForPodEnd` returns no error only if the last look at the pod found it succeeded or failed,
  -- for every `PollImmediate` that polls as documented.
  pub wait_for_pod_end-ok :
      IsPoll poll
      → (ns name : Bytes) (interval timeout : ℤ) (h : History) {h' : History}
      → wait_for_pod_end sys poll ns name interval timeout h ≡ (ok tt, h')
      → (h0 : History) × (h' ≡ Call.get_pod ns name ∷ h0)
        × (((seen h0 ns name).phase ≡ succeeded) ⊎ ((seen h0 ns name).phase ≡ failed_phase))
  unfolding wait_for_pod_end
  wait_for_pod_end-ok law ns name interval timeout h e =
      let (h0, f, g) = wait_for_pod_condition-ok law ns name pod_ended interval timeout h e in
      (h0, f, pod_ended_iff (seen h0 ns name) g)

  -- A loop whose first check says yes returns nothing at once.
  Polls-holds :
      {cond : M Call Bool} {h h1 : History} {r : Outcome (Unit {0}) × History}
      → Polls cond h r
      → cond h ≡ (ok true, h1)
      → r ≡ (ok tt, h1)
  Polls-holds (holds e) q = cc
  Polls-holds (fails e) q = cc
  Polls-holds (crashes e) q = cc
  Polls-holds (expires e) q = cc
  Polls-holds (again e p) q = cc

  check_failed_pod :
      (ns name : Bytes) (h : History)
      → (System.get_pod sys h ns name).error ≡ none
      → (seen h ns name).phase ≡ failed_phase
      → check_pod sys poll pod_started ns name h ≡ (ok true, Call.get_pod ns name ∷ h)
  unfolding check_pod pod_started
  check_failed_pod ns name h e p = ground arith

  -- If the first look finds the pod failed, `waitForPod` returns no error: the error that its
  -- condition makes for a failed pod is dropped. It holds for every `PollImmediate` that polls as
  -- documented.
  pub wait_for_pod_failed :
      IsPoll poll
      → (ns name : Bytes) (interval timeout : ℤ) (h : History)
      → (System.get_pod sys h ns name).error ≡ none
      → (seen h ns name).phase ≡ failed_phase
      → (pod_started (seen h ns name)).1 ≢ none
        × (wait_for_pod sys poll ns name interval timeout h ≡ (ok tt, Call.get_pod ns name ∷ h))
  unfolding wait_for_pod wait_for_pod_condition
  wait_for_pod_failed law ns name interval timeout h e p = (
    gives_up (seen h ns name) p,
    Polls-holds (law interval timeout (check_pod sys poll pod_started ns name) h)
        (check_failed_pod ns name h e p),
  )

  -- A loop whose first check fails returns its error at once.
  Polls-fails :
      {cond : M Call Bool} {h h1 : History} {m : Bytes} {r : Outcome (Unit {0}) × History}
      → Polls cond h r
      → cond h ≡ (err m, h1)
      → r ≡ (err m, h1)
  Polls-fails (holds e) q = cc
  Polls-fails (fails e) q = cc
  Polls-fails (crashes e) q = cc
  Polls-fails (expires e) q = cc
  Polls-fails (again e p) q = cc

  check_running_pod :
      (ns name : Bytes) (h : History)
      → (System.get_pod sys h ns name).error ≡ none
      → (seen h ns name).phase ≡ running
      → check_pod sys poll pod_started ns name h ≡ (ok true, Call.get_pod ns name ∷ h)
  unfolding check_pod pod_started
  check_running_pod ns name h e p = ground arith

  check_missing_pod :
      (condition : Condition) (ns name : Bytes) (h : History) {m : Bytes}
      → (System.get_pod sys h ns name).error ≡ some (not_found m)
      → check_pod sys poll condition ns name h ≡ (err m, Call.get_pod ns name ∷ h)
  unfolding check_pod
  check_missing_pod condition ns name h e = ground arith

  -- Where the first look settles it, the waits return at once: `waitForPod` without an error if it
  -- finds the pod running, and both with the client's error if the pod is not found. It holds for
  -- every `PollImmediate` that polls as documented.
  pub waits_first :
      IsPoll poll
      → (ns name : Bytes) (interval timeout : ℤ) (h : History)
      → ((System.get_pod sys h ns name).error ≡ none
          → (seen h ns name).phase ≡ running
          → wait_for_pod sys poll ns name interval timeout h ≡ (ok tt, Call.get_pod ns name ∷ h))
        × ((m : Bytes)
            → (System.get_pod sys h ns name).error ≡ some (not_found m)
            → (wait_for_pod sys poll ns name interval timeout h ≡ (err m, Call.get_pod ns name ∷ h))
              × (wait_for_pod_end sys poll ns name interval timeout h
                  ≡ (err m, Call.get_pod ns name ∷ h)))
  unfolding wait_for_pod wait_for_pod_end wait_for_pod_condition
  waits_first law ns name interval timeout h = (
    (λ e p.
        Polls-holds (law interval timeout (check_pod sys poll pod_started ns name) h)
          (check_running_pod ns name h e p)),
    (λ m e. (
      Polls-fails (law interval timeout (check_pod sys poll pod_started ns name) h)
          (check_missing_pod pod_started ns name h e),
      Polls-fails (law interval timeout (check_pod sys poll pod_ended ns name) h)
          (check_missing_pod pod_ended ns name h e),
    )),
  )
