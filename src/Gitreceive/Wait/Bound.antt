-- ===== src/Gitreceive/Wait/Bound.antt =====
-- How long a wait lasts, counted in looks at the pod, for the intervals that the settings give it.
use sa_builder.Base.{
  ℕ, zero, suc, ◌-◌, ◌*◌, ◌≤◌, ◌<◌, ◌≡◌, refl, sym, ap, ◌∙◌, Bytes, ◌∷◌, Bool, Outcome, M, arith,
}
use native.Mathlib.Nat.{suc-mul}
use sa_builder.Base.Int.{pos}
use sa_builder.System.{Call, History, System}
use sa_builder.Gitreceive.Config.{
  Config, check_durations, builder_pod_tick_duration, builder_pod_wait_duration,
}
use sa_builder.Gitreceive.Config.Laws.{checked_durations_exact}
use sa_builder.Gitreceive.Wait.{
  Poll, Polls, holds, fails, crashes, expires, again, Condition, pod_started, pod_ended, check_pod,
  wait_for_pod_condition, wait_for_pod, wait_for_pod_end,
}

-- The checks of a loop.
abbrev pub rounds :
    {cond : M Call Bool} {h : History} {r : Outcome (Unit {0}) × History} → Polls cond h r → ℕ
rounds (holds e) = 1
rounds (fails e) = 1
rounds (crashes e) = 1
rounds (expires e) = 1
rounds (again e p) = suc (rounds p)

-- What is documented of `PollImmediate` and its timeout: it checks at once, then at most once in each
-- interval, and stops behind the timeout, perhaps with one more check. Of a timeout of 0, which never
-- passes, nothing is assumed.
abbrev pub IsTimed : Poll → Type 0
IsTimed poll =
    (interval timeout : ℕ) (cond : M Call Bool) (h : History)
    → 0 < interval
    → 0 < timeout
    → (run : Polls cond h (poll (pos interval) (pos timeout) cond h)) × ((rounds run - 2) * interval
        ≤ timeout)

-- So many looks at a pod.
abbrev pub looks : ℕ → Bytes → Bytes → History → History
looks zero ns name h = h
looks (suc n) ns name h = Call.get_pod ns name ∷ looks n ns name h

looks-get_pod :
    (n : ℕ) (ns name : Bytes) (h : History)
    → looks n ns name (Call.get_pod ns name ∷ h) ≡ looks (suc n) ns name h
looks-get_pod zero ns name h = refl
looks-get_pod (suc n) ns name h = ap (λ h'. Call.get_pod ns name ∷ h') (looks-get_pod n ns name h)

-- The bound in milliseconds.
fewer_rounds : (k n w : ℕ) → 100 ≤ n → k * (n * 1000000) ≤ w * 1000000 → k * 100 ≤ w
fewer_rounds zero n w le h = omega arith
fewer_rounds (suc k) n w le h =
    let e = suc-mul k (n * 1000000) in
    let less = fewer_rounds k n (w - n) le (omega (arith, e)) in omega (arith, e, less)

module _ (sys : System) (poll : Poll) where
  check_pod_looks :
      (condition : Condition) (ns name : Bytes) (h : History)
      → (check_pod sys poll condition ns name h).1 ≡ Call.get_pod ns name ∷ h
  unfolding check_pod
  check_pod_looks condition ns name h = ground arith

  checked :
      (condition : Condition) (ns name : Bytes) (h : History) {r : Outcome Bool} {h' : History}
      → check_pod sys poll condition ns name h ≡ (r, h')
      → h' ≡ Call.get_pod ns name ∷ h
  checked condition ns name h e =
      sym (ap (λ (s : Outcome Bool × History). s.1) e) ∙ check_pod_looks condition ns name h

  rounds_look :
      (condition : Condition) (ns name : Bytes) {h : History} {r : Outcome (Unit {0}) × History}
      (run : Polls (check_pod sys poll condition ns name) h r)
      → r.1 ≡ looks (rounds run) ns name h
  rounds_look condition ns name (holds e) = checked condition ns name _ e
  rounds_look condition ns name (fails e) = checked condition ns name _ e
  rounds_look condition ns name (crashes e) = checked condition ns name _ e
  rounds_look condition ns name (expires e) = checked condition ns name _ e
  rounds_look condition ns name (again {h = h} e p) =
      rounds_look condition ns name p
      ∙ ap (looks (rounds p) ns name) (checked condition ns name h e)
      ∙ looks-get_pod (rounds p) ns name h

  -- What a wait did: at least one look at the pod, and no more than the bound allows.
  abbrev pub LooksWithin : ℕ → Bytes → Bytes → History → History → Type 0
  LooksWithin w ns name h h' = (k : ℕ) × (1 ≤ k) × ((k - 2) * 100 ≤ w) × (h' ≡ looks k ns name h)

  rounds_positive :
      {cond : M Call Bool} {h : History} {r : Outcome (Unit {0}) × History} (run : Polls cond h r)
      → 1 ≤ rounds run
  rounds_positive (holds e) = omega arith
  rounds_positive (fails e) = omega arith
  rounds_positive (crashes e) = omega arith
  rounds_positive (expires e) = omega arith
  rounds_positive (again e p) = omega arith

  condition_within :
      IsTimed poll
      → (condition : Condition) (ns name : Bytes) (n w : ℕ) (h : History) → 100 ≤ n
      → 1 ≤ w
      → LooksWithin w ns name h
          (wait_for_pod_condition sys poll ns name condition
            (pos (n * 1000000))
            (pos (w * 1000000))
            h).1
  unfolding wait_for_pod_condition
  condition_within law condition ns name n w h le one =
      let (run, bound) =
        law (n * 1000000) (w * 1000000) (check_pod sys poll condition ns name) h (omega (arith, le))
          (omega (arith, one)) in
      (
        rounds run,
        rounds_positive run,
        fewer_rounds (rounds run - 2) n w le bound,
        rounds_look condition ns name run,
      )

  -- Either wait, with the intervals that the checked settings give it, looks at the pod at least once
  -- and, but for two looks, at most once in each 100 milliseconds of the wait that is set, and makes
  -- no other call, whatever the cluster answers. The two settings are at most 9223372036854
  -- milliseconds, the tick is not negative and the wait is positive, and `PollImmediate` keeps its
  -- timeout as documented.
  pub waits_within :
      IsTimed poll
      → (c : Config) (t w : ℕ) (ns name : Bytes) (h : History)
      → c.builder_pod_tick_duration_msec ≡ pos t
      → c.builder_pod_wait_duration_msec ≡ pos w
      → t ≤ 9223372036854
      → 1 ≤ w
      → w ≤ 9223372036854
      → let conf = check_durations c in
        let tick = builder_pod_tick_duration conf in
        let wait = builder_pod_wait_duration conf in
        LooksWithin w ns name h (wait_for_pod sys poll ns name tick wait h).1
        × LooksWithin w ns name h (wait_for_pod_end sys poll ns name tick wait h).1
  unfolding wait_for_pod wait_for_pod_end
  waits_within law c t w ns name h et ew bt one bw =
      let (n, _, le, tick, wait) = checked_durations_exact c t w et ew bt bw in
      rw (tick, wait)
        (
          condition_within law pod_started ns name n w h le one,
          condition_within law pod_ended ns name n w h le one,
        )
