-- ===== src/Gitreceive/Wait.antt =====
-- The waiting functions of pkg/gitreceive/k8s_util.go. `wait.PollImmediate` is a parameter.
pub mod Laws
pub mod Bound
use sa_builder.Base.{
  ◌≡◌, Bytes, codes, Bool, true, false, Option, none, some, Outcome, ok, err, M, ◌>>=◌, pure, fail,
  call,
}
use sa_builder.Base.Int.{ℤ}
use sa_builder.System.{
  Call, History, System, Phase, running, succeeded, failed_phase, PodStatus, GetError, not_found,
  PodReply,
}

-- `wait.PollImmediate(interval, timeout, condition)`; the condition's error is its `err`.
abbrev pub Poll : Type 0
Poll = ℤ → ℤ → M Call Bool → M Call (Unit {0})

-- A run of a polling loop: the condition is checked once or more, in a row; the loop returns
-- nothing once it holds, its error once it fails, and an error after a check that says `false`.
pub data Polls (cond : M Call Bool) : History → Outcome (Unit {0}) × History → Type 0 where
  holds : {h h' : History} → cond h ≡ (ok true, h') → Polls cond h (ok tt, h')
  fails : {h h' : History} {e : Bytes} → cond h ≡ (err e, h') → Polls cond h (err e, h')
  crashes : {h h' : History} → cond h ≡ (Outcome.panic, h') → Polls cond h (Outcome.panic, h')
  expires : {h h' : History} {e : Bytes} → cond h ≡ (ok false, h') → Polls cond h (err e, h')
  again :
      {h h' : History} {r : Outcome (Unit {0}) × History}
      → cond h ≡ (ok false, h')
      → Polls cond h' r
      → Polls cond h r

-- What is documented of `PollImmediate`: each of its runs is such a loop.
abbrev pub IsPoll : Poll → Type 0
IsPoll poll =
    (interval timeout : ℤ) (cond : M Call Bool) (h : History)
    → Polls cond h (poll interval timeout cond h)

-- The result of a condition: `(done, err)`.
abbrev pub Condition : Type 0
Condition = PodStatus → Bool × Option Bytes

abbrev gave_up : Bytes
gave_up = codes "Giving up; pod went into failed status"

-- The condition of `waitForPod`; the error's text is cut before the dump of the pod.
unfoldable pub pod_started : Condition
pod_started pod = elim (PodStatus.phase pod) [
  | running ↦ (true, none)
  | failed_phase ↦ (true, some gave_up)
  | _ ↦ (false, none)
]

-- The condition of `waitForPodEnd`
unfoldable pub pod_ended : Condition
pod_ended pod = elim (PodStatus.phase pod) [
  | succeeded ↦ (true, none)
  | failed_phase ↦ (true, none)
  | _ ↦ (false, none)
]

-- What the polled function makes of the client's answer: only a pod that is not found is an error,
-- and the error of the condition is dropped.
unfoldable pub judge : Condition → PodReply → M Call Bool
judge condition reply = elim (reply.error) [
  | some (not_found e) ↦ fail e
  | _ ↦ elim ((condition reply.status).0) [ true ↦ pure true | false ↦ pure false ]
]

module _ (sys : System) (poll : Poll) where
  -- The function that `waitForPodCondition` polls.
  unfoldable pub check_pod : Condition → Bytes → Bytes → M Call Bool
  unfolding judge
  check_pod condition ns pod_name = do
    reply ← call (Call.get_pod ns pod_name) (λ h. System.get_pod sys h ns pod_name)
    judge condition reply

  unfoldable pub wait_for_pod_condition : Bytes → Bytes → Condition → ℤ → ℤ → M Call (Unit {0})
  wait_for_pod_condition ns pod_name condition interval timeout =
      poll interval timeout (check_pod condition ns pod_name)

  unfoldable pub wait_for_pod : Bytes → Bytes → ℤ → ℤ → M Call (Unit {0})
  unfolding wait_for_pod_condition pod_started
  wait_for_pod ns pod_name interval timeout =
      wait_for_pod_condition ns pod_name pod_started interval timeout

  unfoldable pub wait_for_pod_end : Bytes → Bytes → ℤ → ℤ → M Call (Unit {0})
  unfolding wait_for_pod_condition pod_ended
  wait_for_pod_end ns pod_name interval timeout =
      wait_for_pod_condition ns pod_name pod_ended interval timeout
