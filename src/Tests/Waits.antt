-- ===== src/Tests/Waits.antt =====
-- The bound on a wait, at a concrete input: a poll that counts the intervals in its timeout.
use sa_builder.Base.{ℕ, ◌≤◌, ◌-◌, ◌*◌, ◌/◌, refl, codes, [], arith}
use native.Mathlib.Nat.{mul-le-mul_right, div-mul-le_self}
use sa_builder.Base.Int.{ℤ, pos}
use sa_builder.Gitreceive.Config.{
  check_durations, builder_pod_tick_duration, builder_pod_wait_duration,
}
use sa_builder.Gitreceive.Wait.{Poll, wait_for_pod, wait_for_pod_end}
use sa_builder.Gitreceive.Wait.Bound.{IsTimed, LooksWithin, rounds, waits_within}
use sa_builder.Tests.{linux, settings, more, more-Polls}

abbrev intervals : ℤ → ℤ → ℕ
intervals (pos interval) (pos timeout) = timeout / interval
intervals _ _ = 0

abbrev timed_poll : Poll
timed_poll interval timeout cond h = more cond (intervals interval timeout) (cond h)

few_intervals : (k interval timeout : ℕ) → k - 2 ≤ timeout / interval → (k - 2) * interval ≤ timeout
few_intervals k interval timeout le =
    omega (arith, mul-le-mul_right interval le, div-mul-le_self timeout interval)

timed_poll-IsTimed : IsTimed timed_poll
timed_poll-IsTimed interval timeout cond h positive lasting =
    let (run, le) = more-Polls cond (timeout / interval) h (cond h) refl in
    (run, few_intervals (rounds run) interval timeout (omega (arith, le)))

waits_within_example :
    let conf = check_durations settings in
    let tick = builder_pod_tick_duration conf in
    let wait = builder_pod_wait_duration conf in
    LooksWithin linux timed_poll 300000
      (codes "deis")
      (codes "pod")
      []
      (wait_for_pod linux timed_poll (codes "deis") (codes "pod") tick wait []).1
    × LooksWithin linux timed_poll 300000
        (codes "deis")
        (codes "pod")
        []
        (wait_for_pod_end linux timed_poll (codes "deis") (codes "pod") tick wait []).1
waits_within_example =
    waits_within linux timed_poll timed_poll-IsTimed settings 200 300000 (codes "deis")
      (codes "pod") [] refl refl (omega arith) (omega arith) (omega arith)
