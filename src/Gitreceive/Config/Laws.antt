-- ===== src/Gitreceive/Config/Laws.antt =====
-- The application's name, the polling intervals and their units.
use sa_builder.Base.{ℕ, ◌*◌, ◌≤◌, ◌<◌, ◌≡◌, refl, ◌⊎◌, inl, inr, Bytes, codes, ◌++◌, arith}
use sa_builder.Base.Int.{ℤ, pos, ◌≤ℤ◌, ◌<ℤ◌}
use sa_builder.Strings.Split.{before_last-append}
use sa_builder.Gitreceive.Config.{
  Config, app, milliseconds, check_tick, check_durations, builder_pod_tick, object_storage_tick,
  builder_pod_tick_duration, builder_pod_wait_duration,
}

-- The repository of an application is its name with ".git" behind it, whatever dots the name holds.
pub app_of_git : (c : Config) (name : Bytes) → c.repository ≡ name ++ codes ".git" → app c ≡ name
unfolding app
app_of_git c name h = rw (h, before_last-append name (codes "git") b'.' (omega arith), app)

-- What the two tests leave: the tick itself where it is at least the default and below the wait,
-- and the default otherwise.
check_tick_cases :
    (d w t : ℤ)
    → (((d ≤ℤ t) × (t <ℤ w)) × (check_tick d w t ≡ t))
      ⊎ (((t <ℤ d) ⊎ (w ≤ℤ t)) × (check_tick d w t ≡ d))
unfolding check_tick
check_tick_cases d w t = ground arith

check_tick_twice : (d w t : ℤ) → check_tick d w (check_tick d w t) ≡ check_tick d w t
unfolding check_tick
check_tick_twice d w t = ground arith

-- A tick that is not below the default, and is below the wait where the default is: the one that was
-- set where it is between the two, and else the default.
abbrev pub IsChecked : ℤ → ℤ → ℤ → ℤ → Type 0
IsChecked d w t t' =
    (d ≤ℤ t') × (d <ℤ w → t' <ℤ w) × (d ≤ℤ t → t <ℤ w → t' ≡ t) × ((t <ℤ d) ⊎ (w ≤ℤ t) → t' ≡ d)

check_tick-IsChecked : (d w t : ℤ) → IsChecked d w t (check_tick d w t)
unfolding check_tick
check_tick-IsChecked d w t = ground arith

-- After `CheckDurations`, for either pair of settings: the tick is at least its default (100 or 500
-- milliseconds), it is below the wait if its default is, a tick between the default and the wait
-- is kept, and any other tick has become the default.
pub check_durations-IsChecked :
    (c : Config)
    → let c' = check_durations c in
      IsChecked builder_pod_tick c.builder_pod_wait_duration_msec c.builder_pod_tick_duration_msec
        c'.builder_pod_tick_duration_msec
      × IsChecked object_storage_tick c.object_storage_wait_duration_msec
          c.object_storage_tick_duration_msec c'.object_storage_tick_duration_msec
unfolding check_durations
check_durations-IsChecked c = (check_tick-IsChecked _ _ _, check_tick-IsChecked _ _ _)

-- Checking the durations a second time changes nothing.
pub check_durations_twice : (c : Config) → check_durations (check_durations c) ≡ check_durations c
unfolding check_durations
check_durations_twice c = rw (check_tick_twice, check_tick_twice)

-- Where the wait is not above the default tick, `CheckDurations` leaves a tick that is not below
-- the wait.
pub check_durations_short_wait :
    (c : Config)
    → c.builder_pod_wait_duration_msec ≤ℤ builder_pod_tick
    → ¬ ((check_durations c).builder_pod_tick_duration_msec <ℤ c.builder_pod_wait_duration_msec)
unfolding check_durations
check_durations_short_wait c h =
    let l =
      check_tick-IsChecked builder_pod_tick c.builder_pod_wait_duration_msec
        c.builder_pod_tick_duration_msec in
    omega (arith, l.0)

-- Up to 9223372036854 milliseconds the conversion is exact.
milliseconds_exact : (n : ℕ) → n ≤ 9223372036854 → milliseconds (pos n) ≡ pos (n * 1000000)
unfolding milliseconds
milliseconds_exact n h = ground arith

-- The next millisecond wraps around to a negative duration.
milliseconds_overflow :
    (n : ℕ) → 9223372036854 < n → n < 18446744073709 → milliseconds (pos n) <ℤ pos 0
unfolding milliseconds
milliseconds_overflow n h k = ground arith

-- The intervals that the build polls with are the checked settings in nanoseconds, neither of
-- them wrapped around, if the two settings are at most 9223372036854 milliseconds and the wait is
-- not negative.
pub checked_durations_exact :
    (c : Config) (t w : ℕ)
    → c.builder_pod_tick_duration_msec ≡ pos t
    → c.builder_pod_wait_duration_msec ≡ pos w
    → t ≤ 9223372036854
    → w ≤ 9223372036854
    → (n : ℕ) × ((check_durations c).builder_pod_tick_duration_msec ≡ pos n)
      × (100 ≤ n)
      × (builder_pod_tick_duration (check_durations c) ≡ pos (n * 1000000))
      × (builder_pod_wait_duration (check_durations c) ≡ pos (w * 1000000))
unfolding check_durations builder_pod_tick_duration builder_pod_wait_duration
checked_durations_exact c t w ht hw bt bw =
    rw (ht, hw)
      (elim (check_tick_cases builder_pod_tick (pos w) (pos t)) [
        | inl ((low, _), e) ↦
            rw e (t, refl, omega (arith, low), milliseconds_exact t bt, milliseconds_exact w bw)
        | inr (_, e) ↦
            rw e (
              100,
              refl,
              omega arith,
              milliseconds_exact 100 (omega arith),
              milliseconds_exact w bw,
            )
      ])
