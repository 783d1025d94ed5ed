-- ===== src/Gitreceive/Config.antt =====
-- pkg/gitreceive/config.go. A Go `int` is a value of `ℤ`; a duration is nanoseconds in an int64.
pub mod Laws
use sa_builder.Base.{
  ℕ, suc, ◌+◌, ◌-◌, ◌*◌, ◌%◌, ◌^◌, Bytes, codes, Bool, Option, none, some, ltb, if◌then◌else◌,
}
use sa_builder.Base.Int.{ℤ, pos, negsuc, pos_part, neg_part, ltb_ℤ, leb_ℤ}
use sa_builder.Strings.{before_last}

abbrev pub builder_pod_tick : ℤ
builder_pod_tick = pos 100

abbrev pub object_storage_tick : ℤ
object_storage_tick = pos 500

pub record Config : Type 0 where
  pub workflow_host : Bytes
  pub workflow_port : Bytes
  pub registry_host : Bytes
  pub registry_port : Bytes
  pub git_home : Bytes
  pub ssh_connection : Bytes
  pub ssh_original_command : Bytes
  pub repository : Bytes
  pub username : Bytes
  pub fingerprint : Bytes
  pub pod_namespace : Bytes
  pub storage_region : Bytes
  pub debug : Bool
  pub builder_pod_tick_duration_msec : ℤ
  pub builder_pod_wait_duration_msec : ℤ
  pub object_storage_tick_duration_msec : ℤ
  pub object_storage_wait_duration_msec : ℤ

unfoldable pub app : Config → Bytes
unfolding before_last
app c = elim (before_last c.repository b'.') [ none ↦ c.repository | some name ↦ name ]

-- The int64 with the given two's complement pattern.
abbrev from_bits : ℕ → ℤ
from_bits r = if ltb r (2 ^ 63) then pos r else negsuc (2 ^ 64 - r - 1)

-- `time.Duration(n) * time.Millisecond`, which wraps around
unfoldable pub milliseconds : ℤ → ℤ
milliseconds n =
    from_bits ((pos_part n * 1000000 + (2 ^ 64 - neg_part n * 1000000 % 2 ^ 64)) % 2 ^ 64)

unfoldable pub builder_pod_tick_duration : Config → ℤ
builder_pod_tick_duration c = milliseconds c.builder_pod_tick_duration_msec

unfoldable pub builder_pod_wait_duration : Config → ℤ
builder_pod_wait_duration c = milliseconds c.builder_pod_wait_duration_msec

unfoldable pub object_storage_tick_duration : Config → ℤ
object_storage_tick_duration c = milliseconds c.object_storage_tick_duration_msec

unfoldable pub object_storage_wait_duration : Config → ℤ
object_storage_wait_duration c = milliseconds c.object_storage_wait_duration_msec

-- The two tests that `CheckDurations` makes for each tick, the second on what the first left.
unfoldable pub check_tick : ℤ → ℤ → ℤ → ℤ
check_tick default wait tick =
    let t = if leb_ℤ wait tick then default else tick in if ltb_ℤ t default then default else t

unfoldable pub check_durations : Config → Config
check_durations c = record c {
  builder_pod_tick_duration_msec =
      check_tick builder_pod_tick c.builder_pod_wait_duration_msec c.builder_pod_tick_duration_msec;
  object_storage_tick_duration_msec =
      check_tick object_storage_tick c.object_storage_wait_duration_msec
        c.object_storage_tick_duration_msec;
}
