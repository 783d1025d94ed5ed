-- ===== src/Types.antt =====
-- pkg/types.go: what the controller's hooks take and return. A map of Go is the list of its entries; a
-- value of any type and a time are parameters.
use sa_builder.Base.{Bytes, List}
use sa_builder.Base.Int.{ℤ}

abbrev pub ProcessType : Type 0
ProcessType = List (Bytes × Bytes)

pub record ConfigHook : Type 0 where
  pub receive_user : Bytes
  pub receive_repo : Bytes

pub record BuildHook : Type 0 where
  pub sha : Bytes
  pub receive_user : Bytes
  pub receive_repo : Bytes
  pub image : Bytes
  pub procfile : ProcessType
  pub dockerfile : Bytes

pub record BuildHookResponse : Type 0 where
  pub release : List (Bytes × ℤ)

-- `Config` of an application
pub record AppConfig (Any Time : Type 0) : Type 0 where
  pub owner : Bytes
  pub app : Bytes
  pub values : List (Bytes × Any)
  pub memory : List (Bytes × Bytes)
  pub cpu : List (Bytes × ℤ)
  pub tags : List (Bytes × Bytes)
  pub uuid : Bytes
  pub created : Time
  pub updated : Time
