-- ===== src/Api.antt =====
-- api/v1alpha1/shim_types.go: the custom resource `Shim`. A nil map or pointer is `none`.
use runtime_class_manager.Base.{ℕ, Bool, Option, List, Text, txt}
use runtime_class_manager.Base.Dict.{Dict}

-- `AnonHTTPSpec`
pub record AnonHttpSpec : Type 0 where
  pub location : Text

-- `PlatformArtifact`
pub record PlatformArtifact : Type 0 where
  pub os : Text
  pub arch : Text
  pub location : Text
  pub sha256 : Text

-- `FetchStrategy`
pub record FetchStrategy : Type 0 where
  pub type : Text
  pub anon_http : Option AnonHttpSpec
  pub platforms : List PlatformArtifact

-- `RuntimeClassSpec`
pub record RuntimeClassSpec : Type 0 where
  pub name : Text
  pub handler : Text

-- `RollingSpec`
pub record RollingSpec : Type 0 where
  pub max_update : ℕ

-- `RolloutStrategyType`
abbrev pub rolling_type : Text
rolling_type = txt "rolling"

abbrev pub recreate_type : Text
recreate_type = txt "recreate"

-- `RolloutStrategy`
pub record RolloutStrategy : Type 0 where
  pub type : Text
  pub rolling : RollingSpec

-- `ShimSpec`
pub record ShimSpec : Type 0 where
  pub node_selector : Option (Dict Text Text)
  pub fetch_strategy : FetchStrategy
  pub runtime_class : RuntimeClassSpec
  pub rollout_strategy : RolloutStrategy
  pub containerd_runtime_options : Option (Dict Text Text)

-- `ShimStatus`, less the conditions, which nothing reads or sets.
pub record ShimStatus : Type 0 where
  pub node_count : ℕ
  pub node_ready_count : ℕ

-- `Shim`, with what the controller reads of its metadata.
pub record Shim : Type 0 where
  pub name : Text
  pub namespace : Text
  pub finalizers : List Text
  -- Is `DeletionTimestamp` set?
  pub deleting : Bool
  pub spec : ShimSpec
  pub status : ShimStatus
