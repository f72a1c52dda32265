-- ===== src/Kube/Pods.antt =====
-- Pods of k8s.io/api/core/v1 and the items of the three metrics APIs of k8s.io/metrics.
use sunwukong.Base.{String, Option, List}
use sunwukong.Base.Int.{ℤ}
use sunwukong.Base.Dict.{Dict}
use sunwukong.Kube.Time.{Time, Duration}

-- `resource.Quantity`, by what its method `MilliValue` returns.
pub record Quantity : Type 0 where
  pub milli_value : ℤ

pub data PodPhase : Type 0 where
  pending running succeeded failed unknown : PodPhase

pub PodPhase-discrete : Discrete PodPhase
PodPhase-discrete = hlevel

pub data ConditionStatus : Type 0 where
  condition_true condition_false condition_unknown : ConditionStatus

pub record PodCondition : Type 0 where
  pub type : String
  pub status : ConditionStatus
  pub last_transition_time : Time

pub record Container : Type 0 where
  pub name : String
  pub requests : Dict Quantity

pub record Pod : Type 0 where
  pub name : String
  pub deletion_timestamp : Option Time
  pub phase : PodPhase
  pub start_time : Option Time
  pub conditions : List PodCondition
  pub containers : List Container

-- metrics.k8s.io
pub record ContainerMetrics : Type 0 where
  pub name : String
  pub usage : Dict Quantity

pub record PodMetrics : Type 0 where
  pub name : String
  pub namespace : String
  pub timestamp : Time
  pub window : Duration
  pub containers : List ContainerMetrics

-- custom.metrics.k8s.io; `window_seconds` is the pointer `WindowSeconds`.
pub record MetricValue : Type 0 where
  pub object_name : String
  pub timestamp : Time
  pub window_seconds : Option ℤ
  pub value : Quantity

-- external.metrics.k8s.io
pub record ExternalMetricValue : Type 0 where
  pub timestamp : Time
  pub value : Quantity
