-- ===== src/Kube/Autoscaling.antt =====
-- k8s.io/api/autoscaling, v2beta2 and v1. A pointer is an `Option`.
use sunwukong.Base.{String, Option, List}
use sunwukong.Base.Int.{ℤ}
use sunwukong.Kube.Pods.{Quantity}

-- `labels.Selector` and `metav1.LabelSelector` are only handed on; they go by a text.
abbrev pub Selector : Type 0
Selector = String

abbrev pub LabelSelector : Type 0
LabelSelector = String

pub record MetricTarget : Type 0 where
  pub type : String
  pub value : Option Quantity
  pub average_value : Option Quantity

pub record MetricIdentifier : Type 0 where
  pub name : String
  pub selector : Option LabelSelector

pub record ObjectReference : Type 0 where
  pub kind : String
  pub name : String
  pub api_version : String

pub record ObjectMetricSource : Type 0 where
  pub described_object : ObjectReference
  pub target : MetricTarget
  pub metric : MetricIdentifier

-- `PodsMetricSource` and `ExternalMetricSource`
pub record IdentifiedSource : Type 0 where
  pub metric : MetricIdentifier
  pub target : MetricTarget

pub record ResourceMetricSource : Type 0 where
  pub name : String
  pub target : MetricTarget

pub record ContainerResourceMetricSource : Type 0 where
  pub name : String
  pub target : MetricTarget
  pub container : String

pub record MetricSpec : Type 0 where
  pub type : String
  pub object : Option ObjectMetricSource
  pub pods : Option IdentifiedSource
  pub resource : Option ResourceMetricSource
  pub container_resource : Option ContainerResourceMetricSource
  pub external : Option IdentifiedSource

pub record ScalingPolicy : Type 0 where
  pub type : String
  pub value : ℤ
  pub period_seconds : ℤ

-- `HPAScalingRules`
pub record ScalingRules : Type 0 where
  pub stabilization_window_seconds : Option ℤ
  pub select_policy : Option String
  pub policies : List ScalingPolicy

-- `HorizontalPodAutoscalerBehavior`
pub record Behavior : Type 0 where
  pub scale_up : Option ScalingRules
  pub scale_down : Option ScalingRules

-- `autoscalingv1.Scale`
pub record Scale : Type 0 where
  pub spec_replicas : ℤ
  pub status_replicas : ℤ
  pub selector : String
