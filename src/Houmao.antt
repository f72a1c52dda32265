-- ===== src/Houmao.antt =====
-- api/v1/houmao_types.go: the custom resource of the operator.
use sunwukong.Base.{String, Bool, Option, List}
use sunwukong.Base.Int.{ℤ}
use sunwukong.Kube.Time.{Time}
use sunwukong.Kube.Autoscaling.{ObjectReference, MetricSpec, Behavior}

-- `xianqi_liang` is a `corev1.ResourceRequirements`, which is only copied and compared; it goes by
-- a text.
pub record HoumaoSpec : Type 0 where
  pub scale_target_ref : ObjectReference
  pub metrics : List MetricSpec
  pub behavor : Behavior
  pub min_replicas : Option ℤ
  pub max_replicas : ℤ
  pub service_name : List String
  pub xianqi_liang : String

pub record XianqiInfo : Type 0 where
  pub name : String
  pub namespace : String

pub record MetricStatus : Type 0 where
  pub is_scaled : Bool
  pub scaled_replicas : ℤ
  pub metric_index : ℤ
  pub metric_type : String
  pub metric_name : String

pub record ZaohuaResult : Type 0 where
  pub timestamp : Time
  pub current_replicas : ℤ
  pub desired_replicas : ℤ
  pub metrics_election : MetricStatus

-- `last_5th_zaohua_result` is an array of five.
pub record ZaohuaRecord : Type 0 where
  pub origin_replicas : ℤ
  pub current_zaohua_result : ZaohuaResult
  pub last_5th_zaohua_result : List ZaohuaResult

pub record HoumaoStatus : Type 0 where
  pub shifa_phase : String
  pub xianqi_info : XianqiInfo
  pub zaohua_record : ZaohuaRecord

-- Of the object's metadata: the name, the namespace, the finalizers and the time of deletion.
pub record Houmao : Type 0 where
  pub name : String
  pub namespace : String
  pub finalizers : List String
  pub deletion_timestamp : Option Time
  pub spec : HoumaoSpec
  pub status : HoumaoStatus
