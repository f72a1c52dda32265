-- ===== src/Tests/Fixture.antt =====
-- A cluster of two pods, one of which has failed, and what its metrics API answers.
use sunwukong.Base.{String, true, none, some, List, [], ◌∷◌, ok}
use sunwukong.Base.Int.{ℤ, pos}
use sunwukong.Float.Rational.{Fraction, fraction_float}
use sunwukong.Float.{Float}
use sunwukong.Kube.Pods.{Quantity, PodPhase, running, failed, Pod, PodMetrics, MetricValue}
use sunwukong.Kube.Autoscaling.{
  MetricTarget, MetricIdentifier, ObjectMetricSource, IdentifiedSource, ResourceMetricSource,
  MetricSpec,
}
use sunwukong.Metrics.Api.{MetricsApi}
use sunwukong.Daofa.Cluster.{CalculateHandle}

abbrev pub fl : Float Fraction
fl = fraction_float

abbrev pub milli : ℤ → Quantity
milli n = record { milli_value = n }

abbrev pub pod_of : String → PodPhase → Pod
pod_of name phase = record {
  name = name;
  deletion_timestamp = none;
  phase = phase;
  start_time = none;
  conditions = [];
  containers = record { name = "container"; requests = (("memory", milli (pos 1000)) ∷ []) } ∷ [];
}

abbrev pub live_pod : Pod
live_pod = pod_of "live" running

abbrev pub failed_pod : Pod
failed_pod = pod_of "failed" failed

abbrev pub item_of : String → ℤ → PodMetrics
item_of name usage = record {
  name = name;
  namespace = "ns";
  timestamp = pos 100;
  window = pos 60;
  containers = record { name = "container"; usage = (("memory", milli usage) ∷ []) } ∷ [];
}

abbrev pub value_of : String → ℤ → MetricValue
value_of name value = record {
  object_name = name;
  timestamp = pos 100;
  window_seconds = none;
  value = milli value;
}

-- What the API answers: usages of memory, values of the pods, and a value of an object.
abbrev pub api_of : List PodMetrics → List MetricValue → ℤ → MetricsApi
api_of items values object = record {
  pod_metricses = λ namespace selector. ok items;
  get_for_objects = λ namespace selector name metric_selector. ok values;
  root_get_for_object = λ group kind namespace name selector. ok (value_of namespace object);
  get_for_object =
      λ namespace group kind object_name name selector. ok (value_of object_name object);
  list_external =
      λ namespace name selector. ok (record { timestamp = pos 100; value = milli object } ∷ []);
  group_of = λ api_version. "apps";
}

abbrev pub handle_of : List Pod → MetricsApi → CalculateHandle Fraction
handle_of pods api = record {
  cluster = record {
    list_pods = λ namespace selector. ok pods;
    as_selector = λ selector. ok "app=web";
    get_pod_condition = λ pod type. none;
    is_pod_ready = λ pod. true;
    metrics = api;
    clock = λ i. pos 200;
  };
  cpu_initialization_period = pos 300;
  initial_readiness_delay = pos 30;
  down_scale_stabilization_window = pos 300;
  scale_tolerance = record { num = pos 1; den = 10 };
}

abbrev pub target_of : String → ℤ → MetricTarget
target_of type n = record { type = type; value = some (milli n); average_value = some (milli n) }

abbrev pub identifier : MetricIdentifier
identifier = record { name = "requests"; selector = none }

abbrev pub object_source : String → ℤ → ObjectMetricSource
object_source type n = record {
  described_object = record { kind = "Service"; name = "web"; api_version = "v1" };
  target = target_of type n;
  metric = identifier;
}

abbrev pub resource_source : ℤ → ResourceMetricSource
resource_source n = record { name = "memory"; target = target_of "AverageValue" n }

abbrev pub pods_source : ℤ → IdentifiedSource
pods_source n = record { metric = identifier; target = target_of "AverageValue" n }

abbrev pub blank_metric : String → MetricSpec
blank_metric type = record {
  type = type;
  object = none;
  pods = none;
  resource = none;
  container_resource = none;
  external = none;
}

abbrev pub object_metric : String → ℤ → MetricSpec
object_metric type n = record (blank_metric "Object") { object = some (object_source type n) }

abbrev pub resource_metric : ℤ → MetricSpec
resource_metric n = record (blank_metric "Resource") { resource = some (resource_source n) }

abbrev pub pods_metric : ℤ → MetricSpec
pods_metric n = record (blank_metric "Pods") { pods = some (pods_source n) }
