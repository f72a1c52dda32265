-- ===== src/Tests/Scale.antt =====
-- Runs of pkg/zaohua/daofa/zaohua.go.
use sunwukong.Base.{
  String, ◌⊎◌, inr, ◌≡◌, refl, Option, none, some, false, [], ◌∷◌, ◌++◌, arith, ok, Error,
}
use sunwukong.Base.Int.{ℤ, pos, ◌*ℤ◌, ◌-ℤ◌, quot_ℤ}
use sunwukong.Kube.Autoscaling.{Behavior, Scale}
use sunwukong.Houmao.{ZaohuaResult, Houmao}
use sunwukong.Base.Words.{wrap32}
use sunwukong.Metrics.Client.{get_object_metric}
use sunwukong.Daofa.Replicas.Object.{
  replicas_with_object, object_replicas, usage_ratio_replicas, object_replicas_per_pod,
}
use sunwukong.Daofa.Events.{storage_scale_event}
use sunwukong.Daofa.Calculate.{calculate, calculate_loop, answer, consider, name_of, type_of, clamp}
use sunwukong.Daofa.Calculate.Greatest.{IsCut}
use sunwukong.Daofa.Calculate.Values.{calculate_plain_values}
use sunwukong.Daofa.Calculate.Unique.{Decision, calculate_decides}
use sunwukong.Daofa.Cluster.{CalculateHandle}
use sunwukong.Daofa.Scale.{
  get_scale_for_target, update_status, Store, Readings, ScaleClient, revise_records, conclude,
  exec_scale, next_record, detect_and_scale,
}
use sunwukong.Daofa.Scale.Effect.{
  store_of, AtMostOnce, UpdatesWithin, exec_scale_sent, detect_and_scale_bounds,
}
use sunwukong.Daofa.Scale.History.{next_record_window}
use sunwukong.Float.Rational.{Fraction}
use sunwukong.Tests.Fixture.{fl, failed_pod, api_of, handle_of, object_metric, object_source}

abbrev pub handle : CalculateHandle Fraction
handle = handle_of (failed_pod ∷ []) (api_of [] [] (pos 4000))

abbrev result : ℤ → ZaohuaResult
result n = record {
  timestamp = pos 0;
  current_replicas = n;
  desired_replicas = n;
  metrics_election = record {
    is_scaled = false;
    scaled_replicas = pos 0;
    metric_index = pos 0;
    metric_type = "";
    metric_name = "";
  };
}

abbrev no_behavor : Behavior
no_behavor = record {
  scale_up =
      some (record { stabilization_window_seconds = none; select_policy = none; policies = [] });
  scale_down = none;
}

abbrev pub houmao : Houmao
houmao = record {
  name = "web";
  namespace = "ns";
  finalizers = [];
  deletion_timestamp = none;
  spec = record {
    scale_target_ref = record { kind = "Deployment"; name = "web"; api_version = "apps/v1" };
    metrics = object_metric "AverageValue" (pos 1000) ∷ [];
    behavor = no_behavor;
    min_replicas = some (pos 1);
    max_replicas = pos 5;
    service_name = [];
    xianqi_liang = "";
  };
  status = record {
    shifa_phase = "";
    xianqi_info = record { name = ""; namespace = "" };
    zaohua_record = record {
      origin_replicas = pos 0;
      current_zaohua_result = result (pos 0);
      last_5th_zaohua_result =
          result (pos 1) ∷ result (pos 2) ∷ result (pos 3) ∷ result (pos 4) ∷ result (pos 5) ∷ [];
    };
  };
}

abbrev scale : Scale
scale = record { spec_replicas = pos 1; status_replicas = pos 1; selector = "app=web" }

abbrev pub store : Store
store = record {
  origin_replicas = pos 0;
  recommendation_records = [];
  scale_up_events = [];
  scale_down_events = [];
  updates = [];
  patches = [];
}

abbrev pub readings : Readings
readings = record {
  stabilization = (pos 200, pos 200, pos 200);
  limits = λ i. pos 200;
  outdated = pos 200;
  event = pos 200;
  result = pos 200;
}

abbrev pub client : ScaleClient
client = record {
  is_blank = λ object. false;
  parse_group_version = λ version. none;
  get_scale = λ key. ok scale;
  parse_selector = λ selector. ok selector;
  update_scale = λ n. inr n;
  patch = record { marshal = λ p. none; patch = λ object p. none };
}

detect_and_scale_bounds_example :
    UpdatesWithin fl handle client readings houmao (pos 1) [] (pos 4 ∷ [])
unfolding detect_and_scale get_scale_for_target calculate calculate_loop answer consider
    replicas_with_object object_replicas_per_pod get_object_metric ◌*ℤ◌ ◌-ℤ◌ wrap32 quot_ℤ name_of
    clamp exec_scale revise_records storage_scale_event conclude update_status store_of
detect_and_scale_bounds_example =
    detect_and_scale_bounds fl handle client readings houmao store refl (omega arith) refl

-- The server answers with another number of replicas than was sent.
exec_scale_sent_example :
    AtMostOnce (pos 4) [] (pos 4 ∷ [])
    × (◌≡◌ {A = Option Error} none none
        → (◌≡◌ {A = Error ⊎ ℤ} (inr (pos 3)) (inr (pos 3))) × ((pos 4 ∷ []) ≡ [] ++ (pos 4 ∷ [])))
unfolding exec_scale revise_records storage_scale_event
exec_scale_sent_example =
    exec_scale_sent fl readings (pos 4) scale no_behavor (λ n. inr (pos 3)) store refl

next_record_window_example :
    next_record (pos 3) (result (pos 7)) houmao.status.zaohua_record
    ≡ ok (record {
      origin_replicas = pos 3;
      current_zaohua_result = result (pos 7);
      last_5th_zaohua_result =
          result (pos 2) ∷ result (pos 3) ∷ result (pos 4) ∷ result (pos 5) ∷ result (pos 0) ∷ [];
    })
next_record_window_example =
    next_record_window (pos 3) (result (pos 7)) (result (pos 0)) (result (pos 1)) (result (pos 2))
      (result (pos 3)) (result (pos 4)) (result (pos 5)) (pos 0)

calculate_decides_example :
    (d : Decision fl handle (λ selector. ok selector) houmao scale) × (d.0 ≡ record {
      replicas = pos 4;
      metric_index = pos 0;
      metric_type = "Object";
      metric_name = "requests";
    })
    × IsProp (Decision fl handle (λ selector. ok selector) houmao scale)
unfolding calculate calculate_loop answer consider replicas_with_object object_replicas_per_pod
    get_object_metric ◌*ℤ◌ ◌-ℤ◌ wrap32 quot_ℤ name_of type_of clamp
calculate_decides_example = calculate_decides fl handle (λ selector. ok selector) houmao scale refl

-- The value is 4000 where the target is 1000.
abbrev plain : Houmao
plain = record houmao {
  spec = record (Houmao.spec houmao) { metrics = object_metric "Value" (pos 1000) ∷ [] };
}

calculate_plain_values_example :
    IsCut (pos 1) (some (pos 1)) (pos 5) (pos 1)
    × (pos 0 ≡ pos 0)
    × (◌≡◌ {A = String} "" "")
    × (◌≡◌ {A = String} "" "")
unfolding calculate calculate_loop answer consider replicas_with_object object_replicas
    usage_ratio_replicas get_object_metric ◌*ℤ◌ ◌-ℤ◌ wrap32 quot_ℤ name_of type_of clamp
calculate_plain_values_example =
    calculate_plain_values fl handle (λ selector. ok selector) plain scale
      ((refl, object_source "Value" (pos 1000), refl, refl), tt) (omega arith) refl
