-- ===== src/Tests/Rounds.antt =====
-- Rounds of pkg/zaohua/daofa/zaohua.go that end with a value.
use sunwukong.Base.{refl, inl, some, [], ◌∷◌, arith, IsOk}
use sunwukong.Base.Int.{pos}
use sunwukong.Kube.Autoscaling.{ScalingRules, Behavior}
use sunwukong.Houmao.{Houmao}
use sunwukong.Daofa.Replicas.Total.{IsSafe}
use sunwukong.Daofa.Calculate.Total.{IsServed}
use sunwukong.Daofa.Scale.{detect_and_scale}
use sunwukong.Daofa.Scale.Total.{IsReady, detect_and_scale-IsOk}
use sunwukong.Tests.Fixture.{fl, object_metric, resource_metric}
use sunwukong.Tests.Scale.{houmao, store, readings, client, handle}

abbrev rules : ScalingRules
rules = record {
  stabilization_window_seconds = some (pos 300);
  select_policy = some "Min";
  policies = record { type = "Pods"; value = pos 2; period_seconds = pos 60 } ∷ [];
}

abbrev behavor : Behavior
behavor = record { scale_up = some rules; scale_down = some rules }

abbrev pub ruled : Houmao
ruled = record houmao {
  spec = record (Houmao.spec houmao) {
    behavor = behavor;
    metrics = object_metric "AverageValue" (pos 1000) ∷ resource_metric (pos 500) ∷ [];
  };
}

safe : IsSafe handle
safe = record {
  list_pods = λ namespace selector p bad. cc;
  as_selector = λ labels p bad. cc;
  metrics = record {
    pod_metricses = λ namespace selector p bad. cc;
    root_get_for_object = λ group kind name metric selector p bad. cc;
    get_for_object = λ namespace group kind name metric selector p bad. cc;
  };
}

pub ready : IsReady handle client ruled
ready = record {
  cluster = safe;
  get_scale = λ key p bad. cc;
  parse_selector = λ selector p bad. cc;
  metrics = (
    IsServed.by_object _ refl refl (λ e. (_, refl), λ e. (_, refl)),
    (IsServed.by_resource _ _ refl refl refl, tt),
  );
  least = pos 1;
  has_least = refl;
  behavor = record {
    up = rules;
    down = rules;
    has_up = refl;
    has_down = refl;
    up_window = pos 300;
    down_window = pos 300;
    has_up_window = refl;
    has_down_window = refl;
    policy = inl refl;
  };
  five = omega arith;
}

detect_and_scale-IsOk_example : IsOk (detect_and_scale fl handle client readings ruled store)
detect_and_scale-IsOk_example = detect_and_scale-IsOk fl handle client readings ruled ready store
