-- ===== src/Daofa/Scale/Defs.antt =====
-- The functions of pkg/zaohua/daofa/zaohua.go that put a number of replicas into effect, over the
-- variables of the package.
use sunwukong.Base.{
  ◌⊎◌, inl, inr, String, ℕ, zero, suc, ◌-◌, Bool, true, ◌&&◌, not, Option, none, some, List, [],
  ◌∷◌, ◌++◌, length, get_elem?, set, Error, index_out_of_range, Result, ok, err, panic, ◌>>=◌, ltb,
  if◌then◌else◌,
}
use sunwukong.Base.Int.{ℤ, pos, ltb_ℤ, eqb_ℤ}
use sunwukong.Base.Words.{◌-32◌}
use sunwukong.Float.{Float}
use sunwukong.Kube.Time.{Time}
use sunwukong.Kube.Names.{NamespacedName}
use sunwukong.Kube.Autoscaling.{Selector, Behavior, Scale}
use sunwukong.Houmao.{ZaohuaResult, ZaohuaRecord, Houmao}
use sunwukong.Status.{Patch, PatchClient, update_zaohua_record}
use sunwukong.Daofa.Records.{RecommendationRecord, ScaleEvent}
use sunwukong.Daofa.Behavior.{revise_with_behavor}
use sunwukong.Daofa.Events.{storage_scale_event}
use sunwukong.Daofa.Groups.{is_set}
use sunwukong.Daofa.Cluster.{CalculateHandle}
use sunwukong.Daofa.Calculate.{Choice, calculate}

-- The package's variables, and the requests that were sent to the API server: the replicas of each
-- update of the scale, and the patches of the status.
pub record Store : Type 0 where
  pub origin_replicas : ℤ
  pub recommendation_records : List RecommendationRecord
  pub scale_up_events : List ScaleEvent
  pub scale_down_events : List ScaleEvent
  pub updates : List ℤ
  pub patches : List Patch

-- The readings of the clock, in the order of the calls.
pub record Readings : Type 0 where
  pub stabilization : Time × Time × Time
  pub limits : ℕ → Time
  pub outdated : Time
  pub event : Time
  pub result : Time

-- Go's pair of a value and an error that may be nil.
abbrev pub Returned : Type 0 → Type 0
Returned A = A × Option Error

module _ {F : Type 0} (fl : Float F) (readings : Readings) where
  -- The revision by the behavior. Its result is bound to a variable of an inner scope, and what is
  -- written to the scale is overwritten before it is read; the records stay.
  unfoldable pub revise_records : Behavior → ℤ → ℤ → Store → Result (List RecommendationRecord)
  revise_records behavor scaled current store =
      if is_set behavor.scale_up && is_set behavor.scale_down
      then (do
        (final, records) ←
            revise_with_behavor fl readings.stabilization readings.limits scaled current
              (some behavor) store.recommendation_records
              (if ltb_ℤ current scaled then store.scale_up_events else store.scale_down_events)
        ok records)
      else ok store.recommendation_records

  -- After the update of the scale: an error is returned, a success recorded as an event. `Update`
  -- writes the server's answer over the scale, so the number returned is that of the answer.
  unfoldable pub record_event :
      Error ⊎ ℤ → ℤ → Scale → Behavior → Store → Result (Returned ℤ × Store)
  record_event (inl e) scaled scale behavor sent = ok ((pos 0, some e), sent)
  record_event (inr answered) scaled scale behavor sent = do
    (ups, downs) ←
        storage_scale_event readings.outdated readings.event (some behavor) scale.spec_replicas
          scaled sent.scale_up_events sent.scale_down_events
    ok ((answered, none), record sent { scale_up_events = ups; scale_down_events = downs })

  -- After the revision: the update is sent. An error of the revision, of which there is none, would
  -- leave the store as it is.
  unfoldable pub exec_revised :
      Result (List RecommendationRecord)
      → (ℤ → Error ⊎ ℤ)
      → ℤ
      → Scale
      → Behavior
      → Store
      → Result (Returned ℤ × Store)
  unfolding record_event
  exec_revised (panic p) update scaled scale behavor store = panic p
  exec_revised (err e) update scaled scale behavor store = ok ((pos 0, some e), store)
  exec_revised (ok records) update scaled scale behavor store =
      record_event (update scaled) scaled scale behavor (record store {
        recommendation_records = records;
        updates = store.updates ++ (scaled ∷ []);
      })

  -- `execScale`; `update` is what `Client.Update` of the scale with these replicas ends with: an
  -- error, or the replicas of the spec in the server's answer, which it writes over the scale.
  unfoldable pub exec_scale :
      (ℤ → Error ⊎ ℤ) → ℤ → Scale → Behavior → Store → Result (Returned ℤ × Store)
  unfolding exec_revised
  exec_scale update scaled scale behavor store =
      exec_revised (revise_records behavor scaled scale.spec_replicas store) update scaled scale
        behavor store

-- `a[i] = a[i+1]` for `i` from 0 below the length less one.
unfoldable pub shift_loop : ℕ → ℕ → List ZaohuaResult → List ZaohuaResult
shift_loop zero i results = results
shift_loop (suc left) i results =
    shift_loop left (suc i)
      (elim (get_elem? results (suc i)) [ none ↦ results | some r ↦ set results i r ])

-- The array of the last results takes in one more. An index at its length is out of its range.
unfoldable pub push_result : ZaohuaResult → List ZaohuaResult → Result (List ZaohuaResult)
unfolding shift_loop
push_result pre results =
    if ltb (length results) 5
    then panic index_out_of_range
    else ok (set (shift_loop (length results - 1) 0 results) (length results - 1) pre)

-- The record that `updateStatus` makes.
unfoldable pub next_record : ℤ → ZaohuaResult → ZaohuaRecord → Result ZaohuaRecord
unfolding push_result
next_record origin_replicas result r = do
  last ← push_result r.current_zaohua_result r.last_5th_zaohua_result
  ok (record {
    origin_replicas =
        if not (eqb_ℤ origin_replicas (pos 0)) && eqb_ℤ r.origin_replicas (pos 0)
        then origin_replicas
        else r.origin_replicas;
    current_zaohua_result = result;
    last_5th_zaohua_result = last;
  })

-- `updateStatus`: the error, and the patches sent.
unfoldable pub update_status :
    PatchClient → Houmao → ℤ → ZaohuaResult → Result (Option Error × List Patch)
unfolding next_record update_zaohua_record
update_status client object origin_replicas result = do
  r ← next_record origin_replicas result object.status.zaohua_record
  ok (update_zaohua_record client object r)

-- The clients and library functions that a round calls; `get_scale` is `Client.Get` of a scale, and `is_blank` is `reflect.DeepEqual` with the
-- empty object, which also compares metadata that the model leaves out.
pub record ScaleClient : Type 0 where
  pub is_blank : Houmao → Bool
  pub parse_group_version : String → Option Error
  pub get_scale : NamespacedName → Result Scale
  pub parse_selector : String → Result Selector
  pub update_scale : ℤ → Error ⊎ ℤ
  pub patch : PatchClient

-- `getScaleForTarget`, which asks for the scale by the target's name and the object's namespace.
unfoldable pub get_scale_for_target : ScaleClient → String → String → Result Scale
get_scale_for_target client name namespace =
    client.get_scale (record { namespace = namespace; name = name })

-- How a round ends: it waits for the next change of the object, or it returns.
pub data Round : Type 0 where
  waits : Store → Round
  returns : Option Error → Store → Round

-- The result that a round records.
unfoldable pub result_of : Time → ℤ → ℤ → Choice → ZaohuaResult
result_of now current desired choice = record {
  timestamp = now;
  current_replicas = current;
  desired_replicas = desired;
  metrics_election = record {
    is_scaled = true;
    scaled_replicas = desired -32 current;
    metric_index = choice.metric_index;
    metric_type = choice.metric_type;
    metric_name = choice.metric_name;
  };
}

module _ {F : Type 0} (fl : Float F) (c : CalculateHandle F) (client : ScaleClient)
    (readings : Readings) where
  -- What follows `execScale`, whose error is only logged. `syncService` does nothing.
  unfoldable pub conclude : Houmao → Choice → ℤ → Returned ℤ × Store → Result Round
  conclude object choice current ((desired, failure), store) = do
    (failure', patches) ←
        update_status client.patch object store.origin_replicas
          (result_of readings.result current desired choice)
    ok (returns failure' (record store { patches = store.patches ++ patches }))

  -- From what `calculate` answered on.
  unfoldable pub apply_choice : Result Choice → Houmao → Scale → Store → Result Round
  apply_choice (panic p) object scale store = panic p
  apply_choice (err e) object scale store = ok (returns none store)
  apply_choice (ok choice) object scale store =
      if eqb_ℤ choice.replicas scale.spec_replicas then ok (returns none store) else (do
        outcome ←
            exec_scale fl readings client.update_scale choice.replicas scale object.spec.behavor
              store
        conclude object choice scale.spec_replicas outcome)

  -- From what `getScale` answered on.
  unfoldable pub scale_object : Result Scale → Houmao → Store → Result Round
  unfolding apply_choice
  scale_object (panic p) object store = panic p
  scale_object (err e) object store = ok (returns (some e) store)
  scale_object (ok scale) object store =
      apply_choice (calculate fl c client.parse_selector object scale) object scale
        (record store { origin_replicas = scale.spec_replicas })

  unfoldable pub detect_and_scale : Houmao → Store → Result Round
  unfolding scale_object
  detect_and_scale object store =
      if client.is_blank object
      then ok (waits store)
      else elim (client.parse_group_version object.spec.scale_target_ref.api_version) [
        | some e ↦ ok (returns (some e) store)
        | none ↦
            scale_object
              (get_scale_for_target client object.spec.scale_target_ref.name object.namespace)
              object store
      ]
