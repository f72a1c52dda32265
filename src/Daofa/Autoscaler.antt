-- ===== src/Daofa/Autoscaler.antt =====
-- The number of replicas that is due at one time, as a function of what the cluster answers then,
-- beside the rounds of pkg/zaohua/daofa/zaohua.go with their variables, histories and errors.
use sunwukong.Base.{
  String, ◌≡◌, ◌≢◌, ◌||◌, Option, none, some, List, [], ◌∷◌, ◌++◌, str_eq, Result, ok, err, panic,
  if◌then◌else◌,
}
use sunwukong.Base.Int.{ℤ, eqb_ℤ}
use sunwukong.Float.{Float}
use sunwukong.Kube.Autoscaling.{Scale}
use sunwukong.Houmao.{Houmao}
use sunwukong.Daofa.Cluster.{Cluster, CalculateHandle}
use sunwukong.Daofa.Scale.{ScaleClient, Readings, get_scale_for_target}
use sunwukong.Daofa.Scale.Effect.{IsScaleOf}
use sunwukong.Daofa.Calculate.{Choice, calculate}
use sunwukong.Daofa.Calculate.Unique.{IsDecision}

-- What the cluster, its clients and the clock answer at one time.
pub record World : Type 0 where
  pub cluster : Cluster
  pub client : ScaleClient
  pub readings : Readings

abbrev pub list_of {ℓ} : {A : Type ℓ} → Option A → List A
list_of none = []
list_of (some a) = a ∷ []

-- A number that the scale does not have yet.
unfoldable pub news : Scale → Result Choice → Option ℤ
news scale (ok choice) =
    if eqb_ℤ choice.replicas scale.spec_replicas then none else some choice.replicas
news scale (err e) = none
news scale (panic p) = none

module _ {F : Type 0} (fl : Float F) (c : CalculateHandle F) where
  -- The handle with the cluster of the time.
  abbrev pub handle_at : World → CalculateHandle F
  handle_at w = record c { cluster = w.cluster }

  -- The number may be sent for the object: the scale that the API server answers with and the
  -- answers for the metrics decide on it, and the scale does not have it yet.
  pub record IsDue (w : World) (object : Houmao) (n : ℤ) : Type 0 where
    pub scale : Scale
    pub choice : Choice
    pub found : IsScaleOf fl (handle_at w) w.client w.readings object scale
    pub decided : IsDecision fl (handle_at w) w.client.parse_selector object scale choice
    pub number : n ≡ choice.replicas
    pub changes : n ≢ scale.spec_replicas

  unfoldable pub due_of : World → Houmao → Result Scale → Option ℤ
  unfolding news
  due_of w object (ok scale) =
      news scale (calculate fl (handle_at w) w.client.parse_selector object scale)
  due_of w object (err e) = none
  due_of w object (panic p) = none

  -- The number that is due for the object in a mode, if there is one.
  unfoldable pub due : String → World → Houmao → Option ℤ
  unfolding due_of
  due mode w object =
      if str_eq mode "Beidong" || w.client.is_blank object
      then none
      else elim (w.client.parse_group_version object.spec.scale_target_ref.api_version) [
        | some e ↦ none
        | none ↦
            due_of w object
              (get_scale_for_target w.client object.spec.scale_target_ref.name object.namespace)
      ]

  -- All that is due, for the times and the objects one after the other.
  unfoldable pub all_due : String → List (World × Houmao) → List ℤ
  all_due mode [] = []
  all_due mode ((w, object) ∷ attempts) = list_of (due mode w object) ++ all_due mode attempts
