-- ===== src/Daofa/Behavior/Errors.antt =====
-- Of pkg/zaohua/daofa/behavor_processor.go: the revision has no error of its own, it returns or panics.
use sunwukong.Base.{
  ℕ, suc, refl, ◌≢◌, Option, none, some, List, [], ◌∷◌, arith, str_eq, Error, Result, ok, err,
  panic, ◌>>=◌, deref, Bool-cases, inl, inr,
}
use sunwukong.Base.Int.{ℤ, pos}
use sunwukong.Float.{Float}
use sunwukong.Kube.Time.{Time}
use sunwukong.Kube.Autoscaling.{ScalingPolicy, ScalingRules, Behavior}
use sunwukong.Daofa.Records.{RecommendationRecord, ScaleEvent}
use sunwukong.Daofa.Behavior.{
  ReviseInfo, call, limit_loop, select_up, select_down, scale_up_limit, scale_down_limit, window_of,
  stabilization_recommendation, convert_desired_replicas, init_window, revise_with_behavor,
}

abbrev pub NeverErrs {ℓ} : {A : Type ℓ} → Result A → Type ℓ
NeverErrs r = (e : Error) → r ≢ err e

>>=-NeverErrs {ℓ κ} :
    {A : Type ℓ} {B : Type κ} (m : Result A) (f : A → Result B)
    → NeverErrs m
    → ((a : A) → NeverErrs (f a))
    → NeverErrs (m >>= f)
>>=-NeverErrs (ok a) f h k = k a
>>=-NeverErrs (err e) f h k = absurd (h e refl)
>>=-NeverErrs (panic p) f h k = λ e bad. cc

ok-NeverErrs {ℓ} : {A : Type ℓ} (a : A) → NeverErrs (ok a)
ok-NeverErrs a e bad = cc

deref-NeverErrs {ℓ} : {A : Type ℓ} (o : Option A) → NeverErrs (deref o)
deref-NeverErrs none = λ e bad. cc
deref-NeverErrs (some a) = λ e bad. cc

call-NeverErrs : (select : Option (ℤ → ℤ → ℤ)) (a b : ℤ) → NeverErrs (call select a b)
call-NeverErrs none a b = λ e bad. cc
call-NeverErrs (some f) a b = λ e bad. cc

init_window-NeverErrs : (behavor : Option Behavior) → NeverErrs (init_window behavor)
unfolding init_window
init_window-NeverErrs none e = λ bad. cc
init_window-NeverErrs (some b) e = λ bad. ground arith

window_of-NeverErrs : (info : ReviseInfo) → NeverErrs (window_of info)
unfolding window_of
window_of-NeverErrs info e = λ bad. ground arith

stabilization_recommendation-NeverErrs :
    (now1 now2 now3 : Time) (info : ReviseInfo) (records : List RecommendationRecord)
    → NeverErrs (stabilization_recommendation now1 now2 now3 info records)
unfolding stabilization_recommendation
stabilization_recommendation-NeverErrs now1 now2 now3 info records =
    >>=-NeverErrs (window_of info) _ (window_of-NeverErrs info) (λ (delay, action).
      >>=-NeverErrs (deref info.scale_up_behavor) _ (deref-NeverErrs info.scale_up_behavor)
        (λ up e bad. ground arith))

module _ {F : Type 0} (fl : Float F) where
  limit_loop-NeverErrs :
      (select : Option (ℤ → ℤ → ℤ)) (clock : ℕ → Time) (current : ℤ) (events : List ScaleEvent)
      (policies : List ScalingPolicy) (proposed limit : ℤ)
      → NeverErrs (limit_loop fl select clock current events policies proposed limit)
  unfolding limit_loop
  limit_loop-NeverErrs select clock current events [] proposed limit = λ e bad. cc
  limit_loop-NeverErrs select clock current events (policy ∷ policies) proposed limit =
      >>=-NeverErrs (call select limit _) _ (call-NeverErrs select limit _)
        (λ next. limit_loop-NeverErrs select (λ i. clock (suc i)) current events policies _ next)

  module _ (clock : ℕ → Time) (current : ℤ) (events : List ScaleEvent) where
    scale_up_limit-NeverErrs :
        (rules : Option ScalingRules) → NeverErrs (scale_up_limit fl clock current events rules)
    unfolding scale_up_limit select_up
    scale_up_limit-NeverErrs none = λ e bad. cc
    scale_up_limit-NeverErrs (some rules) =
        >>=-NeverErrs (deref rules.select_policy) _ (deref-NeverErrs rules.select_policy) (λ policy.
          elim (Bool-cases (str_eq policy "Disabled")) [
            | inl disabled ↦ λ e bad. ground arith
            | inr enabled ↦ rw enabled (
                >>=-NeverErrs (limit_loop fl _ clock current events rules.policies (pos 0) _) _
                  (limit_loop-NeverErrs _ clock current events rules.policies (pos 0) _)
                  (λ limit e bad. cc))
          ])

    scale_down_limit-NeverErrs :
        (rules : Option ScalingRules) → NeverErrs (scale_down_limit fl clock current events rules)
    unfolding scale_down_limit select_down
    scale_down_limit-NeverErrs none = λ e bad. cc
    scale_down_limit-NeverErrs (some rules) =
        >>=-NeverErrs (deref rules.select_policy) _ (deref-NeverErrs rules.select_policy) (λ policy.
          elim (Bool-cases (str_eq policy "Disabled")) [
            | inl disabled ↦ λ e bad. ground arith
            | inr enabled ↦ rw enabled (
                >>=-NeverErrs (limit_loop fl _ clock current events rules.policies (pos 0) _) _
                  (limit_loop-NeverErrs _ clock current events rules.policies (pos 0) _)
                  (λ limit e bad. cc))
          ])

  convert_desired_replicas-NeverErrs :
      (clock : ℕ → Time) (info : ReviseInfo) (events : List ScaleEvent)
      → NeverErrs (convert_desired_replicas fl clock info events)
  unfolding convert_desired_replicas
  convert_desired_replicas-NeverErrs clock info events e = λ bad. ground (
    arith,
    scale_down_limit-NeverErrs clock info.current_replicas events info.scale_up_behavor e,
    scale_up_limit-NeverErrs clock info.current_replicas events info.scale_up_behavor e,
  )

  pub revise_with_behavor-NeverErrs :
      (now : Time × Time × Time) (clock : ℕ → Time) (desired current : ℤ)
      (behavor : Option Behavior) (records : List RecommendationRecord) (events : List ScaleEvent)
      → NeverErrs (revise_with_behavor fl now clock desired current behavor records events)
  unfolding revise_with_behavor
  revise_with_behavor-NeverErrs (now1, now2, now3) clock desired current behavor records events =
      >>=-NeverErrs (init_window behavor) _ (init_window-NeverErrs behavor) (λ _.
        >>=-NeverErrs (deref behavor) _ (deref-NeverErrs behavor) (λ b.
          let info : ReviseInfo = record {
            scale_up_behavor = b.scale_up;
            scale_down_behavor = b.scale_down;
            current_replicas = current;
            desired_replicas = desired;
          } in
          >>=-NeverErrs (stabilization_recommendation now1 now2 now3 info records) _
            (stabilization_recommendation-NeverErrs now1 now2 now3 info records)
            (λ (n, records').
              let revised = record info { desired_replicas = n } in
              >>=-NeverErrs (convert_desired_replicas fl clock revised events) _
                (convert_desired_replicas-NeverErrs clock revised events)
                (λ (replicas, reason). ok-NeverErrs (replicas, records')))))
