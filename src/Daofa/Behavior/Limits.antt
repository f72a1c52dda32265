-- ===== src/Daofa/Behavior/Limits.antt =====
-- The rate limits of pkg/zaohua/daofa/behavor_processor.go.
use sunwukong.Base.{
  ◌⊎◌, true, Bool-cases, IsOk, String, ℕ, suc, ◌≡◌, refl, ◌≢◌, inl, inr, false, Option, none, some,
  List, [], ◌∷◌, arith, str_eq, eq_iff, All, ok, panic, nil_function, Option-cases,
}
use sunwukong.Base.Int.{ℤ, pos, ◌≤ℤ◌, ◌+ℤ◌, ◌-ℤ◌, int_laws, +ℤ_parts, eq_of_parts}
use sunwukong.Base.Words.{◌+32◌, ◌-32◌, max_int32, min_int32, IsInt32, wrap32_self}
use sunwukong.Float.{Float}
use sunwukong.Kube.Time.{Time}
use sunwukong.Kube.Autoscaling.{ScalingPolicy, ScalingRules}
use sunwukong.Daofa.Records.{ScaleEvent, min}
use sunwukong.Daofa.Behavior.Window.{min_lem}
use sunwukong.Daofa.Behavior.{
  replicas_change, propose, limit_loop, select_up, select_down, scale_up_limit, scale_down_limit,
}

-- The function that chooses between the policies is called and was never assigned.
abbrev pub IsUnassigned : ScalingRules → String → Type 0
IsUnassigned rules policy = (policy ≢ "Disabled") × (policy ≢ "Min") × (rules.policies ≢ [])

List-cases : (policies : List ScalingPolicy) → (policies ≡ []) ⊎ (policies ≢ [])
List-cases [] = inl refl
List-cases (p ∷ ps) = inr (λ bad. cc)

module _ {F : Type 0} (fl : Float F) (clock : ℕ → Time) (current : ℤ)
    (events : List ScaleEvent) where
  select_down-le :
      (policies : List ScalingPolicy) (policy : String) {l : ℤ}
      → select_down fl clock current events policies policy ≡ ok l
      → l ≤ℤ current
  unfolding select_down
  select_down-le policies policy h = ground arith

  select_up-ge :
      (policies : List ScalingPolicy) (policy : String) {l : ℤ}
      → select_up fl clock current events policies policy ≡ ok l
      → current ≤ℤ l
  unfolding select_up
  select_up-ge policies policy h = ground arith

  -- A limit on scaling down is never above the current number of replicas, and a limit on scaling
  -- up never below it.
  pub scale_down_limit-le :
      (rules : Option ScalingRules) {l : ℤ}
      → scale_down_limit fl clock current events rules ≡ ok l
      → l ≤ℤ current
  unfolding scale_down_limit
  scale_down_limit-le none h = cc
  scale_down_limit-le (some rules) h = elim (Option-cases rules.select_policy) [
    | inl e ↦ ground arith
    | inr (policy, e) ↦ ground (arith, select_down-le rules.policies policy)
  ]

  pub scale_up_limit-ge :
      (rules : Option ScalingRules) {l : ℤ}
      → scale_up_limit fl clock current events rules ≡ ok l
      → current ≤ℤ l
  unfolding scale_up_limit
  scale_up_limit-ge none h = cc
  scale_up_limit-ge (some rules) h = elim (Option-cases rules.select_policy) [
    | inl e ↦ ground arith
    | inr (policy, e) ↦ ground (arith, select_up-ge rules.policies policy)
  ]

  limit_loop-IsOk :
      (clock : ℕ → Time) (policies : List ScalingPolicy) (proposed limit : ℤ)
      → IsOk (limit_loop fl (some min) clock current events policies proposed limit)
  unfolding limit_loop
  limit_loop-IsOk clock [] proposed limit = (limit, refl)
  limit_loop-IsOk clock (policy ∷ policies) proposed limit =
      limit_loop-IsOk (λ i. clock (suc i)) policies _ _

  select_panics :
      (policies : List ScalingPolicy) (policy : String)
      → str_eq policy "Min" ≡ false
      → policies ≢ []
      → (select_up fl clock current events policies policy ≡ panic nil_function)
        × (select_down fl clock current events policies policy ≡ panic nil_function)
  unfolding select_up select_down limit_loop
  select_panics [] policy not_min some_policy = absurd (some_policy refl)
  select_panics (p ∷ ps) policy not_min some_policy = (rw not_min, rw not_min)

  select-IsOk :
      (policies : List ScalingPolicy) (policy : String)
      → (str_eq policy "Min" ≡ true) ⊎ (policies ≡ [])
      → IsOk (select_up fl clock current events policies policy)
        × IsOk (select_down fl clock current events policies policy)
  unfolding select_up select_down limit_loop
  select-IsOk policies policy (inl is_min) =
      let (up, up_run) = limit_loop-IsOk clock policies (pos 0) min_int32 in
      let (down, down_run) = limit_loop-IsOk clock policies (pos 0) max_int32 in
      (rw (is_min, up_run) (_, refl), rw (is_min, down_run) (_, refl))
  select-IsOk policies policy (inr none_left) = (rw none_left (_, refl), rw none_left (_, refl))

  -- Both limits call a function that was never assigned if there is a scaling policy and the select
  -- policy is neither "Disabled" nor "Min", the default "Max" included; under every other select
  -- policy that is set, and with no scaling policy, both of them return.
  pub limits-panic :
      (rules : ScalingRules) (policy : String)
      → rules.select_policy ≡ some policy
      → (IsUnassigned rules policy
          → (scale_up_limit fl clock current events (some rules) ≡ panic nil_function)
            × (scale_down_limit fl clock current events (some rules) ≡ panic nil_function))
        × (¬ IsUnassigned rules policy
            → IsOk (scale_up_limit fl clock current events (some rules))
              × IsOk (scale_down_limit fl clock current events (some rules)))
  unfolding scale_up_limit scale_down_limit
  limits-panic rules policy e = elim (Bool-cases (str_eq policy "Disabled")) [
    | inl disabled ↦ (
      λ (d, _, _). absurd (ground (arith, eq_iff policy "Disabled")),
      λ _. (rw (e, disabled) (current, refl), rw (e, disabled) (current, refl)),
    )
    | inr enabled ↦
        rw (e, enabled)
          (elim (Bool-cases (str_eq policy "Min")) [
            | inl is_min ↦ (
              λ (_, m, _). absurd (ground (arith, eq_iff policy "Min")),
              λ _. select-IsOk rules.policies policy (inl is_min),
            )
            | inr not_min ↦ (
              λ (_, _, p). select_panics rules.policies policy not_min p,
              λ assigned. select-IsOk rules.policies policy (elim (List-cases rules.policies) [
                | inl none_left ↦ inr none_left
                | inr held ↦ absurd (
                    assigned (
                      (λ d. ground (arith, eq_iff policy "Disabled")),
                      (λ m. ground (arith, eq_iff policy "Min")),
                      held,
                    ))
              ]),
            )
          ])
  ]

-- A policy that counts pods, and whose sum with the current replicas is an int32.
abbrev pub AddsPods : ℤ → ScalingPolicy → Type 0
AddsPods current p = (p.type ≡ "Pods") × (pos 0 ≤ℤ p.value) × (current +ℤ p.value ≤ℤ max_int32)

module _ {F : Type 0} (fl : Float F) (current : ℤ) (small : IsInt32 current) where
  start_lem : (now : Time) (period : ℤ) → current -32 replicas_change now period [] ≡ current
  unfolding replicas_change ◌-32◌
  start_lem now period =
      let e : current -ℤ pos 0 ≡ current = omega int_laws in rw (e, wrap32_self current small)

  propose-ge :
      (p : ScalingPolicy) (proposed : ℤ)
      → AddsPods current p
      → current ≤ℤ propose fl p current proposed
  unfolding propose ◌+32◌
  propose-ge p proposed (e, n, m) =
      let fits : IsInt32 (current +ℤ p.value) = (omega (arith, +ℤ_parts current p.value), m) in
      rw (e, wrap32_self (current +ℤ p.value) fits) (omega int_laws)

  limit_loop-ge :
      (clock : ℕ → Time) (policies : List ScalingPolicy) (proposed limit : ℤ)
      → All (AddsPods current) policies
      → current ≤ℤ limit
      → (l : ℤ) × (limit_loop fl (some min) clock current [] policies proposed limit ≡ ok l)
        × (current ≤ℤ l)
  unfolding limit_loop
  limit_loop-ge clock [] proposed limit h le = (limit, refl, le)
  limit_loop-ge clock (p ∷ ps) proposed limit (h, hs) le =
      let next = propose fl p current proposed in
      rw start_lem (
        limit_loop-ge (λ i. clock (suc i)) ps next (min limit next) hs
          (grind (arith, min_lem limit next, propose-ge p proposed h)))

  -- Under the select policy "Min", policies that count pods hold back the first scaling down
  -- altogether: each proposes to add its value, so the limit is the current number.
  pub scale_down_limit_blocks :
      (clock : ℕ → Time) (rules : ScalingRules)
      → rules.select_policy ≡ some "Min"
      → All (AddsPods current) rules.policies
      → scale_down_limit fl clock current [] (some rules) ≡ ok current
  unfolding scale_down_limit select_down
  scale_down_limit_blocks clock rules e h =
      let (l, run, ge) = limit_loop-ge clock rules.policies (pos 0) max_int32 h (small.1) in
      rw (e, run) (ground (arith, eq_of_parts l current))
