-- ===== src/Daofa/Behavior/Exact.antt =====
-- The rate limit of pkg/zaohua/daofa/behavor_processor.go as a formula over integers that do not
-- wrap.
use sunwukong.Base.{
  ℕ, suc, ◌≡◌, refl, sym, ap, ◌∙◌, ◌⊎◌, inl, inr, some, List, [], ◌∷◌, All, All-map, arith, str_eq,
  ok, if◌then◌else◌, Bool-cases,
}
use sunwukong.Base.Int.{ℤ, pos, ◌≤ℤ◌, ◌+ℤ◌, ◌-ℤ◌, ltb_ℤ, eq_of_parts, int_laws}
use sunwukong.Base.Words.{
  wrap32, ◌+32◌, ◌-32◌, max_int32, min_int32, IsInt32, wrap32_self, wrap32-add, wrap32-sub,
}
use sunwukong.Float.{Float}
use sunwukong.Kube.Time.{Time, seconds, back, after}
use sunwukong.Kube.Autoscaling.{ScalingPolicy, ScalingRules}
use sunwukong.Daofa.Records.{ScaleEvent, min}
use sunwukong.Daofa.Behavior.{
  sum_changes, replicas_change, percent_of, propose, limit_loop, select_up, select_down,
  scale_up_limit, scale_down_limit,
}
use sunwukong.Daofa.Behavior.Window.{min_lem}

-- The sum of the changes after the cutoff.
unfoldable pub exact_change : Time → List ScaleEvent → ℤ
exact_change cutoff [] = pos 0
exact_change cutoff (e ∷ events) =
    let rest = exact_change cutoff events in
    if after e.timestamp cutoff then e.replica_change +ℤ rest else rest

sum_changes_lem :
    (cutoff : Time) (events : List ScaleEvent) (x : ℤ)
    → sum_changes cutoff events (wrap32 x) ≡ wrap32 (x +ℤ exact_change cutoff events)
unfolding sum_changes exact_change ◌+32◌
sum_changes_lem cutoff [] x = let e : x +ℤ pos 0 ≡ x = omega int_laws in rw e
sum_changes_lem cutoff (e ∷ events) x = elim (Bool-cases (after e.timestamp cutoff)) [
  | inl recent ↦
      let c = e.replica_change in
      let rest = exact_change cutoff events in
      let assoc : x +ℤ c +ℤ rest ≡ x +ℤ (c +ℤ rest) = omega int_laws in
      rw (recent, wrap32-add x c, sum_changes_lem cutoff events (x +ℤ c), assoc)
  | inr old ↦ rw (old, sum_changes_lem cutoff events x)
]

-- What the package sums with wrap-around is the exact sum, wrapped once.
replicas_change_lem :
    (now : Time) (period : ℤ) (events : List ScaleEvent)
    → replicas_change now period events ≡ wrap32 (exact_change (back now (seconds period)) events)
unfolding replicas_change
replicas_change_lem now period events =
    let cutoff = back now (seconds period) in
    let e : pos 0 +ℤ exact_change cutoff events ≡ exact_change cutoff events = omega int_laws in
    let zero_lem : wrap32 (pos 0) ≡ pos 0 = wrap32_self (pos 0) (omega arith, omega arith) in
    sym (ap (λ x. sum_changes cutoff events x) zero_lem)
    ∙ (sum_changes_lem cutoff events (pos 0) ∙ ap wrap32 e)

-- The policy is of one of the two types.
abbrev pub IsKnown : ScalingPolicy → Type 0
IsKnown p = (p.type ≡ "Pods") ⊎ (p.type ≡ "Percent")

-- The number is the start or one of the list.
abbrev pub IsOneOf : ℤ → List ℤ → ℤ → Type 0
IsOneOf start [] r = r ≡ start
IsOneOf start (n ∷ ns) r = (r ≡ n) ⊎ IsOneOf start ns r

-- The least of the start and the numbers.
pub record IsLeast (start : ℤ) (ns : List ℤ) (r : ℤ) : Type 0 where
  pub below : r ≤ℤ start
  pub least : All (λ n. r ≤ℤ n) ns
  pub reached : IsOneOf start ns r

IsOneOf-change : (a b r : ℤ) (ns : List ℤ) → IsOneOf a ns r → (r ≡ a) ⊎ IsOneOf b ns r
IsOneOf-change a b r [] e = inl e
IsOneOf-change a b r (n ∷ ns) (inl e) = inr (inl e)
IsOneOf-change a b r (n ∷ ns) (inr rest) = elim (IsOneOf-change a b r ns rest) [
  | inl e ↦ inl e
  | inr among ↦ inr (inr among)
]

IsOneOf-start : (a r : ℤ) (ns : List ℤ) → r ≡ a → IsOneOf a ns r
IsOneOf-start a r [] e = e
IsOneOf-start a r (n ∷ ns) e = inr (IsOneOf-start a r ns e)

IsLeast-min : (a n r : ℤ) (ns : List ℤ) → IsLeast (min a n) ns r → IsLeast a (n ∷ ns) r
IsLeast-min a n r ns l =
    let (le, le', which) = min_lem a n in
    let below = l.below in
    record {
      below = omega (arith, below, le);
      least = (omega (arith, below, le'), l.least);
      reached = elim (IsOneOf-change (min a n) a r ns l.reached) [
        | inr among ↦ inr among
        | inl e ↦ elim which [
          | inl first ↦ inr (IsOneOf-start a r ns (e ∙ first))
          | inr second ↦ inl (e ∙ second)
        ]
      ];
    }

-- A smaller start takes the place of a greater one.
IsLeast-cap :
    (a b l : ℤ) (ns : List ℤ) → a ≤ℤ b → IsLeast b ns l → IsLeast a ns (if ltb_ℤ a l then a else l)
IsLeast-cap a b l ns le least = elim (Bool-cases (ltb_ℤ a l)) [
  | inl less ↦ rw less (record {
    below = omega arith;
    least = All-map (λ n h. ground (arith, h)) ns least.least;
    reached = IsOneOf-start a a ns refl;
  })
  | inr more ↦ rw more (record {
    below = ground arith;
    least = least.least;
    reached = elim (IsOneOf-change b a l ns least.reached) [
      | inl e ↦ IsOneOf-start a l ns (eq_of_parts l a (ground arith))
      | inr among ↦ among
    ];
  })
]

module _ {F : Type 0} (fl : Float F) (current : ℤ) (events : List ScaleEvent) where
  -- What a policy proposes: its value on top of the exact number at the start of the period, or
  -- the percentage of that number.
  unfoldable pub proposal : Time → ScalingPolicy → ℤ
  unfolding exact_change
  proposal now policy =
      let start = current -ℤ exact_change (back now (seconds policy.period_seconds)) events in
      if str_eq policy.type "Pods"
      then wrap32 (start +ℤ policy.value)
      else percent_of fl (wrap32 start) policy.value

  -- Each policy reads the clock anew.
  unfoldable pub proposals : (ℕ → Time) → List ScalingPolicy → List ℤ
  unfolding proposal
  proposals clock [] = []
  proposals clock (p ∷ ps) = proposal (clock 0) p ∷ proposals (λ i. clock (suc i)) ps

  propose_lem :
      (now : Time) (p : ScalingPolicy) (proposed : ℤ)
      → IsKnown p
      → propose fl p (current -32 replicas_change now p.period_seconds events) proposed
        ≡ proposal now p
  unfolding propose proposal ◌+32◌ ◌-32◌
  propose_lem now p proposed known =
      let exact = exact_change (back now (seconds p.period_seconds)) events in
      let start : wrap32 (current -ℤ replicas_change now p.period_seconds events)
          ≡ wrap32 (current -ℤ exact) =
        rw (replicas_change_lem now p.period_seconds events, wrap32-sub current exact) in
      elim known [
        | inl pods ↦ rw (pods, start, wrap32-add (current -ℤ exact) p.value)
        | inr percent ↦ rw (percent, start)
      ]

  limit_loop-IsLeast :
      (clock : ℕ → Time) (policies : List ScalingPolicy) (proposed limit : ℤ)
      → All IsKnown policies
      → (l : ℤ) × (limit_loop fl (some min) clock current events policies proposed limit ≡ ok l)
        × IsLeast limit (proposals clock policies) l
  unfolding limit_loop proposals
  limit_loop-IsLeast clock [] proposed limit known =
      (limit, refl, record { below = omega arith; least = tt; reached = refl })
  limit_loop-IsLeast clock (p ∷ ps) proposed limit (known, rest) =
      let later : ℕ → Time = λ i. clock (suc i) in
      let next = proposal (clock 0) p in
      let (l, run, least) = limit_loop-IsLeast later ps next (min limit next) rest in
      (l, rw (propose_lem (clock 0) p proposed known, run), IsLeast-min limit next l _ least)

  limit_loop-le :
      (clock : ℕ → Time) (policies : List ScalingPolicy) (proposed limit : ℤ)
      → (l : ℤ) × (limit_loop fl (some min) clock current events policies proposed limit ≡ ok l)
        × (l ≤ℤ limit)
  unfolding limit_loop
  limit_loop-le clock [] proposed limit = (limit, refl, omega arith)
  limit_loop-le clock (p ∷ ps) proposed limit =
      let later : ℕ → Time = λ i. clock (suc i) in
      let start = current -32 replicas_change (clock 0) p.period_seconds events in
      let next = propose fl p start proposed in
      let (le, _, _) = min_lem limit next in
      let (l, run, below) = limit_loop-le later ps next (min limit next) in
      (l, run, omega (arith, le, below))

  -- The limit on scaling up starts from the least int32, and the lesser number is chosen.
  scale_up_limit_blocks :
      (clock : ℕ → Time) (rules : ScalingRules)
      → min_int32 ≤ℤ current
      → rules.select_policy ≡ some "Min"
      → scale_up_limit fl clock current events (some rules) ≡ ok current
  unfolding scale_up_limit select_up
  scale_up_limit_blocks clock rules small e =
      let (l, run, le) = limit_loop-le clock rules.policies (pos 0) min_int32 in
      rw (e, run) (ground (arith, eq_of_parts l current))

  scale_down_limit_lem :
      (clock : ℕ → Time) (rules : ScalingRules)
      → current ≤ℤ max_int32
      → rules.select_policy ≡ some "Min"
      → All IsKnown rules.policies
      → (l : ℤ) × (scale_down_limit fl clock current events (some rules) ≡ ok l)
        × IsLeast current (proposals clock rules.policies) l
  unfolding scale_down_limit select_down
  scale_down_limit_lem clock rules small e known =
      let (l, run, least) = limit_loop-IsLeast clock rules.policies (pos 0) max_int32 known in
      let chosen = if ltb_ℤ current l then current else l in
      (
        chosen,
        rw (e, run) refl,
        IsLeast-cap current max_int32 l (proposals clock rules.policies) small least,
      )

  -- Under the select policy "Min", the limit on scaling up is always the current number, whatever
  -- the policies and events. With policies that count pods or take a percentage, the limit on scaling
  -- down is the least of the current number and of what the policies propose. Each proposal starts
  -- from the current number less the exact sum of the changes of its period, although the code sums
  -- them with wrap-around: one that counts pods is that start and its value, wrapped once at the end,
  -- and one that takes a percentage takes it of that start, wrapped once.
  pub limits_exact :
      (clock : ℕ → Time) (rules : ScalingRules)
      → IsInt32 current
      → rules.select_policy ≡ some "Min"
      → All IsKnown rules.policies
      → (scale_up_limit fl clock current events (some rules) ≡ ok current)
        × ((l : ℤ) × (scale_down_limit fl clock current events (some rules) ≡ ok l)
            × IsLeast current (proposals clock rules.policies) l)
  limits_exact clock rules (low, high) e known =
      (scale_up_limit_blocks clock rules low e, scale_down_limit_lem clock rules high e known)
