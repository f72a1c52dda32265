-- ===== src/Daofa/Calculate/Greatest.antt =====
-- What `calculate` promises of the number that it returns.
use sunwukong.Base.{
  Bool-cases, sym, ◌∙◌, refl, none, String, ℕ, suc, ◌≡◌, ◌⊎◌, inl, inr, Option, some, List, [], ◌∷◌,
  All, All-map, arith, Result, ok, err, panic, ◌>>=◌, >>=-eq-ok, Option-cases,
}
use sunwukong.Base.Int.{ℤ, pos, ◌≤ℤ◌, ◌<ℤ◌, ltb_ℤ, eq_of_parts}
use sunwukong.Float.{Float}
use sunwukong.Kube.Time.{Time}
use sunwukong.Kube.Autoscaling.{Selector, MetricSpec, Scale}
use sunwukong.Houmao.{Houmao}
use sunwukong.Daofa.Cluster.{CalculateHandle}
use sunwukong.Daofa.Calculate.{Choice, consider, clamp, answer, calculate_loop, calculate}

consider-ge :
    (index : ℕ) (metric : MetricSpec) (a : Result (ℤ × Time)) (choice : Choice) {choice' : Choice}
    → consider index metric a choice ≡ ok choice'
    → (choice.replicas ≤ℤ choice'.replicas)
      × ((n : ℤ) (t : Time) → a ≡ ok (n, t) → n ≤ℤ choice'.replicas)
unfolding consider
consider-ge index metric (err e) choice h = ground arith
consider-ge index metric (panic p) choice h = cc
consider-ge index metric (ok (n, t)) choice h = (ground arith, λ n' t' e. ground arith)

clamp_bounds :
    (desired m max_replicas : ℤ) {r : ℤ}
    → m ≤ℤ max_replicas
    → clamp desired (some m) max_replicas ≡ ok r
    → (m ≤ℤ r) × (r ≤ℤ max_replicas)
unfolding clamp
clamp_bounds desired m max_replicas le h = ground arith

-- `r` is the number cut to the limits: the greatest number if the number is above it, or else the
-- greater of the number and the least one, which has to be set.
abbrev pub IsCut : ℤ → Option ℤ → ℤ → ℤ → Type 0
IsCut n least max_replicas r =
    ((max_replicas <ℤ n) × (r ≡ max_replicas))
    ⊎ ((n ≤ℤ max_replicas) × (m : ℤ) × (least ≡ some m) × (n ≤ℤ r) × (m ≤ℤ r) × ((r ≡ n) ⊎ (r ≡ m)))

pub clamp-IsCut :
    (n : ℤ) (least : Option ℤ) (max_replicas : ℤ) {r : ℤ}
    → clamp n least max_replicas ≡ ok r
    → IsCut n least max_replicas r
unfolding clamp
clamp-IsCut n none max_replicas h = inl (ground arith)
clamp-IsCut n (some m) max_replicas h = elim (Bool-cases (ltb_ℤ max_replicas n)) [
  | inl above ↦ inl (ground arith, ground arith)
  | inr within ↦ inr (ground arith, m, refl, ground arith, ground arith, ground arith)
]

-- A number is cut to one number only.
pub IsCut-unique :
    (n : ℤ) (least : Option ℤ) (max_replicas a b : ℤ)
    → IsCut n least max_replicas a
    → IsCut n least max_replicas b
    → a ≡ b
IsCut-unique n least max_replicas a b (inl (h, e)) (inl (h', e')) = e ∙ sym e'
IsCut-unique n least max_replicas a b (inl (h, e)) (inr (h', m, l, le, ge, which)) =
    absurd (omega arith)
IsCut-unique n least max_replicas a b (inr (h, m, l, le, ge, which)) (inl (h', e')) =
    absurd (omega arith)
IsCut-unique n least max_replicas a b (inr (h, m, l, le, ge, which))
      (inr (h', m', l', le', ge', which')) =
    let same : m ≡ m' = cc in eq_of_parts a b (ground (arith, same))

clamp-ge :
    (desired max_replicas : ℤ) (least : Option ℤ) {r : ℤ}
    → clamp desired least max_replicas ≡ ok r
    → (desired ≤ℤ r) ⊎ (r ≡ max_replicas)
unfolding clamp
clamp-ge desired max_replicas least h = ground arith

module _ {F : Type 0} (fl : Float F) (c : CalculateHandle F) where
  -- The metric did not ask for more than `n`.
  abbrev pub AsksAtMost : String → Selector → ℤ → ℤ → ℤ → MetricSpec → Type 0
  AsksAtMost namespace selector current r max_replicas metric =
      (n : ℤ) (t : Time)
      → answer fl c namespace selector current metric ≡ some (ok (n, t))
      → (n ≤ℤ r) ⊎ (r ≡ max_replicas)

  calculate_loop-ge :
      (namespace : String) (selector : Selector) (current : ℤ) (index : ℕ)
      (metrics : List MetricSpec) (choice : Choice) {best : Choice}
      → calculate_loop fl c namespace selector current index metrics choice ≡ ok best
      → (choice.replicas ≤ℤ best.replicas)
        × All
            (λ metric.
              (n : ℤ) (t : Time)
              → answer fl c namespace selector current metric ≡ some (ok (n, t))
              → n ≤ℤ best.replicas)
            metrics
  unfolding calculate_loop
  calculate_loop-ge namespace selector current index [] choice h = (ground arith, tt)
  calculate_loop-ge namespace selector current index (metric ∷ metrics) choice {best} h =
      elim (Option-cases (answer fl c namespace selector current metric)) [
        | inl e ↦ absurd (ground arith)
        | inr (a, e) ↦
            let h' : (consider index metric a choice
                  >>= calculate_loop fl c namespace selector current (suc index) metrics)
                ≡ ok best =
              ground arith in
            let (next, step, run) = >>=-eq-ok (consider index metric a choice) _ h' in
            let up = consider-ge index metric a choice step in
            let rest = calculate_loop-ge namespace selector current (suc index) metrics next run in
            (omega arith, ((λ n t e'. let most = up.1 n t (ground arith) in omega arith), rest.1))
      ]

  -- The number that the loop starts from.
  abbrev pub start_of : Scale → Choice
  start_of scale = record {
    replicas = scale.status_replicas;
    metric_index = pos 0;
    metric_type = "";
    metric_name = "";
  }

  -- The steps of a run that returns.
  pub calculate_run :
      (parse : String → Result Selector) (object : Houmao) (scale : Scale) {r : Choice}
      → calculate fl c parse object scale ≡ ok r
      → (selector : Selector) × (best : Choice) × (parse scale.selector ≡ ok selector)
        × (calculate_loop fl c object.namespace selector scale.status_replicas 0 object.spec.metrics
              (start_of scale)
            ≡ ok best)
        × (clamp best.replicas object.spec.min_replicas object.spec.max_replicas ≡ ok r.replicas)
        × (record best { replicas = r.replicas } ≡ r)
  unfolding calculate
  calculate_run parse object scale h =
      let (selector, p, h1) = >>=-eq-ok (parse scale.selector) _ h in
      let (best, run, h2) =
        >>=-eq-ok
          (calculate_loop fl c object.namespace selector scale.status_replicas 0 object.spec.metrics
            (start_of scale))
          _ h1 in
      let (n, cut, h3) =
        >>=-eq-ok (clamp best.replicas object.spec.min_replicas object.spec.max_replicas) _ h2 in
      (selector, best, p, run, ground arith, ground arith)

  -- If the least number of the spec is at most the greatest, what `calculate` returns lies between
  -- the two.
  pub calculate_bounds :
      (parse : String → Result Selector) (object : Houmao) (scale : Scale) {m : ℤ} {r : Choice}
      → object.spec.min_replicas ≡ some m
      → m ≤ℤ object.spec.max_replicas
      → calculate fl c parse object scale ≡ ok r
      → (m ≤ℤ r.replicas) × (r.replicas ≤ℤ object.spec.max_replicas)
  calculate_bounds parse object scale {m} e le h =
      let (_, best, _, _, cut, _) = calculate_run parse object scale h in
      clamp_bounds best.replicas m object.spec.max_replicas le (rw e at cut)

  -- What `calculate` returns is at least the current number and at least what each metric asks
  -- for whose calculation succeeds, or it is the greatest number of the spec: it never takes the
  -- target down but to that limit.
  pub calculate_greatest :
      (parse : String → Result Selector) (object : Houmao) (scale : Scale) {r : Choice}
      → calculate fl c parse object scale ≡ ok r
      → (selector : Selector) × (parse scale.selector ≡ ok selector)
        × ((scale.status_replicas ≤ℤ r.replicas) ⊎ (r.replicas ≡ object.spec.max_replicas))
        × All
            (AsksAtMost object.namespace selector scale.status_replicas r.replicas
              object.spec.max_replicas)
            object.spec.metrics
  calculate_greatest parse object scale {r} h =
      let (selector, best, p, run, cut, _) = calculate_run parse object scale h in
      let (up, asks) =
        calculate_loop-ge object.namespace selector scale.status_replicas 0 object.spec.metrics
          (start_of scale) run in
      let cut_up = clamp-ge best.replicas object.spec.max_replicas object.spec.min_replicas cut in
      (
        selector,
        p,
        ground arith,
        All-map (λ metric most n t e. let le = most n t e in ground arith) object.spec.metrics asks,
      )
