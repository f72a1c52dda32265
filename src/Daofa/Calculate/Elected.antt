-- ===== src/Daofa/Calculate/Elected.antt =====
-- Which metric `calculate` of pkg/zaohua/daofa/zaohua.go names as the one that decided.
use mathlib.Core.Path.{subst}
use mathlib.Core.List.{append_assoc, append-nil}
use sunwukong.Base.{
  String, ℕ, suc, ◌≡◌, refl, ap, sym, ◌∙◌, ◌⊎◌, inl, inr, some, List, [], ◌∷◌, ◌++◌, length,
  length-append, All, All-map, All-append, arith, Result, ok, err, panic, ◌>>=◌, >>=-eq-ok,
  Bool-cases, Option-cases,
}
use sunwukong.Base.Int.{ℤ, pos, ltb_ℤ, ◌≤ℤ◌, ◌<ℤ◌}
use sunwukong.Base.Words.{wrap32}
use sunwukong.Float.{Float}
use sunwukong.Kube.Time.{Time}
use sunwukong.Kube.Autoscaling.{Selector, MetricSpec, Scale}
use sunwukong.Houmao.{Houmao}
use sunwukong.Daofa.Cluster.{CalculateHandle}
use sunwukong.Daofa.Calculate.{
  Choice, name_of, type_of, consider, clamp, answer, calculate_loop, calculate,
}
use sunwukong.Daofa.Calculate.Greatest.{calculate_run, start_of}

-- The choice of a metric at an index.
abbrev chosen : ℕ → MetricSpec → ℤ → String → Choice
chosen index metric n name = record {
  replicas = n;
  metric_index = wrap32 (pos index);
  metric_type = type_of metric;
  metric_name = name;
}

module _ {F : Type 0} (fl : Float F) (c : CalculateHandle F) (namespace : String)
    (selector : Selector) (current : ℤ) where
  -- The calculation for the metric succeeds with the number.
  abbrev pub Asks : MetricSpec → ℤ → Type 0
  Asks metric n = (t : Time) × (answer fl c namespace selector current metric ≡ some (ok (n, t)))

  abbrev pub AsksMost : ℤ → MetricSpec → Type 0
  AsksMost r metric = (n : ℤ) → Asks metric n → n ≤ℤ r

  abbrev pub AsksLess : ℤ → MetricSpec → Type 0
  AsksLess r metric = (n : ℤ) → Asks metric n → n <ℤ r

  -- No metric decided.
  abbrev pub IsDefault : Choice → Type 0
  IsDefault choice =
      (choice.replicas ≡ current)
      × (choice.metric_index ≡ pos 0)
      × (choice.metric_type ≡ "")
      × (choice.metric_name ≡ "")

  -- The metric after `before` decided: it asks for the number, more than the current one, and
  -- each metric before it for less.
  pub record IsFirst (metrics : List MetricSpec) (choice : Choice) : Type 0 where
    pub before : List MetricSpec
    pub metric : MetricSpec
    pub after : List MetricSpec
    pub split : metrics ≡ before ++ (metric ∷ after)
    pub asks : Asks metric choice.replicas
    pub more : current <ℤ choice.replicas
    pub less : All (AsksLess choice.replicas) before
    pub index : choice.metric_index ≡ wrap32 (pos (length before))
    pub type : choice.metric_type ≡ type_of metric
    pub name : name_of metric ≡ ok choice.metric_name

  -- The choice is the greatest number among the current one and those asked for.
  pub record IsElected (metrics : List MetricSpec) (choice : Choice) : Type 0 where
    pub first : IsDefault choice ⊎ IsFirst metrics choice
    pub least : current ≤ℤ choice.replicas
    pub most : All (AsksMost choice.replicas) metrics

  -- A further metric that does not ask for more.
  pass :
      (seen : List MetricSpec) (metric : MetricSpec) (choice : Choice)
      → IsElected seen choice
      → AsksMost choice.replicas metric
      → IsElected (seen ++ (metric ∷ [])) choice
  pass seen metric choice elected most = record {
    first = elim elected.first [
      | inl default ↦ inl default
      | inr f ↦ inr (record {
        before = f.before;
        metric = f.metric;
        after = f.after ++ (metric ∷ []);
        split =
            ap (λ xs. xs ++ (metric ∷ [])) f.split
            ∙ append_assoc f.before (f.metric ∷ f.after) (metric ∷ []);
        asks = f.asks;
        more = f.more;
        less = f.less;
        index = f.index;
        type = f.type;
        name = f.name;
      })
    ];
    least = elected.least;
    most = All-append (AsksMost choice.replicas) seen (metric ∷ []) elected.most (most, tt);
  }

  consider-IsElected :
      (seen : List MetricSpec) (metric : MetricSpec) (a : Result (ℤ × Time)) (choice : Choice)
      {next : Choice}
      → answer fl c namespace selector current metric ≡ some a
      → IsElected seen choice
      → consider (length seen) metric a choice ≡ ok next
      → IsElected (seen ++ (metric ∷ [])) next
  unfolding consider
  consider-IsElected seen metric (panic p) choice e elected h = absurd (ground arith)
  consider-IsElected seen metric (err f) choice {next} e elected h =
      let same : choice ≡ next = ground arith in
      subst (λ x. IsElected (seen ++ (metric ∷ [])) x) same
        (pass seen metric choice elected (λ n (t, asks). absurd (ground arith)))
  consider-IsElected seen metric (ok (n, t)) choice {next} e elected h =
      elim (Bool-cases (ltb_ℤ choice.replicas n)) [
        | inr less ↦
            let same : choice ≡ next = ground arith in
            subst (λ x. IsElected (seen ++ (metric ∷ [])) x) same
              (pass seen metric choice elected (λ m (t', asks). ground arith))
        | inl more ↦
            let named : (do name ← name_of metric; ok (chosen (length seen) metric n name))
                ≡ ok next =
              ground arith in
            let (name, e', last) = >>=-eq-ok (name_of metric) _ named in
            let above : choice.replicas <ℤ n = ground arith in
            let same : chosen (length seen) metric n name ≡ next = ground arith in
            subst (λ x. IsElected (seen ++ (metric ∷ [])) x) same
              (record {
                first = inr (record {
                  before = seen;
                  metric = metric;
                  after = [];
                  split = refl;
                  asks = (t, e);
                  more = omega (arith, above, elected.least);
                  less =
                      All-map (λ x asked m asks. let le = asked m asks in omega (arith, above)) seen
                        elected.most;
                  index = refl;
                  type = refl;
                  name = e';
                });
                least = omega (arith, above, elected.least);
                most =
                    All-append (AsksMost n) seen (metric ∷ [])
                      (All-map (λ x asked m asks. let le = asked m asks in omega (arith, above))
                        seen elected.most)
                      ((λ m (t', asks). ground arith), tt);
              })
      ]

  calculate_loop-IsElected :
      (seen metrics : List MetricSpec) (choice : Choice) {best : Choice}
      → IsElected seen choice
      → calculate_loop fl c namespace selector current (length seen) metrics choice ≡ ok best
      → IsElected (seen ++ metrics) best
  unfolding calculate_loop
  calculate_loop-IsElected seen [] choice {best} elected h =
      let same : choice ≡ best = ground arith in
      subst (λ x. IsElected x best) (sym (append-nil seen))
        (subst (λ x. IsElected seen x) same elected)
  calculate_loop-IsElected seen (metric ∷ metrics) choice {best} elected h =
      elim (Option-cases (answer fl c namespace selector current metric)) [
        | inl e ↦ absurd (ground arith)
        | inr (a, e) ↦
            let h' : (consider (length seen) metric a choice
                  >>= calculate_loop fl c namespace selector current (suc (length seen)) metrics)
                ≡ ok best =
              ground arith in
            let (next, step, run) = >>=-eq-ok (consider (length seen) metric a choice) _ h' in
            let size : suc (length seen) ≡ length (seen ++ (metric ∷ [])) =
              omega (arith, length-append seen (metric ∷ [])) in
            let run' =
              subst (λ i. calculate_loop fl c namespace selector current i metrics next ≡ ok best)
                size run in
            subst (λ x. IsElected x best) (append_assoc seen (metric ∷ []) metrics)
              (calculate_loop-IsElected (seen ++ (metric ∷ [])) metrics next
                (consider-IsElected seen metric a choice e elected step) run')
      ]

module _ {F : Type 0} (fl : Float F) (c : CalculateHandle F) where
  -- What `calculate` returns is the greatest of the current number and of the numbers that metrics
  -- ask for whose calculations succeed, cut to the limits of the spec. The metric that it names,
  -- by index, type and name, is the first one that asks for that greatest number; it names none if
  -- none asks for more than the current number.
  pub calculate_elects :
      (parse : String → Result Selector) (object : Houmao) (scale : Scale) {r : Choice}
      → calculate fl c parse object scale ≡ ok r
      → (selector : Selector) × (n : ℤ) × (parse scale.selector ≡ ok selector)
        × IsElected fl c object.namespace selector scale.status_replicas object.spec.metrics
            (record r { replicas = n })
        × (clamp n object.spec.min_replicas object.spec.max_replicas ≡ ok r.replicas)
  calculate_elects parse object scale {r} h =
      let (selector, best, p, run, cut, same) = calculate_run fl c parse object scale h in
      let start : IsElected fl c object.namespace selector scale.status_replicas []
          (start_of fl c scale) =
        record { first = inl (refl, refl, refl, refl); least = omega arith; most = tt } in
      let elected =
        calculate_loop-IsElected fl c object.namespace selector scale.status_replicas []
          object.spec.metrics (start_of fl c scale) start run in
      (
        selector,
        best.replicas,
        p,
        subst
            (λ x.
              IsElected fl c object.namespace selector scale.status_replicas object.spec.metrics
                (record x { replicas = best.replicas }))
            same elected,
        cut,
      )
