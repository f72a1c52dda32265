-- ===== src/Daofa/Calculate/Unique.antt =====
-- What `calculate` of pkg/zaohua/daofa/zaohua.go chooses is determined by the answers for the
-- metrics.
use mathlib.Core.Logic.{∥∥₁_elim}
use mathlib.Core.HLevel.{Σ_prop_path}
use mathlib.Core.Path.{subst}
use text.Mathlib.TextEquality.{IsScalar-prop}
use sunwukong.Base.{
  String, suc, ◌≡◌, refl, ap, sym, ◌∙◌, ◌⊎◌, inl, inr, List, [], ◌∷◌, ◌++◌, length, All, arith,
  Result, ok, ok-inj,
}
use sunwukong.Base.Int.{ℤ, pos, ◌≤ℤ◌, ◌<ℤ◌, eq_of_parts}
use sunwukong.Base.Words.{wrap32}
use sunwukong.Float.{Float}
use sunwukong.Kube.Autoscaling.{Selector, MetricSpec, Scale}
use sunwukong.Houmao.{Houmao}
use sunwukong.Daofa.Cluster.{CalculateHandle}
use sunwukong.Daofa.Calculate.{Choice, name_of, type_of, calculate}
use sunwukong.Daofa.Calculate.Greatest.{IsCut, IsCut-unique, clamp-IsCut}
use sunwukong.Daofa.Calculate.Elected.{
  Asks, AsksMost, AsksLess, IsDefault, IsFirst, IsElected, calculate_elects,
}

-- What holds for all of a list holds for the element after a part of it.
pub All-middle {ℓ κ} :
    {A : Type ℓ} (P : A → Type κ) (before : List A) {x : A} (after : List A)
    → All P (before ++ (x ∷ after))
    → P x
All-middle P [] after (h, hs) = h
All-middle P (y ∷ before) after (h, hs) = All-middle P before after hs

Choice-ext :
    (a b : Choice)
    → a.replicas ≡ b.replicas
    → a.metric_index ≡ b.metric_index
    → a.metric_type ≡ b.metric_type
    → a.metric_name ≡ b.metric_name
    → a ≡ b
Choice-ext a b n i t m = ground arith

module _ {F : Type 0} (fl : Float F) (c : CalculateHandle F) (namespace : String)
    (selector : Selector) (current : ℤ) where
  IsElected-le :
      (metrics : List MetricSpec) (a b : Choice)
      → IsElected fl c namespace selector current metrics a
      → IsElected fl c namespace selector current metrics b
      → a.replicas ≤ℤ b.replicas
  IsElected-le metrics a b e f = elim e.first [
    | inl default ↦ (let same = default.0 in let above = f.least in rw same above)
    | inr first ↦
        (let P = AsksMost fl c namespace selector current b.replicas in
          let most =
            All-middle P first.before first.after (subst (λ xs. All P xs) first.split f.most) in
          most a.replicas first.asks)
  ]

  -- No metric asks for a number that it asks for less than.
  less-absurd :
      (n : ℤ) {x y : MetricSpec}
      → x ≡ y
      → Asks fl c namespace selector current x n
      → AsksLess fl c namespace selector current n y
      → ⊥
  less-absurd n {x} e asks less =
      let below : n <ℤ n = less n (subst (λ m. Asks fl c namespace selector current m n) e asks) in
      omega arith

  -- Two parts of the metrics before the first that asks for the number.
  before_unique :
      (n : ℤ) (before before' : List MetricSpec) {x x' : MetricSpec}
      (after after' : List MetricSpec)
      → before ++ (x ∷ after) ≡ before' ++ (x' ∷ after')
      → Asks fl c namespace selector current x n
      → Asks fl c namespace selector current x' n
      → All (AsksLess fl c namespace selector current n) before
      → All (AsksLess fl c namespace selector current n) before'
      → (length before ≡ length before') × (x ≡ x')
  before_unique n [] [] after after' e asks asks' less less' = (refl, cc)
  before_unique n [] (y ∷ ys) {x} {x'} after after' e asks asks' less (l, ls) =
      let same : x ≡ y = cc in absurd (less-absurd n same asks l)
  before_unique n (y ∷ ys) [] {x} {x'} after after' e asks asks' (l, ls) less' =
      let same : x' ≡ y = cc in absurd (less-absurd n same asks' l)
  before_unique n (y ∷ ys) (z ∷ zs) {x} {x'} after after' e asks asks' (l, ls) (l', ls') =
      let tail : ys ++ (x ∷ after) ≡ zs ++ (x' ∷ after') = cc in
      let (size, same) = before_unique n ys zs after after' tail asks asks' ls ls' in
      (ap suc size, same)

  first_unique :
      (metrics : List MetricSpec) (a b : Choice)
      → a.replicas ≡ b.replicas
      → IsDefault fl c namespace selector current a
        ⊎ IsFirst fl c namespace selector current metrics a
      → IsDefault fl c namespace selector current b
        ⊎ IsFirst fl c namespace selector current metrics b
      → a ≡ b
  first_unique metrics a b same (inl (n, i, t, m)) (inl (n', i', t', m')) =
      Choice-ext a b same (i ∙ sym i') (t ∙ sym t') (m ∙ sym m')
  first_unique metrics a b same (inl (n, _, _, _)) (inr g) =
      absurd (let more = g.more in ground arith)
  first_unique metrics a b same (inr f) (inl (n, _, _, _)) =
      absurd (let more = f.more in ground arith)
  first_unique metrics a b same (inr f) (inr g) =
      let number = a.replicas in
      let asks = subst (λ n. Asks fl c namespace selector current g.metric n) (sym same) g.asks in
      let less =
        subst (λ n. All (AsksLess fl c namespace selector current n) g.before) (sym same) g.less in
      let (size, metric) =
        before_unique number f.before g.before f.after g.after (sym f.split ∙ g.split) f.asks asks
          f.less less in
      Choice-ext a b same (f.index ∙ (ap (λ n. wrap32 (pos n)) size ∙ sym g.index))
        (f.type ∙ (ap type_of metric ∙ sym g.type))
        (ok-inj (sym f.name ∙ (ap name_of metric ∙ g.name)))

  -- Two choices that are elected among the same metrics are equal.
  IsElected-unique :
      (metrics : List MetricSpec) (a b : Choice)
      → IsElected fl c namespace selector current metrics a
      → IsElected fl c namespace selector current metrics b
      → a ≡ b
  IsElected-unique metrics a b e f =
      let up = IsElected-le metrics a b e f in
      let down = IsElected-le metrics b a f e in
      let same : a.replicas ≡ b.replicas = eq_of_parts a.replicas b.replicas (omega arith) in
      first_unique metrics a b same e.first f.first

module _ {F : Type 0} (fl : Float F) (c : CalculateHandle F) (parse : String → Result Selector)
    (object : Houmao) (scale : Scale) where
  -- What a choice has to be: elected among the metrics of the object, and then cut to its limits.
  abbrev pub IsDecision : Choice → Type 0
  IsDecision r =
      (selector : Selector) × (n : ℤ) × (parse scale.selector ≡ ok selector)
      × IsElected fl c object.namespace selector scale.status_replicas object.spec.metrics
          (record r { replicas = n })
      × IsCut n object.spec.min_replicas object.spec.max_replicas r.replicas

  -- A choice of which it is known that it is a decision, and not how.
  abbrev pub Decision : Type 0
  Decision = (r : Choice) × ∥ IsDecision r ∥₁

  pub IsDecision-unique : (a b : Choice) → IsDecision a → IsDecision b → a ≡ b
  IsDecision-unique a b (s, n, p, e, cut) (s', n', p', e', cut') =
      let selectors : s' ≡ s = ok-inj (sym p' ∙ p) in
      let moved =
        subst
          (λ x.
            IsElected fl c object.namespace x scale.status_replicas object.spec.metrics
              (record b { replicas = n' }))
          selectors e' in
      let same : record a { replicas = n } ≡ record b { replicas = n' } =
        IsElected-unique fl c object.namespace s scale.status_replicas object.spec.metrics _ _ e
          moved in
      let cuts : a.replicas ≡ b.replicas =
        IsCut-unique n object.spec.min_replicas object.spec.max_replicas a.replicas b.replicas cut (
          subst (λ x. IsCut x object.spec.min_replicas object.spec.max_replicas b.replicas)
            (sym (ap Choice.replicas same)) cut') in
      Choice-ext a b cuts (ap Choice.metric_index same) (ap Choice.metric_type same)
        (ap Choice.metric_name same)

  Decision-IsProp : IsProp Decision
  Decision-IsProp (a, e) (b, f) =
      Σ_prop_path (λ choice. hlevel)
        (∥∥₁_elim e (hlevel (IsScalar-prop))
          (λ x. ∥∥₁_elim f (hlevel (IsScalar-prop)) (λ y. IsDecision-unique a b x y)))

  -- What `calculate` returns is a decision.
  pub calculate-IsDecision : {r : Choice} → calculate fl c parse object scale ≡ ok r → IsDecision r
  calculate-IsDecision {r} run =
      let (selector, n, p, elected, cut) = calculate_elects fl c parse object scale run in
      (selector, n, p, elected, clamp-IsCut n object.spec.min_replicas object.spec.max_replicas cut)

  -- The answers of the cluster leave one decision at most: what `calculate` returns is one, and
  -- there is no other number, index, type or name that elects the greatest of the current number
  -- and those asked for, by the first metric that asks for it, and cuts it to the limits.
  pub calculate_decides :
      {r : Choice}
      → calculate fl c parse object scale ≡ ok r
      → (d : Decision) × (d.0 ≡ r) × IsProp Decision
  calculate_decides {r} run = ((r, ∣ calculate-IsDecision run ∣₁), refl, Decision-IsProp)
