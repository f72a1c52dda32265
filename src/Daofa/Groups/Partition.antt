-- ===== src/Daofa/Groups/Partition.antt =====
-- The groups of `groupPods` against the pods that it is given.
use mathlib.Core.Path.{subst}
use sunwukong.Base.{
  String, ℕ, suc, ◌+◌, ◌≤◌, ◌≡◌, refl, sym, ◌≢◌, ◌⊎◌, Bool, true, false, ◌||◌, List, [], ◌∷◌,
  length, All, arith, str_eq, eq_iff, if◌then◌else◌,
}
use sunwukong.Base.StringSet.{contains, contains-insert, length-insert}
use sunwukong.Kube.Time.{Time}
use sunwukong.Kube.Pods.{Pod, failed}
use sunwukong.Metrics.Api.{PodMetricsInfo}
use sunwukong.Daofa.Groups.{
  Groups, Class, ready, unready, missing, ignored, GroupRules, is_failed, is_set, classify, put,
  group_loop, no_groups, group_pods,
}

-- A pod that has not failed, or is being deleted.
abbrev pub IsLive : Pod → Type 0
IsLive pod = (pod.phase ≢ failed) ⊎ (is_set pod.deletion_timestamp ≡ true)

abbrev pub has_name : String → List Pod → Bool
has_name name [] = false
has_name name (pod ∷ pods) = str_eq pod.name name || has_name name pods

-- No two pods have one name, as in a namespace.
abbrev pub AreDistinct : List Pod → Type 0
AreDistinct [] = Unit
AreDistinct (pod ∷ pods) = All (λ other. other.name ≢ pod.name) pods × AreDistinct pods

abbrev pub failed_count : List Pod → ℕ
failed_count [] = 0
failed_count (pod ∷ pods) = (if is_failed pod.phase then 1 else 0) + failed_count pods

abbrev pub size : Groups → ℕ
size g = g.ready_pod_count + length g.unready_pods + length g.missing_pods + length g.ignored_pods

module _ (rules : GroupRules) (resource : String) (metrics : PodMetricsInfo) where
  classify_live :
      (now : Time) (pod : Pod) → IsLive pod → classify rules resource now metrics pod ≡ ignored
  unfolding classify
  classify_live now pod h = ground arith

  -- From `g` on, the pods went to the ignored ones.
  abbrev IsIgnoring : Groups → List Pod → Groups → Type 0
  IsIgnoring g pods g' =
      (g'.ready_pod_count ≡ g.ready_pod_count)
      × (g'.unready_pods ≡ g.unready_pods)
      × (g'.missing_pods ≡ g.missing_pods)
      × ((name : String)
          → contains name g'.ignored_pods ≡ (contains name g.ignored_pods || has_name name pods))

  group_loop_live :
      (clock : ℕ → Time) (pods : List Pod) (g : Groups)
      → All IsLive pods
      → IsIgnoring g pods (group_loop rules resource clock metrics pods g)
  unfolding group_loop put
  group_loop_live clock [] g h = (refl, refl, refl, λ name. ground arith)
  group_loop_live clock (pod ∷ pods) g (h, hs) =
      let later : ℕ → Time = λ i. clock (suc i) in
      let rest = group_loop_live later pods (put ignored pod.name g) hs in
      subst
        (λ c.
          IsIgnoring g (pod ∷ pods)
            (group_loop rules resource later metrics pods (put c pod.name g)))
        (sym (classify_live (clock 0) pod h))
        (
          rest.0,
          rest.1,
          rest.2,
          λ name. ground (arith, rest.3 name, contains-insert pod.name name g.ignored_pods),
        )

  -- Of pods that have not failed `groupPods` counts none as ready, unready or missing: it puts
  -- the name of every one of them, and no other, among the ignored pods.
  pub group_pods_live :
      (clock : ℕ → Time) (pods : List Pod)
      → All IsLive pods
      → let g = group_pods rules resource clock metrics pods in
        (g.ready_pod_count ≡ 0)
        × (g.unready_pods ≡ [])
        × (g.missing_pods ≡ [])
        × ((name : String) → contains name g.ignored_pods ≡ has_name name pods)
  unfolding group_pods contains
  group_pods_live clock pods h = group_loop_live clock pods no_groups h

  step-ready :
      (now : Time) (pod : Pod) (g : Groups)
      → (put (classify rules resource now metrics pod) pod.name g).ready_pod_count
        ≤ g.ready_pod_count + (if is_failed pod.phase then 1 else 0)
  unfolding classify put
  step-ready now pod g = ground arith

  group_loop-ready :
      (clock : ℕ → Time) (pods : List Pod) (g : Groups)
      → (group_loop rules resource clock metrics pods g).ready_pod_count
        ≤ g.ready_pod_count + failed_count pods
  unfolding group_loop
  group_loop-ready clock [] g = omega arith
  group_loop-ready clock (pod ∷ pods) g =
      let c = classify rules resource (clock 0) metrics pod in
      omega (
        arith,
        step-ready (clock 0) pod g,
        group_loop-ready (λ i. clock (suc i)) pods (put c pod.name g),
      )

  -- No group has the name yet.
  abbrev IsFresh : Groups → String → Type 0
  IsFresh g name =
      (contains name g.unready_pods ≡ false)
      × (contains name g.missing_pods ≡ false)
      × (contains name g.ignored_pods ≡ false)

  size-put :
      (c : Class) (name : String) (g : Groups) → IsFresh g name → size (put c name g) ≡ suc (size g)
  unfolding put
  size-put ready name g h = omega arith
  size-put unready name g h = ground (arith, length-insert name g.unready_pods)
  size-put missing name g h = ground (arith, length-insert name g.missing_pods)
  size-put ignored name g h = ground (arith, length-insert name g.ignored_pods)

  put-IsFresh :
      (c : Class) (name other : String) (g : Groups)
      → other ≢ name
      → IsFresh g other
      → IsFresh (put c name g) other
  unfolding put
  put-IsFresh ready name other g n h = h
  put-IsFresh unready name other g n h =
      ground (arith, contains-insert name other g.unready_pods, eq_iff name other)
  put-IsFresh missing name other g n h =
      ground (arith, contains-insert name other g.missing_pods, eq_iff name other)
  put-IsFresh ignored name other g n h =
      ground (arith, contains-insert name other g.ignored_pods, eq_iff name other)

  All-IsFresh-put :
      (c : Class) (name : String) (g : Groups) (pods : List Pod)
      → All (λ pod. pod.name ≢ name) pods
      → All (λ pod. IsFresh g pod.name) pods
      → All (λ pod. IsFresh (put c name g) pod.name) pods
  All-IsFresh-put c name g [] n h = tt
  All-IsFresh-put c name g (pod ∷ pods) (n, ns) (h, hs) =
      (put-IsFresh c name pod.name g n h, All-IsFresh-put c name g pods ns hs)

  size-group_loop :
      (clock : ℕ → Time) (pods : List Pod) (g : Groups)
      → AreDistinct pods
      → All (λ pod. IsFresh g pod.name) pods
      → size (group_loop rules resource clock metrics pods g) ≡ size g + length pods
  unfolding group_loop
  size-group_loop clock [] g d h = omega arith
  size-group_loop clock (pod ∷ pods) g (d, ds) (h, hs) =
      let c = classify rules resource (clock 0) metrics pod in
      let fresh = All-IsFresh-put c pod.name g pods d hs in
      omega (
        arith,
        size-put c pod.name g h,
        size-group_loop (λ i. clock (suc i)) pods (put c pod.name g) ds fresh,
      )

  All-IsFresh-start : (pods : List Pod) → All (λ pod. IsFresh no_groups pod.name) pods
  unfolding contains
  All-IsFresh-start [] = tt
  All-IsFresh-start (pod ∷ pods) = ((refl, refl, refl), All-IsFresh-start pods)

  -- The groups divide the pods: with distinct names, the ready ones and the three sets are together
  -- as many as the pods. At most the failed pods are counted as ready.
  pub group_pods_partition :
      (clock : ℕ → Time) (pods : List Pod)
      → AreDistinct pods
      → let g = group_pods rules resource clock metrics pods in
        (size g ≡ length pods) × (g.ready_pod_count ≤ failed_count pods)
  unfolding group_pods
  group_pods_partition clock pods d = (
    omega (arith, size-group_loop clock pods no_groups d (All-IsFresh-start pods)),
    omega (arith, group_loop-ready clock pods no_groups),
  )
