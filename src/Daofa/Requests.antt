-- ===== src/Daofa/Requests.antt =====
-- `calculatePodRequests` of pkg/zaohua/daofa/replica_calculator.go.
use sunwukong.Base.{
  String, ◌≡◌, refl, sym, ◌≢◌, ◌⊎◌, inl, inr, ◌||◌, none, some, List, [], ◌∷◌, All, arith, str_eq,
  eq_iff, missing_request, Result, ok, err, ◌>>=◌, if◌then◌else◌, Bool-cases,
}
use sunwukong.Base.Int.{ℤ, pos}
use sunwukong.Base.Words.{◌+64◌}
use sunwukong.Base.Dict.{Dict, lookup, insert}
use sunwukong.Kube.Pods.{Container, Pod}

abbrev pub add_request : String → Container → ℤ → ℤ
add_request resource c sum = elim (lookup resource c.requests) [
  | none ↦ sum
  | some q ↦ sum +64 q.milli_value
]

-- The loop over the containers of a pod.
unfoldable pub pod_request : String → String → List Container → ℤ → Result ℤ
pod_request container resource [] sum = ok sum
pod_request container resource (c ∷ cs) sum =
    let rest = pod_request container resource cs (add_request resource c sum) in
    if str_eq container "" || str_eq container c.name then rest else err (missing_request resource)

unfoldable pub requests_loop : String → String → List Pod → Dict ℤ → Result (Dict ℤ)
unfolding pod_request
requests_loop container resource [] requests = ok requests
requests_loop container resource (pod ∷ pods) requests = do
  sum ← pod_request container resource pod.containers (pos 0)
  requests_loop container resource pods (insert pod.name sum requests)

unfoldable pub calculate_pod_requests : List Pod → String → String → Result (Dict ℤ)
unfolding requests_loop
calculate_pod_requests pods container resource = requests_loop container resource pods []

-- A pod all of whose containers have the name.
abbrev pub IsUniform : String → Pod → Type 0
IsUniform container pod = All (λ c. c.name ≡ container) pod.containers

pod_request_all :
    (resource : String) (cs : List Container) (sum : ℤ)
    → (s : ℤ) × (pod_request "" resource cs sum ≡ ok s)
unfolding pod_request
pod_request_all resource [] sum = (sum, refl)
pod_request_all resource (c ∷ cs) sum = pod_request_all resource cs (add_request resource c sum)

pod_request_uniform :
    (container resource : String) (cs : List Container) (sum : ℤ)
    → All (λ c. c.name ≡ container) cs
    → (s : ℤ) × (pod_request container resource cs sum ≡ ok s)
unfolding pod_request
pod_request_uniform container resource [] sum h = (sum, refl)
pod_request_uniform container resource (c ∷ cs) sum (h, hs) =
    let (s, e) = pod_request_uniform container resource cs (add_request resource c sum) hs in
    (s, ground (arith, e, eq_iff container c.name))

pod_request_mixed :
    (container resource : String) (cs : List Container) (sum : ℤ)
    → container ≢ ""
    → ¬ All (λ c. c.name ≡ container) cs
    → pod_request container resource cs sum ≡ err (missing_request resource)
unfolding pod_request
pod_request_mixed container resource [] sum n h = absurd (h tt)
pod_request_mixed container resource (c ∷ cs) sum n h =
    elim (Bool-cases (str_eq container c.name)) [
      | inl e ↦
          let same : c.name ≡ container = sym ((eq_iff container c.name).0 e) in
          let rest =
            pod_request_mixed container resource cs (add_request resource c sum) n
              (λ hs. h (same, hs)) in
          ground (arith, rest, eq_iff container "")
      | inr e ↦ ground (arith, eq_iff container "")
    ]

requests_loop_all :
    (resource : String) (pods : List Pod) (requests : Dict ℤ)
    → (d : Dict ℤ) × (requests_loop "" resource pods requests ≡ ok d)
unfolding requests_loop
requests_loop_all resource [] requests = (requests, refl)
requests_loop_all resource (pod ∷ pods) requests =
    let (s, e) = pod_request_all resource pod.containers (pos 0) in
    let (d, run) = requests_loop_all resource pods (insert pod.name s requests) in (d, rw e run)

requests_loop_uniform :
    (container resource : String) (pods : List Pod) (requests : Dict ℤ)
    → All (IsUniform container) pods
    → (d : Dict ℤ) × (requests_loop container resource pods requests ≡ ok d)
unfolding requests_loop
requests_loop_uniform container resource [] requests h = (requests, refl)
requests_loop_uniform container resource (pod ∷ pods) requests (h, hs) =
    let (s, e) = pod_request_uniform container resource pod.containers (pos 0) h in
    let (d, run) = requests_loop_uniform container resource pods (insert pod.name s requests) hs in
    (d, rw e run)

All-dec :
    (container : String) (cs : List Container)
    → All (λ c. c.name ≡ container) cs ⊎ (¬ All (λ c. c.name ≡ container) cs)
All-dec container [] = inl tt
All-dec container (c ∷ cs) = elim (Bool-cases (str_eq c.name container)) [
  | inl e ↦ elim (All-dec container cs) [
    | inl hs ↦ inl ((eq_iff c.name container).0 e, hs)
    | inr n ↦ inr (λ h. n h.1)
  ]
  | inr e ↦ inr (λ h. ground (arith, h.0, eq_iff c.name container))
]

requests_loop_mixed :
    (container resource : String) (pods : List Pod) (requests : Dict ℤ)
    → container ≢ ""
    → ¬ All (IsUniform container) pods
    → requests_loop container resource pods requests ≡ err (missing_request resource)
unfolding requests_loop
requests_loop_mixed container resource [] requests n h = absurd (h tt)
requests_loop_mixed container resource (pod ∷ pods) requests n h =
    elim (All-dec container pod.containers) [
      | inl u ↦
          let (s, e) = pod_request_uniform container resource pod.containers (pos 0) u in
          rw e (
            requests_loop_mixed container resource pods (insert pod.name s requests) n
              (λ hs. h (u, hs)))
      | inr m ↦ rw (pod_request_mixed container resource pod.containers (pos 0) n m)
    ]

-- Asked about no container in particular, `calculatePodRequests` never fails.
-- Asked about one, it fails as soon as some pod has a container of another name, and only then.
pub calculate_pod_requests_lem :
    (pods : List Pod) (container resource : String)
    → ((d : Dict ℤ) × (calculate_pod_requests pods "" resource ≡ ok d))
      × (All (IsUniform container) pods
          → (d : Dict ℤ) × (calculate_pod_requests pods container resource ≡ ok d))
      × (container ≢ ""
          → ¬ All (IsUniform container) pods
          → calculate_pod_requests pods container resource ≡ err (missing_request resource))
unfolding calculate_pod_requests
calculate_pod_requests_lem pods container resource = (
  requests_loop_all resource pods [],
  requests_loop_uniform container resource pods [],
  requests_loop_mixed container resource pods [],
)
