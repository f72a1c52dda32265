-- ===== src/Controller/Deployed.antt =====
-- The deployment that pkg/xianqi_manager/xianqi_manager.go creates or updates.
use mathlib.Core.Path.{subst}
use sunwukong.Base.{
  Error, ok-inj, String, ap, ◌≡◌, refl, ◌⊎◌, inl, inr, none, List, [], ◌∷◌, ◌++◌, arith, Result, ok,
  err, panic, >>=-eq-ok,
}
use sunwukong.Houmao.{Houmao}
use sunwukong.Kube.Names.{NamespacedName}
use sunwukong.Xianqi.{
  XianqiContainer, Deployment, Call, create_deployment, update_deployment, XianqiClient, Calls,
  xianqi_name, new_xianqi, set_first, set_resources, send_update, create_or_update_found,
}
use sunwukong.Controller.Requests.{IsIn, IsIn-append, IsIn-append_right}

-- The first container of the deployment has the resources.
abbrev pub HasResources : String → Deployment → Type 0
HasResources liang d =
    (first : XianqiContainer) × (rest : List XianqiContainer) × (d.containers ≡ first ∷ rest)
    × (first.resources ≡ liang)

-- The key by which the deployment of an object is looked for.
abbrev pub deployment_key : NamespacedName → NamespacedName
deployment_key key = record { namespace = key.namespace; name = xianqi_name key }

-- The deployment is the one that is found, but for its containers.
abbrev pub IsFound : XianqiClient → NamespacedName → Deployment → Type 0
IsFound client key d =
    (found : Deployment) × (client.get (deployment_key key) ≡ ok found)
    × (d ≡ record found { containers = d.containers })

-- The deployment that was found was updated to the resources, or, where none was found, one with them
-- was created under the name and in the namespace in which it is looked for, and the API server
-- answered that request with no error.
abbrev pub IsDeployed : XianqiClient → NamespacedName → String → List Call → Type 0
IsDeployed client key liang calls =
    (d : Deployment) × HasResources liang d
    × ((IsFound client key d × IsIn (update_deployment d) calls × (client.update d ≡ none))
        ⊎ (((e : Error) × (client.get (deployment_key key) ≡ err e))
            × (d.name ≡ xianqi_name key)
            × (d.namespace ≡ key.namespace)
            × IsIn (create_deployment d) calls
            × (client.create d ≡ none)))

set_first_lem :
    (liang : String) (containers : List XianqiContainer) {changed : List XianqiContainer}
    → set_first liang containers ≡ ok changed
    → (first : XianqiContainer) × (rest : List XianqiContainer) × (changed ≡ first ∷ rest)
      × (first.resources ≡ liang)
unfolding set_first
set_first_lem liang [] h = absurd (ground arith)
set_first_lem liang (first ∷ rest) h =
    (record first { resources = liang }, rest, ground arith, refl)

pub set_resources_lem :
    (liang : String) (d : Deployment) {changed : Deployment}
    → set_resources liang d ≡ ok changed
    → HasResources liang changed
unfolding set_resources
set_resources_lem liang d h =
    let (containers, run, h2) = >>=-eq-ok (set_first liang d.containers) _ h in
    let (first, rest, e, same) = set_first_lem liang d.containers run in
    (first, rest, ground arith, same)

set_resources-rest :
    (liang : String) (d : Deployment) {changed : Deployment}
    → set_resources liang d ≡ ok changed
    → changed ≡ record d { containers = changed.containers }
unfolding set_resources
set_resources-rest liang d h =
    let (containers, run, h2) = >>=-eq-ok (set_first liang d.containers) _ h in ground arith

pub create_or_update_found-IsDeployed :
    (client : XianqiClient) (found : Result Deployment) (key : NamespacedName) (object : Houmao)
    {calls : List Call}
    → client.get (deployment_key key) ≡ found
    → create_or_update_found client found key object ≡ ok (none, calls)
    → IsDeployed client key object.spec.xianqi_liang calls
unfolding create_or_update_found send_update new_xianqi
create_or_update_found-IsDeployed client (ok d) key object got h =
    let (changed, run, h2) = >>=-eq-ok (set_resources object.spec.xianqi_liang d) _ h in
    subst (λ cs. IsDeployed client key object.spec.xianqi_liang cs)
      (ap (λ (c : Calls). c.1) (ok-inj h2))
      (
        changed,
        set_resources_lem object.spec.xianqi_liang d run,
        inl (
          (d, got, set_resources-rest object.spec.xianqi_liang d run),
          inl refl,
          ap (λ (c : Calls). c.0) (ok-inj h2),
        ),
      )
create_or_update_found-IsDeployed client (err f) key object got h =
    subst (λ cs. IsDeployed client key object.spec.xianqi_liang cs)
      (ap (λ (c : Calls). c.1) (ok-inj h))
      (
        new_xianqi key object,
        (_, _, refl, refl),
        inr ((f, got), refl, refl, inl refl, ap (λ (c : Calls). c.0) (ok-inj h)),
      )
create_or_update_found-IsDeployed client (panic p) key object got h = absurd (ground arith)

pub IsDeployed-append :
    (client : XianqiClient) (key : NamespacedName) (liang : String) (xs ys : List Call)
    → IsDeployed client key liang xs
    → IsDeployed client key liang (xs ++ ys)
IsDeployed-append client key liang xs ys (d, has, inl (found, u, good)) =
    (d, has, inl (found, IsIn-append _ xs ys u, good))
IsDeployed-append client key liang xs ys (d, has, inr (absent, n, m, c, good)) =
    (d, has, inr (absent, n, m, IsIn-append _ xs ys c, good))

pub IsDeployed-append_right :
    (client : XianqiClient) (key : NamespacedName) (liang : String) (xs ys : List Call)
    → IsDeployed client key liang ys
    → IsDeployed client key liang (xs ++ ys)
IsDeployed-append_right client key liang xs ys (d, has, inl (found, u, good)) =
    (d, has, inl (found, IsIn-append_right _ xs ys u, good))
IsDeployed-append_right client key liang xs ys (d, has, inr (absent, n, m, c, good)) =
    (d, has, inr (absent, n, m, IsIn-append_right _ xs ys c, good))
