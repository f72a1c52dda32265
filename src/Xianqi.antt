-- ===== src/Xianqi.antt =====
-- pkg/xianqi_manager/xianqi_manager.go: the deployment that runs the scaling loop of a Houmao.
use Prim.Native.String.{◌++◌ as str_append}
use sunwukong.Base.{
  String, Option, none, some, List, [], ◌∷◌, Error, index_out_of_range, Result, ok, err, panic,
  ◌>>=◌,
}
use sunwukong.Base.Int.{ℤ, pos}
use sunwukong.Kube.Names.{NamespacedName}
use sunwukong.Houmao.{Houmao}
use sunwukong.Status.{Patch}

pub record XianqiContainer : Type 0 where
  pub name : String
  pub image : String
  pub resources : String

-- An `appsv1.Deployment`, by the fields that the code writes.
pub record Deployment : Type 0 where
  pub name : String
  pub namespace : String
  pub replicas : ℤ
  pub labels : List (String × String)
  pub containers : List XianqiContainer

-- A request to the API server that changes something.
pub data Call : Type 0 where
  create_deployment update_deployment delete_deployment : Deployment → Call
  update_object : Houmao → Call
  patch_object : Patch → Call

-- The client's calls on deployments: what `Get` finds, and the errors of the others.
pub record XianqiClient : Type 0 where
  pub get : NamespacedName → Result Deployment
  pub create : Deployment → Option Error
  pub update : Deployment → Option Error
  pub delete : Deployment → Option Error

-- The error that a function returns, and the requests that it sent.
abbrev pub Calls : Type 0
Calls = Option Error × List Call

abbrev pub xianqi_prefix : String
xianqi_prefix = "Xianqi_"

abbrev pub xianqi_image : String
xianqi_image = ""

abbrev pub xianqi_name : NamespacedName → String
xianqi_name key = str_append xianqi_prefix key.name

-- The deployment that is created.
unfoldable pub new_xianqi : NamespacedName → Houmao → Deployment
new_xianqi key object = record {
  name = xianqi_name key;
  namespace = key.namespace;
  replicas = pos 1;
  labels =
      ("Type", "Xianqi")
      ∷ ("Name", xianqi_name key)
      ∷ ("Namespace", key.namespace)
      ∷ ("HoumaoName", key.name)
      ∷ ("HoumaoNamespace", key.namespace)
      ∷ [];
  containers =
      record { name = "Zaohua"; image = xianqi_image; resources = object.spec.xianqi_liang } ∷ [];
}

-- `Containers[0].Resources = …`, which panics if there is no container.
unfoldable pub set_first : String → List XianqiContainer → Result (List XianqiContainer)
set_first liang [] = panic index_out_of_range
set_first liang (first ∷ rest) = ok (record first { resources = liang } ∷ rest)

unfoldable pub set_resources : String → Deployment → Result Deployment
set_resources liang d = do
  containers ← set_first liang d.containers
  ok (record d { containers = containers })

module _ (client : XianqiClient) where
  -- The part that the two functions below share.
  unfoldable pub send_update : Houmao → Deployment → Result Calls
  unfolding set_resources
  send_update object d = do
    changed ← set_resources object.spec.xianqi_liang d
    ok (client.update changed, update_deployment changed ∷ [])

  -- After the deployment was looked for: every error of `Get` is taken for its absence.
  unfoldable pub create_or_update_found : Result Deployment → NamespacedName → Houmao → Result Calls
  unfolding send_update new_xianqi
  create_or_update_found (ok d) key object = send_update object d
  create_or_update_found (err e) key object =
      ok (client.create (new_xianqi key object), create_deployment (new_xianqi key object) ∷ [])
  create_or_update_found (panic p) key object = panic p

  -- `CreateOrUpdateXianqi`, for the handle's `XianqiKey`.
  unfoldable pub create_or_update_xianqi : NamespacedName → NamespacedName → Houmao → Result Calls
  unfolding create_or_update_found
  create_or_update_xianqi xianqi_key key object =
      create_or_update_found (client.get xianqi_key) key object

  unfoldable pub update_xianqi : NamespacedName → Houmao → Result Calls
  unfolding send_update
  update_xianqi xianqi_key object = elim (client.get xianqi_key) [
    | err e ↦ ok (some e, [])
    | ok d ↦ send_update object d
    | panic p ↦ panic p
  ]

  unfoldable pub destroy_found : Result Deployment → Result Calls
  destroy_found (err e) = ok (none, [])
  destroy_found (ok d) = ok (client.delete d, delete_deployment d ∷ [])
  destroy_found (panic p) = panic p

  -- `DestroyXianqi`: an error of `Get` counts as success.
  unfoldable pub destroy_xianqi : NamespacedName → Result Calls
  unfolding destroy_found
  destroy_xianqi xianqi_key = destroy_found (client.get xianqi_key)
