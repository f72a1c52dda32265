-- ===== src/Tests/Controller.antt =====
-- Runs of controllers/houmao_controller.go.
use sunwukong.Base.{
  Bool, true, false, arith, eq_iff, ◌≡◌, ◌≢◌, inr, refl, none, some, List, [], ◌∷◌, library, ok,
  err,
}
use sunwukong.Base.Int.{pos}
use sunwukong.Houmao.{Houmao}
use sunwukong.Kube.Names.{NamespacedName}
use sunwukong.Xianqi.{
  Call, create_deployment, update_deployment, update_object, patch_object, XianqiClient, new_xianqi,
  xianqi_name, create_or_update_xianqi, destroy_xianqi,
}
use sunwukong.Status.{Patch, update_shifa_phase, update_xianqi_info}
use sunwukong.Controller.{
  has_string, HoumaoClient, is_zero, has_none, and_then, reconcile_live, reconcile_deleted,
  report_xianqi, del_finalizers, add_string, remove_string, add_finalizers, reconcile,
}
use sunwukong.Controller.Deployed.{IsDeployed}
use sunwukong.Controller.Outcomes.{remove_string-add_string, reconcile-IsDeployed}
use sunwukong.Controller.Rounds.{Round, Rounds, IsObject, IsHeldAs, Rounds-held}
use sunwukong.Controller.Settled.{IsSettled, reconcile_settled, reconcile_refused}
use sunwukong.Tests.Scale.{houmao}

abbrev key : NamespacedName
key = record { namespace = "ns"; name = "web" }

abbrev deleted : Houmao
deleted = record houmao {
  finalizers = "houmao.sunwukong" ∷ [];
  deletion_timestamp = some (pos 100);
}

abbrev absent : XianqiClient
absent = record {
  get = λ name. err (library "not found");
  create = λ d. none;
  update = λ d. none;
  delete = λ d. none;
}

abbrev present : XianqiClient
present = record absent { get = λ name. ok (new_xianqi key houmao) }

abbrev client_of : XianqiClient → Houmao → HoumaoClient
client_of xianqi object = record {
  xianqi = xianqi;
  get_object = λ name. ok object;
  update = λ o. (none, o);
  patch = record { marshal = λ p. none; patch = λ o p. none };
  patched = λ o p. o;
}

remove_string-add_string_example :
    let out = remove_string (add_string ("a" ∷ "b" ∷ []) "c") "c" in
    (out ≡ ("a" ∷ "b" ∷ []))
    × (has_string out "c" ≡ false)
    × (has_string out "a" ≡ true)
    × (◌≡◌ {A = Bool} false false → out ≡ ("a" ∷ "b" ∷ []))
unfolding remove_string
remove_string-add_string_example =
    remove_string-add_string ("a" ∷ "b" ∷ []) "c" "a" (λ e. ground (arith, eq_iff "a" "c"))

abbrev created : List Call
created =
    update_object (record houmao { finalizers = "houmao.sunwukong" ∷ [] })
    ∷ create_deployment (new_xianqi key houmao)
    ∷ patch_object (Patch.shifa_phase "xianqi")
    ∷ patch_object (Patch.xianqi_info (record { name = xianqi_name key; namespace = "ns" }))
    ∷ []

reconcile-IsDeployed_example :
    IsDeployed
      (HoumaoClient.xianqi (client_of absent houmao))
      key
      (add_finalizers (client_of absent houmao) houmao).1.spec.xianqi_liang
      created
unfolding reconcile is_zero reconcile_live and_then add_finalizers create_or_update_xianqi
    report_xianqi update_shifa_phase update_xianqi_info add_string
reconcile-IsDeployed_example =
    reconcile-IsDeployed (client_of absent houmao) key houmao refl refl refl

-- The API server as the object that it holds; every reconciliation finds the deployment.
abbrev server_at : Houmao → HoumaoClient
server_at object = client_of present object

abbrev twice : Rounds server_at key deleted deleted
unfolding reconcile is_zero has_none reconcile_deleted destroy_xianqi and_then update_shifa_phase
    del_finalizers
twice =
    let round : Round server_at key deleted deleted =
      Round.reconciled deleted deleted deleted _ refl refl
        (λ quiet held. (deleted, refl, (refl, refl))) in
    Rounds.then deleted deleted deleted round
      (Rounds.then deleted deleted deleted round (Rounds.stay deleted))

Rounds-held_example :
    (after : Houmao) × IsObject server_at key deleted after × IsHeldAs after deleted
unfolding is_zero has_none
Rounds-held_example =
    Rounds-held server_at key (λ s object p. refl) deleted deleted deleted twice refl refl refl

abbrev settled : Houmao
settled = record houmao {
  finalizers = "houmao.sunwukong" ∷ [];
  status = record (Houmao.status houmao) {
    shifa_phase = "xianqi";
    xianqi_info = record { name = xianqi_name key; namespace = "ns" };
  };
}

is_settled : IsSettled key settled (new_xianqi key houmao)
unfolding is_zero has_none new_xianqi
is_settled = record {
  live = refl;
  held = refl;
  phase = refl;
  info = refl;
  first = _;
  others = [];
  containers = refl;
  resources = refl;
}

reconcile_settled_example :
    reconcile (server_at settled) key ≡ ok (none, update_deployment (new_xianqi key houmao) ∷ [])
reconcile_settled_example =
    reconcile_settled (server_at settled) key settled refl (new_xianqi key houmao) refl is_settled

abbrev refusing : HoumaoClient
refusing = record (server_at deleted) {
  patch = record { marshal = λ p. none; patch = λ o p. some (library "unsupported media type") };
}

reconcile_refused_example : reconcile refusing key ≢ ok (none, created)
unfolding is_zero
reconcile_refused_example =
    reconcile_refused refusing key deleted refl (λ o p bad. cc)
      (inr (refl, λ bad. ground (arith, eq_iff "" "destroying")))
