-- ===== src/Controller.antt =====
-- controllers/houmao_controller.go: the reconciliation of a Houmao.
pub mod Requests
pub mod Deployed
pub mod Outcomes
pub mod Settled
pub mod Rounds
use sunwukong.Base.{
  String, Bool, true, false, not, ◌&&◌, Option, none, some, List, [], ◌∷◌, ◌++◌, str_eq, Error,
  Result, ok, err, panic, ◌>>=◌, if◌then◌else◌,
}
use sunwukong.Base.Int.{eqb_ℤ}
use sunwukong.Kube.Time.{Time, zero_time}
use sunwukong.Houmao.{XianqiInfo, Houmao}
use sunwukong.Status.{Patch, PatchClient, Sent, update_shifa_phase, update_xianqi_info}
use sunwukong.Kube.Names.{NamespacedName}
use sunwukong.Xianqi.{
  Call, update_object, patch_object, XianqiClient, Calls, xianqi_name, create_or_update_xianqi,
  destroy_xianqi,
}

-- The clients: what `Get` of the object finds, what `Update` of it ends with and leaves in it, the
-- patches, and what a patch leaves in the object.
pub record HoumaoClient : Type 0 where
  pub xianqi : XianqiClient
  pub get_object : NamespacedName → Result Houmao
  pub update : Houmao → Option Error × Houmao
  pub patch : PatchClient
  pub patched : Houmao → Patch → Houmao

abbrev pub finalizer : String
finalizer = "houmao.sunwukong"

-- `DeletionTimestamp.IsZero()`
unfoldable pub is_zero : Option Time → Bool
is_zero none = true
is_zero (some t) = eqb_ℤ t zero_time

abbrev pub has_string : List String → String → Bool
has_string [] param = false
has_string (s ∷ list) param = if str_eq s param then true else has_string list param

unfoldable pub add_string : List String → String → List String
add_string list param = if has_string list param then list else list ++ (param ∷ [])

unfoldable pub remove_string : List String → String → List String
remove_string [] param = []
remove_string (s ∷ list) param =
    if not (str_eq s param) then s ∷ remove_string list param else remove_string list param

-- The rest runs only if there was no error.
unfoldable pub and_then : Calls → Result Calls → Result Calls
and_then (some e, calls) rest = ok (some e, calls)
and_then (none, calls) rest = do (e, more) ← rest; ok (e, calls ++ more)

abbrev pub calls_of : Sent → Calls
calls_of (e, []) = (e, [])
calls_of (e, p ∷ ps) = (e, patch_object p ∷ [])

-- The object after an update of its status, which may have sent no patch.
abbrev pub after_patch : (Houmao → Patch → Houmao) → Houmao → List Patch → Houmao
after_patch patched object [] = object
after_patch patched object (p ∷ ps) = patched object p

-- `len(list) == 0`
unfoldable pub has_none : List String → Bool
has_none [] = true
has_none (s ∷ list) = false

module _ (client : HoumaoClient) where
  -- `Update` of the object with other finalizers.
  unfoldable pub send_finalizers : Houmao → List String → Calls × Houmao
  send_finalizers object finalizers =
      let changed : Houmao = record object { finalizers = finalizers } in
      ((((client.update changed).0, update_object changed ∷ [])), (client.update changed).1)

  -- `addFinalizers`: the calls, and the object after them.
  unfoldable pub add_finalizers : Houmao → Calls × Houmao
  unfolding send_finalizers has_none
  add_finalizers object =
      if is_zero object.deletion_timestamp && has_none object.finalizers
      then send_finalizers object (add_string object.finalizers finalizer)
      else ((none, []), object)

  -- `delFinalizers`
  unfoldable pub del_finalizers : Houmao → Calls × Houmao
  unfolding send_finalizers has_none
  del_finalizers object =
      if not (is_zero object.deletion_timestamp) && has_none object.finalizers
      then send_finalizers object (object.finalizers ++ (finalizer ∷ []))
      else ((none, []), object)

  -- After the deployment is there. `reflect.DeepEqual` compares two structs here.
  unfoldable pub report_xianqi : NamespacedName → Houmao → Result Calls
  report_xianqi key object =
      let phase = update_shifa_phase client.patch object "xianqi" in
      let object' = after_patch client.patched object phase.1 in
      let info : XianqiInfo = record { name = xianqi_name key; namespace = key.namespace } in
      and_then (calls_of phase) (
        if str_eq info.name object'.status.xianqi_info.name
          && str_eq info.namespace object'.status.xianqi_info.namespace
        then ok (none, [])
        else ok (calls_of (update_xianqi_info client.patch object' info)))

  -- The branch of an object that is in use.
  unfoldable pub reconcile_live : NamespacedName → NamespacedName → Houmao → Result Calls
  reconcile_live xianqi_key key object =
      let added = add_finalizers object in
      and_then added.0 (
        create_or_update_xianqi client.xianqi xianqi_key key added.1 >>= λ calls.
        and_then calls (report_xianqi key added.1))

  -- The branch of an object that is being deleted.
  unfoldable pub reconcile_deleted : NamespacedName → Houmao → Result Calls
  reconcile_deleted xianqi_key object = destroy_xianqi client.xianqi xianqi_key >>= λ calls.
      let phase = update_shifa_phase client.patch object "destroying" in
      and_then calls (
        and_then (calls_of phase)
          (ok (del_finalizers (after_patch client.patched object phase.1)).0))

  unfoldable pub reconcile_found : Result Houmao → NamespacedName → NamespacedName → Result Calls
  reconcile_found (err e) xianqi_key key = destroy_xianqi client.xianqi xianqi_key
  reconcile_found (panic p) xianqi_key key = panic p
  reconcile_found (ok object) xianqi_key key =
      if is_zero object.deletion_timestamp
      then reconcile_live xianqi_key key object
      else reconcile_deleted xianqi_key object

  -- `Reconcile`, whose result is always empty.
  unfoldable pub reconcile : NamespacedName → Result Calls
  unfolding reconcile_found
  reconcile key =
      reconcile_found (client.get_object key)
        (record { namespace = key.namespace; name = xianqi_name key }) key
