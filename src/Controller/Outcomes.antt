-- ===== src/Controller/Outcomes.antt =====
-- What a reconciliation sends to the API server.
use mathlib.Core.Path.{subst}
use sunwukong.Base.{
  ◌≢◌, ok-inj, String, ◌∙◌, sym, ap, ◌≡◌, refl, true, false, none, List, [], ◌∷◌, ◌++◌, All, arith,
  eq_iff, Result, ok, ◌>>=◌, >>=-eq-ok,
}
use sunwukong.Houmao.{Houmao}
use sunwukong.Status.{Patch, update_shifa_phase}
use sunwukong.Kube.Names.{NamespacedName}
use sunwukong.Xianqi.{
  Call, Calls, xianqi_name, create_or_update_found, create_or_update_xianqi, destroy_xianqi,
}
use sunwukong.Controller.{
  HoumaoClient, has_string, add_string, remove_string, and_then, calls_of, after_patch, has_none,
  is_zero, add_finalizers, del_finalizers, report_xianqi, reconcile_live, reconcile_deleted,
  reconcile,
}
use sunwukong.Controller.Requests.{
  and_then-eq-ok, and_then-All, IsNotUpdate, destroy_found-IsNotUpdate, calls_of-IsNotUpdate,
}
use sunwukong.Controller.Deployed.{
  IsDeployed, create_or_update_found-IsDeployed, IsDeployed-append, IsDeployed-append_right,
}

-- A list that does not hold the string stays as it is.
remove_string-absent :
    (list : List String) (param : String)
    → has_string list param ≡ false
    → remove_string list param ≡ list
unfolding remove_string
remove_string-absent [] param h = refl
remove_string-absent (s ∷ list) param h = ground (arith, remove_string-absent list param)

remove_string-append :
    (list : List String) (param : String)
    → remove_string (list ++ (param ∷ [])) param ≡ remove_string list param
unfolding remove_string
remove_string-append [] param = ground (arith, eq_iff param param)
remove_string-append (s ∷ list) param = ground (arith, remove_string-append list param)

-- No copy of the string is left, however many there were.
has_string-remove_string :
    (list : List String) (param : String) → has_string (remove_string list param) param ≡ false
unfolding remove_string
has_string-remove_string [] param = refl
has_string-remove_string (s ∷ list) param = ground (arith, has_string-remove_string list param)

-- Every other string is left.
has_string-remove_other :
    (list : List String) (param other : String)
    → other ≢ param
    → has_string (remove_string list param) other ≡ has_string list other
unfolding remove_string
has_string-remove_other [] param other differs = refl
has_string-remove_other (s ∷ list) param other differs =
    ground (arith, eq_iff s param, eq_iff s other, has_string-remove_other list param other differs)

-- `removeString` after `addString` leaves what `removeString` leaves: no copy of the string, and
-- every other one. On a list that does not hold the string it gives the list back.
pub remove_string-add_string :
    (list : List String) (param other : String)
    → other ≢ param
    → let out = remove_string (add_string list param) param in
      (out ≡ remove_string list param)
      × (has_string out param ≡ false)
      × (has_string out other ≡ has_string list other)
      × (has_string list param ≡ false → out ≡ list)
unfolding add_string
remove_string-add_string list param other differs =
    let same : remove_string (add_string list param) param ≡ remove_string list param =
      ground (arith, remove_string-append list param) in
    (
      same,
      ap (λ xs. has_string xs param) same ∙ has_string-remove_string list param,
      ap (λ xs. has_string xs other) same ∙ has_string-remove_other list param other differs,
      λ absent. same ∙ remove_string-absent list param absent,
    )

after_patch-finalizers :
    (patched : Houmao → Patch → Houmao) (object : Houmao) (sent : List Patch)
    → ((p : Patch) → (patched object p).finalizers ≡ object.finalizers)
    → (after_patch patched object sent).finalizers ≡ object.finalizers
after_patch-finalizers patched object [] keeps = refl
after_patch-finalizers patched object (p ∷ ps) keeps = keeps p

del_finalizers_held :
    (client : HoumaoClient) (object : Houmao)
    → has_none object.finalizers ≡ false
    → (del_finalizers client object).0 ≡ (none, [])
unfolding del_finalizers
del_finalizers_held client object h = ground arith

module _ (client : HoumaoClient) (key : NamespacedName) (object : Houmao)
    (found : client.get_object key ≡ ok object) where
  -- When the reconciliation of an object that is not being deleted ends without an error, it has sent
  -- an update of the deployment that it found to the resources of the spec, as the object stands after
  -- its finalizers were seen to, with nothing but containers changed, or, where `Get` failed, the
  -- creation of one with them under the name and in the namespace that it looks for; and the API
  -- server answered that request with no error.
  pub reconcile-IsDeployed :
      {calls : List Call}
      → is_zero object.deletion_timestamp ≡ true
      → reconcile client key ≡ ok (none, calls)
      → IsDeployed client.xianqi key (add_finalizers client object).1.spec.xianqi_liang calls
  unfolding reconcile reconcile_live create_or_update_xianqi
  reconcile-IsDeployed {calls} live h =
      let xianqi_key : NamespacedName = record {
        namespace = key.namespace;
        name = xianqi_name key;
      } in
      let added = add_finalizers client object in
      let h1 : and_then added.0 (
            create_or_update_xianqi client.xianqi xianqi_key key added.1 >>= λ calls.
            and_then calls (report_xianqi client key added.1))
          ≡ ok (none, calls) =
        rw (found, live) at h in
      let (more, _, run, e) = and_then-eq-ok added.0 _ h1 in
      let ((failure, sent), deployed, run') =
        >>=-eq-ok (create_or_update_xianqi client.xianqi xianqi_key key added.1) _ run in
      let (rest, succeeded, _, e') = and_then-eq-ok (failure, sent) _ run' in
      let liang = added.1.spec.xianqi_liang in
      let start =
        create_or_update_found-IsDeployed client.xianqi (client.xianqi.get xianqi_key) key added.1
          refl
          (subst
            (λ f.
              create_or_update_found client.xianqi (client.xianqi.get xianqi_key) key added.1
              ≡ ok (f, sent))
            succeeded deployed) in
      let here =
        subst (IsDeployed client.xianqi key liang) (sym e')
          (IsDeployed-append client.xianqi key liang sent rest start) in
      subst (IsDeployed client.xianqi key liang) (sym e)
        (IsDeployed-append_right client.xianqi key liang added.0.1 more here)

  -- If the object is being deleted and holds a finalizer, and a patch of the status leaves its
  -- finalizers alone, the reconciliation never updates the object: no finalizer is ever removed.
  pub reconcile-IsNotUpdate :
      {out : Calls}
      → is_zero object.deletion_timestamp ≡ false
      → has_none object.finalizers ≡ false
      → ((p : Patch) → (client.patched object p).finalizers ≡ object.finalizers)
      → reconcile client key ≡ ok out
      → All IsNotUpdate out.1
  unfolding reconcile reconcile_deleted destroy_xianqi
  reconcile-IsNotUpdate {out} deleted held keeps h =
      let xianqi_key : NamespacedName = record {
        namespace = key.namespace;
        name = xianqi_name key;
      } in
      let phase = update_shifa_phase client.patch object "destroying" in
      let after = after_patch client.patched object phase.1 in
      let same : (del_finalizers client after).0 ≡ (none, []) =
        del_finalizers_held client after
          (ap has_none (after_patch-finalizers client.patched object phase.1 keeps) ∙ held) in
      let rest : Result Calls = and_then (calls_of phase) (ok (del_finalizers client after).0) in
      let h1 : (destroy_xianqi client.xianqi xianqi_key >>= λ calls. and_then calls rest) ≡ ok out =
        rw (found, deleted) at h in
      let (first, destroyed, run) = >>=-eq-ok (destroy_xianqi client.xianqi xianqi_key) _ h1 in
      and_then-All IsNotUpdate first rest run
        (destroy_found-IsNotUpdate client.xianqi (client.xianqi.get xianqi_key) destroyed)
        (λ o r.
          and_then-All IsNotUpdate (calls_of phase) (ok (del_finalizers client after).0) r
            (calls_of-IsNotUpdate phase)
            (λ o' r'. subst (λ c. All IsNotUpdate c.1) (sym same ∙ ok-inj r') tt))
