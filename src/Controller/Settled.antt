-- ===== src/Controller/Settled.antt =====
-- What further reconciliations of a Houmao do: in the state that the controller works towards, and
-- when the API server refuses the patches.
use mathlib.Core.List.{append-nil}
use sunwukong.Base.{
  String, ◌≡◌, ◌≢◌, refl, ap, sym, ◌∙◌, ◌⊎◌, inl, inr, true, false, none, some, List, [], ◌∷◌,
  arith, Option-cases, str_eq, eq_iff, Result, ok, ◌>>=◌, >>=-eq-ok,
}
use sunwukong.Houmao.{Houmao}
use sunwukong.Status.{Patch, PatchClient, Sent, send, update_shifa_phase}
use sunwukong.Kube.Names.{NamespacedName}
use sunwukong.Xianqi.{
  Deployment, Call, update_deployment, XianqiContainer, Calls, xianqi_name, set_first,
  set_resources, create_or_update_xianqi, destroy_xianqi,
}
use sunwukong.Controller.{
  HoumaoClient, and_then, calls_of, has_none, is_zero, add_finalizers, del_finalizers, after_patch,
  report_xianqi, reconcile_live, reconcile_deleted, reconcile,
}
use sunwukong.Controller.Requests.{and_then-eq-ok}

abbrev xianqi_key_of : NamespacedName → NamespacedName
xianqi_key_of key = record { namespace = key.namespace; name = xianqi_name key }

-- The object is in use, holds a finalizer, and its status names the phase and the deployment,
-- whose first container has the resources of the spec.
pub record IsSettled (key : NamespacedName) (object : Houmao) (d : Deployment) : Type 0 where
  pub live : is_zero object.deletion_timestamp ≡ true
  pub held : has_none object.finalizers ≡ false
  pub phase : object.status.shifa_phase ≡ "xianqi"
  pub info :
      object.status.xianqi_info ≡ record { name = xianqi_name key; namespace = key.namespace }
  pub first : XianqiContainer
  pub others : List XianqiContainer
  pub containers : d.containers ≡ first ∷ others
  pub resources : first.resources ≡ object.spec.xianqi_liang

str_eq_self : (a : String) → str_eq a a ≡ true
str_eq_self a = ground (arith, eq_iff a a)

-- Parts that send nothing leave no trace.
and_then_quiet :
    (calls : Calls)
    → and_then (none, []) (and_then calls (and_then (none, []) (ok (none, [])))) ≡ ok calls
unfolding and_then
and_then_quiet (some e, sent) = refl
and_then_quiet (none, sent) = ap (λ xs. ok (none, xs)) (append-nil sent)

set_resources_same :
    (liang : String) (d : Deployment) (first : XianqiContainer) (others : List XianqiContainer)
    → d.containers ≡ first ∷ others
    → first.resources ≡ liang
    → set_resources liang d ≡ ok d
unfolding set_resources set_first
set_resources_same liang d first others e same = rw e (ground arith)

calls_of-error : (sent : Sent) → (calls_of sent).0 ≡ sent.0
calls_of-error (e, []) = refl
calls_of-error (e, p ∷ ps) = refl

-- A patch that is refused is an error of the update, unless the phase is there already.
update_shifa_phase-refused :
    (client : PatchClient) (object : Houmao) (phase : String)
    → ((p : Patch) → client.patch object p ≢ none)
    → object.status.shifa_phase ≢ phase
    → (calls_of (update_shifa_phase client object phase)).0 ≢ none
unfolding update_shifa_phase send
update_shifa_phase-refused client object phase refused other h =
    let sent = sym (calls_of-error (update_shifa_phase client object phase)) ∙ h in
    elim (Option-cases (client.marshal (Patch.shifa_phase phase))) [
      | inl e ↦
          refused (Patch.shifa_phase phase) (ground (arith, eq_iff object.status.shifa_phase phase))
      | inr (f, e) ↦ absurd (ground (arith, eq_iff object.status.shifa_phase phase))
    ]

module _ (client : HoumaoClient) (key : NamespacedName) (object : Houmao)
    (found : client.get_object key ≡ ok object) where
  -- In the settled state a reconciliation sends one request, an update of the deployment to what it
  -- is already; it ends as that update does, and nothing about the object is written.
  pub reconcile_settled :
      (d : Deployment)
      → client.xianqi.get (xianqi_key_of key) ≡ ok d
      → IsSettled key object d
      → reconcile client key ≡ ok (client.xianqi.update d, update_deployment d ∷ [])
  unfolding reconcile reconcile_live create_or_update_xianqi add_finalizers report_xianqi
      update_shifa_phase
  reconcile_settled d stored s =
      let same =
        set_resources_same object.spec.xianqi_liang d s.first s.others s.containers s.resources in
      rw (found, s.live, s.held, stored, same, s.phase, s.info)
        (rw (str_eq_self (xianqi_name key), str_eq_self key.namespace)
          (and_then_quiet (client.xianqi.update d, update_deployment d ∷ [])))

  report_xianqi-refused :
      (after : Houmao)
      → ((o : Houmao) (p : Patch) → client.patch.patch o p ≢ none)
      → after.status.shifa_phase ≢ "xianqi"
      → {calls : List Call} → report_xianqi client key after ≢ ok (none, calls)
  unfolding report_xianqi
  report_xianqi-refused after refused other h =
      let (_, sent, _, _) =
        and_then-eq-ok (calls_of (update_shifa_phase client.patch after "xianqi")) _ h in
      update_shifa_phase-refused client.patch after "xianqi" (refused after) other sent

  -- The phase that the reconciliation reports is not there yet.
  abbrev pub IsUnreported : Type 0
  IsUnreported =
      ((is_zero object.deletion_timestamp ≡ true)
        × ((add_finalizers client object).1.status.shifa_phase ≢ "xianqi"))
      ⊎ ((is_zero object.deletion_timestamp ≡ false) × (object.status.shifa_phase ≢ "destroying"))

  -- If the API server refuses every patch of the object, no reconciliation that has a phase to
  -- report ends without an error, whether the object is in use or being deleted.
  pub reconcile_refused :
      {calls : List Call}
      → ((o : Houmao) (p : Patch) → client.patch.patch o p ≢ none)
      → IsUnreported
      → reconcile client key ≢ ok (none, calls)
  unfolding reconcile reconcile_live reconcile_deleted
  reconcile_refused {calls} refused (inl (live, other)) h =
      let added = add_finalizers client object in
      let h1 : and_then added.0 (
            create_or_update_xianqi client.xianqi (xianqi_key_of key) key added.1 >>= λ calls.
            and_then calls (report_xianqi client key added.1))
          ≡ ok (none, calls) =
        rw (found, live) at h in
      let (more, _, run, _) = and_then-eq-ok added.0 _ h1 in
      let (deployed, _, run') =
        >>=-eq-ok (create_or_update_xianqi client.xianqi (xianqi_key_of key) key added.1) _ run in
      let (rest, _, reported, _) = and_then-eq-ok deployed _ run' in
      report_xianqi-refused added.1 refused other reported
  reconcile_refused {calls} refused (inr (deleted, other)) h =
      let phase = update_shifa_phase client.patch object "destroying" in
      let after = after_patch client.patched object phase.1 in
      let rest : Result Calls = and_then (calls_of phase) (ok (del_finalizers client after).0) in
      let h1 : (destroy_xianqi client.xianqi (xianqi_key_of key) >>= λ calls. and_then calls rest)
          ≡ ok (none, calls) =
        rw (found, deleted) at h in
      let (first, _, run) = >>=-eq-ok (destroy_xianqi client.xianqi (xianqi_key_of key)) _ h1 in
      let (more, _, run', _) = and_then-eq-ok first rest run in
      let (_, sent, _, _) = and_then-eq-ok (calls_of phase) _ run' in
      update_shifa_phase-refused client.patch object "destroying" (refused object) other sent
