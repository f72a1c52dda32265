-- ===== src/Controller/Rounds.antt =====
-- Reconciliations of a Houmao, one after the other, against an API server that changes.
use sunwukong.Base.{◌≡◌, refl, ap, ◌∙◌, false, All, ok, ok-inj, sym}
use sunwukong.Houmao.{Houmao}
use sunwukong.Status.{Patch}
use sunwukong.Kube.Names.{NamespacedName}
use sunwukong.Xianqi.{Calls}
use sunwukong.Controller.{HoumaoClient, has_none, is_zero, reconcile}
use sunwukong.Controller.Requests.{IsNotUpdate}
use sunwukong.Controller.Outcomes.{reconcile-IsNotUpdate}

-- The two objects are being deleted alike, and have the same finalizers.
abbrev pub IsHeldAs : Houmao → Houmao → Type 0
IsHeldAs a b = (a.finalizers ≡ b.finalizers) × (a.deletion_timestamp ≡ b.deletion_timestamp)

-- What a state of the API server lets the controller see: `client_at` gives its clients.
module _ {S : Type 0} (client_at : S → HoumaoClient) (key : NamespacedName) where
  -- The object as it is read in a state.
  abbrev pub IsObject : S → Houmao → Type 0
  IsObject s object = (client_at s).get_object key ≡ ok object

  -- A reconciliation takes one state to another. Without an update of the object, and with a
  -- finalizer, the API server keeps the object, its finalizers and its time of deletion.
  pub data Round : S → S → Type 0 where
    reconciled :
        (s t : S) (object : Houmao) (out : Calls)
        → IsObject s object
        → reconcile (client_at s) key ≡ ok out
        → (All IsNotUpdate out.1
            → has_none object.finalizers ≡ false
            → (after : Houmao) × IsObject t after × IsHeldAs after object)
        → Round s t

  pub data Rounds : S → S → Type 0 where
    stay : (s : S) → Rounds s s
    then : (s t u : S) → Round s t → Rounds t u → Rounds s u

  -- A patch leaves the finalizers alone, in every state.
  abbrev pub KeepsFinalizers : Type 0
  KeepsFinalizers =
      (s : S) (object : Houmao) (p : Patch)
      → ((client_at s).patched object p).finalizers ≡ object.finalizers

  Round-held :
      KeepsFinalizers
      → (s t : S) (object : Houmao) → IsObject s object
      → is_zero object.deletion_timestamp ≡ false
      → has_none object.finalizers ≡ false
      → Round s t
      → (after : Houmao) × IsObject t after × IsHeldAs after object
  Round-held keeps s t object found deleted held
        (Round.reconciled _ _ object' out found' run serves) =
      let same : object' ≡ object = ok-inj (sym found' ∙ found) in
      let held' : has_none object'.finalizers ≡ false =
        ap (λ (o : Houmao). has_none o.finalizers) same ∙ held in
      let deleted' : is_zero object'.deletion_timestamp ≡ false =
        ap (λ (o : Houmao). is_zero o.deletion_timestamp) same ∙ deleted in
      let (after, there, (fs, time)) =
        serves
          (reconcile-IsNotUpdate (client_at s) key object' found' deleted' held' (keeps s object')
            run)
          held' in
      (after, there, (fs ∙ ap Houmao.finalizers same, time ∙ ap Houmao.deletion_timestamp same))

  -- However often a Houmao is reconciled that is being deleted and holds a finalizer, it stays, with
  -- its finalizers and its time of deletion: no run of reconciliations releases it.
  pub Rounds-held :
      KeepsFinalizers
      → (s t : S) (object : Houmao) → Rounds s t
      → IsObject s object
      → is_zero object.deletion_timestamp ≡ false
      → has_none object.finalizers ≡ false
      → (after : Houmao) × IsObject t after × IsHeldAs after object
  Rounds-held keeps s _ object (Rounds.stay _) found deleted held = (object, found, (refl, refl))
  Rounds-held keeps s u object (Rounds.then _ t _ round rest) found deleted held =
      let (middle, there, (fs, time)) = Round-held keeps s t object found deleted held round in
      let (after, end, (fs', time')) =
        Rounds-held keeps t u middle rest there (ap is_zero time ∙ deleted)
          (ap has_none fs ∙ held) in
      (after, end, (fs' ∙ fs, time' ∙ time))
