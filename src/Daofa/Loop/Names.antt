-- ===== src/Daofa/Loop/Names.antt =====
-- Which object the loop works on.
use sunwukong.Base.{String, refl, ◌∙◌, ◌⊎◌, inl, inr, Result}
use sunwukong.Houmao.{Houmao}
use sunwukong.Daofa.Scale.{Store, Round}
use sunwukong.Daofa.Loop.{Loop, reload, IsSameName, Own, Step, Steps}

-- After `t`, the loop works on what it had in `s`, or on `HoumaoObject`, whose name stays.
abbrev pub KeepsNames : Loop → Loop → Type 0
KeepsNames s t =
    IsSameName t.houmao_object s.houmao_object
    × (IsSameName t.object s.object ⊎ IsSameName t.object s.houmao_object)

pub same_trans : (a b c : Houmao) → IsSameName a b → IsSameName b c → IsSameName a c
same_trans a b c p q = (p.0 ∙ q.0, p.1 ∙ q.1)

module _ (detect : Houmao → Store → Result Round) (mode : String) where
  Own-KeepsNames : (s t : Loop) → Own detect mode s t → KeepsNames s t
  Own-KeepsNames s _ (Own.wait _ store p e) = ((refl, refl), inl (refl, refl))
  Own-KeepsNames s _ (Own.finish _ failure store object p e same) = ((refl, refl), inl same)
  Own-KeepsNames s _ (Own.wake _ n p e) = ((refl, refl), inl (refl, refl))
  Own-KeepsNames s _ (Own.load _ n p e) = ((refl, refl), inr (refl, refl))
  Own-KeepsNames s _ (Own.next _ p e) = ((refl, refl), inl (refl, refl))
  Own-KeepsNames s _ (Own.done _ p) = ((refl, refl), inl (refl, refl))

  pub Step-KeepsNames : (s t : Loop) → Step detect mode s t → KeepsNames s t
  unfolding reload
  Step-KeepsNames s t (Step.own _ _ own) = Own-KeepsNames s t own
  Step-KeepsNames s _ (Step.write _ houmao) = ((refl, refl), inl (refl, refl))
  Step-KeepsNames s _ (Step.send _ n e) = ((refl, refl), inl (refl, refl))

  -- Whatever is restarted with, and however the goroutines interleave, the object of the loop goes
  -- by the name and namespace that it began with, or by those that `HoumaoObject` began with: a
  -- restart never hands on the name of its object.
  pub Steps-KeepsNames : (s t : Loop) → Steps detect mode s t → KeepsNames s t
  Steps-KeepsNames s _ (Steps.stay _) = ((refl, refl), inl (refl, refl))
  Steps-KeepsNames s u (Steps.then _ t _ step rest) =
      let (held, here) = Step-KeepsNames s t step in
      let (held', there) = Steps-KeepsNames t u rest in
      (
        same_trans u.houmao_object t.houmao_object s.houmao_object held' held,
        elim there [
          | inr e ↦ inr (same_trans u.object t.houmao_object s.houmao_object e held)
          | inl e ↦ elim here [
            | inl e' ↦ inl (same_trans u.object t.object s.object e e')
            | inr e' ↦ inr (same_trans u.object t.object s.houmao_object e e')
          ]
        ],
      )
