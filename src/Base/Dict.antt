-- ===== src/Base/Dict.antt =====
-- A Go map keyed by strings, as the list of its entries in an order in which `range` visits them.
use Prim.Native.String.{String}
use mathlib.Core.Path.{◌≡◌, refl}
use mathlib.Core.Option.{Option, none, some}
use mathlib.Core.List.{List, [], ◌∷◌}
use native.Mathlib.Omega.{arith}
use text.Mathlib.Text.{◌==◌ as str_eq}
use text.Mathlib.TextEquality.{eq_iff}
use mathlib.Core.Bool.{false}
use mathlib.Core.Logic.{inl, inr}
use sunwukong.Base.Tests.{if◌then◌else◌, Bool-cases}
use sunwukong.Base.Lists.{All}

abbrev pub Dict {ℓ} : Type ℓ → Type ℓ
Dict V = List (String × V)

module _ {ℓ} {V : Type ℓ} where
  unfoldable pub lookup : String → Dict V → Option V
  lookup k [] = none
  lookup k ((j, v) ∷ d) = if str_eq j k then some v else lookup k d

  -- `m[k] = v`
  unfoldable pub insert : String → V → Dict V → Dict V
  insert k v [] = (k, v) ∷ []
  insert k v ((j, w) ∷ d) = if str_eq j k then (j, v) ∷ d else (j, w) ∷ insert k v d

  -- `delete(m, k)`
  unfoldable pub delete : String → Dict V → Dict V
  delete k [] = []
  delete k ((j, w) ∷ d) = if str_eq j k then delete k d else (j, w) ∷ delete k d

  pub lookup-insert :
      (k j : String) (v : V) (d : Dict V)
      → lookup j (insert k v d) ≡ (if str_eq k j then some v else lookup j d)
  unfolding lookup insert
  lookup-insert k j v [] = refl
  lookup-insert k j v ((i, w) ∷ d) =
      ground (arith, eq_iff k j, eq_iff i k, eq_iff i j, lookup-insert k j v d)

  pub lookup-delete :
      (k j : String) (d : Dict V)
      → lookup j (delete k d) ≡ (if str_eq k j then none else lookup j d)
  unfolding lookup delete
  lookup-delete k j [] = ground arith
  lookup-delete k j ((i, w) ∷ d) =
      ground (arith, eq_iff k j, eq_iff i k, eq_iff i j, lookup-delete k j d)

  pub All-delete {κ} :
      (P : String × V → Type κ) (k : String) (d : Dict V) → All P d → All P (delete k d)
  unfolding delete
  All-delete P k [] h = tt
  All-delete P k ((j, w) ∷ d) (h, hs) = elim (Bool-cases (str_eq j k)) [
    | inl e ↦ rw e (All-delete P k d hs)
    | inr e ↦ rw e (h, All-delete P k d hs)
  ]

  pub delete-IsOther : (k : String) (d : Dict V) → All (λ e. str_eq e.0 k ≡ false) (delete k d)
  unfolding delete
  delete-IsOther k [] = tt
  delete-IsOther k ((j, w) ∷ d) = elim (Bool-cases (str_eq j k)) [
    | inl e ↦ rw e (delete-IsOther k d)
    | inr e ↦ rw e (e, delete-IsOther k d)
  ]
