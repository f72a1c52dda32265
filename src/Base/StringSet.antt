-- ===== src/Base/StringSet.antt =====
-- `sets.String` of apimachinery, as the list of its members; what the code relies on is that
-- `Insert` adds a member once, that the list of the set has each member, and that `len` counts them.
use Prim.Native.Nat.{suc}
use Prim.Native.String.{String}
use mathlib.Core.Path.{◌≡◌, refl}
use mathlib.Core.Bool.{Bool, false, ◌||◌}
use mathlib.Core.List.{List, [], ◌∷◌}
use native.Mathlib.Omega.{arith}
use text.Mathlib.Text.{◌==◌ as str_eq}
use text.Mathlib.TextEquality.{eq_iff}
use sunwukong.Base.Tests.{if◌then◌else◌}
use sunwukong.Base.Lists.{length}

unfoldable pub contains : String → List String → Bool
contains k [] = false
contains k (j ∷ s) = str_eq j k || contains k s

unfoldable pub insert : String → List String → List String
unfolding contains
insert k [] = k ∷ []
insert k (j ∷ s) = if str_eq j k then j ∷ s else j ∷ insert k s

pub contains-insert :
    (k j : String) (s : List String) → contains j (insert k s) ≡ (str_eq k j || contains j s)
unfolding contains insert
contains-insert k j [] = refl
contains-insert k j (i ∷ s) =
    ground (arith, eq_iff k j, eq_iff i k, eq_iff i j, contains-insert k j s)

pub length-insert :
    (k : String) (s : List String)
    → length (insert k s) ≡ (if contains k s then length s else suc (length s))
unfolding contains insert
length-insert k [] = refl
length-insert k (j ∷ s) = ground (arith, length-insert k s)
