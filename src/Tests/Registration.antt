-- ===== src/Tests/Registration.antt =====
-- A library of schemes for cmd/initial/initial.go.
use mathlib.Core.Path.{subst}
use sunwukong.Base.{
  String, ◌≡◌, refl, Bool, true, false, ◌&&◌, none, Option, Error, ap, List, [], ◌∷◌, ◌++◌, All,
  All-map, arith, str_eq, eq_iff, if◌then◌else◌,
}
use sunwukong.Startup.Registration.{
  GroupVersion, group_version, SchemeLibrary, package_vars, register_types, call_add_to_scheme,
  init_scheme, SchemeLaws, init_scheme-Recognizes,
}

-- A builder has its group and version and its types; a scheme is a list of kinds.
abbrev kinds_of : GroupVersion → List String → List (GroupVersion × String)
kinds_of gv [] = []
kinds_of gv (type ∷ types) = (gv, type) ∷ kinds_of gv types

abbrev knows : List (GroupVersion × String) → GroupVersion → String → Bool
knows [] gv kind = false
knows ((other, type) ∷ scheme) gv kind =
    if str_eq other.group gv.group && str_eq other.version gv.version && str_eq type kind
    then true
    else knows scheme gv kind

abbrev schemes : SchemeLibrary (GroupVersion × List String) (List (GroupVersion × String))
schemes = record {
  new_scheme = [];
  new_builder = λ gv. (gv, []);
  register = λ types b. (b.0, types ++ b.1);
  add_to_scheme = λ b s. (none, kinds_of b.0 b.1 ++ s);
  add_client_go = λ s. (none, (record { group = "apps"; version = "v1" }, "Deployment") ∷ s);
  recognizes = knows;
}

knows-cons :
    (x : GroupVersion × String) (scheme : List (GroupVersion × String)) (gv : GroupVersion)
    (kind : String)
    → knows scheme gv kind ≡ true
    → knows (x ∷ scheme) gv kind ≡ true
knows-cons (other, type) scheme gv kind h = ground arith

knows-append :
    (xs scheme : List (GroupVersion × String)) (gv : GroupVersion) (kind : String)
    → knows scheme gv kind ≡ true
    → knows (xs ++ scheme) gv kind ≡ true
knows-append [] scheme gv kind h = h
knows-append (x ∷ xs) scheme gv kind h =
    knows-cons x (xs ++ scheme) gv kind (knows-append xs scheme gv kind h)

knows-kinds_of :
    (gv : GroupVersion) (types : List String) (scheme : List (GroupVersion × String))
    → All (λ kind. knows (kinds_of gv (types ++ []) ++ scheme) gv kind ≡ true) types
knows-kinds_of gv [] scheme = tt
knows-kinds_of gv (type ∷ types) scheme =
    let rest = kinds_of gv (types ++ []) ++ scheme in
    (
      ground (arith, eq_iff gv.group gv.group, eq_iff gv.version gv.version, eq_iff type type),
      All-map (λ kind h. knows-cons (gv, type) rest gv kind h) types
          (knows-kinds_of gv types scheme),
    )

laws : SchemeLaws schemes
laws = record {
  adds = λ gv types s s' e.
      subst (λ (r : List (GroupVersion × String)). All (λ kind. knows r gv kind ≡ true) types)
        (ap (λ (r : Option Error × List (GroupVersion × String)). r.1) e)
        (knows-kinds_of gv types s);
  keeps = λ b s s' gv kind e h.
      subst (λ (r : List (GroupVersion × String)). knows r gv kind ≡ true)
        (ap (λ (r : Option Error × List (GroupVersion × String)). r.1) e)
        (knows-append (kinds_of b.0 b.1) s gv kind h);
}

abbrev found : List (GroupVersion × String)
found =
    (group_version, "Houmao")
    ∷ (group_version, "HoumaoList")
    ∷ (record { group = "apps"; version = "v1" }, "Deployment")
    ∷ []

init_scheme-Recognizes_example :
    (start : List (GroupVersion × String)) × (schemes.add_client_go schemes.new_scheme
      ≡ (none, start))
    × (knows found group_version "Houmao" ≡ true)
    × (knows found group_version "HoumaoList" ≡ true)
    × ((gv : GroupVersion) (kind : String)
        → knows start gv kind ≡ true
        → knows found gv kind ≡ true)
unfolding init_scheme call_add_to_scheme register_types package_vars
init_scheme-Recognizes_example = init_scheme-Recognizes schemes laws refl
