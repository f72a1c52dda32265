-- ===== src/Startup/Registration.antt =====
-- How the types of api/v1 come into the scheme of the manager: the variables of
-- api/v1/groupversion_info.go, `init` of api/v1/houmao_types.go, and the variable `scheme` and `init`
-- of cmd/initial/initial.go, which Go runs in this order before `main`.
use sunwukong.Base.{
  String, ℕ, ◌≡◌, inl, inr, Bool, true, Option, none, some, List, [], ◌∷◌, All, Error, get_elem?,
  set, arith, Option-cases,
}

pub record GroupVersion : Type 0 where
  pub group : String
  pub version : String

-- `runtime.Scheme` and `scheme.Builder`, whose methods write what they are called on: a builder
-- takes in the Go types of the objects, and adding to a scheme may fail half-way.
-- `add_client_go` is `AddToScheme` of client-go's own scheme, and `recognizes` tells whether a
-- scheme has a kind of a group and version.
pub record SchemeLibrary (B S : Type 0) : Type 0 where
  pub new_scheme : S
  pub new_builder : GroupVersion → B
  pub register : List String → B → B
  pub add_to_scheme : B → S → Option Error × S
  pub add_client_go : S → Option Error × S
  pub recognizes : S → GroupVersion → String → Bool

abbrev pub group_version : GroupVersion
group_version = record { group = "sunwukong.my.domain"; version = "v1" }

-- The package's variables: the builders that were allocated, the pointer `SchemeBuilder`, and the
-- receiver that the method value `AddToScheme` is bound to.
pub record Package (B : Type 0) : Type 0 where
  pub builders : List B
  pub scheme_builder : ℕ
  pub add_to_scheme : ℕ

-- `utilruntime.Must`, which panics on an error.
abbrev must : {S : Type 0} → Option Error × S → Option S
must (none, s) = some s
must (some e, s) = none

must-eq-some : {S : Type 0} (r : Option Error × S) {s : S} → must r ≡ some s → r ≡ (none, s)
must-eq-some (none, s') h = ground arith
must-eq-some (some e, s') h = absurd (ground arith)

module _ {B S : Type 0} (lib : SchemeLibrary B S) where
  unfoldable pub package_vars : Package B
  package_vars = record {
    builders = lib.new_builder group_version ∷ [];
    scheme_builder = 0;
    add_to_scheme = 0;
  }

  -- `init` of houmao_types.go.
  unfoldable pub register_types : Package B → Package B
  register_types p = record p {
    builders = elim (get_elem? p.builders p.scheme_builder) [
      | none ↦ p.builders
      | some b ↦ set p.builders p.scheme_builder (lib.register ("Houmao" ∷ "HoumaoList" ∷ []) b)
    ];
  }

  -- A call of the variable `AddToScheme`; `none` is a panic.
  unfoldable pub call_add_to_scheme : Package B → S → Option S
  call_add_to_scheme p s = elim (get_elem? p.builders p.add_to_scheme) [
    | none ↦ none
    | some b ↦ must (lib.add_to_scheme b s)
  ]

  -- `init` of initial.go, with the variables that the package v1 has by then.
  unfoldable pub init_scheme : Package B → Option S
  unfolding call_add_to_scheme
  init_scheme p = elim (must (lib.add_client_go lib.new_scheme)) [
    | none ↦ none
    | some s ↦ call_add_to_scheme p s
  ]

  -- What the packages of the library document: adding gives a scheme the types of the builder and
  -- takes none away.
  pub record SchemeLaws : Type 0 where
    pub adds :
        (gv : GroupVersion) (types : List String) (s s' : S)
        → lib.add_to_scheme (lib.register types (lib.new_builder gv)) s ≡ (none, s')
        → All (λ kind. lib.recognizes s' gv kind ≡ true) types
    pub keeps :
        (b : B) (s s' : S) (gv : GroupVersion) (kind : String)
        → lib.add_to_scheme b s ≡ (none, s')
        → lib.recognizes s gv kind ≡ true
        → lib.recognizes s' gv kind ≡ true

  -- If the program comes to `main`, then the scheme of its manager has the kinds Houmao and
  -- HoumaoList, although `AddToScheme` was bound before they were registered, and every kind that
  -- client-go brought in.
  pub init_scheme-Recognizes :
      SchemeLaws
      → {s : S} → init_scheme (register_types package_vars) ≡ some s
      → (start : S) × (lib.add_client_go lib.new_scheme ≡ (none, start))
        × (lib.recognizes s group_version "Houmao" ≡ true)
        × (lib.recognizes s group_version "HoumaoList" ≡ true)
        × ((gv : GroupVersion) (kind : String)
            → lib.recognizes start gv kind ≡ true
            → lib.recognizes s gv kind ≡ true)
  unfolding init_scheme call_add_to_scheme register_types package_vars
  init_scheme-Recognizes laws {s} run =
      elim (Option-cases (must (lib.add_client_go lib.new_scheme))) [
        | inl e ↦ absurd (ground arith)
        | inr (start, e) ↦
            let b = lib.register ("Houmao" ∷ "HoumaoList" ∷ []) (lib.new_builder group_version) in
            let added : lib.add_to_scheme b start ≡ (none, s) =
              must-eq-some (lib.add_to_scheme b start) (ground arith) in
            let (kind, (kinds, _)) =
              laws.adds group_version ("Houmao" ∷ "HoumaoList" ∷ []) start s added in
            (
              start,
              must-eq-some (lib.add_client_go lib.new_scheme) e,
              kind,
              kinds,
              λ gv kind known. laws.keeps b start s gv kind added known,
            )
      ]
