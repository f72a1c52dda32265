-- ===== src/Startup/Process.antt =====
-- What the program does from its start to its end, as far as it is seen from outside.
use sunwukong.Base.{
  ◌≡◌, refl, ◌⊎◌, inl, inr, String, ℕ, Bool, Option, none, some, List, [], ◌∷◌, Error,
}
use sunwukong.Houmao.{Houmao}
use sunwukong.Kube.Time.{Duration}
use sunwukong.Daofa.Cluster.{CalculateHandle}

pub data End : Type 0 where
  returned panicked : End
  exited : ℕ → End

-- `start_zaohua` is the goroutine of `StartZaohua`, with its handle, object and mode.
pub data Action (F : Type 0) : Type 0 where
  replace_logger : String → Action F
  set_up_controller : String → Action F
  start_zaohua : CalculateHandle F → Houmao → String → Action F
  add_check : String → Action F
  start_manager : Action F
  listen_and_serve : String → Action F

pub record Process (F : Type 0) : Type 0 where
  pub actions : List (Action F)
  pub end : End

abbrev pub stop : {F : Type 0} → End → Process F
stop end = record { actions = []; end = end }

abbrev pub act : {F : Type 0} → Action F → Process F → Process F
act action next = record { actions = action ∷ next.actions; end = next.end }

-- A call whose error ends the process.
abbrev pub require : {F : Type 0} → Option Error → End → Process F → Process F
require (some e) end next = stop end
require none end next = next

-- What `Parse` of the package flag does: it ends the process or gives the flags their values.
pub data Parsed (S : Type 0) : Type 0 where
  exits : ℕ → Parsed S
  parsed : S → Parsed S

pub Parsed-cases :
    {S : Type 0} (p : Parsed S)
    → ((code : ℕ) × (p ≡ exits code)) ⊎ ((given : S) × (p ≡ parsed given))
Parsed-cases (exits code) = inl (code, refl)
Parsed-cases (parsed given) = inr (given, refl)

-- The packages flag and zap, over the flags of the command line: a definition is `none` if it
-- panics, and a value is `none` if the command line does not give one.
pub record FlagPackage (F S : Type 0) : Type 0 where
  pub define : String → S → Option S
  pub bind_zap : S → Option S
  pub parse : S → Parsed S
  pub string_value : String → S → Option String
  pub bool_value : String → S → Option Bool
  pub duration_value : String → S → Option Duration
  pub float_value : String → S → Option F

-- A variable bound to a flag, after `Parse`.
abbrev pub value_or {ℓ} : {A : Type ℓ} → A → Option A → A
value_or default none = default
value_or default (some a) = a

-- `flag.StringVar` and its kind for the names in turn, then `BindFlags` of zap.
unfoldable pub define_all : {F S : Type 0} → FlagPackage F S → List String → S → Option S
define_all flags [] set = flags.bind_zap set
define_all flags (name ∷ names) set = elim (flags.define name set) [
  | none ↦ none
  | some next ↦ define_all flags names next
]

-- `flag.Parse`, after the flags were defined.
unfoldable pub parse_flags :
    {F S : Type 0} → FlagPackage F S → List String → S → (S → Process F) → Process F
parse_flags flags names set next = elim (define_all flags names set) [
  | none ↦ stop panicked
  | some defined ↦ elim (flags.parse defined) [
    | exits code ↦ stop (exited code)
    | parsed given ↦ next given
  ]
]
