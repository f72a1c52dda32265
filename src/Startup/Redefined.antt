-- ===== src/Startup/Redefined.antt =====
-- The flags of zap, which cmd/zaohua.go and cmd/initial/initial.go both define.
use sunwukong.Base.{
  String, ◌∙◌, ◌≡◌, ◌⊎◌, inl, inr, none, some, List, [], ◌∷◌, arith, Option-cases, ℕ,
}
use sunwukong.Float.{Float}
use sunwukong.Startup.Process.{
  panicked, exited, Process, stop, parsed, Parsed-cases, FlagPackage, define_all, parse_flags,
}
use sunwukong.Startup.Initial.{InitialParam, Environment, initial_aggrator}
use sunwukong.Startup.Commands.{zaohua_param, init_zaohua_options, zaohua_runner}

-- What the package flag documents: a flag stays defined, zap's `BindFlags` defines its flags, one
-- of which is `zap-devel`, and to define a flag a second time panics.
pub record IsFlagPackage {F S : Type 0} (flags : FlagPackage F S) (IsDefined : String → S → Type 0)
    : Type 0 where
  pub define_keeps :
      (name other : String) (set next : S)
      → flags.define name set ≡ some next
      → IsDefined other set
      → IsDefined other next
  pub parse_keeps :
      (other : String) (set next : S)
      → flags.parse set ≡ parsed next
      → IsDefined other set
      → IsDefined other next
  pub bind_zap_defines :
      (set next : S) → flags.bind_zap set ≡ some next → IsDefined "zap-devel" next
  pub bind_zap_twice : (set : S) → IsDefined "zap-devel" set → flags.bind_zap set ≡ none

module _ {F S : Type 0} (flags : FlagPackage F S) (IsDefined : String → S → Type 0)
    (laws : IsFlagPackage flags IsDefined) where
  define_all_defines :
      (names : List String) (set next : S)
      → define_all flags names set ≡ some next
      → IsDefined "zap-devel" next
  unfolding define_all
  define_all_defines [] set next h = laws.bind_zap_defines set next h
  define_all_defines (name ∷ names) set next h = elim (Option-cases (flags.define name set)) [
    | inl e ↦ absurd (ground arith)
    | inr (set', e) ↦ define_all_defines names set' next (ground arith)
  ]

  define_all_twice :
      (names : List String) (set : S)
      → IsDefined "zap-devel" set
      → define_all flags names set ≡ none
  unfolding define_all
  define_all_twice [] set h = laws.bind_zap_twice set h
  define_all_twice (name ∷ names) set h = elim (Option-cases (flags.define name set)) [
    | inl e ↦ ground arith
    | inr (set', e) ↦
        let rest = define_all_twice names set' (laws.define_keeps name "zap-devel" set set' e h) in
        ground arith
  ]

  -- Either the parsing of flags ends the process, or it goes on with `zap-devel` defined.
  parse_flags_defines :
      (names : List String) (set : S) (next : S → Process F)
      → (parse_flags flags names set next ≡ stop panicked)
        ⊎ (((code : ℕ) × (parse_flags flags names set next ≡ stop (exited code)))
            ⊎ ((given : S) × IsDefined "zap-devel" given
                × (parse_flags flags names set next ≡ next given)))
  unfolding parse_flags
  parse_flags_defines names set next = elim (Option-cases (define_all flags names set)) [
    | inl e ↦ inl (ground arith)
    | inr (defined, e) ↦ elim (Parsed-cases (flags.parse defined)) [
      | inl (code, e') ↦ inr (inl (code, ground arith))
      | inr (given, e') ↦ inr (
          inr (
            given,
            laws.parse_keeps "zap-devel" defined given e' (define_all_defines names set defined e),
            ground arith,
          ))
    ]
  ]

  initial_aggrator_twice :
      (env : Environment) (param : InitialParam F) (set : S)
      → IsDefined "zap-devel" set
      → initial_aggrator env flags param set ≡ stop panicked
  unfolding initial_aggrator parse_flags
  initial_aggrator_twice env param set h =
      let twice =
        define_all_twice
          ("metrics-bind-address" ∷ "health-probe-bind-address" ∷ "leader-elect" ∷ "log-level" ∷ [])
          set h in
      ground (arith, twice)

  -- Where the package flag panics on a flag that is defined a second time, the command zaohua does
  -- nothing: it panics, or parsing its first flags ends the process.
  pub zaohua_runner_never :
      (fl : Float F) (env : Environment) (set : S)
      → (zaohua_runner fl env flags set ≡ stop panicked)
        ⊎ ((code : ℕ) × (zaohua_runner fl env flags set ≡ stop (exited code)))
  unfolding zaohua_runner init_zaohua_options
  zaohua_runner_never fl env set = elim (parse_flags_defines _ set _) [
    | inl e ↦ inl e
    | inr (inl exit) ↦ inr exit
    | inr (inr (given, defined, went)) ↦
        inl (went ∙ initial_aggrator_twice env (zaohua_param fl env flags given) given defined)
  ]
