-- ===== src/Startup/Unread.antt =====
-- The start of the role zaohua in cmd/initial/initial.go if its object cannot be read.
use sunwukong.Base.{
  String, Bool, true, false, ◌≡◌, refl, ap, inl, inr, Option, none, some, List, [], ◌∷◌, arith,
  Bool-cases, Option-cases, str_eq, Error, err,
}
use sunwukong.Startup.Process.{
  Action, replace_logger, set_up_controller, start_zaohua, add_check, start_manager,
  listen_and_serve, End, Process, require, exited, FlagPackage, define_all, parse_flags,
  Parsed-cases,
}
use sunwukong.Startup.Logger.{switch_logger_level, set_logger_level, is_level, config_of}
use sunwukong.Startup.Initial.{
  InitialParam, Environment, object_key, start_loop, start_role, start_process, initial_aggrator,
}

-- Nothing was done but to set the log.
abbrev pub is_idle : {F : Type 0} → List (Action F) → Bool
is_idle [] = true
is_idle (replace_logger config ∷ actions) = is_idle actions
is_idle (set_up_controller controller ∷ actions) = false
is_idle (start_zaohua handle object mode ∷ actions) = false
is_idle (add_check name ∷ actions) = false
is_idle (start_manager ∷ actions) = false
is_idle (listen_and_serve address ∷ actions) = false

module _ {F : Type 0} where
  require-is_idle :
      (e : Option Error) (end : End) (next : Process F)
      → is_idle next.actions ≡ true
      → is_idle (require e end next).actions ≡ true
  require-is_idle none end next h = h
  require-is_idle (some e) end next h = refl

  set_logger_level-is_idle :
      (new_logger : String → Option Error) (level : String) (next : Process F)
      → is_idle next.actions ≡ true
      → is_idle (set_logger_level new_logger level next).actions ≡ true
  unfolding set_logger_level switch_logger_level
  set_logger_level-is_idle new_logger level next h = elim (Bool-cases (is_level level)) [
    | inr apart ↦ ground arith
    | inl among ↦ ground (
      arith,
      require-is_idle (new_logger (config_of level)) (exited 1)
          (record { actions = replace_logger (config_of level) ∷ next.actions; end = next.end }) h,
    )
  ]

  parse_flags-is_idle :
      {S : Type 0} (flags : FlagPackage F S) (names : List String) (set : S) (next : S → Process F)
      → ((given : S) → is_idle (next given).actions ≡ true)
      → is_idle (parse_flags flags names set next).actions ≡ true
  unfolding parse_flags
  parse_flags-is_idle flags names set next h = elim (Option-cases (define_all flags names set)) [
    | inl e ↦ ground arith
    | inr (defined, e) ↦ elim (Parsed-cases (flags.parse defined)) [
      | inl (code, e') ↦ ground arith
      | inr (given, e') ↦ ground (arith, h given)
    ]
  ]

  start_role-is_idle :
      (env : Environment) (param : InitialParam F) {e : Error} (next : Process F)
      → param.role ≡ "zaohua"
      → env.get_object (object_key env) ≡ err e
      → is_idle (start_role env param next).actions ≡ true
  unfolding start_role start_loop
  start_role-is_idle env param next role unread =
      ground (arith, unread, ap (λ r. str_eq r "shifa") role, ap (λ r. str_eq r "zaohua") role)

  module _ (env : Environment) {S : Type 0} (flags : FlagPackage F S) where
    -- If the object of a process of the role zaohua cannot be read, as `Get` cannot before the
    -- manager has started its cache, `InitialAggrator` does nothing but set the log: it starts
    -- neither the loop nor a controller nor the manager.
    pub initial_aggrator_unread :
        (param : InitialParam F) (set : S) {e : Error}
        → param.role ≡ "zaohua"
        → env.get_object (object_key env) ≡ err e
        → is_idle (initial_aggrator env flags param set).actions ≡ true
    unfolding initial_aggrator start_process
    initial_aggrator_unread param set {e} role unread = parse_flags-is_idle flags _ set _ (λ given.
        require-is_idle env.get_config (exited 1) _ (
          require-is_idle (env.new_manager _) (exited 1) _ (
            set_logger_level-is_idle env.new_logger _ _
              (start_role-is_idle env param _ role unread))))
