-- ===== src/Startup/Order.antt =====
-- In which order cmd/initial/initial.go sets the parts of the program going.
use mathlib.Core.Path.{subst}
use sunwukong.Base.{
  String, Bool, true, false, ◌∙◌, ◌≡◌, refl, sym, ap, ◌⊎◌, inl, inr, Option, none, some, List, [],
  ◌∷◌, str_eq, eq_iff, arith, Bool-cases, Option-cases, Error, Result, ok, err, panic,
}
use sunwukong.Houmao.{Houmao}
use sunwukong.Startup.Process.{
  Action, replace_logger, set_up_controller, start_zaohua, add_check, start_manager,
  listen_and_serve, End, returned, exited, Process, stop, act, require, Parsed-cases, FlagPackage,
  define_all, parse_flags,
}
use sunwukong.Startup.Logger.{config_of, is_level, set_logger_level}
use sunwukong.Startup.Initial.{
  InitialParam, Environment, handle_of_param, object_key, set_up_with_manager, start_loop,
  start_role, run_manager, manager_options, log_level, start_process, initial_aggrator,
}

-- The manager is started.
abbrev pub has_start : {F : Type 0} → List (Action F) → Bool
has_start [] = false
has_start (replace_logger config ∷ actions) = has_start actions
has_start (set_up_controller controller ∷ actions) = has_start actions
has_start (start_zaohua handle object mode ∷ actions) = has_start actions
has_start (add_check name ∷ actions) = has_start actions
has_start (start_manager ∷ actions) = true
has_start (listen_and_serve address ∷ actions) = has_start actions

-- The first process is as the second from where the two differ, if the manager is started.
record Reaches {F : Type 0} (p q : Process F) : Type 0 where
  same : p.actions ≡ q.actions
  starts : has_start q.actions ≡ true

module _ {F : Type 0} where
  require-Reaches :
      (e : Option Error) (end : End) (next : Process F)
      → has_start (require e end next).actions ≡ true
      → Reaches (require e end next) next
  require-Reaches none end next h = record { same = refl; starts = h }
  require-Reaches (some e) end next h = absurd (ground arith)

  require-stop :
      (e : Option Error) (end end' : End) → (require {F = F} e end (stop end')).actions ≡ []
  require-stop none end end' = refl
  require-stop (some e) end end' = refl

  abbrev pub manager_actions : List (Action F)
  manager_actions = add_check "healthz" ∷ add_check "readyz" ∷ start_manager ∷ []

  set_logger_level-Reaches :
      (new_logger : String → Option Error) (level : String) (next : Process F)
      → has_start (set_logger_level new_logger level next).actions ≡ true
      → (is_level level ≡ true)
        × Reaches
            (set_logger_level new_logger level next)
            (act (replace_logger (config_of level)) next)
  unfolding set_logger_level
  set_logger_level-Reaches new_logger level next h = elim (Bool-cases (is_level level)) [
    | inr apart ↦ absurd (ground arith)
    | inl among ↦
        let r =
          require-Reaches (new_logger (config_of level)) (exited 1)
            (act (replace_logger (config_of level)) next) (ground arith) in
        (among, record { same = ground (arith, r.same); starts = r.starts })
  ]

  parse_flags-Reaches :
      {S : Type 0} (flags : FlagPackage F S) (names : List String) (set : S) (next : S → Process F)
      → has_start (parse_flags flags names set next).actions ≡ true
      → (given : S) × (parse_flags flags names set next ≡ next given)
  unfolding parse_flags
  parse_flags-Reaches flags names set next h = elim (Option-cases (define_all flags names set)) [
    | inl e ↦ absurd (ground arith)
    | inr (defined, e) ↦ elim (Parsed-cases (flags.parse defined)) [
      | inl (code, e') ↦ absurd (ground arith)
      | inr (given, e') ↦ (given, ground arith)
    ]
  ]

  module _ (env : Environment) where
    run_manager-actions :
        has_start (run_manager {F = F} env).actions ≡ true
        → (run_manager {F = F} env).actions ≡ manager_actions
    unfolding run_manager
    run_manager-actions h =
        let last = require-stop env.start (exited 1) returned in
        let readyz = require-Reaches (env.add_readyz_check "readyz") (exited 1) _ in
        let healthz = require-Reaches (env.add_healthz_check "healthz") (exited 1) _ h in
        healthz.same
        ∙ ap (λ actions. add_check "healthz" ∷ actions)
            ((readyz healthz.starts).same
              ∙ ap (λ actions. add_check "readyz" ∷ start_manager ∷ actions) last)

    abbrev pub loop_actions : InitialParam F → Houmao → List (Action F)
    loop_actions param object =
        start_zaohua (handle_of_param env.cluster param) object (env.getenv "Beidong")
        ∷ set_up_controller "Zaohua"
        ∷ manager_actions

    -- What is done for a role.
    abbrev pub Serves : InitialParam F → List (Action F) → Type 0
    Serves param actions =
        ((param.role ≡ "shifa") × (actions ≡ set_up_controller "Sunwukong" ∷ manager_actions))
        ⊎ ((param.role ≡ "zaohua")
            × (object : Houmao) × (env.get_object (object_key env) ≡ ok object)
            × (actions ≡ loop_actions param object))

    set_up_with_manager-actions :
        (controller : String) (next : Process F)
        → has_start (set_up_with_manager env controller next).actions ≡ true
        → ((set_up_with_manager env controller next).actions
            ≡ set_up_controller controller ∷ next.actions)
          × (has_start next.actions ≡ true)
    unfolding set_up_with_manager
    set_up_with_manager-actions controller next h =
        let r = require-Reaches (env.set_up controller) (exited 1) _ h in (r.same, r.starts)

    start_loop-actions :
        (param : InitialParam F) (got : Result Houmao)
        → has_start (start_loop env param got (run_manager env)).actions ≡ true
        → (object : Houmao) × (got ≡ ok object)
          × ((start_loop env param got (run_manager env)).actions ≡ loop_actions param object)
    unfolding start_loop
    start_loop-actions param (panic p) h = absurd (ground arith)
    start_loop-actions param (err e) h = absurd (ground arith)
    start_loop-actions param (ok object) h =
        let resource = require-Reaches env.resource_client returned _ h in
        let discovery = require-Reaches env.discovery_client returned _ resource.starts in
        let external = require-Reaches env.external_client returned _ discovery.starts in
        let (set_up, rest) = set_up_with_manager-actions "Zaohua" _ external.starts in
        let manager = run_manager-actions rest in
        (
          object,
          refl,
          resource.same
              ∙ (discovery.same
                  ∙ (external.same
                      ∙ ap
                          (λ actions.
                            start_zaohua (handle_of_param env.cluster param) object
                              (env.getenv "Beidong")
                            ∷ actions)
                          (set_up ∙ ap (λ actions. set_up_controller "Zaohua" ∷ actions) manager))),
        )

    start_role-Serves :
        (param : InitialParam F)
        → has_start (start_role env param (run_manager env)).actions ≡ true
        → Serves param (start_role env param (run_manager env)).actions
    unfolding start_role
    start_role-Serves param h = elim (Bool-cases (str_eq param.role "shifa")) [
      | inl shifa ↦
          let (set_up, rest) =
            set_up_with_manager-actions "Sunwukong" (run_manager env) (ground arith) in
          inl (
            ground (arith, eq_iff param.role "shifa"),
            ground (arith, set_up, run_manager-actions rest),
          )
      | inr other ↦ elim (Bool-cases (str_eq param.role "zaohua")) [
        | inr neither ↦ absurd (ground arith)
        | inl zaohua ↦
            let (object, got, done) =
              start_loop-actions param (env.get_object (object_key env)) (ground arith) in
            inr (ground (arith, eq_iff param.role "zaohua"), object, got, ground (arith, done))
      ]
    ]

    module _ {S : Type 0} (flags : FlagPackage F S) where
      abbrev pub IsOrder : InitialParam F → List (Action F) → Type 0
      IsOrder param actions =
          (level : String) × (is_level level ≡ true)
          × (rest : List (Action F)) × (actions ≡ replace_logger (config_of level) ∷ rest)
          × Serves param rest

      start_process-IsOrder :
          (param : InitialParam F) (given : S)
          → has_start (start_process env flags param given).actions ≡ true
          → IsOrder param (start_process env flags param given).actions
      unfolding start_process
      start_process-IsOrder param given h =
          let config = require-Reaches env.get_config (exited 1) _ h in
          let manager =
            require-Reaches (env.new_manager (manager_options env flags given)) (exited 1) _
              config.starts in
          let (level, logger) =
            set_logger_level-Reaches env.new_logger (log_level env flags given)
              (start_role env param (run_manager env)) manager.starts in
          (
            log_level env flags given,
            level,
            (start_role env param (run_manager env)).actions,
            config.same ∙ (manager.same ∙ logger.same),
            start_role-Serves param logger.starts,
          )

      -- If `InitialAggrator` comes to start the manager, then first of all the log was set to one
      -- of the four levels, and what follows is, in this order: for the role shifa the controller
      -- of the Houmao, the two checks and the manager; for the role zaohua, the object having been
      -- found, the scaling loop in the mode that the variable of the environment named Beidong
      -- holds, the controller that restarts it, the two checks and the manager. There is no other
      -- role.
      pub initial_aggrator-IsOrder :
          (param : InitialParam F) (set : S)
          → has_start (initial_aggrator env flags param set).actions ≡ true
          → IsOrder param (initial_aggrator env flags param set).actions
      unfolding initial_aggrator
      initial_aggrator-IsOrder param set h =
          let (given, went) = parse_flags-Reaches flags _ set (start_process env flags param) h in
          subst (λ p. IsOrder param (Process.actions p)) (sym went)
            (start_process-IsOrder param given
              (ap (λ p. has_start (Process.actions p)) (sym went) ∙ h))
