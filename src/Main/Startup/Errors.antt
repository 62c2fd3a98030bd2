-- ===== src/Main/Startup/Errors.antt =====
-- Which error the start of main.c ends with.
use pool_dance.Prelude.{
  ℕ, arith, ◌≡◌, refl, ap, ◌∙◌, inl, inr, Bool, true, false, not, ◌&&◌, ◌||◌, Option, none, some,
  Str, codes, if◌then◌else◌, Bool-cases,
}
use pool_dance.Prelude.Memory.{Memory}
use pool_dance.Extern.{KeyFile}
use pool_dance.Upstream.{UpstreamService, is_missing, upstream_service_new}
use pool_dance.FileLogger.State.{file_logger_new}
use pool_dance.EventDispatcher.{EventDispatcher, event_dispatcher_new}
use pool_dance.RoundManager.{RoundManager, Creation, created, existed, not_created, init_log_file}
use pool_dance.Main.Config.{
  load_global_config, configured_upstream_service, configured_round_manager, upstream_service_group,
}
use pool_dance.Main.Startup.{
  World, Options, StartError, bad_options, bad_configuration, no_upstream_service,
  no_event_dispatcher, not_detached, no_round, Process, Stage, goes_on, out, nothing, config_name,
  keep_service, with_configuration, with_options, keep_dispatcher, started, ◌>>=◌,
  create_upstream_service, create_workers, create_event_dispatcher, detach, start_round,
  start_configured, start,
}

-- The round file can be created, or is there and can be opened.
abbrev pub is_usable : Creation → Bool
is_usable created = true
is_usable (existed none) = false
is_usable (existed (some file)) = true
is_usable not_created = false

abbrev pub is_there {ℓ} : {A : Type ℓ} → Option A → Bool
is_there none = false
is_there (some a) = true

module _ {Node : Type 0} where
  abbrev pub error_of : Stage Node → Option StartError
  error_of (goes_on p) = none
  error_of (out e p) = some e

  -- The first of the conditions that does not hold, once there is a configuration.
  abbrev pub configured_error : World Node → Options → KeyFile → Option StartError
  configured_error world options config =
      if is_missing (config.string upstream_service_group (codes "user"))
        || is_missing (config.string upstream_service_group (codes "password"))
      then some no_upstream_service
      else if not (is_there (world.log_file (load_global_config config).log_file_name))
      then some no_event_dispatcher
      else if options.daemonize && not world.detaches
      then some not_detached
      else if not (is_usable (world.round_file (configured_round_manager config).log_file_name))
      then some no_round
      else none

  abbrev pub found_error : World Node → Options → Option KeyFile → Option StartError
  found_error world options none = some bad_configuration
  found_error world options (some config) = configured_error world options config

  abbrev pub option_error : World Node → Option Options → Option StartError
  option_error world none = some bad_options
  option_error world (some options) =
      found_error world options (world.key_file (config_name options))

  -- The first of the conditions that does not hold.
  abbrev pub first_error : World Node → Option StartError
  first_error world = option_error world world.options

  module _ (world : World Node) (memory : Memory) (now : ℕ) where
    service-error :
        (user passw : Option Str) (size : ℕ)
        → is_there (upstream_service_new {Node = Node} user passw size)
          ≡ not (is_missing user || is_missing passw)
    unfolding upstream_service_new
    service-error user passw size = ground arith

    round-error :
        (manager : RoundManager) (c : Creation) → (init_log_file manager now c).1 ≡ is_usable c
    unfolding init_log_file
    round-error manager created = refl
    round-error manager (existed none) = refl
    round-error manager (existed (some file)) = refl
    round-error manager not_created = refl

    log-error :
        (name : Str) (file : Option Str)
        → is_there (event_dispatcher_new (some (name, file))) ≡ is_there file
    unfolding event_dispatcher_new file_logger_new
    log-error name none = refl
    log-error name (some text) = refl

    -- A stage fails, or what follows decides.
    keep_service-error :
        (self : Process Node) (service : Option (UpstreamService Node))
        (next : Process Node → Stage Node) (rest : Option StartError)
        → ((p : Process Node) → error_of (next p) ≡ rest)
        → error_of (keep_service world memory now self service >>= next)
          ≡ (if not (is_there service) then some no_upstream_service else rest)
    keep_service-error self none next rest h = refl
    keep_service-error self (some service) next rest h = h _

    keep_dispatcher-error :
        (manager : RoundManager) (self : Process Node) (dispatcher : Option EventDispatcher)
        (next : Process Node → Stage Node) (rest : Option StartError)
        → ((p : Process Node) → error_of (next p) ≡ rest)
        → error_of (keep_dispatcher world memory now manager self dispatcher >>= next)
          ≡ (if not (is_there dispatcher) then some no_event_dispatcher else rest)
    keep_dispatcher-error manager self none next rest h = refl
    keep_dispatcher-error manager self (some dispatcher) next rest h = h _

    detach-error :
        (options : Options) (self : Process Node) (next : Process Node → Stage Node)
        (rest : Option StartError)
        → ((p : Process Node) → error_of (next p) ≡ rest)
        → error_of (detach world memory now options self >>= next)
          ≡ (if options.daemonize && not world.detaches then some not_detached else rest)
    unfolding detach
    detach-error options self next rest h =
        elim (Bool-cases (options.daemonize && not world.detaches)) [
          | inl fails ↦ rw fails refl
          | inr detaches ↦ rw detaches (h _)
        ]

    started-error :
        (self : Process Node) (r : RoundManager × Bool)
        → error_of (started world memory now self r) ≡ (if not r.1 then some no_round else none)
    started-error self (manager, true) = refl
    started-error self (manager, false) = refl

    round_start-error :
        (config : KeyFile) (self : Process Node)
        → error_of (start_round world memory now config self) ≡ (
            if not (is_usable (world.round_file (configured_round_manager config).log_file_name))
            then some no_round
            else none)
    unfolding start_round
    round_start-error config self =
        let manager = configured_round_manager config in
        let c = world.round_file manager.log_file_name in
        started-error self (init_log_file manager now c)
        ∙ ap (λ b. if not b then some no_round else none) (round-error manager c)

    started_configured-error :
        (options : Options) (config : KeyFile) (self : Process Node)
        → error_of (start_configured world memory now options config self)
          ≡ configured_error world options config
    unfolding start_configured create_upstream_service create_workers create_event_dispatcher
        configured_upstream_service
    started_configured-error options config self =
        let user = config.string upstream_service_group (codes "user") in
        let passw = config.string upstream_service_group (codes "password") in
        let name = (load_global_config config).log_file_name in
        let round : Option StartError =
          if not (is_usable (world.round_file (configured_round_manager config).log_file_name))
          then some no_round
          else none in
        let late : Option StartError =
          if options.daemonize && not world.detaches then some not_detached else round in
        let logged : Bool → Option StartError =
          λ b. if not b then some no_event_dispatcher else late in
        keep_service-error self (configured_upstream_service config) _
          (logged (is_there (world.log_file name)))
          (λ p.
            keep_dispatcher-error (configured_round_manager config) _
              (event_dispatcher_new (some (name, world.log_file name))) _ late
              (λ q.
                detach-error options q (start_round world memory now config) round
                  (λ r. round_start-error config r))
            ∙ ap logged (log-error name (world.log_file name)))
        ∙ ap
            (λ b.
              if not b then some no_upstream_service else logged (is_there (world.log_file name)))
            (service-error user passw
              (config.integer upstream_service_group (codes "work-cache-size")))
        ∙ ground arith

    -- The start ends with the first error in the order of the conditions, and goes on to the main
    -- loop when all of them hold.
    pub start-first_error : error_of (start world memory now) ≡ first_error world
    unfolding start
    start-first_error = go world.options
      where
        found :
            (options : Options) (file : Option KeyFile)
            → error_of (
                with_configuration world memory now file
                  (start_configured world memory now options)
                  nothing)
              ≡ found_error world options file
        found options none = refl
        found options (some config) = started_configured-error options config _

        go :
            (options : Option Options)
            → error_of (
                with_options world memory now options λ o.
                  with_configuration world memory now
                    (world.key_file (config_name o))
                    (start_configured world memory now o)
                    nothing)
              ≡ option_error world options
        go none = refl
        go (some options) = found options (world.key_file (config_name options))
