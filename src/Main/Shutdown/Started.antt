-- ===== src/Main/Shutdown/Started.antt =====
-- What main.c holds when its start ends, and that the main loop then begins well formed.
use pool_dance.Prelude.{
  ℕ, ◌+◌, ◌≡◌, refl, arith, Bool, true, false, not, ◌&&◌, Bool-cases, inl, inr, Option, none, some,
  [], ok,
}
use pool_dance.Prelude.Memory.{Memory, free}
use pool_dance.Extern.{KeyFile}
use pool_dance.Upstream.{UpstreamService}
use pool_dance.PoolServer.{pool_server_new, pool_server_need_work}
use pool_dance.PoolServer.Steps.{pool_server_new-IsTidy}
use pool_dance.BlockMonitor.{BlockMonitor, block_monitor_start}
use pool_dance.Validator.State.{WorkValidator, work_validator_new, work_validator_free}
use pool_dance.Validator.Blocks.{work_validator_set_target}
use pool_dance.Validator.Sound.{IsSound}
use pool_dance.Validator.Sound.Operations.{work_validator_new-IsSound}
use pool_dance.EventDispatcher.{EventDispatcher, event_dispatcher_set_vtable}
use pool_dance.RoundManager.{RoundManager}
use pool_dance.Main.{easy_target}
use pool_dance.Main.Callbacks.{Pool}
use pool_dance.Main.Whole.{IsWell}
use pool_dance.Main.Config.{
  load_global_config, configured_upstream_service, configured_block_monitor,
  configured_round_manager,
}
use pool_dance.Main.Startup.{
  ◌>>=◌, World, Options, Process, Stage, goes_on, out, nothing, config_name, keep_service,
  keep_dispatcher, with_round, started, with_configuration, with_options, create_upstream_service,
  create_workers, create_event_dispatcher, detach, start_round, start_configured, start,
}
use pool_dance.Main.Shutdown.{pool_of}
use pool_dance.Main.Shutdown.Held.{IsFreeable, IsHeld}

module _ {Node : Type 0} where
  -- Every component is there, and new.
  pub record IsFull (self : Process Node) : Type 0 where
    pub service : UpstreamService Node
    pub monitor : BlockMonitor
    pub validator : WorkValidator
    pub dispatcher : EventDispatcher
    pub is_service : self.upstream_service ≡ some service
    pub is_monitor : self.block_monitor ≡ some monitor
    pub is_server : self.pool_server ≡ some pool_server_new
    pub is_validator : self.work_validator ≡ some validator
    pub sound : IsSound validator
    pub is_dispatcher : self.event_dispatcher ≡ some dispatcher

  -- The pool with which the main loop begins.
  abbrev first_pool : {self : Process Node} → IsFull self → Pool Node
  first_pool f = record {
    services = record {
      upstream_service = f.service;
      pool_server = pool_server_new;
      work_validator = f.validator;
    };
    event_dispatcher = f.dispatcher;
    block_monitor = block_monitor_start f.monitor;
    current_block = 0;
    sources = 0;
    validations = [];
    submissions = [];
    hash_calls = 0;
    responses = [];
  }

  pub pool_of-IsWell :
      (self : Process Node)
      → IsFull self
      → (pool : Pool Node) × (pool_of self ≡ ok pool) × IsWell pool
  unfolding pool_of pool_server_need_work pool_server_new
  pool_of-IsWell self f = (
    first_pool f,
    rw (f.is_service)
        (rw (f.is_monitor) (rw (f.is_server) (rw (f.is_validator) (rw (f.is_dispatcher) refl)))),
    record {
      server = pool_server_new-IsTidy;
      validator = f.sound;
      scheduled = λ can. absurd (ground arith);
      checked = tt;
      submitted = tt;
    },
  )

  abbrev pub Starts : Stage Node → Type 0
  Starts (goes_on self) = IsHeld self × IsFull self
  Starts (out e self) = IsHeld self

  same-IsHeld :
      (self s : Process Node)
      → s.rpc_refs ≡ self.rpc_refs
      → s.upstream_service ≡ self.upstream_service
      → s.block_monitor ≡ self.block_monitor
      → s.work_validator ≡ self.work_validator
      → s.pool_server ≡ self.pool_server
      → IsHeld self
      → IsHeld s
  same-IsHeld self s n u m w p v = record {
    refs = rw (n, u, m, w) (v.refs);
    server = rw p (v.server);
    validator = rw w (v.validator);
  }

  module _ (world : World Node) (memory : Memory) (now : ℕ) where
    started-Starts :
        (self : Process Node) (dispatcher : EventDispatcher) (r : RoundManager × Bool)
        → self.event_dispatcher ≡ some dispatcher
        → IsHeld self
        → IsFull self
        → Starts (started world memory now self r)
    started-Starts self dispatcher (manager, false) e v f =
        same-IsHeld self (with_round world memory now self manager) refl refl refl refl refl v
    started-Starts self dispatcher (manager, true) e v f = (
      same-IsHeld self (with_round world memory now self manager) refl refl refl refl refl v,
      record {
        service = f.service;
        monitor = f.monitor;
        validator = f.validator;
        dispatcher = event_dispatcher_set_vtable dispatcher manager;
        is_service = f.is_service;
        is_monitor = f.is_monitor;
        is_server = f.is_server;
        is_validator = f.is_validator;
        sound = f.sound;
        is_dispatcher = rw e refl;
      },
    )

    detach-Starts :
        (options : Options) (config : KeyFile) (self : Process Node) (dispatcher : EventDispatcher)
        → self.event_dispatcher ≡ some dispatcher
        → IsHeld self
        → IsFull self
        → Starts (detach world memory now options self >>= start_round world memory now config)
    unfolding detach start_round
    detach-Starts options config self dispatcher e v f =
        let s : Process Node = record self { evd_daemon = true } in
        let held = same-IsHeld self s refl refl refl refl refl v in
        elim (Bool-cases (options.daemonize && not world.detaches)) [
          | inl fails ↦ rw fails held
          | inr detaches ↦ rw detaches (
              started-Starts s dispatcher _ e held (record {
                service = f.service;
                monitor = f.monitor;
                validator = f.validator;
                dispatcher = f.dispatcher;
                is_service = f.is_service;
                is_monitor = f.is_monitor;
                is_server = f.is_server;
                is_validator = f.is_validator;
                sound = f.sound;
                is_dispatcher = f.is_dispatcher;
              }))
        ]

    dispatcher-Starts :
        (options : Options) (config : KeyFile) (self : Process Node) (manager : RoundManager)
        (service : UpstreamService Node) (monitor : BlockMonitor) (validator : WorkValidator)
        (o : Option EventDispatcher)
        → self.upstream_service ≡ some service
        → self.block_monitor ≡ some monitor
        → self.pool_server ≡ some pool_server_new
        → self.work_validator ≡ some validator
        → IsSound validator
        → IsHeld self
        → Starts (
            keep_dispatcher world memory now manager self o >>= λ p.
            detach world memory now options p >>= λ q. start_round world memory now config q)
    dispatcher-Starts options config self manager service monitor validator none u m p w sound v = v
    dispatcher-Starts options config self manager service monitor validator (some d) u m p w sound
          v =
        let s : Process Node = record self {
          event_dispatcher = some (event_dispatcher_set_vtable d manager);
          round_manager = some manager;
        } in
        detach-Starts options config s (event_dispatcher_set_vtable d manager) refl
          (same-IsHeld self s refl refl refl refl refl v)
          (record {
            service = service;
            monitor = monitor;
            validator = validator;
            dispatcher = event_dispatcher_set_vtable d manager;
            is_service = u;
            is_monitor = m;
            is_server = p;
            is_validator = w;
            sound = sound;
            is_dispatcher = refl;
          })

    new_validator-IsFreeable :
        IsFreeable (work_validator_set_target (work_validator_new memory) easy_target)
    unfolding work_validator_set_target work_validator_new work_validator_free free
    new_validator-IsFreeable = (memory, refl)

    new_validator-IsSound :
        IsSound (work_validator_set_target (work_validator_new memory) easy_target)
    unfolding work_validator_set_target
    new_validator-IsSound =
        let v = work_validator_new-IsSound memory in
        record { in_current = v.in_current; in_previous = v.in_previous }

    service-Starts :
        (options : Options) (config : KeyFile) (self : Process Node)
        (o : Option (UpstreamService Node))
        → self.rpc_refs ≡ 0
        → self.upstream_service ≡ none
        → self.block_monitor ≡ none
        → self.pool_server ≡ none
        → self.work_validator ≡ none
        → Starts (
            keep_service world memory now self o >>= λ p.
            create_workers world memory now config p >>= λ p.
            create_event_dispatcher world memory now config p >>= λ p.
            detach world memory now options p >>= λ p. start_round world memory now config p)
    unfolding create_workers create_event_dispatcher
    service-Starts options config self none n u m p w = record {
      refs = rw (n, u, m, w) refl;
      server = rw p tt;
      validator = rw w tt;
    }
    service-Starts options config self (some service) n u m p w =
        let validator = work_validator_set_target (work_validator_new memory) easy_target in
        dispatcher-Starts options config
          (record self {
            upstream_service = some service;
            block_monitor = some (configured_block_monitor config);
            pool_server = some pool_server_new;
            work_validator = some validator;
            rpc_refs = self.rpc_refs + 1 + 1 + 1;
          })
          (configured_round_manager config) service (configured_block_monitor config) validator _
          refl refl refl refl new_validator-IsSound
          (record {
            refs = omega arith;
            server = pool_server_new-IsTidy;
            validator = new_validator-IsFreeable;
          })

    configuration-Starts :
        (options : Options) (file : Option KeyFile)
        → Starts (
            with_configuration world memory now file
              (start_configured world memory now options)
              nothing)
    unfolding start_configured create_upstream_service
    configuration-Starts options none = record { refs = refl; server = tt; validator = tt }
    configuration-Starts options (some config) =
        service-Starts options config
          (record nothing { config = some config; settings = some (load_global_config config) })
          (configured_upstream_service config) refl refl refl refl refl

    options-Starts :
        (options : Option Options)
        → Starts (
            with_options world memory now options λ o.
              with_configuration world memory now
                (world.key_file (config_name o))
                (start_configured world memory now o)
                nothing)
    options-Starts none = record { refs = refl; server = tt; validator = tt }
    options-Starts (some options) =
        configuration-Starts options (world.key_file (config_name options))

    pub start-Starts : Starts (start world memory now)
    unfolding start
    start-Starts = options-Starts world.options
