-- ===== src/Main/Whole/Runs.antt =====
-- Each event keeps the whole pool well formed.
use pool_dance.Prelude.{
  refl, ap, length, List, [], ◌∷◌, ltb, if_cases, arith, Outcome, ok, Ensures, Ensures-bind,
  get_elem?, remove_at,
}
use pool_dance.Extern.{Extern}
use pool_dance.PoolServer.Machine.{close_long_poll}
use pool_dance.PoolServer.Steps.{close_long_poll-IsTidy, close_long_poll-queue}
use pool_dance.BlockMonitor.{on_block_count}
use pool_dance.Main.Callbacks.{Pool, Clock}
use pool_dance.Main.Loop.{
  Event, method_call, request_headers, request_closes, lp_closes, getwork_reply, hash_reply,
  count_reply, timer, source, validation, submission, with_monitor, notify_blocks, step, run,
}
use pool_dance.Main.Whole.{IsWell, HasTwo, HasOne, All-remove_at, All-get_elem?}
use pool_dance.Main.Whole.Source.{run_source-IsWell}
use pool_dance.Main.Whole.Events.{
  server-IsWell, call-IsWell, headers-IsWell, close-IsWell, reply-IsWell, monitor-IsWell,
  blocks-IsWell, hash-IsWell, validation-IsWell, submission-IsWell,
}

module _ {Node : Type 0} (x : Extern Node) (clock : Clock) where
  pub step-IsWell :
      (self : Pool Node) (e : Event Node) → IsWell self → Ensures IsWell (step x clock self e)
  unfolding step
  step-IsWell self (method_call method_name params params_length invocation_id conn garbage) v =
      call-IsWell x clock self method_name params params_length invocation_id conn garbage v
  step-IsWell self (request_headers path conn) v = headers-IsWell x clock self path conn v
  step-IsWell self (request_closes p) v =
      close-IsWell x clock self p (self.services.pool_server.requests p) refl v
  step-IsWell self (lp_closes conn) v =
      let server = self.services.pool_server in
      server-IsWell x clock self (close_long_poll server conn)
        (close_long_poll-IsTidy server conn v.server)
        (omega (arith, ap length (close_long_poll-queue server conn))) v
  step-IsWell self (getwork_reply reply) v =
      if_cases {A = Outcome (Pool Node)} (Ensures IsWell)
        (ltb 0 self.services.upstream_service.calls) _ _ (λ _. reply-IsWell x clock self reply v)
        (λ _. v)
  step-IsWell self (hash_reply reply) v =
      if_cases {A = Outcome (Pool Node)} (Ensures IsWell) (ltb 0 self.hash_calls) _ _
        (λ _. hash-IsWell x clock self reply v) (λ _. v)
  step-IsWell self (count_reply reply) v =
      let (monitor, blocks) = on_block_count self.block_monitor reply in
      if_cases {A = Outcome (Pool Node)} (Ensures IsWell) (ltb 0 self.block_monitor.calls)
        (notify_blocks x clock (with_monitor self monitor) blocks) (ok self)
        (λ _.
          blocks-IsWell x clock (with_monitor self monitor) blocks
            (monitor-IsWell x clock self monitor v))
        (λ _. v)
  step-IsWell self (timer id) v = monitor-IsWell x clock self _ v
  step-IsWell self (source sent) v =
      if_cases {A = Outcome (Pool Node)} (Ensures IsWell) (ltb 0 self.sources) _ _
        (λ due. run_source-IsWell x clock sent self (ground arith) v) (λ _. v)
  step-IsWell self (validation index data_bin) v =
      validation-IsWell x clock (record self { validations = remove_at index self.validations })
        data_bin (get_elem? self.validations index)
        (λ a e. All-get_elem? HasTwo index self.validations a v.checked e)
        (record {
          server = v.server;
          validator = v.validator;
          scheduled = v.scheduled;
          checked = All-remove_at HasTwo index self.validations v.checked;
          submitted = v.submitted;
        })
  step-IsWell self (submission index reply) v =
      submission-IsWell x clock (record self { submissions = remove_at index self.submissions })
        reply (get_elem? self.submissions index)
        (record {
          server = v.server;
          validator = v.validator;
          scheduled = v.scheduled;
          checked = v.checked;
          submitted = All-remove_at HasOne index self.submissions v.submitted;
        })

  -- Whatever happens, in any order, as long as nothing faults: the queue of requests and the tables
  -- of the validator stay well formed; when a request waits and work is cached, the main loop has a
  -- source that runs serve_work; a share under validation holds two references, and one submitted
  -- to the daemon a single one.
  pub run-IsWell :
      (self : Pool Node) (es : List (Event Node))
      → IsWell self
      → Ensures IsWell (run x clock self es)
  unfolding run
  run-IsWell self [] v = v
  run-IsWell self (e ∷ es) v =
      Ensures-bind IsWell IsWell (step x clock self e) _ (step-IsWell self e v)
        (λ s w. run-IsWell s es w)
