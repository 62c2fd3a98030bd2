-- ===== src/Main/Whole/Events.antt =====
-- What an event of the main loop does keeps the whole pool well formed.
use pool_dance.Prelude.{
  ℕ, ◌-◌, ◌≤◌, ◌≡◌, refl, Bool, false, not, Option, none, some, List, [], ◌∷◌, Str, if_cases, ◌==◌,
  length, arith, ok, ◌>>=◌, Ensures, Ensures-any, Ensures-bind, strcmp0_eq, str_eq, codes,
}
use pool_dance.Extern.{Extern}
use pool_dance.WorkResult.{WorkResult, work_result_new}
use pool_dance.Upstream.{rpc_on_getwork}
use pool_dance.PoolServer.{
  PoolServer, WorkRequest, Signal, enqueue, rpc_on_method_call, on_request_headers, lp_path,
}
use pool_dance.PoolServer.Machine.{close_request}
use pool_dance.PoolServer.Tidy.{IsTidy}
use pool_dance.PoolServer.Steps.{enqueue-IsTidy, same_queue}
use pool_dance.PoolServer.Drops.{dropped, dropped-IsTidy, close-dropped}
use pool_dance.BlockMonitor.{BlockMonitor}
use pool_dance.Validator.Prevalidate.{Dispatch}
use pool_dance.Validator.Blocks.{HashReply, on_block_hash}
use pool_dance.Validator.Sound.{IsSound}
use pool_dance.Validator.Sound.Operations.{on_block_hash-IsSound}
use pool_dance.Main.Callbacks.{
  Pool, Clock, validation_error, upstream_service_on_has_work, block_monitor_on_block_change,
}
use pool_dance.Main.Loop.{
  method_call, request_headers, on_signal, with_server, with_upstream, with_monitor, notify_blocks,
  end_validation, end_submission, end_hash_call, step,
}
use pool_dance.Main.Whole.{IsWell, HasTwo, can_serve_less, length-remove}
use pool_dance.Main.Whole.Handlers.{
  pool_server_on_getwork-IsWell, pool_server_on_putwork-IsWell, work_validator_on_validate-IsWell,
  on_submit_work-IsWell, block_monitor_on_block_change-IsWell,
}

module _ {Node : Type 0} (x : Extern Node) (clock : Clock) where
  -- Another server, with no more requests.
  pub server-IsWell :
      (self : Pool Node) (server : PoolServer)
      → IsTidy server
      → length server.getwork_queue ≤ length self.services.pool_server.getwork_queue
      → IsWell self
      → IsWell (with_server self server)
  server-IsWell self server tidy less v = record {
    server = tidy;
    validator = v.validator;
    scheduled = λ can.
        v.scheduled
          (can_serve_less self.services (with_server self server).services less (omega arith) can);
    checked = v.checked;
    submitted = v.submitted;
  }

  pub call-IsWell :
      (self : Pool Node) (method_name : Option Str) (params : Node)
      (params_length invocation_id conn : ℕ) (garbage : Bool)
      → IsWell self
      → Ensures IsWell (
          step x clock self
            (method_call method_name params params_length invocation_id conn garbage))
  unfolding step rpc_on_method_call on_signal work_result_new
  call-IsWell self method_name params params_length invocation_id conn garbage v =
      let server = self.services.pool_server in
      let same = server-IsWell self server v.server (omega arith) v in
      let P : PoolServer × Signal Node → Type 0 =
        λ z. Ensures IsWell (on_signal x clock (with_server self z.0) z.1) in
      if_cases P (not (strcmp0_eq method_name (some (codes "getwork")))) _ _ (λ _. same)
        (λ _.
          if_cases P (params_length == 0) _ _
            (λ _.
              pool_server_on_getwork-IsWell x clock
                (with_server self (enqueue x server invocation_id conn false).0)
                (enqueue x server invocation_id conn false).1
                (enqueue-IsTidy x server invocation_id conn false v.server) v.validator v.checked
                v.submitted)
            (λ _.
              pool_server_on_putwork-IsWell x clock (with_server self server)
                (work_result_new x garbage params invocation_id conn) (fresh garbage) same))
    where
      fresh : (garbage : Bool) → (work_result_new x garbage params invocation_id conn).ref_count ≡ 1
      fresh garbage = refl

  pub headers-IsWell :
      (self : Pool Node) (path : Str) (conn : ℕ)
      → IsWell self
      → Ensures IsWell (step x clock self (request_headers path conn))
  unfolding step on_request_headers
  headers-IsWell self path conn v =
      let server = self.services.pool_server in
      if_cases {A = PoolServer × List (Signal Node)} (λ z. IsWell (with_server self z.0))
        (not (str_eq path lp_path)) _ _ (λ _. server-IsWell self server v.server (omega arith) v)
        (λ _. server-IsWell self _ (same_queue x server _ refl refl refl v.server) (omega arith) v)

  pub close-IsWell :
      (self : Pool Node) (p : ℕ) (o : Option WorkRequest)
      → self.services.pool_server.requests p ≡ o
      → IsWell self
      → Ensures IsWell
          (close_request self.services.pool_server p o >>= λ s. ok (with_server self s))
  unfolding close_request
  close-IsWell self p none e v =
      server-IsWell self self.services.pool_server v.server (omega arith) v
  close-IsWell self p (some r) e v =
      let server = self.services.pool_server in
      rw (close-dropped server p r v.server e) (
        server-IsWell self (dropped server p) (dropped-IsTidy server p v.server)
          (length-remove p server.getwork_queue) v)

  pub reply-IsWell :
      (self : Pool Node) (reply : Option Node)
      → IsWell self
      → IsWell (
          upstream_service_on_has_work x clock
            (with_upstream self (rpc_on_getwork self.services.upstream_service reply).0)
            (rpc_on_getwork self.services.upstream_service reply).1)
  unfolding upstream_service_on_has_work rpc_on_getwork
  reply-IsWell self none v = record {
    server = v.server;
    validator = v.validator;
    scheduled = λ can. v.scheduled (
        can_serve_less self.services
          (with_upstream self (record (self.services.upstream_service) {
            calls = self.services.upstream_service.calls - 1;
          })).services
          (omega arith) (omega arith) can);
    checked = v.checked;
    submitted = v.submitted;
  }
  reply-IsWell self (some work) v = record {
    server = v.server;
    validator = v.validator;
    scheduled = λ can. omega arith;
    checked = v.checked;
    submitted = v.submitted;
  }

  pub monitor-IsWell :
      (self : Pool Node) (monitor : BlockMonitor) → IsWell self → IsWell (with_monitor self monitor)
  monitor-IsWell self monitor v = record {
    server = v.server;
    validator = v.validator;
    scheduled = v.scheduled;
    checked = v.checked;
    submitted = v.submitted;
  }

  pub blocks-IsWell :
      (self : Pool Node) (blocks : List ℕ)
      → IsWell self
      → Ensures IsWell (notify_blocks x clock self blocks)
  unfolding notify_blocks
  blocks-IsWell self [] v = v
  blocks-IsWell self (block ∷ blocks) v =
      Ensures-bind IsWell IsWell (block_monitor_on_block_change x clock self block) _
        (block_monitor_on_block_change-IsWell x clock self block v)
        (λ s w. blocks-IsWell s blocks w)

  pub hash-IsWell :
      (self : Pool Node) (reply : HashReply)
      → IsWell self
      → Ensures IsWell (end_hash_call x clock self reply)
  unfolding end_hash_call
  hash-IsWell self reply v =
      Ensures-bind (λ z. IsSound z.0) IsWell (on_block_hash self.services.work_validator reply) _
        (on_block_hash-IsSound self.services.work_validator reply v.validator)
        λ z sound. record {
          server = v.server;
          validator = sound;
          scheduled = v.scheduled;
          checked = v.checked;
          submitted = v.submitted;
        }

  pub validation-IsWell :
      (self : Pool Node) (data_bin : Str) (o : Option (WorkResult Node × Dispatch))
      → ((a : WorkResult Node × Dispatch) → o ≡ some a → HasTwo a)
      → IsWell self
      → Ensures IsWell (end_validation x clock data_bin self o)
  unfolding end_validation
  validation-IsWell self data_bin none two v = v
  validation-IsWell self data_bin (some (r, dispatch)) two v =
      Ensures-any IsWell (validation_error x data_bin self.services.work_validator (r, dispatch)) _
        (λ error. work_validator_on_validate-IsWell x clock self r error (two _ refl) v)

  pub submission-IsWell :
      (self : Pool Node) (reply : Option Bool) (o : Option (WorkResult Node))
      → IsWell self
      → Ensures IsWell (end_submission x clock reply self o)
  unfolding end_submission
  submission-IsWell self reply none v = v
  submission-IsWell self reply (some r) v = on_submit_work-IsWell x clock self r reply v
