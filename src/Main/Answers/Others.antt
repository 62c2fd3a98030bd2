-- ===== src/Main/Answers/Others.antt =====
-- The other events bring no share: the check of one is answered, and everything else leaves them.
use pool_dance.Prelude.{
  ℕ, ◌≡◌, ap, Bool, true, false, Option, none, some, List, [], ◌∷◌, Str, arith, ok, ◌>>=◌, Ensures,
  Ensures-any, Ensures-bind, get_elem?, remove_at, if◌then◌else◌, ◌++◌,
}
use pool_dance.Prelude.Bags.{count}
use pool_dance.Extern.{Extern}
use pool_dance.WorkResult.{WorkResult, work_result_ref, work_result_unref}
use pool_dance.Upstream.{UpstreamService}
use pool_dance.PoolServer.{WorkRequest, pool_server_respond_putwork, respond_boolean}
use pool_dance.PoolServer.Machine.{close_request}
use pool_dance.Validator.Prevalidate.{Dispatch}
use pool_dance.Validator.Blocks.{HashReply, on_block_hash, work_validator_notify_new_block}
use pool_dance.EventDispatcher.{
  event_dispatcher_notify_work_validated, event_dispatcher_notify_block_found,
}
use pool_dance.Main.{serve_work}
use pool_dance.Main.Callbacks.{
  Pool, Clock, is_accepted, result_code, result_reason, validation_error,
  work_validator_on_validate, on_submit_work, upstream_service_on_has_work,
  block_monitor_on_block_change, run_source, released, kept_result,
}
use pool_dance.Main.Loop.{
  with_server, with_upstream, notify_blocks, end_validation, end_submission, end_hash_call,
}
use pool_dance.Main.Answers.{pending}
use pool_dance.Main.Answers.Received.{
  Receives, none_new, answered-append, pending-remove_at, remove_at-beyond,
}

module _ {Node : Type 0} (x : Extern Node) (clock : Clock) where
  pub close-Receives :
      (self : Pool Node) (p : ℕ) (o : Option WorkRequest)
      → Ensures
          (Receives self [])
          (close_request self.services.pool_server p o >>= λ s. ok (with_server self s))
  close-Receives self p o =
      Ensures-any (Receives self []) (close_request self.services.pool_server p o)
        (λ s. ok (with_server self s)) (λ s id. omega arith)

  pub reply-Receives :
      (self : Pool Node) (service : UpstreamService Node) (work : Option Node)
      → Receives self [] (upstream_service_on_has_work x clock (with_upstream self service) work)
  unfolding upstream_service_on_has_work
  reply-Receives self service none id = omega arith
  reply-Receives self service (some work) id = omega arith

  pub hash-Receives :
      (self : Pool Node) (reply : HashReply)
      → Ensures (Receives self []) (end_hash_call x clock self reply)
  unfolding end_hash_call
  hash-Receives self reply =
      Ensures-any (Receives self []) (on_block_hash self.services.work_validator reply) _
        (λ z id. omega arith)

  block-Receives :
      (self : Pool Node) (block : ℕ)
      → Ensures (Receives self []) (block_monitor_on_block_change x clock self block)
  unfolding block_monitor_on_block_change
  block-Receives self block =
      Ensures-any (Receives self [])
        (work_validator_notify_new_block self.services.work_validator block) _ (λ z id. omega arith)

  pub blocks-Receives :
      (first self : Pool Node) (blocks : List ℕ)
      → Receives first [] self
      → Ensures (Receives first []) (notify_blocks x clock self blocks)
  unfolding notify_blocks
  blocks-Receives first self [] r = r
  blocks-Receives first self (block ∷ blocks) r =
      Ensures-bind (Receives self []) (Receives first [])
        (block_monitor_on_block_change x clock self block) _ (block-Receives self block)
        (λ s q. blocks-Receives first s blocks (λ id. omega (arith, q id, r id)))

  pub source-Receives :
      (sent : Bool) (self : Pool Node) → Ensures (Receives self []) (run_source x clock sent self)
  unfolding run_source
  source-Receives sent self =
      Ensures-any (Receives self []) (serve_work x sent self.services) _ (λ z id. omega arith)

  pub submission-Receives :
      (self : Pool Node) (reply : Option Bool) (o : Option (WorkResult Node))
      → Ensures (Receives self []) (end_submission x clock reply self o)
  unfolding end_submission on_submit_work
  submission-Receives self reply none = none_new self
  submission-Receives self none (some r) = none_new self
  submission-Receives self (some false) (some r) = none_new self
  submission-Receives self (some true) (some r) =
      Ensures-any (Receives self [])
        (event_dispatcher_notify_block_found x self.event_dispatcher clock.now clock.date
          self.current_block r)
        _ (λ dispatcher id. omega arith)

  -- The share at an index is answered, and no longer pending.
  pub validation-Receives :
      (self : Pool Node) (index : ℕ) (data_bin : Str) (o : Option (WorkResult Node × Dispatch))
      → get_elem? self.validations index ≡ o
      → Ensures (Receives self []) (
          end_validation x clock data_bin
            (record self { validations = remove_at index self.validations })
            o)
  unfolding end_validation work_validator_on_validate pool_server_respond_putwork
  validation-Receives self index data_bin none e = λ id.
      omega (arith, ap (λ vs. count id (pending vs)) (remove_at-beyond index self.validations e))
  validation-Receives self index data_bin (some (r, dispatch)) e =
      Ensures-any (Receives self [])
        (validation_error x data_bin self.services.work_validator (r, dispatch)) _
        λ error.
          Ensures-any (Receives self [])
            (event_dispatcher_notify_work_validated x self.event_dispatcher clock.now clock.date r
              (result_code error) (result_reason error))
            _
            λ dispatcher.
              Ensures-any (Receives self [])
                (released (work_result_unref (if is_accepted error then work_result_ref r else r)))
                (λ twice. ok (record self {
                  validations = remove_at index self.validations;
                  event_dispatcher = dispatcher;
                  responses =
                      self.responses ++ respond_boolean r.invocation_id (is_accepted error) ∷ [];
                  submissions = self.submissions ++ kept_result twice;
                }))
                λ twice id. omega (
                  arith,
                  pending-remove_at id index self.validations (r, dispatch) e,
                  answered-append id r.invocation_id (is_accepted error) self.responses,
                )
