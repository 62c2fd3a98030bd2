-- ===== src/Main/Whole/Handlers.antt =====
-- Each callback of main.c keeps the whole pool well formed.
use pool_dance.Prelude.{
  ℕ, ◌+◌, ◌≡◌, sym, ap, subst, ◌∙◌, Bool, true, false, Option, none, some, [], ◌∷◌, ◌++◌, ltb,
  if◌then◌else◌, if_cases, arith, ok, ◌>>=◌, Ensures, Ensures-any, Ensures-bind, All, append-nil,
  Ensures-both, bind_next, bind_assoc,
}
use pool_dance.Extern.{Extern}
use pool_dance.WorkResult.{WorkResult, work_result_ref}
use pool_dance.Upstream.{UpstreamService, queue_length, upstream_service_notify_new_block}
use pool_dance.Upstream.Fill.{fill_work_queue-queue}
use pool_dance.PoolServer.{pool_server_notify_new_block, pool_server_respond_putwork}
use pool_dance.PoolServer.Tidy.{IsTidy}
use pool_dance.PoolServer.Steps.{pool_server_notify_new_block-IsTidy}
use pool_dance.Validator.State.{WorkValidator, GError, non_null}
use pool_dance.Validator.Prevalidate.{work_validator_validate, prevalidate_work_result}
use pool_dance.Validator.Blocks.{work_validator_notify_new_block}
use pool_dance.Validator.Sound.{IsSound}
use pool_dance.Validator.Sound.Operations.{
  prevalidate_work_result-IsSound, work_validator_notify_new_block-IsSound,
}
use pool_dance.EventDispatcher.{
  event_dispatcher_notify_work_validated, event_dispatcher_notify_block_found,
}
use pool_dance.Main.Callbacks.{
  Pool, Clock, released, is_accepted, result_code, result_reason, kept_result,
  pool_server_on_getwork, pool_server_on_putwork, work_validator_on_validate, on_submit_work,
  block_monitor_on_block_change,
}
use pool_dance.Main.Shares.{
  IsSameShare, work_validator_validate-IsSameShare, left_of, released-twice,
}
use pool_dance.Main.Whole.{IsWell, HasTwo, HasOne, All-append, cannot_serve}

module _ {Node : Type 0} (x : Extern Node) (clock : Clock) where
  pub pool_server_on_getwork-IsWell :
      (self : Pool Node) (p : ℕ)
      → IsTidy self.services.pool_server
      → IsSound self.services.work_validator
      → All HasTwo self.validations
      → All HasOne self.submissions
      → Ensures IsWell (pool_server_on_getwork x clock self p)
  unfolding pool_server_on_getwork
  pool_server_on_getwork-IsWell self p tidy sound two one =
      Ensures-any IsWell (non_null (self.services.pool_server.requests p)) _ λ _. record {
        server = tidy;
        validator = sound;
        scheduled = λ h. omega arith;
        checked = two;
        submitted = one;
      }

  work_validator_validate-IsSound :
      (self : WorkValidator) (r : WorkResult Node)
      → IsSound self
      → Ensures (λ z. IsSound z.0) (work_validator_validate x self r)
  unfolding work_validator_validate
  work_validator_validate-IsSound self r v =
      Ensures-bind (λ z. IsSound z.0) (λ z. IsSound z.0)
        (prevalidate_work_result x self (work_result_ref r)) _
        (prevalidate_work_result-IsSound x self (work_result_ref r) v) (λ z h. h)

  work_result_ref-two : (r : WorkResult Node) → r.ref_count ≡ 1 → (work_result_ref r).ref_count ≡ 2
  unfolding work_result_ref
  work_result_ref-two r e =
      if_cases {A = WorkResult Node} (λ s. s.ref_count ≡ 2) (ltb 0 r.ref_count)
        (record r { ref_count = r.ref_count + 1 }) r (λ _. omega arith) (λ h. absurd (ground arith))

  pub pool_server_on_putwork-IsWell :
      (self : Pool Node) (r : WorkResult Node)
      → r.ref_count ≡ 1
      → IsWell self
      → Ensures IsWell (pool_server_on_putwork x clock self r)
  unfolding pool_server_on_putwork
  pool_server_on_putwork-IsWell self r fresh v =
      Ensures-bind (λ z. IsSound z.0 × IsSameShare x (work_result_ref r) z.1) IsWell
        (work_validator_validate x self.services.work_validator r) _
        (Ensures-both (λ z. IsSound z.0) (λ z. IsSameShare x (work_result_ref r) z.1)
          (work_validator_validate x self.services.work_validator r)
          (work_validator_validate-IsSound self.services.work_validator r v.validator)
          (work_validator_validate-IsSameShare x self.services.work_validator r))
        λ z h. record {
          server = v.server;
          validator = h.0;
          scheduled = v.scheduled;
          checked =
              All-append HasTwo self.validations (z.1, z.2) v.checked
                (h.1.ref_count ∙ work_result_ref-two r fresh);
          submitted = v.submitted;
        }

  -- A share that holds two references is answered once, with whether it has no error, and then is
  -- submitted with a single reference if it has none, and freed if it has one.
  pub work_validator_on_validate-answers :
      (self : Pool Node) (r : WorkResult Node) (error : Option GError)
      → r.ref_count ≡ 2
      → work_validator_on_validate x clock self r error ≡ (
          event_dispatcher_notify_work_validated x self.event_dispatcher clock.now clock.date r
            (result_code error)
            (result_reason error)
          >>= λ dispatcher. ok (record self {
            event_dispatcher = dispatcher;
            responses = self.responses ++ pool_server_respond_putwork x r (is_accepted error) ∷ [];
            submissions = self.submissions ++ kept_result (left_of error r);
          }))
  unfolding work_validator_on_validate
  work_validator_on_validate-answers self r error two =
      bind_next
        (event_dispatcher_notify_work_validated x self.event_dispatcher clock.now clock.date r
          (result_code error) (result_reason error))
        _ _
        λ dispatcher.
          bind_assoc (released (some (if is_accepted error then work_result_ref r else r))) released
            _
          ∙ ap
              (λ o. o >>= λ twice. ok (record self {
                event_dispatcher = dispatcher;
                responses =
                    self.responses ++ pool_server_respond_putwork x r (is_accepted error) ∷ [];
                submissions = self.submissions ++ kept_result twice;
              }))
              (released-twice error r two)

  pub work_validator_on_validate-IsWell :
      (self : Pool Node) (r : WorkResult Node) (error : Option GError)
      → r.ref_count ≡ 2
      → IsWell self
      → Ensures IsWell (work_validator_on_validate x clock self r error)
  work_validator_on_validate-IsWell self r error two v =
      rw (work_validator_on_validate-answers self r error two) (
        Ensures-any IsWell
          (event_dispatcher_notify_work_validated x self.event_dispatcher clock.now clock.date r
            (result_code error) (result_reason error))
          _
          λ dispatcher. record {
            server = v.server;
            validator = v.validator;
            scheduled = v.scheduled;
            checked = v.checked;
            submitted = kept error;
          })
    where
      kept :
          (error : Option GError) → All HasOne (self.submissions ++ kept_result (left_of error r))
      kept none = All-append HasOne self.submissions _ v.submitted (omega arith)
      kept (some e) = subst (All HasOne) (sym (append-nil self.submissions)) v.submitted

  -- The daemon has answered a share: nothing else is left of it.
  pub on_submit_work-IsWell :
      (self : Pool Node) (r : WorkResult Node) (reply : Option Bool)
      → IsWell self
      → Ensures IsWell (on_submit_work x clock self r reply)
  unfolding on_submit_work
  on_submit_work-IsWell self r none v = v
  on_submit_work-IsWell self r (some false) v = v
  on_submit_work-IsWell self r (some true) v =
      Ensures-any IsWell
        (event_dispatcher_notify_block_found x self.event_dispatcher clock.now clock.date
          self.current_block r)
        _
        λ dispatcher.
          let s : Pool Node = record self { event_dispatcher = dispatcher } in
          Ensures-any IsWell (released (some r)) (λ gone. ok s)
            λ _. record {
              server = v.server;
              validator = v.validator;
              scheduled = v.scheduled;
              checked = v.checked;
              submitted = v.submitted;
            }

  empty_cache :
      (u : UpstreamService Node) → queue_length (upstream_service_notify_new_block u).work_queue ≡ 0
  unfolding upstream_service_notify_new_block queue_length
  empty_cache u =
      ap queue_length (fill_work_queue-queue (record u { work_queue = some []; work_requests = 0 }))

  pub block_monitor_on_block_change-IsWell :
      (self : Pool Node) (block : ℕ)
      → IsWell self
      → Ensures IsWell (block_monitor_on_block_change x clock self block)
  unfolding block_monitor_on_block_change
  block_monitor_on_block_change-IsWell self block v =
      Ensures-bind (λ z. IsSound z.0) IsWell
        (work_validator_notify_new_block self.services.work_validator block) _
        (work_validator_notify_new_block-IsSound self.services.work_validator block v.validator)
        λ z h. record {
          server = pool_server_notify_new_block-IsTidy x self.services.pool_server block v.server;
          validator = h;
          scheduled = λ can. absurd (
              cc (
                can,
                cannot_serve
                    (record {
                      upstream_service =
                          upstream_service_notify_new_block self.services.upstream_service;
                      pool_server = pool_server_notify_new_block x self.services.pool_server block;
                      work_validator = z.0;
                    })
                    (empty_cache self.services.upstream_service),
              ));
          checked = v.checked;
          submitted = v.submitted;
        }
