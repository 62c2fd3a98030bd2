-- ===== src/Main/Whole/Answered.antt =====
-- work_validator_on_validate of main.c, for a share that is accepted and for one that is not.
use pool_dance.Prelude.{
  ◌≡◌, ap, ◌∙◌, true, false, Option, none, some, [], ◌∷◌, ◌++◌, codes, arith, Outcome, ok, ◌>>=◌,
  append-nil, bind_next,
}
use pool_dance.Extern.{Extern}
use pool_dance.WorkResult.{WorkResult}
use pool_dance.PoolServer.{respond_boolean, pool_server_respond_putwork}
use pool_dance.Validator.State.{GError, ErrorCode}
use pool_dance.EventDispatcher.{EventDispatcher, event_dispatcher_notify_work_validated}
use pool_dance.Main.Callbacks.{Pool, Clock, work_validator_on_validate}
use pool_dance.Main.Whole.Handlers.{work_validator_on_validate-answers}

module _ {Node : Type 0} (self : Pool Node) (r : WorkResult Node) where
  -- An accepted share is answered with TRUE and submitted with one reference; any other is answered
  -- with FALSE and freed.
  abbrev pub with_answer : Option GError → EventDispatcher → Pool Node
  with_answer none dispatcher = record self {
    event_dispatcher = dispatcher;
    responses = self.responses ++ respond_boolean r.invocation_id true ∷ [];
    submissions = self.submissions ++ record r { ref_count = 1 } ∷ [];
  }
  with_answer (some e) dispatcher = record self {
    event_dispatcher = dispatcher;
    responses = self.responses ++ respond_boolean r.invocation_id false ∷ [];
  }

module _ {Node : Type 0} (x : Extern Node) (clock : Clock) (self : Pool Node)
    (r : WorkResult Node) where
  -- What the dispatcher is told of a share.
  abbrev pub told : Option GError → Outcome EventDispatcher
  told none =
      event_dispatcher_notify_work_validated x self.event_dispatcher clock.now clock.date r
        ErrorCode.success none
  told (some e) =
      event_dispatcher_notify_work_validated x self.event_dispatcher clock.now clock.date r e.code
        (some (codes e.message))

  -- When the check of a share that holds two references is done, the dispatcher is told of its
  -- result. Then a share without an error is answered once, with TRUE, and is kept with a single
  -- reference for its submission to the daemon; a share with an error is answered once, with FALSE,
  -- and nothing of it is kept.
  pub work_validator_on_validate-with_answer :
      (error : Option GError)
      → r.ref_count ≡ 2
      → work_validator_on_validate x clock self r error
        ≡ (told error >>= λ dispatcher. ok (with_answer self r error dispatcher))
  unfolding pool_server_respond_putwork
  work_validator_on_validate-with_answer none two =
      work_validator_on_validate-answers x clock self r none two
      ∙ bind_next (told none) _ _ λ dispatcher.
        ap
          (λ count. ok (record self {
            event_dispatcher = dispatcher;
            responses = self.responses ++ respond_boolean r.invocation_id true ∷ [];
            submissions = self.submissions ++ record r { ref_count = count } ∷ [];
          }))
          (omega arith)
  work_validator_on_validate-with_answer (some e) two =
      work_validator_on_validate-answers x clock self r (some e) two
      ∙ bind_next (told (some e)) _ _ λ dispatcher.
        ap
          (λ submissions. ok (record self {
            event_dispatcher = dispatcher;
            responses = self.responses ++ respond_boolean r.invocation_id false ∷ [];
            submissions = submissions;
          }))
          (append-nil self.submissions)
