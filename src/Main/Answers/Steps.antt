-- ===== src/Main/Answers/Steps.antt =====
-- No share is lost, and none is answered twice.
use pool_dance.Prelude.{
  ℕ, ◌≡◌, refl, subst, List, [], ◌∷◌, ◌++◌, ltb, if_cases, arith, Outcome, ok, fault, Ensures,
  Ensures-bind, get_elem?, remove_at, append_assoc,
}
use pool_dance.Prelude.Bags.{bag, bag-eq, count-append}
use pool_dance.Extern.{Extern}
use pool_dance.Upstream.{rpc_on_getwork}
use pool_dance.BlockMonitor.{on_block_count}
use pool_dance.Main.Callbacks.{Pool, Clock, upstream_service_on_has_work}
use pool_dance.Main.Loop.{
  Event, method_call, request_headers, request_closes, lp_closes, getwork_reply, hash_reply,
  count_reply, timer, source, validation, submission, with_upstream, with_monitor, notify_blocks,
  step, run,
}
use pool_dance.Main.Answers.{received, share_of, shares_of, count-received}
use pool_dance.Main.Answers.Received.{Receives, none_new, call-Receives}
use pool_dance.Main.Answers.Others.{
  close-Receives, reply-Receives, hash-Receives, blocks-Receives, source-Receives,
  submission-Receives, validation-Receives,
}

module _ {Node : Type 0} (x : Extern Node) (clock : Clock) where
  step-Receives :
      (self : Pool Node) (e : Event Node)
      → Ensures (Receives self (share_of e)) (step x clock self e)
  unfolding step share_of
  step-Receives self (method_call method_name params params_length invocation_id conn garbage) =
      call-Receives x clock self method_name params params_length invocation_id conn garbage
  step-Receives self (request_headers path conn) = none_new self
  step-Receives self (request_closes p) =
      close-Receives x clock self p (self.services.pool_server.requests p)
  step-Receives self (lp_closes conn) = none_new self
  step-Receives self (getwork_reply reply) =
      let (service, work) = rpc_on_getwork self.services.upstream_service reply in
      if_cases {A = Outcome (Pool Node)} (Ensures (Receives self []))
        (ltb 0 self.services.upstream_service.calls)
        (ok (upstream_service_on_has_work x clock (with_upstream self service) work)) (ok self)
        (λ _. reply-Receives x clock self service work) (λ _. none_new self)
  step-Receives self (hash_reply reply) =
      if_cases {A = Outcome (Pool Node)} (Ensures (Receives self [])) (ltb 0 self.hash_calls) _ _
        (λ _. hash-Receives x clock self reply) (λ _. none_new self)
  step-Receives self (count_reply reply) =
      let (monitor, blocks) = on_block_count self.block_monitor reply in
      if_cases {A = Outcome (Pool Node)} (Ensures (Receives self []))
        (ltb 0 self.block_monitor.calls) (notify_blocks x clock (with_monitor self monitor) blocks)
        (ok self)
        (λ _. blocks-Receives x clock self (with_monitor self monitor) blocks (none_new self))
        (λ _. none_new self)
  step-Receives self (timer id) = none_new self
  step-Receives self (source sent) =
      if_cases {A = Outcome (Pool Node)} (Ensures (Receives self [])) (ltb 0 self.sources) _ _
        (λ _. source-Receives x clock sent self) (λ _. none_new self)
  step-Receives self (validation index data_bin) =
      validation-Receives x clock self index data_bin (get_elem? self.validations index) refl
  step-Receives self (submission index reply) =
      submission-Receives x clock (record self { submissions = remove_at index self.submissions })
        reply (get_elem? self.submissions index)

  run-Receives :
      (first self : Pool Node) (before : List ℕ) (es : List (Event Node))
      → Receives first before self
      → Ensures (Receives first (before ++ shares_of es)) (run x clock self es)
  unfolding run shares_of
  run-Receives first self before [] r = λ id. omega (arith, r id, count-append id before [])
  run-Receives first self before (e ∷ es) r =
      Ensures-bind (Receives self (share_of e))
        (Receives first (before ++ (share_of e ++ shares_of es))) (step x clock self e) _
        (step-Receives self e)
        λ s q.
          subst (λ shares. Ensures (Receives first shares) (run x clock s es))
            (append_assoc before (share_of e) (shares_of es))
            (run-Receives first s (before ++ share_of e) es
              (λ id. omega (arith, q id, r id, count-append id before (share_of e))))

  -- After any run that does not fault, the shares that are answered or under validation are those
  -- that were before and those that the events brought, each as often, in whatever order.
  pub run-answers :
      (self : Pool Node) (es : List (Event Node))
      → Ensures (λ s. bag (received s) ≡ bag (received self ++ shares_of es)) (run x clock self es)
  run-answers self es = to_bags (run x clock self es) (run-Receives self self [] es (none_new self))
    where
      to_bags :
          (o : Outcome (Pool Node))
          → Ensures (Receives self (shares_of es)) o
          → Ensures (λ s. bag (received s) ≡ bag (received self ++ shares_of es)) o
      to_bags (fault why) r = tt
      to_bags (ok s) r = bag-eq _ _ λ id. omega (
        arith,
        r id,
        count-received id s,
        count-received id self,
        count-append id (received self) (shares_of es),
      )
