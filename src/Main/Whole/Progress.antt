-- ===== src/Main/Whole/Progress.antt =====
-- Events of the main loop that cannot fault.
use pool_dance.Prelude.{
  ℕ, ◌≡◌, refl, ap, subst, Bool, true, false, not, ◌||◌, Option, none, some, List, [], ◌∷◌, Str,
  codes, strcmp0_eq, ltb, ◌==◌, if_cases, arith, Outcome, ok, ◌>>=◌, Ensures, All, length,
  remove_at, get_elem?,
}
use pool_dance.Extern.{Extern}
use pool_dance.WorkResult.{WorkResult}
use pool_dance.Upstream.{
  queue_length, pop_head, UpstreamService, upstream_service_has_work, upstream_service_get_work,
}
use pool_dance.PoolServer.{
  PoolServer, Signal, work_request_unref, enqueue, work_request_new, rpc_on_method_call,
  pool_server_need_work,
}
use pool_dance.PoolServer.Tidy.{IsTidy}
use pool_dance.PoolServer.Drops.{take-dropped, pool_server_get_work_request-head}
use pool_dance.PoolServer.Runs.{close-Steps}
use pool_dance.Validator.State.{WorkValidator, non_null}
use pool_dance.Main.{System, serve_work, serve_taken, track_if_sent}
use pool_dance.Main.Callbacks.{Pool, Clock, pool_server_on_getwork, on_submit_work, run_source}
use pool_dance.Main.Loop.{
  Event, method_call, request_headers, request_closes, lp_closes, getwork_reply, hash_reply,
  count_reply, timer, source, validation, submission, on_signal, end_submission, with_server, step,
  run,
}
use pool_dance.Main.Whole.{IsWell}
use pool_dance.Main.Whole.Runs.{step-IsWell}

-- There is a value.
abbrev Succeeds {ℓ} : {V : Type ℓ} → Outcome V → Type ℓ
Succeeds {V = V} m = (v : V) × (m ≡ ok v)

bind-Succeeds {ℓ κ} :
    {V : Type ℓ} {W : Type κ} (first : Outcome V) (next : V → Outcome W)
    → Succeeds first
    → ((v : V) → Succeeds (next v))
    → Succeeds (first >>= next)
bind-Succeeds first next (v, is) k = rw is (k v)

-- Whether an event asks nothing of the validator, and is not a block that was found.
unfoldable pub is_calm : {Node : Type 0} → Event Node → Bool
is_calm (method_call method_name params params_length invocation_id conn garbage) =
    not (strcmp0_eq method_name (some (codes "getwork"))) || params_length == 0
is_calm (request_headers path conn) = true
is_calm (request_closes p) = true
is_calm (lp_closes conn) = true
is_calm (getwork_reply reply) = true
is_calm (hash_reply reply) = false
is_calm (count_reply reply) = false
is_calm (timer id) = true
is_calm (source sent) = not sent
is_calm (validation index data_bin) = false
is_calm (submission index none) = true
is_calm (submission index (some accepted)) = not accepted

abbrev pub IsCalm : {Node : Type 0} → Event Node → Type 0
IsCalm e = is_calm e ≡ true

module _ {Node : Type 0} (x : Extern Node) (clock : Clock) where
  asked-Succeeds :
      (self : Pool Node) (server : PoolServer) (invocation_id conn : ℕ)
      → Succeeds (
          pool_server_on_getwork x clock
            (with_server self (enqueue x server invocation_id conn false).0)
            (enqueue x server invocation_id conn false).1)
  unfolding pool_server_on_getwork enqueue work_request_new
  asked-Succeeds self server invocation_id conn =
      let t = (enqueue x server invocation_id conn false).0 in
      bind-Succeeds (non_null (t.requests server.next)) _ found (λ _. (_, refl))
    where
      found :
          Succeeds (non_null ((enqueue x server invocation_id conn false).0.requests server.next))
      found = let same : (server.next == server.next) ≡ true = ground arith in rw same (_, refl)

  call-Succeeds :
      (self : Pool Node) (method_name : Option Str) (params : Node)
      (params_length invocation_id conn : ℕ) (garbage : Bool)
      → IsCalm {Node = Node}
          (method_call method_name params params_length invocation_id conn garbage)
      → Succeeds (
          step x clock self
            (method_call method_name params params_length invocation_id conn garbage))
  unfolding step rpc_on_method_call on_signal is_calm
  call-Succeeds self method_name params params_length invocation_id conn garbage calm =
      let server = self.services.pool_server in
      let P : PoolServer × Signal Node → Type 0 =
        λ z. Succeeds (on_signal x clock (with_server self z.0) z.1) in
      if_cases P (not (strcmp0_eq method_name (some (codes "getwork")))) _ _
        (λ _. (with_server self server, refl))
        (λ getwork.
          if_cases P (params_length == 0) _ _ (λ _. asked-Succeeds self server invocation_id conn)
            (λ submits. absurd (ground arith)))

  close-Succeeds :
      (self : Pool Node) (p : ℕ) → IsWell self → Succeeds (step x clock self (request_closes p))
  unfolding step
  close-Succeeds self p v =
      let server = self.services.pool_server in
      let (s, closed, tidy) = close-Steps x server p (server.requests p) refl v.server in
      (with_server self s, rw closed refl)

  work_waits :
      (up : UpstreamService Node) (queue : Option (List Node))
      → up.work_queue ≡ queue
      → upstream_service_has_work up ≡ true
      → (work : Node) × ((upstream_service_get_work up).0 ≡ some work)
  unfolding upstream_service_has_work upstream_service_get_work queue_length pop_head
  work_waits up none e has = absurd (ground (arith, ap queue_length e))
  work_waits up (some []) e has = absurd (ground (arith, ap queue_length e))
  work_waits up (some (work ∷ rest)) e has = (work, rw e refl)

  taken-Succeeds :
      (validator : WorkValidator) (server : PoolServer) (p : ℕ) (q : List ℕ) (w : Node)
      (work : Option Node × UpstreamService Node)
      → work.0 ≡ some w
      → server.getwork_queue ≡ p ∷ q
      → IsTidy server
      → Succeeds (serve_taken x false validator (some p, record server { getwork_queue = q }) work)
  unfolding serve_taken track_if_sent
  taken-Succeeds validator server p q w (none, up) is e tidy = absurd (cc is)
  taken-Succeeds validator server p q w (some work, up) is e tidy =
      let (r, alive, one) = tidy.alive p (ground arith) in
      bind-Succeeds (non_null (server.requests p)) _ (r, ap non_null alive)
        (λ _.
          bind-Succeeds (work_request_unref (record server { getwork_queue = q }) p) _
            (_, take-dropped server p q tidy e) (λ _. (_, refl)))

  serve_work-Succeeds :
      (self : System Node) (q : List ℕ)
      → self.pool_server.getwork_queue ≡ q
      → IsTidy self.pool_server
      → Succeeds (serve_work x false self)
  unfolding serve_work pool_server_need_work
  serve_work-Succeeds self [] e tidy =
      let idle : ltb 0 (length self.pool_server.getwork_queue) ≡ false = ground arith in
      rw idle (_, refl)
  serve_work-Succeeds self (p ∷ q) e tidy =
      if_cases {A = Outcome (System Node × Bool)} Succeeds
        (not (pool_server_need_work self.pool_server)
          || not (upstream_service_has_work self.upstream_service))
        _ _ (λ _. (_, refl))
        (λ busy.
          let up = self.upstream_service in
          let (w, is) = work_waits up up.work_queue refl (ground arith) in
          rw (pool_server_get_work_request-head self.pool_server p q e) (
            taken-Succeeds self.work_validator self.pool_server p q w (upstream_service_get_work up)
              is e tidy))

  source-Succeeds : (self : Pool Node) → IsWell self → Succeeds (step x clock self (source false))
  unfolding step run_source
  source-Succeeds self v =
      let services = self.services in
      let (z, served) =
        serve_work-Succeeds services services.pool_server.getwork_queue refl v.server in
      if_cases {A = Outcome (Pool Node)} Succeeds (ltb 0 self.sources) _ _
        (λ _. bind-Succeeds (serve_work x false services) _ (z, served) (λ _. (_, refl)))
        (λ _. (self, refl))

  submission-Succeeds :
      (self : Pool Node) (index : ℕ) (reply : Option Bool) (r : Option (WorkResult Node))
      → IsCalm {Node = Node} (submission index reply)
      → Succeeds (end_submission x clock reply self r)
  unfolding end_submission on_submit_work is_calm
  submission-Succeeds self index reply none c = (self, refl)
  submission-Succeeds self index none (some r) c = (self, refl)
  submission-Succeeds self index (some false) (some r) c = (self, refl)
  submission-Succeeds self index (some true) (some r) c = absurd (cc c)

  step-Succeeds :
      (self : Pool Node) (e : Event Node) → IsCalm e → IsWell self → Succeeds (step x clock self e)
  unfolding step is_calm
  step-Succeeds self (method_call method_name params params_length invocation_id conn garbage) c v =
      call-Succeeds self method_name params params_length invocation_id conn garbage c
  step-Succeeds self (request_headers path conn) c v = (_, refl)
  step-Succeeds self (request_closes p) c v = close-Succeeds self p v
  step-Succeeds self (lp_closes conn) c v = (_, refl)
  step-Succeeds self (getwork_reply reply) c v =
      if_cases {A = Outcome (Pool Node)} Succeeds (ltb 0 self.services.upstream_service.calls) _ _
        (λ _. (_, refl)) (λ _. (_, refl))
  step-Succeeds self (hash_reply reply) c v = absurd (cc c)
  step-Succeeds self (count_reply reply) c v = absurd (cc c)
  step-Succeeds self (timer id) c v = (_, refl)
  step-Succeeds self (source true) c v = absurd (cc c)
  step-Succeeds self (source false) c v = source-Succeeds self v
  step-Succeeds self (validation index data_bin) c v = absurd (cc c)
  step-Succeeds self (submission index reply) c v =
      submission-Succeeds (record self { submissions = remove_at index self.submissions }) index
        reply (get_elem? self.submissions index) c

  -- From a well-formed pool, calls for work, requests and connections that close, answers with
  -- work, timers, work items that cannot be sent and shares that the daemon does not accept run, in
  -- any order, without a fault, and leave the pool well formed.
  pub run-Succeeds :
      (self : Pool Node) (es : List (Event Node))
      → All IsCalm es
      → IsWell self
      → (s : Pool Node) × (run x clock self es ≡ ok s) × IsWell s
  unfolding run
  run-Succeeds self [] c v = (self, refl, v)
  run-Succeeds self (e ∷ es) c v =
      let (s, stepped) = step-Succeeds self e (c.0) v in
      let w = subst (Ensures IsWell) stepped (step-IsWell x clock self e v) in
      let (t, ran, u) = run-Succeeds s es (c.1) w in (t, rw stepped ran, u)
