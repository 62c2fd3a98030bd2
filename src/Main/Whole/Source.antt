-- ===== src/Main/Whole/Source.antt =====
-- A source of the main loop that runs serve_work keeps the whole pool well formed.
use pool_dance.Prelude.{
  ℕ, ◌<◌, ◌≡◌, refl, Bool, true, false, not, ◌||◌, Option, none, some, List, [], ◌∷◌, if_cases,
  arith, Outcome, Ensures, Ensures-any, Ensures-bind,
}
use pool_dance.Extern.{Extern}
use pool_dance.Upstream.{UpstreamService, upstream_service_has_work, upstream_service_get_work}
use pool_dance.PoolServer.{PoolServer, WorkRequest, pool_server_need_work}
use pool_dance.PoolServer.Tidy.{IsTidy}
use pool_dance.PoolServer.Drops.{dropped-IsTidy, take-dropped, pool_server_get_work_request-head}
use pool_dance.Validator.State.{WorkValidator, non_null}
use pool_dance.Validator.Sound.{IsSound}
use pool_dance.Validator.Sound.Operations.{work_validator_track_work_sent-IsSound}
use pool_dance.Main.{System, serve_work, serve_taken, track_if_sent, with_easy_target, requester}
use pool_dance.Main.Callbacks.{Pool, Clock, run_source}
use pool_dance.Main.Whole.{IsWell, can_serve}

module _ {Node : Type 0} (x : Extern Node) (clock : Clock) where
  track_if_sent-IsSound :
      (sent : Bool) (validator : WorkValidator) (r : WorkRequest) (item : Node)
      → IsSound validator
      → Ensures IsSound (track_if_sent x sent validator r item)
  unfolding track_if_sent
  track_if_sent-IsSound false validator r item v = v
  track_if_sent-IsSound true validator r item v =
      work_validator_track_work_sent-IsSound x validator (requester x r) item 0 v

  empty : (server : PoolServer) → server.getwork_queue ≡ [] → pool_server_need_work server ≡ false
  unfolding pool_server_need_work
  empty server e = rw e refl

  -- What serve_work leaves, and that it says TRUE if it could serve again.
  record IsLeft (z : System Node × Bool) : Type 0 where
    server : IsTidy z.0.pool_server
    validator : IsSound z.0.work_validator
    again : can_serve z.0 ≡ true → z.1 ≡ true

  serve_taken-IsLeft :
      (sent : Bool) (validator : WorkValidator) (server : PoolServer) (p : ℕ) (q : List ℕ)
      (work : Option Node × UpstreamService Node)
      → server.getwork_queue ≡ p ∷ q
      → IsTidy server
      → IsSound validator
      → Ensures IsLeft
          (serve_taken x sent validator (some p, record server { getwork_queue = q }) work)
  unfolding serve_taken
  serve_taken-IsLeft sent validator server p q (none, up) e tidy sound = tt
  serve_taken-IsLeft sent validator server p q (some work, up) e tidy sound =
      Ensures-any IsLeft (non_null (server.requests p)) _ λ r.
        Ensures-bind IsSound IsLeft (track_if_sent x sent validator r (with_easy_target x work)) _
          (track_if_sent-IsSound sent validator r (with_easy_target x work) sound)
          λ s v.
            rw (take-dropped server p q tidy e)
              (record { server = dropped-IsTidy server p tidy; validator = v; again = λ can. can })

  serve_work-IsLeft :
      (sent : Bool) (self : System Node) (q : List ℕ)
      → self.pool_server.getwork_queue ≡ q
      → IsTidy self.pool_server
      → IsSound self.work_validator
      → Ensures IsLeft (serve_work x sent self)
  unfolding serve_work
  serve_work-IsLeft sent self [] e tidy sound =
      let none_waits : pool_server_need_work self.pool_server ≡ false = empty self.pool_server e in
      rw none_waits
        (record { server = tidy; validator = sound; again = λ can. absurd (ground arith) })
  serve_work-IsLeft sent self (p ∷ q) e tidy sound =
      if_cases {A = Outcome (System Node × Bool)} (Ensures IsLeft)
        (not (pool_server_need_work self.pool_server)
          || not (upstream_service_has_work self.upstream_service))
        _ _
        (λ idle. record { server = tidy; validator = sound; again = λ can. absurd (ground arith) })
        (λ _. rw (pool_server_get_work_request-head self.pool_server p q e) (
          serve_taken-IsLeft sent self.work_validator self.pool_server p q
            (upstream_service_get_work self.upstream_service) e tidy sound))

  pub run_source-IsWell :
      (sent : Bool) (self : Pool Node)
      → 0 < self.sources
      → IsWell self
      → Ensures IsWell (run_source x clock sent self)
  unfolding run_source
  run_source-IsWell sent self due v =
      Ensures-bind IsLeft IsWell (serve_work x sent self.services) _
        (serve_work-IsLeft sent self.services self.services.pool_server.getwork_queue refl v.server
          v.validator)
        λ z left. record {
          server = left.server;
          validator = left.validator;
          scheduled = λ can. rw (left.again can) due;
          checked = v.checked;
          submitted = v.submitted;
        }
