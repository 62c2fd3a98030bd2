-- ===== src/Main/Shutdown/Exits.antt =====
-- How main of main.c ends.
use pool_dance.Prelude.{
  ◌≡◌, refl, ◌∙◌, some, List, Outcome, ok, fault, ◌>>=◌, Ensures, Ensures-bind,
}
use pool_dance.Prelude.Memory.{Memory}
use pool_dance.Extern.{Extern}
use pool_dance.Main.Callbacks.{Pool, Clock}
use pool_dance.Main.Loop.{Event, run}
use pool_dance.Main.Whole.{IsWell}
use pool_dance.Main.Whole.Runs.{run-IsWell}
use pool_dance.Main.Startup.{
  World, StartError, ExitCode, minus_one, Process, Stage, goes_on, out, nothing, start,
}
use pool_dance.Main.Startup.Errors.{error_of, first_error, start-first_error}
use pool_dance.Main.Shutdown.{
  clean_up, after_loop, drop_privileges, loop_of, main_loop, finish, main_from, main,
}
use pool_dance.Main.Shutdown.Held.{IsHeld, clean_up-nothing, clean_up-frees}
use pool_dance.Main.Shutdown.Started.{Starts, IsFull, pool_of-IsWell, start-Starts}

module _ {Node : Type 0} (x : Extern Node) (clock : Clock) (world : World Node) where
  out_at :
      (e : StartError) (stage : Stage Node)
      → Starts stage
      → error_of stage ≡ some e
      → main_from x clock world stage ≡ ok (nothing, minus_one)
  unfolding main_from finish
  out_at e (goes_on self) v failed = absurd (cc failed)
  out_at e (out why self) v failed = rw (clean_up-nothing self v) refl

  -- When one of the conditions of the start does not hold, main frees all that it has created so
  -- far, each once and without a fault, and returns -1.
  pub main-failed :
      (memory : Memory) (e : StartError)
      → first_error world ≡ some e
      → main x clock world memory ≡ ok (nothing, minus_one)
  unfolding main
  main-failed memory e failed =
      out_at e (start world memory clock.now) (start-Starts world memory clock.now)
        (start-first_error world memory clock.now ∙ failed)

  abbrev Frees : Process Node × ExitCode → Type 0
  Frees z = z.0 ≡ nothing

  -- The references and the requests are as they should be, whatever the validator's hashes are.
  ended-Frees :
      (self : Process Node) (pool : Pool Node) (code : ExitCode)
      → self.rpc_refs ≡ 3
      → IsWell pool
      → Ensures Frees (finish x clock world (after_loop self pool, code))
  unfolding finish after_loop
  ended-Frees self pool code refs v =
      Ensures-bind (λ s. s ≡ nothing) Frees (clean_up (after_loop self pool)) _
        (clean_up-frees (after_loop self pool) refs v.server) (λ s e. e)

  full_refs : (self : Process Node) → IsHeld self → IsFull self → self.rpc_refs ≡ 3
  full_refs self v f = v.refs ∙ rw (f.is_service, f.is_monitor, f.is_validator) refl

  stage-Frees : (stage : Stage Node) → Starts stage → Ensures Frees (main_from x clock world stage)
  unfolding main_from main_loop finish
  stage-Frees (out e self) v = rw (clean_up-nothing self v) refl
  stage-Frees (goes_on self) (v, f) =
      let (pool, made, well) = pool_of-IsWell self f in
      let (events, code) = loop_of x clock world (drop_privileges x clock world self.settings) in
      rw made (go events code (run x clock pool events) (run-IsWell x clock pool events well))
    where
      go :
          (events : List (Event Node)) (code : ExitCode) (o : Outcome (Pool Node))
          → Ensures IsWell o
          → Ensures Frees
              ((o >>= λ ended. ok (after_loop self ended, code)) >>= finish x clock world)
      go events code (fault why) w = tt
      go events code (ok ended) w = ended-Frees self ended code (full_refs self v f) w

  -- Whatever happens in the main loop, if main returns then it has freed every component and
  -- dropped every reference on the client of the daemon.
  pub main-Frees : (memory : Memory) → Ensures Frees (main x clock world memory)
  unfolding main
  main-Frees memory =
      stage-Frees (start world memory clock.now) (start-Starts world memory clock.now)
