-- ===== src/Upstream/Fill.antt =====
-- The loop of fill_work_queue ends by its condition, and makes the calls that are missing.
use pool_dance.Prelude.{
  ℕ, zero, suc, ◌+◌, ◌-◌, ◌≤◌, ◌<◌, ◌%◌, true, false, ◌≡◌, refl, ltb, arith, dec_lt, if_cases,
}
use pool_dance.Upstream.{UpstreamService, guint_mod, queue_length, fill_rounds, fill_work_queue}

-- From `self` to `self'` `n` calls were made, and nothing else was done.
pub record Calls {Node : Type 0} (self : UpstreamService Node) (n : ℕ)
    (self' : UpstreamService Node) : Type 0 where
  pub queue : self'.work_queue ≡ self.work_queue
  pub minimum : self'.work_queue_min ≡ self.work_queue_min
  pub requests : self'.work_requests ≡ self.work_requests + n
  pub calls : self'.calls ≡ self.calls + n

-- What the loop counts.
abbrev pub supply : {Node : Type 0} → UpstreamService Node → ℕ
supply self = self.work_requests + queue_length self.work_queue

module _ {Node : Type 0} where
  Calls-refl : (self : UpstreamService Node) → Calls self 0 self
  Calls-refl self = record {
    queue = refl;
    minimum = refl;
    requests = omega arith;
    calls = omega arith;
  }

  fill_rounds-Calls :
      (n : ℕ) (self : UpstreamService Node)
      → self.work_queue_min < guint_mod
      → supply self < guint_mod
      → self.work_queue_min ≤ supply self + n
      → Calls self (self.work_queue_min - supply self) (fill_rounds n self)
  unfolding fill_rounds
  fill_rounds-Calls zero self small no_wrap enough = record {
    queue = refl;
    minimum = refl;
    requests = omega arith;
    calls = omega arith;
  }
  fill_rounds-Calls (suc n) self small no_wrap enough =
      elim (dec_lt (supply self) self.work_queue_min) [
        | yes lt ↦
            let called : UpstreamService Node = record self {
              work_requests = (self.work_requests + 1) % guint_mod;
              calls = self.calls + 1;
            } in
            let next : (self.work_requests + 1) % guint_mod ≡ self.work_requests + 1 =
              omega arith in
            let rest = fill_rounds-Calls n called small (omega arith) (omega arith) in
            let test : ltb (supply self % guint_mod) self.work_queue_min ≡ true = ground arith in
            rw test (record {
              queue = rest.queue;
              minimum = rest.minimum;
              requests = omega (arith, rest.requests);
              calls = omega (arith, rest.calls);
            })
        | no ge ↦
            let test : ltb (supply self % guint_mod) self.work_queue_min ≡ false = ground arith in
            rw test
              (record { queue = refl; minimum = refl; requests = omega arith; calls = omega arith })
      ]

  -- While nothing wraps around, fill_work_queue makes exactly the calls that are missing for
  -- work_queue_min items, none if there are enough.
  pub fill_work_queue-Calls :
      (self : UpstreamService Node)
      → self.work_queue_min < guint_mod
      → supply self < guint_mod
      → Calls self (self.work_queue_min - supply self) (fill_work_queue self)
  unfolding fill_work_queue
  fill_work_queue-Calls self small no_wrap =
      fill_rounds-Calls self.work_queue_min self small no_wrap (omega arith)

  still_short :
      (self : UpstreamService Node)
      → self.work_queue_min < guint_mod
      → supply self % guint_mod < self.work_queue_min
      → ((self.work_requests + 1) % guint_mod + queue_length self.work_queue) % guint_mod
        ≡ supply self % guint_mod + 1
  still_short self small lt = omega arith

  fill_rounds-done :
      (n : ℕ) (self : UpstreamService Node)
      → self.work_queue_min < guint_mod
      → self.work_queue_min ≤ supply self % guint_mod + n
      → (fill_rounds n self).work_queue_min ≤ supply (fill_rounds n self) % guint_mod
  unfolding fill_rounds
  fill_rounds-done zero self small enough = omega arith
  fill_rounds-done (suc n) self small enough =
      elim (dec_lt (supply self % guint_mod) self.work_queue_min) [
        | yes lt ↦
            let called : UpstreamService Node = record self {
              work_requests = (self.work_requests + 1) % guint_mod;
              calls = self.calls + 1;
            } in
            let test : ltb (supply self % guint_mod) self.work_queue_min ≡ true = ground arith in
            rw test (fill_rounds-done n called small (omega (arith, still_short self small lt)))
        | no ge ↦
            let test : ltb (supply self % guint_mod) self.work_queue_min ≡ false = ground arith in
            rw test (omega arith)
      ]

  -- With a guint as the minimum, and whatever the count and the queue are, even if their sum wraps
  -- around, the loop of fill_work_queue is over within work_queue_min rounds: its condition fails.
  pub fill_work_queue-done :
      (self : UpstreamService Node)
      → self.work_queue_min < guint_mod
      → (fill_work_queue self).work_queue_min ≤ supply (fill_work_queue self) % guint_mod
  unfolding fill_work_queue
  fill_work_queue-done self small = fill_rounds-done self.work_queue_min self small (omega arith)

-- fill_work_queue calls the daemon and leaves the cache alone.
fill_rounds-queue :
    {Node : Type 0} (n : ℕ) (self : UpstreamService Node)
    → (fill_rounds n self).work_queue ≡ self.work_queue
unfolding fill_rounds
fill_rounds-queue zero self = refl
fill_rounds-queue (suc n) self =
    let called : UpstreamService _ = record self {
      work_requests = (self.work_requests + 1) % guint_mod;
      calls = self.calls + 1;
    } in
    if_cases {A = UpstreamService _} (λ s. s.work_queue ≡ self.work_queue)
      (ltb ((self.work_requests + queue_length self.work_queue) % guint_mod) self.work_queue_min)
      (fill_rounds n called) self (λ _. fill_rounds-queue n called) (λ _. refl)

pub fill_work_queue-queue :
    {Node : Type 0} (self : UpstreamService Node)
    → (fill_work_queue self).work_queue ≡ self.work_queue
unfolding fill_work_queue
fill_work_queue-queue self = fill_rounds-queue self.work_queue_min self
