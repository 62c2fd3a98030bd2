-- ===== src/Upstream/Starved.antt =====
-- After work_queue_min failed calls the cache stays empty until the next block.
use pool_dance.Prelude.{
  ℕ, zero, suc, ◌+◌, ◌≤◌, ◌<◌, ◌≡◌, refl, ap, ◌∙◌, Option, some, List, [], ◌∷◌, ltb-false_of_le,
  length, arith,
}
use pool_dance.Upstream.{
  UpstreamService, guint_mod, queue_length, pop_head, fill_work_queue, fill_rounds,
  upstream_service_get_work, upstream_service_notify_new_block, Event, takes, answers, step, run,
}
use pool_dance.Upstream.Accounting.{
  losses, run-IsAccounted, upstream_service_notify_new_block-IsAccounted,
}

-- Nothing is cached, no call is under way, and none is missing by the count.
pub record IsStarved {Node : Type 0} (self : UpstreamService Node) : Type 0 where
  pub empty : self.work_queue ≡ some []
  pub idle : self.calls ≡ 0
  pub counted : self.work_requests ≡ self.work_queue_min

module _ {Node : Type 0} where
  -- The loop does not start while the count reaches the minimum.
  nothing_missing :
      (n : ℕ) (self : UpstreamService Node)
      → self.work_queue_min < guint_mod
      → self.work_requests ≡ self.work_queue_min
      → self.work_queue ≡ some []
      → fill_rounds n self ≡ self
  unfolding fill_rounds queue_length
  nothing_missing zero self small counted empty = refl
  nothing_missing (suc n) self small counted empty = rw (empty, queue_length) (ground arith)

  step-IsStarved :
      (self : UpstreamService Node) (e : Event Node)
      → self.work_queue_min < guint_mod
      → IsStarved self
      → step self e ≡ self
  unfolding step upstream_service_get_work pop_head fill_work_queue
  step-IsStarved self takes small h = rw h.empty (
      nothing_missing self.work_queue_min (record self { work_queue = some [] }) small h.counted
        refl)
  step-IsStarved self (answers reply) small h =
      rw (ltb-false_of_le 0 self.calls (omega (arith, h.idle))) refl

  pub run-IsStarved :
      (self : UpstreamService Node) (es : List (Event Node))
      → self.work_queue_min < guint_mod
      → IsStarved self
      → run self es ≡ self
  unfolding run
  run-IsStarved self [] small h = refl
  run-IsStarved self (e ∷ es) small h =
      ap (λ s. run s es) (step-IsStarved self e small h) ∙ run-IsStarved self es small h

  -- With a block that finds no call under way, as soon as work_queue_min calls have failed since,
  -- the service has no work and asks for none, whatever happens until the next block.
  pub losses-IsStarved :
      (self : UpstreamService Node) (es later : List (Event Node))
      → self.work_queue_min + 1 < guint_mod
      → self.calls ≡ 0
      → (run (upstream_service_notify_new_block self) es).work_queue_min
        ≤ losses (upstream_service_notify_new_block self) es
      → (run (run (upstream_service_notify_new_block self) es) later
          ≡ run (upstream_service_notify_new_block self) es)
        × IsStarved (run (upstream_service_notify_new_block self) es)
  unfolding queue_length
  losses-IsStarved self es later small idle failed =
      let b = upstream_service_notify_new_block self in
      let a =
        run-IsAccounted 0 b es (upstream_service_notify_new_block-IsAccounted self small idle) in
      let (q, e) = a.queued in
      let l : queue_length (run b es).work_queue ≡ length q = ap queue_length e in
      let h : IsStarved (run b es) = record {
        empty = go q e (omega (arith, l, a.full, a.counted));
        idle = omega (arith, a.full, a.counted);
        counted = omega (arith, a.full, a.counted);
      } in
      (run-IsStarved (run b es) later (omega (arith, a.bounded)) h, h)
    where
      go : {o : Option (List Node)} (q : List Node) → o ≡ some q → length q ≡ 0 → o ≡ some []
      go [] e l = e
      go (x ∷ q) e l = absurd (omega arith)
