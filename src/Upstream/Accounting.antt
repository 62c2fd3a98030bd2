-- ===== src/Upstream/Accounting.antt =====
-- Where the calls of getwork stand between two blocks.
use pool_dance.Prelude.{
  ℕ, suc, ◌+◌, ◌-◌, ◌%◌, ◌≤◌, ◌<◌, ◌≡◌, refl, ap, ◌∙◌, none, some, List, [], ◌∷◌, ltb,
  if◌then◌else◌, length, arith, dec_lt, ltb-true_of_lt, ltb-false_of_le,
}
use pool_dance.Upstream.{
  UpstreamService, guint_mod, queue_length, push_head, pop_head, fill_work_queue, rpc_on_getwork,
  upstream_service_get_work, upstream_service_notify_new_block, Event, takes, answers, step, run,
}
use pool_dance.Upstream.Fill.{supply, fill_work_queue-Calls}

-- The cache and the calls counted make up the minimum, and `lost` of the calls that are counted
-- are not under way any more.
pub record IsAccounted {Node : Type 0} (lost : ℕ) (self : UpstreamService Node) : Type 0 where
  pub queued : (q : List Node) × (self.work_queue ≡ some q)
  pub bounded : self.work_queue_min + 1 < guint_mod
  pub full : supply self ≡ self.work_queue_min
  pub counted : self.work_requests ≡ self.calls + lost

-- How many calls an event loses.
unfoldable pub loses : {Node : Type 0} → UpstreamService Node → Event Node → ℕ
loses self takes = 0
loses self (answers (some work)) = 0
loses self (answers none) = if ltb 0 self.calls then 1 else 0

unfoldable pub losses : {Node : Type 0} → UpstreamService Node → List (Event Node) → ℕ
losses self [] = 0
losses self (e ∷ es) = loses self e + losses (step self e) es

module _ {Node : Type 0} where
  -- Filling up again what one event took.
  refilled :
      (lost : ℕ) (self : UpstreamService Node) (q : List Node)
      → self.work_queue ≡ some q
      → self.work_queue_min + 1 < guint_mod
      → supply self ≤ self.work_queue_min
      → self.work_requests ≡ self.calls + lost
      → IsAccounted lost (fill_work_queue self)
  refilled lost self q e small le counted =
      let f = fill_work_queue-Calls self (omega arith) (omega arith) in
      let same : queue_length (fill_work_queue self).work_queue ≡ queue_length self.work_queue =
        ap queue_length f.queue in
      record {
        queued = (q, f.queue ∙ e);
        bounded = omega (arith, f.minimum);
        full = omega (arith, same, f.minimum, f.requests);
        counted = omega (arith, f.requests, f.calls);
      }

  pub take-IsAccounted :
      (lost : ℕ) (self : UpstreamService Node) (q : List Node)
      → self.work_queue ≡ some q
      → IsAccounted lost self
      → IsAccounted lost (upstream_service_get_work self).1
  unfolding upstream_service_get_work pop_head queue_length
  take-IsAccounted lost self [] e v =
      let l : queue_length self.work_queue ≡ 0 = ap queue_length e in
      rw e (
        refilled lost (record self { work_queue = some [] }) [] refl v.bounded
          (omega (arith, v.full)) v.counted)
  take-IsAccounted lost self (work ∷ q) e v =
      let l : queue_length self.work_queue ≡ suc (length q) = ap queue_length e in
      rw e (
        refilled lost (record self { work_queue = some q }) q refl v.bounded (omega (arith, v.full))
          v.counted)

  pub answer-IsAccounted :
      (lost : ℕ) (self : UpstreamService Node) (work : Node) (q : List Node)
      → self.work_queue ≡ some q
      → 0 < self.calls
      → IsAccounted lost self
      → IsAccounted lost (rpc_on_getwork self (some work)).0
  unfolding rpc_on_getwork push_head queue_length
  answer-IsAccounted lost self work q e busy v =
      let l : queue_length self.work_queue ≡ length q = ap queue_length e in
      let answered : UpstreamService Node = record self {
        work_queue = some (work ∷ q);
        work_requests = (self.work_requests + (guint_mod - 1)) % guint_mod;
        calls = self.calls - 1;
      } in
      rw e (
        refilled lost answered (work ∷ q) refl v.bounded
          (omega (arith, v.full, v.counted, v.bounded))
          (omega (arith, v.full, v.counted, v.bounded)))

  more :
      {lost lost' : ℕ} {self : UpstreamService Node}
      → IsAccounted lost self
      → lost ≡ lost'
      → IsAccounted lost' self
  more v e = record {
    queued = v.queued;
    bounded = v.bounded;
    full = v.full;
    counted = omega (arith, v.counted);
  }

  step-IsAccounted :
      (lost : ℕ) (self : UpstreamService Node) (e : Event Node)
      → IsAccounted lost self
      → IsAccounted (lost + loses self e) (step self e)
  unfolding step loses rpc_on_getwork
  step-IsAccounted lost self takes v =
      more (take-IsAccounted lost self v.queued.0 v.queued.1 v) (omega arith)
  step-IsAccounted lost self (answers none) v = elim (dec_lt 0 self.calls) [
    | yes busy ↦ rw (ltb-true_of_lt 0 self.calls busy) (record {
      queued = v.queued;
      bounded = v.bounded;
      full = v.full;
      counted = omega (arith, v.counted);
    })
    | no idle ↦ rw (ltb-false_of_le 0 self.calls (omega arith)) (more v (omega arith))
  ]
  step-IsAccounted lost self (answers (some work)) v = elim (dec_lt 0 self.calls) [
    | yes busy ↦
        let r = answer-IsAccounted lost self work v.queued.0 v.queued.1 busy v in
        rw (ltb-true_of_lt 0 self.calls busy) (more r (omega arith))
    | no idle ↦ rw (ltb-false_of_le 0 self.calls (omega arith)) (more v (omega arith))
  ]

  -- From a state in which the items in the cache and the calls counted make up work_queue_min,
  -- which is below 2^32 - 1, and the count exceeds the calls under way by the calls lost, any
  -- taking of work and any answers keep both, every failed call adding one to the calls lost.
  pub run-IsAccounted :
      (lost : ℕ) (self : UpstreamService Node) (es : List (Event Node))
      → IsAccounted lost self
      → IsAccounted (lost + losses self es) (run self es)
  unfolding run losses
  run-IsAccounted lost self [] v = more v (omega arith)
  run-IsAccounted lost self (e ∷ es) v =
      more (run-IsAccounted (lost + loses self e) (step self e) es (step-IsAccounted lost self e v))
        (omega arith)

  -- A new block that finds no call under way.
  pub upstream_service_notify_new_block-IsAccounted :
      (self : UpstreamService Node)
      → self.work_queue_min + 1 < guint_mod
      → self.calls ≡ 0
      → IsAccounted 0 (upstream_service_notify_new_block self)
  unfolding upstream_service_notify_new_block queue_length
  upstream_service_notify_new_block-IsAccounted self small idle =
      refilled 0 (record self { work_queue = some []; work_requests = 0 }) [] refl small
        (omega arith) (omega arith)
