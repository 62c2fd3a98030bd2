-- ===== src/Upstream.antt =====
-- upstream-service.c: the cache of work items and the calls of getwork that fill it.
pub mod Fill
pub mod Accounting
pub mod Starved
pub mod Handed
use pool_dance.Prelude.{
  ℕ, zero, suc, ◌+◌, ◌-◌, ◌%◌, ◌^◌, Option, none, some, List, [], ◌∷◌, Str, ltb, ◌==◌,
  if◌then◌else◌, length, Bool, true, false,
}

-- `Node` stands for JsonNode. The client of the daemon is known by the number of its calls of
-- getwork that have no answer yet, `calls`.
pub record UpstreamService (Node : Type 0) : Type 0 where
  -- NULL before the first block
  pub work_queue : Option (List Node)
  pub work_queue_min : ℕ
  pub work_requests : ℕ
  pub calls : ℕ

-- A guint.
abbrev pub guint_mod : ℕ
guint_mod = 2 ^ 32

-- NULL and the empty string both count as not configured.
abbrev pub is_missing : Option Str → Bool
is_missing none = true
is_missing (some []) = true
is_missing (some (c ∷ s)) = false

-- `cache_size` is the integer of the key work-cache-size, as a guint; 0 if it is missing.
unfoldable pub upstream_service_new :
    {Node : Type 0} → (user passw : Option Str) → (cache_size : ℕ) → Option (UpstreamService Node)
upstream_service_new user passw cache_size =
    if is_missing user
    then none
    else if is_missing passw
    then none
    else some (record {
      work_queue = none;
      work_queue_min = if cache_size == 0 then 10 else cache_size;
      work_requests = 0;
      calls = 0;
    })

-- The operations of a GQueue on NULL do nothing and give 0 or NULL.
unfoldable pub queue_length : {Node : Type 0} → Option (List Node) → ℕ
queue_length none = 0
queue_length (some q) = length q

unfoldable pub push_head : {Node : Type 0} → Node → Option (List Node) → Option (List Node)
push_head work none = none
push_head work (some q) = some (work ∷ q)

unfoldable pub pop_head : {Node : Type 0} → Option (List Node) → Option Node × Option (List Node)
pop_head none = (none, none)
pop_head (some []) = (none, some [])
pop_head (some (work ∷ q)) = (some work, some q)

-- What may happen between two blocks: work is taken, or a call that is under way is answered.
pub data Event (Node : Type 0) : Type 0 where
  takes : Event Node
  answers : Option Node → Event Node

module _ {Node : Type 0} where
  -- The loop with at most `n` rounds.
  unfoldable pub fill_rounds : ℕ → UpstreamService Node → UpstreamService Node
  fill_rounds zero self = self
  fill_rounds (suc n) self =
      let called : UpstreamService Node = record self {
        work_requests = (self.work_requests + 1) % guint_mod;
        calls = self.calls + 1;
      } in
      let rest = fill_rounds n called in
      if ltb ((self.work_requests + queue_length self.work_queue) % guint_mod) self.work_queue_min
      then rest
      else self

  unfoldable pub fill_work_queue : UpstreamService Node → UpstreamService Node
  fill_work_queue self = fill_rounds self.work_queue_min self

  -- The answer to a call: `none` if it failed. The second component is what has_work_cb is called
  -- with.
  unfoldable pub rpc_on_getwork :
      UpstreamService Node → Option Node → UpstreamService Node × Option Node
  rpc_on_getwork self none = (record self { calls = self.calls - 1 }, none)
  rpc_on_getwork self (some work) = (
    fill_work_queue (record self {
      work_queue = push_head work self.work_queue;
      work_requests = (self.work_requests + (guint_mod - 1)) % guint_mod;
      calls = self.calls - 1;
    }),
    some work,
  )

  unfoldable pub upstream_service_notify_new_block : UpstreamService Node → UpstreamService Node
  upstream_service_notify_new_block self =
      fill_work_queue (record self { work_queue = some []; work_requests = 0 })

  unfoldable pub upstream_service_has_work : UpstreamService Node → Bool
  upstream_service_has_work self = ltb 0 (queue_length self.work_queue)

  unfoldable pub upstream_service_get_work :
      UpstreamService Node → Option Node × UpstreamService Node
  upstream_service_get_work self =
      let (work, q) = pop_head self.work_queue in
      (work, fill_work_queue (record self { work_queue = q }))

  -- An answer needs a call without one.
  unfoldable pub step : UpstreamService Node → Event Node → UpstreamService Node
  step self takes = (upstream_service_get_work self).1
  step self (answers reply) = if ltb 0 self.calls then (rpc_on_getwork self reply).0 else self

  unfoldable pub run : UpstreamService Node → List (Event Node) → UpstreamService Node
  run self [] = self
  run self (e ∷ es) = run (step self e) es
