-- ===== src/Main/Whole.antt =====
-- The invariant of the whole pool: what its components keep while main.c runs them together.
pub mod Handlers
pub mod Answered
pub mod Source
pub mod Events
pub mod Runs
pub mod Progress
use pool_dance.Prelude.{
  ℕ, zero, suc, ◌%◌, subst, if_cases, ◌+◌, ◌≤◌, ◌<◌, ◌≡◌, refl, Bool, true, false, ◌&&◌, List, [],
  ◌∷◌, ◌++◌, ltb, ◌==◌, length, remove, remove_at, get_elem?, All, Option, none, some, arith,
}
use pool_dance.WorkResult.{WorkResult}
use pool_dance.Upstream.{
  UpstreamService, queue_length, upstream_service_has_work, fill_rounds, fill_work_queue,
  rpc_on_getwork, guint_mod,
}
use pool_dance.PoolServer.{PoolServer, pool_server_need_work}
use pool_dance.PoolServer.Tidy.{IsTidy}
use pool_dance.Validator.Prevalidate.{Dispatch}
use pool_dance.Validator.Sound.{IsSound}
use pool_dance.Main.{System}
use pool_dance.Main.Callbacks.{Pool}

-- A request waits, and there is work for it.
abbrev pub can_serve : {Node : Type 0} → System Node → Bool
can_serve services =
    pool_server_need_work services.pool_server
    && upstream_service_has_work services.upstream_service

-- A share under validation has its own reference and that of the asynchronous result; one that was
-- submitted has a single reference.
abbrev pub HasTwo : {Node : Type 0} → WorkResult Node × Dispatch → Type 0
HasTwo v = v.0.ref_count ≡ 2

abbrev pub HasOne : {Node : Type 0} → WorkResult Node → Type 0
HasOne r = r.ref_count ≡ 1

-- When there is work for a request that waits, the main loop has a source that serves it.
pub record IsWell {Node : Type 0} (self : Pool Node) : Type 0 where
  pub server : IsTidy self.services.pool_server
  pub validator : IsSound self.services.work_validator
  pub scheduled : can_serve self.services ≡ true → 0 < self.sources
  pub checked : All HasTwo self.validations
  pub submitted : All HasOne self.submissions

module _ {ℓ κ} {A : Type ℓ} (P : A → Type κ) where
  pub All-append : (as' : List A) (a : A) → All P as' → P a → All P (as' ++ a ∷ [])
  All-append [] a h p = (p, tt)
  All-append (b ∷ bs) a h p = (h.0, All-append bs a h.1 p)

  pub All-remove_at : (i : ℕ) (as' : List A) → All P as' → All P (remove_at i as')
  All-remove_at i [] h = h
  All-remove_at zero (a ∷ as') h = h.1
  All-remove_at (suc i) (a ∷ as') h = (h.0, All-remove_at i as' h.1)

  pub All-get_elem? : (i : ℕ) (as' : List A) (a : A) → All P as' → get_elem? as' i ≡ some a → P a
  All-get_elem? i [] a h e = absurd (cc e)
  All-get_elem? zero (b ∷ bs) a h e = let same : b ≡ a = cc e in subst P same (h.0)
  All-get_elem? (suc i) (b ∷ bs) a h e = All-get_elem? i bs a h.1 e

-- A server and a service with no more than before can serve no more than before.
pub can_serve_less :
    {Node : Type 0} (s t : System Node)
    → length t.pool_server.getwork_queue ≤ length s.pool_server.getwork_queue
    → queue_length t.upstream_service.work_queue ≤ queue_length s.upstream_service.work_queue
    → can_serve t ≡ true
    → can_serve s ≡ true
unfolding pool_server_need_work upstream_service_has_work
can_serve_less s t less fewer h = ground arith

pub cannot_serve :
    {Node : Type 0} (s : System Node)
    → queue_length s.upstream_service.work_queue ≡ 0
    → can_serve s ≡ false
unfolding pool_server_need_work upstream_service_has_work
cannot_serve s e = ground arith

pub length-remove : (p : ℕ) (q : List ℕ) → length (remove p q) ≤ length q
length-remove p [] = omega arith
length-remove p (a ∷ q) = let ih = length-remove p q in ground arith
