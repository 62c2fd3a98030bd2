-- ===== src/PoolServer/Oldest.antt =====
-- Which request is served.
use pool_dance.Prelude.{
  ℕ, suc, ◌≤◌, ◌≡◌, ◌≢◌, refl, true, none, some, List, [], ◌∷◌, length, arith, ℕ_discrete, subst,
  ok,
}
use pool_dance.PoolServer.{PoolServer, WorkRequest, pool_server_need_work}
use pool_dance.PoolServer.Machine.{serve_request}
use pool_dance.PoolServer.Tidy.{Ascends, IsTidy, Ascends-contains}
use pool_dance.PoolServer.Drops.{dropped, serve-dropped, alive-contains}

-- `p` was alive and came before every other request that was; it is gone, the others are left.
pub record ServesOldest (self s : PoolServer) (p : ℕ) : Type 0 where
  pub request : WorkRequest
  pub was_alive : self.requests p ≡ some request
  pub oldest : (n : ℕ) (r : WorkRequest) → self.requests n ≡ some r → p ≤ n
  pub freed : s.requests p ≡ none
  pub others : (n : ℕ) → n ≢ p → s.requests n ≡ self.requests n
  pub shorter : suc (length s.getwork_queue) ≡ length self.getwork_queue

pub head_oldest :
    (self : PoolServer) (p : ℕ) (q : List ℕ)
    → IsTidy self
    → self.getwork_queue ≡ p ∷ q
    → ServesOldest self (dropped self p) p
head_oldest self p q v e =
    let (r, is_r, one) = v.alive p (ground arith) in
    let asc : Ascends 0 (p ∷ q) self.next = subst (λ z. Ascends 0 z self.next) e v.ascends in
    record {
      request = r;
      was_alive = is_r;
      oldest = λ n r' e'.
          let held = alive-contains self n r' v e' in
          elim (ℕ_discrete p n) [
            | yes same ↦ omega arith
            | no apart ↦
                let later = Ascends-contains (suc p) self.next n q asc.1 (ground arith) in
                omega arith
          ];
      freed = ground arith;
      others = λ n apart. ground arith;
      shorter = ground arith;
    }

-- If any request waits in a well-formed server, serving takes the one that arrived first and
-- leaves the others.
pub serve_request-ServesOldest :
    (self : PoolServer)
    → IsTidy self
    → pool_server_need_work self ≡ true
    → (p : ℕ) × (s : PoolServer) × (serve_request self ≡ ok (some p, s)) × ServesOldest self s p
unfolding pool_server_need_work
serve_request-ServesOldest self v waits = go self.getwork_queue refl
  where
    go :
        (q : List ℕ)
        → self.getwork_queue ≡ q
        → (p : ℕ) × (s : PoolServer) × (serve_request self ≡ ok (some p, s)) × ServesOldest self s p
    go [] e = absurd (ground arith)
    go (p ∷ q) e = (p, dropped self p, serve-dropped self p q v e, head_oldest self p q v e)
