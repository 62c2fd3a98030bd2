-- ===== src/PoolServer/Freed.antt =====
-- pool_server_free drops the requests that wait, and with each the reference on its connection.
use pool_dance.Prelude.{
  ℕ, suc, ◌+◌, ◌≤◌, ◌≡◌, ◌≢◌, refl, sym, ap, ◌∙◌, true, false, Option, none, some, List, [], ◌∷◌,
  ◌++◌, ◌==◌, if◌then◌else◌, contains, arith, ℕ_discrete, ok,
}
use pool_dance.Prelude.Bags.{count}
use pool_dance.PoolServer.{PoolServer, WorkRequest, place, unref_requests, pool_server_free}
use pool_dance.PoolServer.Tidy.{IsTidy, Ascends, contains-before}
use pool_dance.PoolServer.Drops.{unref_one, freed}
use pool_dance.PoolServer.Spec.{ticket_of, tickets, view}
use pool_dance.PoolServer.Tickets.{tickets-place}
use pool_dance.PoolServer.Holders.{conns_of, held_by, held_by-ticket}
use pool_dance.PoolServer.Referenced.{IsReferenced}

-- The requests of a queue, and no others, are alive, each with one reference.
record IsAlive (self : PoolServer) (queue : List ℕ) : Type 0 where
  inside :
      (p : ℕ)
      → contains p queue ≡ true
      → (r : WorkRequest) × (self.requests p ≡ some r) × (r.ref_count ≡ 1)
  outside : (p : ℕ) → contains p queue ≡ false → self.requests p ≡ none

held_by-first :
    (c : ℕ) (requests : ℕ → Option WorkRequest) (p : ℕ) (r : WorkRequest) (queue : List ℕ)
    → requests p ≡ some r
    → contains p queue ≡ false
    → held_by c (tickets requests (p ∷ queue))
      ≡ held_by c (tickets (place requests p none) queue) + (if r.conn == c then 1 else 0)
unfolding tickets
held_by-first c requests p r queue e once =
    ap (λ o. held_by c (ticket_of p o ++ tickets requests queue)) e
    ∙ held_by-ticket c p r (tickets requests queue)
    ∙ sym (
        ap (λ ts. held_by c ts + (if r.conn == c then 1 else 0))
          (tickets-place requests p none queue once))

-- The requests of a queue are freed, and each drops the reference on its connection.
Frees : PoolServer → List ℕ → Type 0
Frees self queue =
    (s : PoolServer) × (unref_requests self queue ≡ ok s)
    × ((p : ℕ) → s.requests p ≡ none)
    × ((c : ℕ)
        → held_by c (tickets self.requests queue) ≤ self.conn_refs c
        → s.conn_refs c + held_by c (tickets self.requests queue) ≡ self.conn_refs c)

unref_requests-Frees :
    (low high : ℕ) (self : PoolServer) (queue : List ℕ)
    → Ascends low queue high
    → IsAlive self queue
    → Frees self queue
unfolding Frees unref_requests tickets conns_of
unref_requests-Frees low high self [] up v =
    (self, refl, λ p. v.outside p refl, λ c le. omega arith)
unref_requests-Frees low high self (p ∷ queue) up v =
    let (r, is_r, one) = v.inside p (ground arith) in
    let once : contains p queue ≡ false = contains-before (suc p) high p queue up.1 (omega arith) in
    let t = freed self p r in
    let (s, ran, gone, released) = unref_requests-Frees (suc p) high t queue up.1 (record {
      inside = λ n e.
          let apart : p ≢ n = λ same. ground arith in
          let (r', is_r', one') = v.inside n (ground arith) in (r', ground arith, one');
      outside = λ n e. elim (ℕ_discrete p n) [
        | yes same ↦ ground arith
        | no apart ↦ let free = v.outside n (ground arith) in ground arith
      ];
    }) in
    (
      s,
      rw (unref_one self p r is_r one) ran,
      gone,
      λ c le.
          let held = held_by-first c self.requests p r queue is_r once in
          let later = released c in ground (arith, held, later),
    )

pool_server_free-Frees :
    (self : PoolServer)
    → IsTidy self
    → Frees (record self { getwork_queue = []; lp_conns = [] }) self.getwork_queue
pool_server_free-Frees self v =
    unref_requests-Frees 0 self.next (record self { getwork_queue = []; lp_conns = [] })
      self.getwork_queue v.ascends (record { inside = v.alive; outside = v.queued })

-- Destroying a well-formed server frees every request that waits, each once.
pub pool_server_free-frees :
    (self : PoolServer)
    → IsTidy self
    → (s : PoolServer) × (pool_server_free self ≡ ok s) × ((p : ℕ) → s.requests p ≡ none)
unfolding pool_server_free Frees
pool_server_free-frees self v =
    let (s, ran, gone, released) = pool_server_free-Frees self v in (s, ran, gone)

-- Destroying a well-formed server frees every request that waits, each once, and drops its
-- reference; what is left is the reference of each long poll, which nothing drops.
pub pool_server_free-leaves :
    (self : PoolServer)
    → IsTidy self
    → IsReferenced self
    → (s : PoolServer) × (pool_server_free self ≡ ok s)
      × ((p : ℕ) → s.requests p ≡ none)
      × ((c : ℕ) → s.conn_refs c ≡ count c self.lp_conns)
unfolding pool_server_free Frees IsReferenced view
pool_server_free-leaves self v referenced =
    let (s, ran, gone, released) = pool_server_free-Frees self v in
    (s, ran, gone, λ c. omega (arith, referenced c, released c (omega (arith, referenced c))))
