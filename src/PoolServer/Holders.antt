-- ===== src/PoolServer/Holders.antt =====
-- The requests of pool-server.c that hold a reference on a connection.
use pool_dance.Prelude.{
  ℕ, suc, ◌+◌, ◌≡◌, ◌≢◌, sym, ap, ◌∙◌, true, false, Option, some, List, [], ◌∷◌, ◌++◌, ◌==◌,
  if◌then◌else◌, contains, remove, arith, ℕ_discrete,
}
use pool_dance.Prelude.Bags.{count}
use pool_dance.PoolServer.{WorkRequest}
use pool_dance.PoolServer.Tidy.{Ascends, contains-before}
use pool_dance.PoolServer.Spec.{Ticket, leave, ticket_of, tickets}
use pool_dance.PoolServer.Tickets.{leave-ticket, leave-own, leave-absent}

-- The connections of the requests that wait.
unfoldable pub conns_of : List Ticket → List ℕ
conns_of [] = []
conns_of (t ∷ ts) = t.conn ∷ conns_of ts

abbrev pub held_by : ℕ → List Ticket → ℕ
held_by c ts = count c (conns_of ts)

pub held_by-append :
    (c : ℕ) (ts us : List Ticket) → held_by c (ts ++ us) ≡ held_by c ts + held_by c us
unfolding conns_of
held_by-append c [] us = omega arith
held_by-append c (t ∷ ts) us = omega (arith, held_by-append c ts us)

pub held_by-ticket :
    (c p : ℕ) (r : WorkRequest) (ts : List Ticket)
    → held_by c (ticket_of p (some r) ++ ts) ≡ held_by c ts + (if r.conn == c then 1 else 0)
unfolding conns_of ticket_of
held_by-ticket c p r ts = omega arith

-- A request that leaves was the holder of one reference.
pub held_by-leave :
    (c : ℕ) (requests : ℕ → Option WorkRequest) (p : ℕ) (r : WorkRequest) (low high : ℕ)
    (queue : List ℕ)
    → Ascends low queue high
    → requests p ≡ some r
    → contains p queue ≡ true
    → held_by c (leave p (tickets requests queue)) + (if r.conn == c then 1 else 0)
      ≡ held_by c (tickets requests queue)
unfolding tickets
held_by-leave c requests p r low high [] up e held = absurd (cc held)
held_by-leave c requests p r low high (a ∷ queue) up e held = elim (ℕ_discrete a p) [
  | yes same ↦
      let once : contains p queue ≡ false =
        contains-before (suc a) high p queue up.1 (omega arith) in
      let ts = tickets requests queue in
      let own : ticket_of a (requests a) ≡ ticket_of p (some r) =
        ap (λ n. ticket_of n (requests n)) same ∙ ap (ticket_of p) e in
      let left : leave p (ticket_of a (requests a) ++ ts) ≡ ts =
        ap (λ t. leave p (t ++ ts)) own
        ∙ leave-own p (some r) ts
        ∙ leave-absent requests p queue once in
      let shown : held_by c (ticket_of a (requests a) ++ ts)
          ≡ held_by c ts + (if r.conn == c then 1 else 0) =
        ap (λ t. held_by c (t ++ ts)) own ∙ held_by-ticket c p r ts in
      ap (λ us. held_by c us + (if r.conn == c then 1 else 0)) left ∙ sym shown
  | no other ↦
      let ts = tickets requests queue in
      let o = ticket_of a (requests a) in
      let apart : p ≢ a = λ same. other (sym same) in
      let left = ap (held_by c) (leave-ticket p a (requests a) ts apart) in
      let ih = held_by-leave c requests p r (suc a) high queue up.1 e (ground arith) in
      omega (arith, left, ih, held_by-append c o (leave p ts), held_by-append c o ts)
]

pub count-remove :
    (c n : ℕ) (ns : List ℕ)
    → contains n ns ≡ true
    → count c (remove n ns) + (if n == c then 1 else 0) ≡ count c ns
count-remove c n [] held = absurd (cc held)
count-remove c n (a ∷ ns) held = elim (ℕ_discrete a n) [
  | yes same ↦ ground arith
  | no other ↦ let ih = count-remove c n ns (ground arith) in ground arith
]
