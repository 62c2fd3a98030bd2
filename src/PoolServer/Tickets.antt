-- ===== src/PoolServer/Tickets.antt =====
-- The tickets that the contract of pool-server.c sees when requests come and go.
use pool_dance.Prelude.{
  ℕ, suc, ◌≡◌, ◌≢◌, refl, sym, ap, ap₂, ◌∙◌, true, false, Option, none, some, List, [], ◌∷◌, ◌++◌,
  append_assoc, append-nil, ◌==◌, contains, remove, arith, ℕ_discrete,
}
use pool_dance.PoolServer.{WorkRequest, place}
use pool_dance.PoolServer.Tidy.{Ascends, contains-before}
use pool_dance.PoolServer.Spec.{Ticket, leave, ticket_of, tickets}

-- A request that is not in the queue does not show.
pub tickets-place :
    (requests : ℕ → Option WorkRequest) (p : ℕ) (o : Option WorkRequest) (queue : List ℕ)
    → contains p queue ≡ false
    → tickets (place requests p o) queue ≡ tickets requests queue
unfolding tickets
tickets-place requests p o [] out = refl
tickets-place requests p o (a ∷ queue) out =
    let apart : p ≢ a = λ same. ground arith in
    let other : place requests p o a ≡ requests a = ground arith in
    ap₂ (λ r ts. ticket_of a r ++ ts) other (tickets-place requests p o queue (ground arith))

pub tickets-append :
    (requests : ℕ → Option WorkRequest) (queue : List ℕ) (p : ℕ)
    → tickets requests (queue ++ p ∷ []) ≡ tickets requests queue ++ ticket_of p (requests p)
unfolding tickets
tickets-append requests [] p = append-nil (ticket_of p (requests p))
tickets-append requests (a ∷ queue) p =
    ap (λ ts. ticket_of a (requests a) ++ ts) (tickets-append requests queue p)
    ∙ sym (
        append_assoc (ticket_of a (requests a)) (tickets requests queue) (ticket_of p (requests p)))

pub leave-ticket :
    (p a : ℕ) (o : Option WorkRequest) (ts : List Ticket)
    → p ≢ a
    → leave p (ticket_of a o ++ ts) ≡ ticket_of a o ++ leave p ts
unfolding leave ticket_of
leave-ticket p a none ts apart = refl
leave-ticket p a (some r) ts apart = let other : (a == p) ≡ false = ground arith in rw other refl

pub leave-own :
    (p : ℕ) (o : Option WorkRequest) (ts : List Ticket) → leave p (ticket_of p o ++ ts) ≡ leave p ts
unfolding leave ticket_of
leave-own p none ts = refl
leave-own p (some r) ts = let same : (p == p) ≡ true = ground arith in rw same refl

pub leave-absent :
    (requests : ℕ → Option WorkRequest) (p : ℕ) (queue : List ℕ)
    → contains p queue ≡ false
    → leave p (tickets requests queue) ≡ tickets requests queue
unfolding tickets leave
leave-absent requests p [] out = refl
leave-absent requests p (a ∷ queue) out =
    let apart : p ≢ a = λ same. ground arith in
    leave-ticket p a (requests a) (tickets requests queue) apart
    ∙ ap (λ ts. ticket_of a (requests a) ++ ts) (leave-absent requests p queue (ground arith))

-- A request that is dropped leaves the queue.
pub tickets-remove :
    (requests : ℕ → Option WorkRequest) (p low high : ℕ) (queue : List ℕ)
    → Ascends low queue high
    → tickets (place requests p none) (remove p queue) ≡ leave p (tickets requests queue)
unfolding tickets leave
tickets-remove requests p low high [] up = refl
tickets-remove requests p low high (a ∷ queue) up = elim (ℕ_discrete a p) [
  | yes same ↦
      let is : (a == p) ≡ true = ground arith in
      let once : contains p queue ≡ false =
        contains-before (suc a) high p queue up.1 (omega arith) in
      rw is (
        tickets-place requests p none queue once
        ∙ sym (leave-absent requests p queue once)
        ∙ sym (leave-own p (requests p) (tickets requests queue))
        ∙ ap (λ n. leave p (ticket_of n (requests n) ++ tickets requests queue)) (sym same))
  | no other ↦
      let differs : (a == p) ≡ false = ground arith in
      let apart : p ≢ a = λ same. other (sym same) in
      let kept : place requests p none a ≡ requests a = ground arith in
      rw differs (
        ap₂ (λ r ts. ticket_of a r ++ ts) kept (tickets-remove requests p (suc a) high queue up.1)
        ∙ sym (leave-ticket p a (requests a) (tickets requests queue) apart))
]

-- Nor does one that is freed.
pub leave-freed :
    (requests : ℕ → Option WorkRequest) (p : ℕ) (queue : List ℕ)
    → requests p ≡ none
    → leave p (tickets requests queue) ≡ tickets requests queue
unfolding tickets leave ticket_of
leave-freed requests p [] e = refl
leave-freed requests p (a ∷ queue) e = elim (ℕ_discrete p a) [
  | no apart ↦
      leave-ticket p a (requests a) (tickets requests queue) apart
      ∙ ap (λ ts. ticket_of a (requests a) ++ ts) (leave-freed requests p queue e)
  | yes same ↦
      let none_here : requests a ≡ none = ap requests (sym same) ∙ e in
      let no_ticket : ticket_of a (requests a) ≡ [] = ap (ticket_of a) none_here in
      ap (λ ts. leave p (ts ++ tickets requests queue)) no_ticket
      ∙ leave-freed requests p queue e
      ∙ ap (λ ts. ts ++ tickets requests queue) (sym no_ticket)
]
