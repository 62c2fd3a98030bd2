-- ===== src/PoolServer/Tidy.antt =====
-- The queue of requests: what makes it well formed.
use pool_dance.Prelude.{
  ℕ, suc, ◌≤◌, ◌<◌, ◌≡◌, refl, true, false, none, some, List, [], ◌∷◌, ◌++◌, ◌==◌, if◌then◌else◌,
  contains, remove, arith, ℕ_discrete,
}
use pool_dance.PoolServer.{PoolServer, WorkRequest}

-- The addresses rise strictly, from `low` on and below `high`.
abbrev pub Ascends : ℕ → List ℕ → ℕ → Type 0
Ascends low [] high = low ≤ high
Ascends low (p ∷ ps) high = (low ≤ p) × Ascends (suc p) ps high

-- The queue is in the order of arrival, holds every request that is alive, and holds it with the
-- only reference.
pub record IsTidy (self : PoolServer) : Type 0 where
  pub ascends : Ascends 0 self.getwork_queue self.next
  pub alive :
      (p : ℕ)
      → contains p self.getwork_queue ≡ true
      → (r : WorkRequest) × (self.requests p ≡ some r) × (r.ref_count ≡ 1)
  pub queued : (p : ℕ) → contains p self.getwork_queue ≡ false → self.requests p ≡ none

pub contains-append :
    (p n : ℕ) (q : List ℕ) → contains p (q ++ n ∷ []) ≡ (if contains p q then true else n == p)
contains-append p n [] = ground arith
contains-append p n (a ∷ q) = let ih = contains-append p n q in ground arith

pub Ascends-append :
    (low high : ℕ) (q : List ℕ) → Ascends low q high → Ascends low (q ++ high ∷ []) (suc high)
Ascends-append low high [] h = (h, omega arith)
Ascends-append low high (p ∷ q) h = (h.0, Ascends-append (suc p) high q h.1)

pub Ascends-weaken :
    (low low' high : ℕ) (q : List ℕ) → low' ≤ low → Ascends low q high → Ascends low' q high
Ascends-weaken low low' high [] le h = omega arith
Ascends-weaken low low' high (p ∷ q) le h = (omega arith, h.1)

pub Ascends-below : (low high : ℕ) (q : List ℕ) → Ascends low q high → low ≤ high
Ascends-below low high [] h = h
Ascends-below low high (p ∷ q) h = let rest = Ascends-below (suc p) high q h.1 in omega arith

pub Ascends-contains :
    (low high p : ℕ) (q : List ℕ) → Ascends low q high → contains p q ≡ true → low ≤ p
Ascends-contains low high p [] h e = absurd (cc e)
Ascends-contains low high p (a ∷ q) h e = elim (ℕ_discrete a p) [
  | yes same ↦ omega arith
  | no other ↦ let later = Ascends-contains (suc a) high p q h.1 (ground arith) in omega arith
]

pub Ascends-contains-lt :
    (low high p : ℕ) (q : List ℕ) → Ascends low q high → contains p q ≡ true → p < high
Ascends-contains-lt low high p [] h e = absurd (cc e)
Ascends-contains-lt low high p (a ∷ q) h e = elim (ℕ_discrete a p) [
  | yes same ↦ let le = Ascends-below (suc a) high q h.1 in omega arith
  | no other ↦ Ascends-contains-lt (suc a) high p q h.1 (ground arith)
]

-- Nothing below the lowest is in the queue.
pub contains-before :
    (low high p : ℕ) (q : List ℕ) → Ascends low q high → p < low → contains p q ≡ false
contains-before low high p [] h lt = refl
contains-before low high p (a ∷ q) h lt =
    let later = contains-before (suc a) high p q h.1 (omega arith) in ground arith

pub contains-after :
    (low high p : ℕ) (q : List ℕ) → Ascends low q high → high ≤ p → contains p q ≡ false
contains-after low high p [] h le = refl
contains-after low high p (a ∷ q) h le =
    let below = Ascends-below (suc a) high q h.1 in
    let later = contains-after (suc a) high p q h.1 le in ground arith

pub Ascends-remove :
    (low high p : ℕ) (q : List ℕ) → Ascends low q high → Ascends low (remove p q) high
Ascends-remove low high p [] h = h
Ascends-remove low high p (a ∷ q) h = elim (ℕ_discrete a p) [
  | yes same ↦ let tail = Ascends-weaken (suc a) low high q (omega arith) h.1 in ground arith
  | no other ↦ let ih = Ascends-remove (suc a) high p q h.1 in ground arith
]

-- In an ascending queue removing an address takes out that one alone.
pub contains-remove :
    (low high p n : ℕ) (q : List ℕ)
    → Ascends low q high
    → contains n (remove p q) ≡ (if p == n then false else contains n q)
contains-remove low high p n [] h = ground arith
contains-remove low high p n (a ∷ q) h = elim (ℕ_discrete a p) [
  | yes same ↦ let gone = contains-before (suc a) high a q h.1 (omega arith) in ground arith
  | no other ↦ let ih = contains-remove (suc a) high p n q h.1 in ground arith
]
