-- ===== src/Validator/Blocks/Lifetime.antt =====
-- The lifetime of the two block hashes of work-validator.c: each pointer owns its block, but
-- between a new block and the answer with its hash the two pointers are one.
use pool_dance.Prelude.{
  ℕ, ◌≤◌, ◌<◌, ◌≡◌, ◌≢◌, refl, false, none, some, List, [], ◌∷◌, Str, arith, length, replicate, ltb,
  Outcome, ok, fault, double_free, ◌>>=◌, length-replicate, ap, sym, All, subst, dec_lt,
}
use pool_dance.Prelude.Memory.{Memory, Pointer, IsLive, alloc, free, put}
use pool_dance.Validator.State.{WorkValidator, work_validator_new, work_validator_free}
use pool_dance.Validator.Blocks.{
  Rpc, answered, on_block_hash, work_validator_notify_new_block, resolve_current_block_hash,
}
use pool_dance.Validator.Blocks.HashWords.{words_down, copy_words-down}

-- Nothing is stored at the addresses that were not handed out yet.
abbrev pub IsFresh : Memory → Type 0
IsFresh m = (q : ℕ) → m.next ≤ q → m.cell q ≡ none

-- Each of the two pointers owns its block, if it is not NULL.
pub record IsSettled (self : WorkValidator) : Type 0 where
  pub fresh : IsFresh self.memory
  pub hash_live : IsLive self.memory self.block_hash
  pub prev_live : IsLive self.memory self.block_hash_prev
  pub apart : (p : ℕ) → self.block_hash ≡ some p → self.block_hash_prev ≢ some p

-- The two pointers are the same, as between a new block and its hash.
pub record IsShared (self : WorkValidator) : Type 0 where
  pub fresh : IsFresh self.memory
  pub hash_live : IsLive self.memory self.block_hash
  pub same : self.block_hash_prev ≡ self.block_hash

pub free_live :
    (m : Memory) (p : ℕ)
    → IsLive m (some p)
    → free m (some p) ≡ ok (record m { cell = put m.cell p none })
unfolding free
free_live m p (s, e) = rw (e, free)

pub free_gone : (m : Memory) (p : ℕ) → m.cell p ≡ none → free m (some p) ≡ fault double_free
unfolding free
free_gone m p e = rw (e, free)

-- What is left of a memory after a pointer was freed.
record FreeOf (m : Memory) (p : Pointer) : Type 0 where
  after : Memory
  freed : free m p ≡ ok after
  fresh : IsFresh m → IsFresh after
  others : (q : Pointer) → IsLive m q → ((a : ℕ) → q ≡ some a → p ≢ some a) → IsLive after q

free_of : (m : Memory) (p : Pointer) → IsLive m p → FreeOf m p
unfolding free
free_of m none l = record { after = m; freed = refl; fresh = λ f. f; others = λ q l _. l }
free_of m (some p) l = record {
  after = record m { cell = put m.cell p none };
  freed = free_live m p l;
  fresh = λ f q le. ground (arith, f q le);
  others = other;
}
  where
    other :
        (q : Pointer)
        → IsLive m q
        → ((a : ℕ) → q ≡ some a → some p ≢ some a)
        → IsLive (record m { cell = put m.cell p none }) q
    other none l' ne = tt
    other (some a) (s, e) ne =
        (s, let apart : p ≢ a = λ same. ne a refl (ap some same) in ground arith)

-- The state after a new block, with the memory that the free has left.
abbrev pub retired : WorkValidator → ℕ → Memory → WorkValidator
retired self block m = record self {
  block_num = block;
  memory = m;
  block_hash_prev = self.block_hash;
  work_by_merkle_root_prev = some self.work_by_merkle_root;
  work_by_merkle_root = [];
}

-- While each pointer owns its block, a new block does not fault, and leaves the two the same.
pub work_validator_notify_new_block-IsShared :
    (self : WorkValidator) (block : ℕ)
    → IsSettled self
    → (m : Memory) × (work_validator_notify_new_block self block
        ≡ ok (retired self block m, Rpc.getblockhash block ∷ []))
      × IsShared (retired self block m)
unfolding work_validator_notify_new_block resolve_current_block_hash
work_validator_notify_new_block-IsShared self block v =
    let f = free_of self.memory self.block_hash_prev v.prev_live in
    (
      f.after,
      rw (f.freed),
      record {
        fresh = f.fresh v.fresh;
        hash_live = f.others self.block_hash v.hash_live v.apart;
        same = refl;
      },
    )

alloc-IsLive :
    (m : Memory) (s : Str) (p : Pointer) → IsFresh m → IsLive m p → IsLive (alloc m s).0 p
unfolding alloc
alloc-IsLive m s none f l = tt
alloc-IsLive m s (some a) f (t, e) =
    (t, let apart : m.next ≢ a = λ same. cc (f a (ground arith)) in ground arith)

alloc-IsFresh : (m : Memory) (s : Str) → IsFresh m → IsFresh (alloc m s).0
unfolding alloc
alloc-IsFresh m s f q le = let gone = f q (omega arith) in ground arith

below_next : (m : Memory) (p : ℕ) → IsFresh m → IsLive m (some p) → p < m.next
below_next m p f (s, e) = elim (dec_lt p m.next) [
  | yes lt ↦ lt
  | no ge ↦ absurd (cc (f p (omega arith)))
]

-- The state after an answer.
abbrev pub resolved : WorkValidator → Str → WorkValidator
resolved self src = record self {
  memory = (alloc self.memory (words_down 8 src)).0;
  block_hash = some self.memory.next;
}

-- An answer of 64 characters or more gives block_hash a block of its own, which holds the words of
-- the answer in reverse.
pub on_block_hash-IsSettled :
    (self : WorkValidator) (src : Str)
    → IsShared self
    → 64 ≤ length src
    → (on_block_hash self (answered (some src)) ≡ ok (resolved self src, []))
      × IsSettled (resolved self src)
unfolding on_block_hash alloc
on_block_hash-IsSettled self src v long =
    let test : ltb (length src) 64 ≡ false = ground arith in
    let words =
      copy_words-down 8 0 src [] (replicate 64 0) refl refl (length-replicate {A = ℕ} 64 0) long in
    let prev_live : IsLive self.memory self.block_hash_prev =
      subst (IsLive self.memory) (sym v.same) v.hash_live in
    (
      rw (test, words),
      record {
        fresh = alloc-IsFresh self.memory (words_down 8 src) v.fresh;
        hash_live = (words_down 8 src, ground arith);
        prev_live =
            alloc-IsLive self.memory (words_down 8 src) self.block_hash_prev v.fresh prev_live;
        apart = λ p is_hash is_prev.
            let at_p : self.memory.next ≡ p = cc is_hash in
            let older =
              below_next self.memory p v.fresh (subst (IsLive self.memory) is_prev prev_live) in
            absurd (omega arith);
      },
    )

-- One round of the pool: a new block, then the answer with its hash.
pub round : WorkValidator → ℕ × Str → Outcome WorkValidator
round self (block, src) = do
  (s, _) ← work_validator_notify_new_block self block
  (s', _) ← on_block_hash s (answered (some src))
  ok s'

unfoldable pub rounds : WorkValidator → List (ℕ × Str) → Outcome WorkValidator
rounds self [] = ok self
rounds self (r ∷ rs) = do s ← round self r; rounds s rs

round-IsSettled :
    (self : WorkValidator) (r : ℕ × Str)
    → IsSettled self
    → 64 ≤ length r.1
    → (s : WorkValidator) × (round self r ≡ ok s) × IsSettled s
unfolding round
round-IsSettled self (block, src) v long =
    let (m, noted, shared) = work_validator_notify_new_block-IsShared self block v in
    let (fetched, settled) = on_block_hash-IsSettled (retired self block m) src shared long in
    (resolved (retired self block m) src, rw noted (rw fetched refl), settled)

-- If every block's hash arrives, with 64 characters at least, before the next block is seen, then
-- no number of blocks makes the validator fault, and at the end both hashes can be freed.
pub rounds_run :
    (self : WorkValidator) (rs : List (ℕ × Str))
    → IsSettled self
    → All (λ r. 64 ≤ length r.1) rs
    → (s : WorkValidator) × (m : Memory) × (rounds self rs ≡ ok s) × (work_validator_free s ≡ ok m)
unfolding rounds work_validator_free
rounds_run self [] v long =
    let f = free_of self.memory self.block_hash v.hash_live in
    let g = free_of f.after self.block_hash_prev (
      f.others self.block_hash_prev v.prev_live (λ a is_prev is_hash. v.apart a is_hash is_prev)) in
    (self, g.after, refl, rw f.freed g.freed)
rounds_run self (r ∷ rs) v long =
    let (s, ran, settled) = round-IsSettled self r v long.0 in
    let (t, m, rest, freed) = rounds_run s rs settled long.1 in (t, m, rw ran rest, freed)

pub work_validator_new-IsSettled : (m : Memory) → IsFresh m → IsSettled (work_validator_new m)
unfolding work_validator_new
work_validator_new-IsSettled m f = record {
  fresh = f;
  hash_live = tt;
  prev_live = tt;
  apart = λ p is_hash. absurd (cc is_hash);
}
