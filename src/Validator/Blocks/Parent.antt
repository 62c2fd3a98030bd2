-- ===== src/Validator/Blocks/Parent.antt =====
-- The stored block hash against the field of the work that names the previous block.
use pool_dance.Prelude.{
  ℕ, ◌*◌, subst, append-nil, ◌++◌, ◌≤◌, ◌≡◌, refl, ◌∙◌, ap, ◌↔◌, Option, none, some, Str, [], arith,
  length, replicate, length-replicate, slice, ok, strcmp0_eq, strcmp0_eq_iff, Bool-cases, inl, inr,
}
use pool_dance.Prelude.Memory.{Memory, alloc, read}
use pool_dance.Validator.State.{WorkValidator}
use pool_dance.Validator.Prevalidate.{check_previous_block_hash_matches}
use pool_dance.Validator.Blocks.{on_block_hash, answered, copy_words}
use pool_dance.Validator.Blocks.HashWords.{
  words_down, copy_words-down, words_down-twice, length-words_down,
}
use pool_dance.Validator.Blocks.Lifetime.{IsShared, on_block_hash-IsSettled, resolved}

abbrev pub cleared : Str
cleared = replicate 64 0

copy_words_at : (src : Str) → 64 ≤ length src → copy_words 8 0 src cleared ≡ words_down 8 src
copy_words_at src long =
    copy_words-down 8 0 src [] (replicate 64 0) refl refl (length-replicate {A = ℕ} 64 0) long

-- The loop of on_block_hash reverses the order of the words: from its own output it makes the
-- answer again.
copy_words-twice :
    (src : Str) → length src ≡ 64 → copy_words 8 0 (copy_words 8 0 src cleared) cleared ≡ src
copy_words-twice src e =
    let once = copy_words_at src (omega arith) in
    let l : length (words_down 8 src) ≡ 8 * 8 = length-words_down 8 src (omega arith) in
    ap (λ z. copy_words 8 0 z cleared) once
    ∙ copy_words_at (words_down 8 src) (omega arith)
    ∙ words_down-twice 8 src e

-- The eight words of eight characters of a block hash, the last one first.
abbrev pub last_first : Str → Str
last_first hash =
    slice 56 8 hash
    ++ (slice 48 8 hash
        ++ (slice 40 8 hash
            ++ (slice 32 8 hash
                ++ (slice 24 8 hash ++ (slice 16 8 hash ++ (slice 8 8 hash ++ slice 0 8 hash))))))

words_down-last_first : (hash : Str) → words_down 8 hash ≡ last_first hash
unfolding words_down
words_down-last_first hash = simp append-nil refl

check_at :
    (m : Memory) (p : ℕ) (work_data hash : Str)
    → m.cell p ≡ some hash
    → (check_previous_block_hash_matches m work_data (some p) ≡ ok none)
      ↔ (slice 8 64 work_data ≡ hash)
unfolding check_previous_block_hash_matches read
check_at m p work_data hash e =
    let field : Option Str = some (slice 8 64 work_data) in
    rw (e, read)
      (
        λ h. elim (Bool-cases (strcmp0_eq field (some hash))) [
          | inl same ↦ let both = (strcmp0_eq_iff field (some hash)).0 same in cc
          | inr other ↦ let h' = rw other at h in cc
        ],
        λ h. rw ((strcmp0_eq_iff field (some hash)).1 (ap some h)) refl,
      )

-- Once the answer to getblockhash is there, a result that is not stale passes the check of the
-- previous block exactly if its field holds the eight words of eight characters of the answer, the
-- last one first.
pub parent_of_current_block :
    (self : WorkValidator) (src work_data : Str)
    → IsShared self
    → 64 ≤ length src
    → (s : WorkValidator) × (on_block_hash self (answered (some src)) ≡ ok (s, []))
      × ((check_previous_block_hash_matches s.memory work_data s.block_hash ≡ ok none)
          ↔ (slice 8 64 work_data ≡ last_first src))
unfolding alloc
parent_of_current_block self src work_data v long =
    let s = resolved self src in
    let stored : s.memory.cell self.memory.next ≡ some (words_down 8 src) = ground arith in
    (
      s,
      (on_block_hash-IsSettled self src v long).0,
      subst
          (λ hash.
            (check_previous_block_hash_matches s.memory work_data s.block_hash ≡ ok none)
            ↔ (slice 8 64 work_data ≡ hash))
          (words_down-last_first src)
          (check_at s.memory self.memory.next work_data (words_down 8 src) stored),
    )
