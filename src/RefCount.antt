-- ===== src/RefCount.antt =====
-- The reference counts of work-result.c and pool-server.c, which several threads count at a time:
-- each atomic operation is a step of its own.
pub mod Safe
use pool_dance.Prelude.{
  ℕ, ◌+◌, ◌-◌, ◌≤◌, ◌<◌, ◌≡◌, Bool, true, false, some, List, [], ◌∷◌, ◌++◌, ◌==◌, if◌then◌else◌,
  get_elem?, set,
}

-- Where the owner of one reference stands: it holds it, it has read the count to drop it, or it has
-- dropped it.
pub data Phase : Type 0 where
  holding : Phase
  loaded : (old_ref : ℕ) → Phase
  dropped : Phase

pub record Shared : Type 0 where
  pub ref_count : ℕ
  pub owners : List Phase
  pub freed : Bool

-- work_result_unref is `reads` and then `exchanges` or `frees`; a compare-and-exchange that finds
-- another count changes nothing, and is not repeated. work_result_ref makes a new reference from
-- one that is held.
pub data Step (s : Shared) : Shared → Type 0 where
  reads :
      (i : ℕ)
      → get_elem? s.owners i ≡ some holding
      → Step s (record s { owners = set s.owners i (loaded s.ref_count) })
  exchanges :
      (i old_ref : ℕ)
      → get_elem? s.owners i ≡ some (loaded old_ref)
      → 1 < old_ref
      → Step s (record s {
        ref_count = if s.ref_count == old_ref then old_ref - 1 else s.ref_count;
        owners = set s.owners i dropped;
      })
  frees :
      (i old_ref : ℕ)
      → get_elem? s.owners i ≡ some (loaded old_ref)
      → old_ref ≤ 1
      → Step s (record s { freed = true; owners = set s.owners i dropped })
  refs :
      (i : ℕ)
      → get_elem? s.owners i ≡ some holding
      → Step s (record s { ref_count = s.ref_count + 1; owners = s.owners ++ holding ∷ [] })

pub data Reaches (s : Shared) : Shared → Type 0 where
  here : Reaches s s
  onwards : {t u : Shared} → Reaches s t → Step t u → Reaches s u

-- A new object: its creator holds the only reference.
abbrev pub new_shared : Shared
new_shared = record { ref_count = 1; owners = holding ∷ []; freed = false }
