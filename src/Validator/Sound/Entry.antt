-- ===== src/Validator/Sound/Entry.antt =====
-- prevalidate_work_result in a validator with well-formed tables: what goes with the table in which
-- the work of a share is found.
pub mod Exactly
use pool_dance.Prelude.{
  ℕ, ◌<◌, ◌≡◌, sym, ap, subst, ◌∙◌, ◌↔◌, inl, inr, true, none, some, Str, length, slice, ok,
  Option-cases,
}
use pool_dance.Prelude.Memory.{Pointer, read}
use pool_dance.Extern.{Extern}
use pool_dance.WorkResult.{WorkResult, work_result_mark_stale}
use pool_dance.Validator.State.{
  TrackedWork, Table, WorkValidator, lookup, insert, work_item_get_data_hex,
  work_data_get_merkle_root_hex, track_nonce_max,
}
use pool_dance.Validator.State.Tables.{insert-insert}
use pool_dance.Validator.Prevalidate.{
  Slot, current, previous, store, lookup_prev, prevalidate_work_result, submitter, mark_if,
  work_data_get_nonce,
}
use pool_dance.Validator.Prevalidate.Nonces.{IsNew, with_nonce}
use pool_dance.Validator.Prevalidate.Search.{
  as_stale, search_current, search_previous, search_none, store_previous, lookup_prev-table,
}
use pool_dance.Validator.Prevalidate.Accepts.{Fits, marked}
use pool_dance.Validator.Prevalidate.Whole.{Taken, prevalidate_work_result_iff}
use pool_dance.Validator.Sound.{IsSound}

-- The work is in the table of the current block, or only in that of the block before.
abbrev pub Finds : WorkValidator → Str → Slot → TrackedWork → Type 0
Finds self root current w = lookup self.work_by_merkle_root root ≡ some w
Finds self root previous w =
    (lookup self.work_by_merkle_root root ≡ none)
    × (lookup_prev self.work_by_merkle_root_prev root ≡ some w)

-- The hash of the block that work in the table builds on.
abbrev pub parent_of : WorkValidator → Slot → Pointer
parent_of self current = self.block_hash
parent_of self previous = self.block_hash_prev

-- The entry of the work now has the nonce, and in the table of the block before it is marked.
abbrev pub Leaves : WorkValidator → Slot → Str → TrackedWork → (nonce : ℕ) → WorkValidator → Type 0
Leaves self current root w nonce s = s ≡ record self {
  work_by_merkle_root = insert self.work_by_merkle_root root (with_nonce w nonce);
}
Leaves self previous root w nonce s =
    (t : Table) × (self.work_by_merkle_root_prev ≡ some t)
    × (s ≡ record self {
      work_by_merkle_root_prev = some (insert t root (with_nonce (as_stale w) nonce));
    })

-- A share for work of the block before is stale.
abbrev pub as_late : {Node : Type 0} → Slot → WorkResult Node → WorkResult Node
as_late current r = r
as_late previous r = record r { stale = true }

module _ {Node : Type 0} (x : Extern Node) (self : WorkValidator) (r : WorkResult Node)
    (self' : WorkValidator) (r' : WorkResult Node) where
  -- The share is for a work in the table, by its user, for the block of the table, and with a new
  -- nonce, which is recorded.
  pub record EntersIn (slot : Slot) : Type 0 where
    pub work_data : Str
    pub w : TrackedWork
    pub is_data : work_item_get_data_hex x r.work ≡ some work_data
    pub sized : length work_data ≡ 256
    pub found : Finds self (work_data_get_merkle_root_hex work_data) slot w
    pub version : w.version ≡ slice 0 8 work_data
    pub timestamp : w.timestamp ≡ slice 136 8 work_data
    pub new : IsNew (work_data_get_nonce x work_data) w
    pub room : w.nonce_count < track_nonce_max
    pub owner : w.user ≡ submitter x r
    pub parent : read self.memory (parent_of self slot) ≡ ok (some (slice 8 64 work_data))
    pub state :
        Leaves self slot
          (work_data_get_merkle_root_hex work_data)
          w
          (work_data_get_nonce x work_data)
          self'
    pub result : r' ≡ as_late slot r
