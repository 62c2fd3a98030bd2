-- ===== src/Validator/Prevalidate/Search.antt =====
-- The three ways in which the search for a tracked work ends.
use pool_dance.Prelude.{◌≡◌, refl, true, Option, none, some, Str}
use pool_dance.Validator.State.{
  TrackedWork, Table, WorkValidator, lookup, insert, work_data_get_merkle_root_hex,
}
use pool_dance.Validator.Prevalidate.{
  current, previous, store, get_tracked_work_by_data, lookup_prev,
}

abbrev pub as_stale : TrackedWork → TrackedWork
as_stale w = record w { possible_stale = true }

module _ (self : WorkValidator) (work_data : Str) where
  abbrev root : Str
  root = work_data_get_merkle_root_hex work_data

  pub search_current :
      {w : TrackedWork}
      → lookup self.work_by_merkle_root root ≡ some w
      → get_tracked_work_by_data self work_data ≡ (some (current, w), self)
  unfolding get_tracked_work_by_data
  search_current hit = rw (hit, get_tracked_work_by_data)

  pub search_previous :
      {w : TrackedWork}
      → lookup self.work_by_merkle_root root ≡ none
      → lookup_prev self.work_by_merkle_root_prev root ≡ some w
      → get_tracked_work_by_data self work_data
        ≡ (some (previous, as_stale w), store self previous root (as_stale w))
  unfolding get_tracked_work_by_data
  search_previous miss hit = rw (miss, hit, get_tracked_work_by_data)

  pub search_none :
      lookup self.work_by_merkle_root root ≡ none
      → lookup_prev self.work_by_merkle_root_prev root ≡ none
      → get_tracked_work_by_data self work_data ≡ (none, self)
  unfolding get_tracked_work_by_data
  search_none miss gone = rw (miss, gone, get_tracked_work_by_data)

pub store_previous :
    (self : WorkValidator) (t : Table) (key : Str) (w : TrackedWork)
    → self.work_by_merkle_root_prev ≡ some t
    → store self previous key w ≡ record self { work_by_merkle_root_prev = some (insert t key w) }
unfolding store
store_previous self t key w e = rw (e, store)

pub lookup_prev-table :
    (prev : Option Table) (key : Str) {w : TrackedWork}
    → lookup_prev prev key ≡ some w
    → (t : Table) × (prev ≡ some t)
lookup_prev-table none key e = cc
lookup_prev-table (some t) key e = (t, refl)
