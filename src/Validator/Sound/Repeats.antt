-- ===== src/Validator/Sound/Repeats.antt =====
-- A share that was taken is not taken again.
use pool_dance.Prelude.{
  ◌≡◌, refl, Option, none, some, Str, arith, ok, ap, ◌∙◌, subst, eq→str_eq, inl, inr, Option-cases,
}
use pool_dance.Extern.{Extern}
use pool_dance.WorkResult.{WorkResult}
use pool_dance.Validator.State.{
  TrackedWork, Table, WorkValidator, lookup, insert, work_item_get_data_hex,
  work_data_get_merkle_root_hex,
}
use pool_dance.Validator.State.Tables.{lookup-insert_self}
use pool_dance.Validator.Prevalidate.{
  Slot, current, previous, store, get_tracked_work_by_data, lookup_prev, prevalidate_work_result,
  prevalidate_found, submitter, mark_if, duplicate_work, check_tracked_work, check_rest,
}
use pool_dance.Validator.Prevalidate.Nonces.{IsTracked, repeated_nonce, recorded_iff}
use pool_dance.Validator.Prevalidate.Accepts.{Fits, marked}
use pool_dance.Validator.Prevalidate.Search.{
  as_stale, search_current, search_previous, search_none, store_previous, lookup_prev-table,
}
use pool_dance.Validator.Prevalidate.Whole.{prevalidate_work_result_iff}
use pool_dance.Validator.Sound.{IsSound, search-IsSound, Held-IsTracked, FoundIn}

module _ (work_data : Str) where
  abbrev root : Str
  root = work_data_get_merkle_root_hex work_data

  -- The work that a search has found is found again after it was written back.
  abbrev FoundAgain : Option (Slot × TrackedWork) × WorkValidator → Type 0
  FoundAgain (none, s) = Unit
  FoundAgain (some (slot, w), s) =
      (v : TrackedWork)
      → v.possible_stale ≡ w.possible_stale
      → (s' : WorkValidator) × (get_tracked_work_by_data (store s slot root v) work_data
          ≡ (some (slot, v), s'))

  found_current : (s : WorkValidator) (w : TrackedWork) → FoundAgain (some (current, w), s)
  unfolding store
  found_current s w v same =
      (_, search_current _ work_data (lookup-insert_self s.work_by_merkle_root root v))

  found_previous :
      (s : WorkValidator) (t : Table) (w u : TrackedWork)
      → s.work_by_merkle_root_prev ≡ some t
      → lookup s.work_by_merkle_root root ≡ none
      → FoundAgain (some (previous, as_stale w), store s previous root u)
  found_previous s t w u is_prev miss v same =
      let first : store s previous root u
          ≡ record s { work_by_merkle_root_prev = some (insert t root u) } =
        store_previous s t root u is_prev in
      let second =
        store_previous (record s { work_by_merkle_root_prev = some (insert t root u) })
          (insert t root u) root v refl in
      let v' : as_stale v ≡ v = ground arith in
      let s2 : WorkValidator = record s {
        work_by_merkle_root_prev = some (insert (insert t root u) root v);
      } in
      let hit = search_previous s2 work_data miss (lookup-insert_self (insert t root u) root v) in
      let s3 : WorkValidator = store s2 previous root (as_stale v) in
      rw (first, second) (s3, hit ∙ ap (λ z. (some (previous, z), s3)) v')

  found_again : (self : WorkValidator) → FoundAgain (get_tracked_work_by_data self work_data)
  found_again self = elim (Option-cases (lookup self.work_by_merkle_root root)) [
    | inr (w, hit) ↦ rw (search_current self work_data hit) (found_current self w)
    | inl miss ↦ elim (Option-cases (lookup_prev self.work_by_merkle_root_prev root)) [
      | inl gone ↦ rw (search_none self work_data miss gone) tt
      | inr (w, hit) ↦
          let (t, is_prev) = lookup_prev-table self.work_by_merkle_root_prev root hit in
          rw (search_previous self work_data miss hit)
            (found_previous self t w (as_stale w) is_prev miss)
    ]
  ]

-- The checks refuse the work that they have just passed, in any later state and for any user.
check_tracked_work-again :
    {Node : Type 0} (x : Extern Node) (self later : WorkValidator) (work_data : Str)
    (user other : Option Str) (w : TrackedWork)
    → IsTracked w
    → Fits x self work_data user w
    → check_tracked_work x later work_data other (marked x self work_data user w)
      ≡ ok (marked x self work_data user w, some duplicate_work)
unfolding check_tracked_work check_rest
check_tracked_work-again x self later work_data user other w v f =
    let w' = marked x self work_data user w in
    let passed = (recorded_iff x work_data w f.new).1 f.room in
    let repeated = repeated_nonce x work_data work_data w w' v.sized passed refl in
    rw (eq→str_eq w.version _ f.version, eq→str_eq w.timestamp _ f.timestamp)
      (rw (repeated, check_rest))

module _ {Node : Type 0} (x : Extern Node) (self : WorkValidator) (v : IsSound self) where
  sound_found :
      (work_data : Str) {slot : Slot} {w : TrackedWork} {searched : WorkValidator}
      → get_tracked_work_by_data self work_data ≡ (some (slot, w), searched)
      → IsTracked w
  sound_found work_data {slot} {w} e =
      Held-IsTracked slot w (subst (FoundIn self) e (search-IsSound self work_data v)).0

  -- A share that was taken is refused as a duplicate when it is submitted again, by anyone.
  pub prevalidate_work_result-again :
      {self' : WorkValidator} (work_result : WorkResult Node) {result' : WorkResult Node}
      (again : WorkResult Node)
      → prevalidate_work_result x self work_result ≡ ok (self', result', none)
      → again.work ≡ work_result.work
      → (s : WorkValidator) × (r : WorkResult Node) × (prevalidate_work_result x self' again
          ≡ ok (s, r, some duplicate_work))
  unfolding prevalidate_work_result prevalidate_found
  prevalidate_work_result-again {self'} work_result {result'} again taken same_work =
      let t = (prevalidate_work_result_iff x self work_result self' result').0 taken in
      let w' = marked x t.searched t.work_data (submitter x work_result) t.w in
      let (s, f) = subst (FoundAgain t.work_data) t.found (found_again t.work_data self) w' refl in
      let is_data : work_item_get_data_hex x again.work ≡ some t.work_data =
        ap (work_item_get_data_hex x) same_work ∙ t.is_data in
      let refused =
        check_tracked_work-again x t.searched s t.work_data (submitter x work_result)
          (submitter x again) t.w (sound_found t.work_data t.found) t.fits in
      (
        store s t.slot (work_data_get_merkle_root_hex t.work_data) w',
        mark_if t.w.possible_stale again,
        rw (is_data, t.sized, t.state, f) (rw refused),
      )
