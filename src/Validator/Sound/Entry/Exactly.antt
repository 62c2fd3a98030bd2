-- ===== src/Validator/Sound/Entry/Exactly.antt =====
-- prevalidate_work_result takes exactly the shares that enter a table.
use pool_dance.Prelude.{
  ◌≡◌, sym, ap, subst, ◌∙◌, ◌↔◌, inl, inr, none, some, Str, length, ok, Option-cases,
}
use pool_dance.Extern.{Extern}
use pool_dance.WorkResult.{WorkResult, work_result_mark_stale}
use pool_dance.Validator.State.{
  TrackedWork, Table, WorkValidator, lookup, insert, work_item_get_data_hex,
  work_data_get_merkle_root_hex,
}
use pool_dance.Validator.State.Tables.{insert-insert}
use pool_dance.Validator.Prevalidate.{
  Slot, current, previous, store, lookup_prev, prevalidate_work_result, submitter, mark_if,
  work_data_get_nonce,
}
use pool_dance.Validator.Prevalidate.Nonces.{with_nonce}
use pool_dance.Validator.Prevalidate.Search.{
  as_stale, search_current, search_previous, search_none, store_previous, lookup_prev-table,
}
use pool_dance.Validator.Prevalidate.Accepts.{Fits, marked}
use pool_dance.Validator.Prevalidate.Whole.{Taken, prevalidate_work_result_iff}
use pool_dance.Validator.Sound.{IsSound}
use pool_dance.Validator.Sound.Entry.{Finds, EntersIn}

module _ {Node : Type 0} (x : Extern Node) (self : WorkValidator) (r : WorkResult Node)
    (self' : WorkValidator) (r' : WorkResult Node) where
  -- What Taken says, once the search is known.
  TakenAt : (work_data : Str) → Slot × TrackedWork × WorkValidator → Type 0
  TakenAt work_data z =
      Fits x z.2 work_data (submitter x r) z.1
      × (self'
          ≡ store z.2 z.0 (work_data_get_merkle_root_hex work_data)
              (marked x z.2 work_data (submitter x r) z.1))
      × (r' ≡ mark_if z.1.possible_stale r)

  at_current :
      IsSound self
      → (work_data : Str) (w : TrackedWork) → work_item_get_data_hex x r.work ≡ some work_data
      → length work_data ≡ 256
      → lookup self.work_by_merkle_root (work_data_get_merkle_root_hex work_data) ≡ some w
      → TakenAt work_data (current, w, self)
      → EntersIn x self r self' r' current
  unfolding TakenAt store
  at_current sound work_data w is_data sized hit (fits, state, result) =
      let unmarked = (sound.in_current (work_data_get_merkle_root_hex work_data) w hit).1 in
      let parent = fits.parent in
      record {
        work_data = work_data;
        w = w;
        is_data = is_data;
        sized = sized;
        found = hit;
        version = fits.version;
        timestamp = fits.timestamp;
        new = fits.new;
        room = fits.room;
        owner = fits.owner;
        parent = rw unmarked at parent;
        state = state;
        result = result ∙ ap (λ b. mark_if b r) unmarked;
      }

  -- The table of the block before with its work marked.
  searched : Table → Str → TrackedWork → WorkValidator
  searched t root w = record self { work_by_merkle_root_prev = some (insert t root (as_stale w)) }

  at_previous :
      (work_data : Str) (w : TrackedWork) (t : Table)
      → work_item_get_data_hex x r.work ≡ some work_data
      → length work_data ≡ 256
      → self.work_by_merkle_root_prev ≡ some t
      → Finds self (work_data_get_merkle_root_hex work_data) previous w
      → TakenAt work_data
          (previous, as_stale w, searched t (work_data_get_merkle_root_hex work_data) w)
      → EntersIn x self r self' r' previous
  unfolding TakenAt store searched work_result_mark_stale
  at_previous work_data w t is_data sized table hit (fits, state, result) =
      let root = work_data_get_merkle_root_hex work_data in
      let entry = with_nonce (as_stale w) (work_data_get_nonce x work_data) in
      record {
        work_data = work_data;
        w = w;
        is_data = is_data;
        sized = sized;
        found = hit;
        version = fits.version;
        timestamp = fits.timestamp;
        new = fits.new;
        room = fits.room;
        owner = fits.owner;
        parent = fits.parent;
        state = (
          t,
          table,
          state
              ∙ ap (λ u. record self { work_by_merkle_root_prev = some u })
                  (insert-insert t root (as_stale w) entry),
        );
        result = result;
      }

  taken_at :
      (t : Taken x self r self' r') (z : Slot × TrackedWork × WorkValidator)
      → (t.slot, t.w, t.searched) ≡ z
      → TakenAt t.work_data z
  unfolding TakenAt
  taken_at t z e = subst (TakenAt t.work_data) e (t.fits, t.state, t.result)

  taken-EntersIn :
      IsSound self → Taken x self r self' r' → (slot : Slot) × EntersIn x self r self' r' slot
  unfolding searched
  taken-EntersIn sound t =
      let root = work_data_get_merkle_root_hex t.work_data in
      elim (Option-cases (lookup self.work_by_merkle_root root)) [
        | inr (w, hit) ↦
            let found = sym (t.found) ∙ search_current self t.work_data hit in
            (
              current,
              at_current sound t.work_data w t.is_data t.sized hit
                  (taken_at t (current, w, self) (cc found)),
            )
        | inl miss ↦ elim (Option-cases (lookup_prev self.work_by_merkle_root_prev root)) [
          | inl gone ↦
              let found = sym (t.found) ∙ search_none self t.work_data miss gone in
              absurd (cc found)
          | inr (w, hit) ↦
              let (u, table) = lookup_prev-table self.work_by_merkle_root_prev root hit in
              let found = sym (t.found) ∙ search_previous self t.work_data miss hit in
              let marked_work = store_previous self u root (as_stale w) table in
              (
                previous,
                at_previous t.work_data w u t.is_data t.sized table (miss, hit)
                    (taken_at t (previous, as_stale w, searched u root w)
                      (cc (found, marked_work))),
              )
        ]
      ]

  enters-Taken :
      IsSound self → (slot : Slot) → EntersIn x self r self' r' slot → Taken x self r self' r'
  unfolding store work_result_mark_stale searched
  enters-Taken sound current e =
      let root = work_data_get_merkle_root_hex e.work_data in
      let unmarked = (sound.in_current root e.w e.found).1 in
      record {
        work_data = e.work_data;
        slot = current;
        w = e.w;
        searched = self;
        is_data = e.is_data;
        sized = e.sized;
        found = search_current self e.work_data e.found;
        fits = record {
          version = e.version;
          timestamp = e.timestamp;
          new = e.new;
          room = e.room;
          owner = e.owner;
          parent = rw unmarked e.parent;
        };
        state = e.state;
        result = e.result ∙ sym (ap (λ b. mark_if b r) unmarked);
      }
  enters-Taken sound previous e =
      let root = work_data_get_merkle_root_hex e.work_data in
      let (t, table, state) = e.state in
      let s = searched t root e.w in
      let entry = with_nonce (as_stale e.w) (work_data_get_nonce x e.work_data) in
      let marked_work = store_previous self t root (as_stale e.w) table in
      record {
        work_data = e.work_data;
        slot = previous;
        w = as_stale e.w;
        searched = s;
        is_data = e.is_data;
        sized = e.sized;
        found =
            search_previous self e.work_data e.found.0 e.found.1
            ∙ ap (λ v. (some (previous, as_stale e.w), v)) marked_work;
        fits = record {
          version = e.version;
          timestamp = e.timestamp;
          new = e.new;
          room = e.room;
          owner = e.owner;
          parent = e.parent;
        };
        state =
            state
            ∙ ap (λ u. record self { work_by_merkle_root_prev = some u })
                (sym (insert-insert t root (as_stale e.w) entry));
        result = e.result;
      }

  -- When the tables are well formed, prevalidate_work_result sets no error, with a given new state
  -- and work result, exactly if the share enters one of the tables: that of the current block, or
  -- that of the block before if the first does not have its work.
  pub prevalidate_work_result-EntersIn :
      IsSound self
      → (prevalidate_work_result x self r ≡ ok (self', r', none))
        ↔ ((slot : Slot) × EntersIn x self r self' r' slot)
  prevalidate_work_result-EntersIn sound = (
    λ e. taken-EntersIn sound ((prevalidate_work_result_iff x self r self' r').0 e),
    λ e. (prevalidate_work_result_iff x self r self' r').1 (enters-Taken sound e.0 e.1),
  )
