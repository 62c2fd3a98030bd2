-- ===== src/Validator/Sound.antt =====
-- The invariant of the tables of work-validator.c, kept by every operation.
pub mod Repeats
pub mod Operations
pub mod Entry
use pool_dance.Prelude.{
  ℕ, ◌+◌, ◌<◌, ◌≡◌, ◌≢◌, refl, inl, inr, Bool, true, false, Option, none, some, Str, str_eq, ◌==◌,
  if◌then◌else◌, arith, length, length-replicate, ltb, get_or, replicate, slice, Outcome, ok, fault,
  Bool-cases, Option-cases, Ensures, Ensures-bind, Ensures-any, ◌>>=◌, sym, ap, ◌∙◌, List, subst,
  not, strcmp0_eq,
}
use pool_dance.Prelude.Memory.{Memory, Pointer, free, alloc}
use pool_dance.Extern.{Extern}
use pool_dance.WorkResult.{WorkResult}
use pool_dance.Validator.State.{
  GError, TrackedWork, Table, WorkValidator, lookup, insert, work_item_get_data_hex,
  work_data_get_merkle_root_hex, non_null, work_validator_new, track_nonce_max,
}
use pool_dance.Validator.State.Tables.{lookup-insert}
use pool_dance.Validator.Prevalidate.{
  check_merkle_root_and_nonce_is_unique, check_tracked_work, check_rest, check_owner_and_parent,
  Slot, current, previous, store, get_tracked_work_by_data, lookup_prev, prevalidate_work_result,
  prevalidate_found, submitter,
}
use pool_dance.Validator.Prevalidate.Nonces.{
  IsTracked, with_nonce, with_nonce-IsTracked, Uniqueness, repeated, recorded, overflowing,
  check_merkle_root_and_nonce_is_unique-Uniqueness,
}
use pool_dance.Validator.Prevalidate.Search.{as_stale, search_current, search_previous, search_none}
use pool_dance.Validator.Blocks.{
  work_validator_track_work_sent, on_block_hash, HashReply, failed, answered, Rpc,
  work_validator_notify_new_block, work_validator_set_target,
}

-- The property holds of every entry of the table.
abbrev pub Entries : (TrackedWork → Type 0) → Table → Type 0
Entries P t = (k : Str) (w : TrackedWork) → lookup t k ≡ some w → P w

pub insert-Entries :
    (P : TrackedWork → Type 0) (t : Table) (root : Str) (v : TrackedWork)
    → P v
    → Entries P t
    → Entries P (insert t root v)
insert-Entries P t root v pv pt k w e =
    let e' = rw (lookup-insert t root k v) at e in
    elim (Bool-cases (str_eq root k)) [
      | inl hit ↦ let e'' = rw hit at e' in subst P (cc) pv
      | inr miss ↦ pt k w (rw miss at e')
    ]

-- Every tracked work has a well-formed record of nonces, and no work of the current block is
-- marked as possibly stale.
pub record IsSound (self : WorkValidator) : Type 0 where
  pub in_current : Entries (λ w. IsTracked w × (w.possible_stale ≡ false)) self.work_by_merkle_root
  pub in_previous :
      (k : Str) (w : TrackedWork)
      → lookup_prev self.work_by_merkle_root_prev k ≡ some w
      → IsTracked w

module _ {Node : Type 0} (x : Extern Node) where
  -- The record of the work that a check leaves, whatever the check says.
  abbrev pub Keeps : TrackedWork → TrackedWork → Type 0
  Keeps w w' = IsTracked w' × (w'.possible_stale ≡ w.possible_stale)

  check_unique-Keeps :
      (work_data : Str) (w : TrackedWork)
      → IsTracked w
      → Ensures (λ r. Keeps w r.0) (check_merkle_root_and_nonce_is_unique x work_data w)
  check_unique-Keeps work_data w v =
      go (check_merkle_root_and_nonce_is_unique-Uniqueness x work_data w)
    where
      go :
          {m : Outcome (TrackedWork × Option GError)}
          → Uniqueness x work_data w m
          → Ensures (λ r. Keeps w r.0) m
      go (repeated old) = (v, refl)
      go (recorded new room) = (with_nonce-IsTracked w _ v new room, refl)
      go (overflowing new full) = tt

  check_rest-Keeps :
      (self : WorkValidator) (work_data : Str) (user : Option Str) (w : TrackedWork)
      (r : TrackedWork × Option GError)
      → Keeps w r.0
      → Ensures (λ r. Keeps w r.0) (check_rest self work_data user r)
  unfolding check_rest
  check_rest-Keeps self work_data user w (w', some e) k = k
  check_rest-Keeps self work_data user w (w', none) k =
      Ensures-any (λ r. Keeps w r.0) (check_owner_and_parent self work_data user w') _ (λ _. k)

  pub check_tracked_work-Keeps :
      (self : WorkValidator) (work_data : Str) (user : Option Str) (w : TrackedWork)
      → IsTracked w
      → Ensures (λ r. Keeps w r.0) (check_tracked_work x self work_data user w)
  unfolding check_tracked_work
  check_tracked_work-Keeps self work_data user w v =
      elim (Bool-cases (str_eq w.version (slice 0 8 work_data))) [
        | inr differs ↦ rw differs (v, refl)
        | inl version ↦ elim (Bool-cases (str_eq w.timestamp (slice 136 8 work_data))) [
          | inr differs ↦ rw (version, differs) (v, refl)
          | inl timestamp ↦
              rw (version, timestamp)
                (Ensures-bind (λ r. Keeps w r.0) (λ r. Keeps w r.0)
                  (check_merkle_root_and_nonce_is_unique x work_data w)
                  (check_rest self work_data user) (check_unique-Keeps work_data w v)
                  (check_rest-Keeps self work_data user w))
        ]
      ]

-- What an entry has to satisfy in either table.
abbrev pub Held : Slot → TrackedWork → Type 0
Held current w = IsTracked w × (w.possible_stale ≡ false)
Held previous w = IsTracked w

pub store-IsSound :
    (self : WorkValidator) (slot : Slot) (root : Str) (w : TrackedWork)
    → Held slot w
    → IsSound self
    → IsSound (store self slot root w)
unfolding store
store-IsSound self current root w h v = record {
  in_current = insert-Entries (Held current) self.work_by_merkle_root root w h v.in_current;
  in_previous = v.in_previous;
}
store-IsSound self previous root w h v = go self.work_by_merkle_root_prev refl
  where
    go :
        (t : Option Table)
        → self.work_by_merkle_root_prev ≡ t
        → IsSound (store self previous root w)
    go none e = rw (e, store) v
    go (some t) e =
        rw (e, store)
          (record {
            in_current = v.in_current;
            in_previous =
                insert-Entries IsTracked t root w h (λ k w.
                  subst (λ p. lookup_prev p k ≡ some w → IsTracked w) e (v.in_previous k w));
          })

Held-IsTracked : (slot : Slot) (w : TrackedWork) → Held slot w → IsTracked w
Held-IsTracked current w h = h.0
Held-IsTracked previous w h = h

pub Held-Keeps :
    {Node : Type 0} (x : Extern Node) (slot : Slot) (w w' : TrackedWork)
    → Held slot w
    → Keeps x w w'
    → Held slot w'
Held-Keeps x current w w' h k = (k.0, k.1 ∙ h.1)
Held-Keeps x previous w w' h k = k.0

as_stale-IsTracked : (w : TrackedWork) → IsTracked w → IsTracked (as_stale w)
as_stale-IsTracked w v = record { sized = v.sized; within = v.within; distinct = v.distinct }

pub new_work-IsTracked :
    (w : TrackedWork) → w.nonce_count ≡ 0 → w.nonces ≡ replicate track_nonce_max 0 → IsTracked w
new_work-IsTracked w none_yet cleared = record {
  sized = ap length cleared ∙ length-replicate {A = ℕ} track_nonce_max 0;
  within = omega arith;
  distinct = λ i j lt below. absurd (omega arith);
}

-- A search marks at most the work that it finds, and that in the previous table.
abbrev pub FoundIn : WorkValidator → Option (Slot × TrackedWork) × WorkValidator → Type 0
FoundIn self (none, s) = IsSound s
FoundIn self (some (slot, w), s) = Held slot w × IsSound s

pub FoundIn-self :
    (self : WorkValidator) (r : Option (Slot × TrackedWork) × WorkValidator)
    → FoundIn self r
    → FoundIn r.1 (r.0, r.1)
FoundIn-self self (none, s) h = h
FoundIn-self self (some p, s) h = h

search-IsSound :
    (self : WorkValidator) (work_data : Str)
    → IsSound self
    → FoundIn self (get_tracked_work_by_data self work_data)
search-IsSound self work_data v =
    let root : Str = work_data_get_merkle_root_hex work_data in
    elim (Option-cases (lookup self.work_by_merkle_root root)) [
      | inr (w, hit) ↦ rw (search_current self work_data hit) (v.in_current root w hit, v)
      | inl miss ↦ elim (Option-cases (lookup_prev self.work_by_merkle_root_prev root)) [
        | inl gone ↦ rw (search_none self work_data miss gone) v
        | inr (w, hit) ↦
            let held = as_stale-IsTracked w (v.in_previous root w hit) in
            rw (search_previous self work_data miss hit)
              (held, store-IsSound self previous root _ held v)
      ]
    ]
