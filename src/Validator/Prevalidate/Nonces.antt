-- ===== src/Validator/Prevalidate/Nonces.antt =====
-- The record of nonces of one work item: what counts as a repetition, and where the array ends.
use pool_dance.Prelude.{
  ℕ, zero, suc, ◌+◌, ◌≤◌, ◌<◌, ◌≡◌, ◌≢◌, refl, ◌↔◌, true, false, Option, none, some, List, [], ◌∷◌,
  Str, arith, ℕ_discrete, ltb, length, get_or, set, length-set, Outcome, ok, fault, out_of_bounds,
  Bool-cases, inl, inr, subst,
}
use pool_dance.Extern.{Extern}
use pool_dance.Validator.State.{GError, TrackedWork, track_nonce_max}
use pool_dance.Validator.Prevalidate.{
  is_recorded_from, work_data_get_nonce, check_merkle_root_and_nonce_is_unique, duplicate_work,
}

is_recorded_from-none :
    (n i nonce : ℕ) (nonces : List ℕ)
    → is_recorded_from n i nonce nonces ≡ false
    → (j : ℕ) → i ≤ j
    → j < i + n
    → nonce ≢ get_or nonces j 0
unfolding is_recorded_from
is_recorded_from-none zero i nonce nonces h j lo hi = absurd (omega arith)
is_recorded_from-none (suc n) i nonce nonces h j lo hi = elim (ℕ_discrete i j) [
  | yes here ↦ ground arith
  | no later ↦
      is_recorded_from-none n (i + 1) nonce nonces (ground arith) j (omega arith) (omega arith)
]

is_recorded_from-false :
    (n i nonce : ℕ) (nonces : List ℕ)
    → ((j : ℕ) → i ≤ j → j < i + n → nonce ≢ get_or nonces j 0)
    → is_recorded_from n i nonce nonces ≡ false
unfolding is_recorded_from
is_recorded_from-false zero i nonce nonces h = refl
is_recorded_from-false (suc n) i nonce nonces h =
    let here : nonce ≢ get_or nonces i 0 = h i (omega arith) (omega arith) in
    let rest : is_recorded_from n (i + 1) nonce nonces ≡ false =
      is_recorded_from-false n (i + 1) nonce nonces (λ j lo hi. h j (omega arith) (omega arith)) in
    ground arith

-- The nonce is not one of those recorded for the work.
abbrev pub IsNew : ℕ → TrackedWork → Type 0
IsNew nonce w = (j : ℕ) → j < w.nonce_count → nonce ≢ get_or w.nonces j 0

pub is_recorded_iff :
    (nonce : ℕ) (w : TrackedWork)
    → (is_recorded_from w.nonce_count 0 nonce w.nonces ≡ false) ↔ IsNew nonce w
is_recorded_iff nonce w = (
  λ h j lt. is_recorded_from-none w.nonce_count 0 nonce w.nonces h j (omega arith) (omega arith),
  λ h. is_recorded_from-false w.nonce_count 0 nonce w.nonces (λ j lo hi. h j (omega arith)),
)

-- The array has its size, the count stays inside, and no nonce is recorded twice.
pub record IsTracked (w : TrackedWork) : Type 0 where
  pub sized : length w.nonces ≡ track_nonce_max
  pub within : w.nonce_count ≤ track_nonce_max
  pub distinct : (i j : ℕ) → i < j → j < w.nonce_count → get_or w.nonces j 0 ≢ get_or w.nonces i 0

get_or-set_self : (xs : List ℕ) (i v : ℕ) → i < length xs → get_or (set xs i v) i 0 ≡ v
get_or-set_self [] i v h = absurd (omega arith)
get_or-set_self (x ∷ xs) zero v h = refl
get_or-set_self (x ∷ xs) (suc i) v h = get_or-set_self xs i v (omega arith)

get_or-set_ne : (xs : List ℕ) (i j v : ℕ) → i ≢ j → get_or (set xs i v) j 0 ≡ get_or xs j 0
get_or-set_ne [] i j v h = refl
get_or-set_ne (x ∷ xs) zero zero v h = absurd (h refl)
get_or-set_ne (x ∷ xs) zero (suc j) v h = refl
get_or-set_ne (x ∷ xs) (suc i) zero v h = refl
get_or-set_ne (x ∷ xs) (suc i) (suc j) v h = get_or-set_ne xs i j v (λ e. h (omega arith))

-- The work with one more nonce.
abbrev pub with_nonce : TrackedWork → ℕ → TrackedWork
with_nonce w nonce = record w {
  nonces = set w.nonces w.nonce_count nonce;
  nonce_count = w.nonce_count + 1;
}

pub with_nonce-IsTracked :
    (w : TrackedWork) (nonce : ℕ)
    → IsTracked w
    → IsNew nonce w
    → w.nonce_count < track_nonce_max
    → IsTracked (with_nonce w nonce)
with_nonce-IsTracked w nonce v new room = record {
  sized = omega (arith, length-set w.nonces w.nonce_count nonce, v.sized);
  within = omega arith;
  distinct = λ i j lt below. elim (ℕ_discrete j w.nonce_count) [
    | yes last ↦
        let at_i = get_or-set_ne w.nonces w.nonce_count i nonce (omega arith) in
        let at_j = get_or-set_self w.nonces w.nonce_count nonce (omega (arith, v.sized)) in
        rw (last, at_i, at_j) (new i (omega arith))
    | no earlier ↦
        let at_i = get_or-set_ne w.nonces w.nonce_count i nonce (omega arith) in
        let at_j = get_or-set_ne w.nonces w.nonce_count j nonce (omega arith) in
        rw (at_i, at_j) (v.distinct i j lt (omega arith))
  ];
}

module _ {Node : Type 0} (x : Extern Node) (work_data : Str) (w : TrackedWork) where
  abbrev nonce : ℕ
  nonce = work_data_get_nonce x work_data

  -- The three ways in which check_merkle_root_and_nonce_is_unique ends: a nonce that is recorded is
  -- a duplicate, a new one is recorded while there is room, and after that it is written out of
  -- bounds.
  pub data Uniqueness : Outcome (TrackedWork × Option GError) → Type 0 where
    repeated : ¬ IsNew nonce w → Uniqueness (ok (w, some duplicate_work))
    recorded :
        IsNew nonce w → w.nonce_count < track_nonce_max → Uniqueness (ok (with_nonce w nonce, none))
    overflowing : IsNew nonce w → track_nonce_max ≤ w.nonce_count → Uniqueness (fault out_of_bounds)

  -- check_merkle_root_and_nonce_is_unique ends in one of the three ways, whatever the work and the
  -- share.
  pub check_merkle_root_and_nonce_is_unique-Uniqueness :
      Uniqueness (check_merkle_root_and_nonce_is_unique x work_data w)
  unfolding check_merkle_root_and_nonce_is_unique
  check_merkle_root_and_nonce_is_unique-Uniqueness =
      elim (Bool-cases (is_recorded_from w.nonce_count 0 nonce w.nonces)) [
        | inl old ↦ rw old (repeated (λ new. cc ((is_recorded_iff nonce w).1 new)))
        | inr fresh ↦
            let new = (is_recorded_iff nonce w).0 fresh in
            elim (Bool-cases (ltb w.nonce_count track_nonce_max)) [
              | inl room ↦ rw (fresh, room) (recorded new (ground arith))
              | inr full ↦ rw (fresh, full) (overflowing new (ground arith))
            ]
      ]

  -- A work result is a duplicate exactly if its nonce is among those recorded.
  pub duplicate_iff :
      (check_merkle_root_and_nonce_is_unique x work_data w ≡ ok (w, some duplicate_work))
      ↔ (is_recorded_from w.nonce_count 0 nonce w.nonces ≡ true)
  unfolding check_merkle_root_and_nonce_is_unique
  duplicate_iff = (λ h. ground arith, λ h. ground arith)

  -- A new nonce is recorded, without a fault, exactly while the array has room.
  pub recorded_iff :
      IsNew nonce w
      → (check_merkle_root_and_nonce_is_unique x work_data w ≡ ok (with_nonce w nonce, none))
        ↔ (w.nonce_count < track_nonce_max)
  unfolding check_merkle_root_and_nonce_is_unique
  recorded_iff new =
      let fresh = (is_recorded_iff nonce w).1 new in (λ h. ground arith, λ h. ground arith)

  -- What a check that passes says, and what it leaves.
  pub record Passed (w' : TrackedWork) : Type 0 where
    pub new : IsNew nonce w
    pub room : w.nonce_count < track_nonce_max
    pub result : w' ≡ with_nonce w nonce

  pub check_merkle_root_and_nonce_is_unique-Passed :
      {w' : TrackedWork}
      → check_merkle_root_and_nonce_is_unique x work_data w ≡ ok (w', none)
      → Passed w'
  unfolding check_merkle_root_and_nonce_is_unique
  check_merkle_root_and_nonce_is_unique-Passed e = record {
    new = (is_recorded_iff nonce w).0 (ground arith);
    room = ground arith;
    result = ground arith;
  }

-- A check that passes makes every later result of the same nonce a duplicate.
pub repeated_nonce :
    {Node : Type 0} (x : Extern Node) (work_data again : Str) (w w' : TrackedWork)
    → length w.nonces ≡ track_nonce_max
    → check_merkle_root_and_nonce_is_unique x work_data w ≡ ok (w', none)
    → work_data_get_nonce x again ≡ work_data_get_nonce x work_data
    → check_merkle_root_and_nonce_is_unique x again w' ≡ ok (w', some duplicate_work)
repeated_nonce x work_data again w w' sized e same =
    let p = check_merkle_root_and_nonce_is_unique-Passed x work_data w e in
    (duplicate_iff x again w').1
      (elim (Bool-cases
        (is_recorded_from w'.nonce_count 0 (work_data_get_nonce x again) w'.nonces)) [
          | inl hit ↦ hit
          | inr miss ↦
              let new : IsNew (work_data_get_nonce x again) w' = (is_recorded_iff _ w').0 miss in
              let n : ℕ = work_data_get_nonce x work_data in
              let at_last =
                get_or-set_self w.nonces w.nonce_count n (omega (arith, sized, p.room)) in
              absurd (
                subst (IsNew (work_data_get_nonce x again)) p.result new w.nonce_count (omega arith)
                  (rw (at_last, same)))
        ])
