-- ===== src/Prelude/Lists.antt =====
-- Lists measured and indexed by native numbers, under the library's names.
use Prim.Native.Nat.{ℕ, zero, suc, ◌+◌, ◌-◌, ◌≤◌, min}
use mathlib.Core.Path.{◌≡◌, refl, ap}
use mathlib.Core.List.{List, [], ◌∷◌, ◌++◌}
use mathlib.Core.Option.{Option, none, some}
use mathlib.Core.Bool.{Bool, true, false}
use native.Mathlib.Omega.{arith}
use pool_dance.Prelude.Tests.{◌==◌, if◌then◌else◌}

module _ {ℓ} {A : Type ℓ} where
  abbrev pub length : List A → ℕ
  length [] = 0
  length (x ∷ xs) = suc (length xs)

  abbrev pub get_elem? : List A → ℕ → Option A
  get_elem? [] i = none
  get_elem? (x ∷ xs) zero = some x
  get_elem? (x ∷ xs) (suc i) = get_elem? xs i

  abbrev pub get_or : List A → ℕ → A → A
  get_or [] i d = d
  get_or (x ∷ xs) zero d = x
  get_or (x ∷ xs) (suc i) d = get_or xs i d

  -- A write out of bounds changes nothing here; the callers fault before it.
  abbrev pub set : List A → ℕ → A → List A
  set [] i v = []
  set (x ∷ xs) zero v = v ∷ xs
  set (x ∷ xs) (suc i) v = x ∷ set xs i v

  -- The list without the element at an index.
  abbrev pub remove_at : ℕ → List A → List A
  remove_at i [] = []
  remove_at zero (x ∷ xs) = xs
  remove_at (suc i) (x ∷ xs) = x ∷ remove_at i xs

  abbrev pub take : ℕ → List A → List A
  take zero xs = []
  take (suc n) [] = []
  take (suc n) (x ∷ xs) = x ∷ take n xs

  abbrev pub drop : ℕ → List A → List A
  drop zero xs = xs
  drop (suc n) [] = []
  drop (suc n) (x ∷ xs) = drop n xs

  abbrev pub replicate : ℕ → A → List A
  replicate zero a = []
  replicate (suc n) a = a ∷ replicate n a

-- `memcpy (buf, s + from, n)`.
abbrev pub slice {ℓ} : {A : Type ℓ} → ℕ → ℕ → List A → List A
slice from n xs = take n (drop from xs)

module _ {ℓ} {A : Type ℓ} where
  pub length-append : (xs ys : List A) → length (xs ++ ys) ≡ length xs + length ys
  length-append [] ys = omega arith
  length-append (x ∷ xs) ys = omega (arith, length-append xs ys)

  pub length-set : (xs : List A) (i : ℕ) (v : A) → length (set xs i v) ≡ length xs
  length-set [] i v = refl
  length-set (x ∷ xs) zero v = refl
  length-set (x ∷ xs) (suc i) v = ap suc (length-set xs i v)

  pub take-append-drop : (n : ℕ) (xs : List A) → take n xs ++ drop n xs ≡ xs
  take-append-drop zero xs = refl
  take-append-drop (suc n) [] = refl
  take-append-drop (suc n) (x ∷ xs) = ap (◌∷◌ x) (take-append-drop n xs)

  pub length-take : (n : ℕ) (xs : List A) → length (take n xs) ≡ min n (length xs)
  length-take zero xs = omega arith
  length-take (suc n) [] = omega arith
  length-take (suc n) (x ∷ xs) = omega (arith, length-take n xs)

  pub length-drop : (n : ℕ) (xs : List A) → length (drop n xs) ≡ length xs - n
  length-drop zero xs = omega arith
  length-drop (suc n) [] = omega arith
  length-drop (suc n) (x ∷ xs) = omega (arith, length-drop n xs)

  pub length-replicate : (n : ℕ) (a : A) → length (replicate n a) ≡ n
  length-replicate zero a = refl
  length-replicate (suc n) a = ap suc (length-replicate n a)

-- Behind a prefix, with the index as a variable.
module _ {ℓ} {A : Type ℓ} where
  pub set-append :
      (pre s : List A) (i k : ℕ) (v : A)
      → i ≡ length pre + k
      → set (pre ++ s) i v ≡ pre ++ set s k v
  set-append [] s i k v e = let e' : i ≡ k = omega arith in rw e'
  set-append (x ∷ pre) s zero k v e = absurd (omega arith)
  set-append (x ∷ pre) s (suc i) k v e = ap (◌∷◌ x) (set-append pre s i k v (omega arith))

  pub drop-append : (pre s : List A) (i k : ℕ) → i ≡ length pre + k → drop i (pre ++ s) ≡ drop k s
  drop-append [] s i k e = let e' : i ≡ k = omega arith in rw e'
  drop-append (x ∷ pre) s zero k e = absurd (omega arith)
  drop-append (x ∷ pre) s (suc i) k e = drop-append pre s i k (omega arith)

  pub take-append : (pre s : List A) (n : ℕ) → n ≡ length pre → take n (pre ++ s) ≡ pre
  take-append [] s zero e = refl
  take-append [] s (suc n) e = absurd (omega arith)
  take-append (x ∷ pre) s zero e = absurd (omega arith)
  take-append (x ∷ pre) s (suc n) e = ap (◌∷◌ x) (take-append pre s n (omega arith))

-- Within a prefix.
module _ {ℓ} {A : Type ℓ} where
  pub take-append_le : (n : ℕ) (xs ys : List A) → n ≤ length xs → take n (xs ++ ys) ≡ take n xs
  take-append_le zero xs ys h = refl
  take-append_le (suc n) [] ys h = absurd (omega arith)
  take-append_le (suc n) (x ∷ xs) ys h = ap (◌∷◌ x) (take-append_le n xs ys (omega arith))

  pub drop-append_le :
      (n : ℕ) (xs ys : List A) → n ≤ length xs → drop n (xs ++ ys) ≡ drop n xs ++ ys
  drop-append_le zero xs ys h = refl
  drop-append_le (suc n) [] ys h = absurd (omega arith)
  drop-append_le (suc n) (x ∷ xs) ys h = drop-append_le n xs ys (omega arith)

  pub drop-drop : (a b : ℕ) (xs : List A) (n : ℕ) → n ≡ b + a → drop a (drop b xs) ≡ drop n xs
  drop-drop a zero xs n e = let e' : n ≡ a = omega arith in rw e'
  drop-drop zero (suc b) [] zero e = refl
  drop-drop zero (suc b) [] (suc n) e = refl
  drop-drop (suc a) (suc b) [] zero e = refl
  drop-drop (suc a) (suc b) [] (suc n) e = refl
  drop-drop a (suc b) (x ∷ xs) zero e = absurd (omega arith)
  drop-drop a (suc b) (x ∷ xs) (suc n) e = drop-drop a b xs n (omega arith)

  pub take_all : (n : ℕ) (xs : List A) → length xs ≡ n → take n xs ≡ xs
  take_all zero [] e = refl
  take_all zero (x ∷ xs) e = absurd (omega arith)
  take_all (suc n) [] e = refl
  take_all (suc n) (x ∷ xs) e = ap (◌∷◌ x) (take_all n xs (omega arith))

  pub drop_all : (n : ℕ) (xs : List A) → length xs ≡ n → drop n xs ≡ []
  drop_all zero [] e = refl
  drop_all zero (x ∷ xs) e = absurd (omega arith)
  drop_all (suc n) [] e = refl
  drop_all (suc n) (x ∷ xs) e = drop_all n xs (omega arith)

-- A predicate at every element.
abbrev pub All {ℓ κ} : {Item : Type ℓ} → (Item → Type κ) → List Item → Type κ
All holds [] = Unit
All holds (item ∷ items) = holds item × All holds items

abbrev pub contains : ℕ → List ℕ → Bool
contains n [] = false
contains n (item ∷ items) = if item == n then true else contains n items

-- The list without the first occurrence.
abbrev pub remove : ℕ → List ℕ → List ℕ
remove n [] = []
remove n (item ∷ items) = if item == n then items else item ∷ remove n items
