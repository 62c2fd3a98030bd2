-- ===== src/Prelude/Tests.antt =====
-- Boolean tests on the native numbers and on byte strings, and the conditional.
use Prim.Native.Nat.{ℕ, ◌<◌, ◌≤◌, compare, Ordering}
use Prim.Native.Char.{code}
use Prim.Native.String.{String}
use mathlib.Core.Path.{◌≡◌, refl}
use mathlib.Core.Logic.{◌↔◌, ◌⊎◌, inl, inr}
use mathlib.Core.Bool.{Bool, true, false, ◌&&◌}
use mathlib.Core.Option.{Option, none, some}
use mathlib.Core.List.{List, [], ◌∷◌}
use native.Mathlib.Omega.{arith}

abbrev pub ltb : ℕ → ℕ → Bool
ltb a b = elim (compare a b) [ Ordering.lt ↦ true | _ ↦ false ]

abbrev pub leb : ℕ → ℕ → Bool
leb a b = elim (compare a b) [ Ordering.gt ↦ false | _ ↦ true ]

infix 50 ◌==◌
abbrev pub ◌==◌ : ℕ → ℕ → Bool
a == b = elim (compare a b) [ Ordering.eq ↦ true | _ ↦ false ]

infix 1 if◌then◌else◌
abbrev pub if◌then◌else◌ {ℓ} : {A : Type ℓ} → Bool → A → A → A
if true then x else y = x
if false then x else y = y

pub ltb-false_of_le : (a b : ℕ) → b ≤ a → ltb a b ≡ false
ltb-false_of_le a b h = ground arith

pub ltb-true_of_lt : (a b : ℕ) → a < b → ltb a b ≡ true
ltb-true_of_lt a b h = ground arith

pub lt_of_ltb : (a b : ℕ) → ltb a b ≡ true → a < b
lt_of_ltb a b h = ground arith

pub le_of_ltb-false : (a b : ℕ) → ltb a b ≡ false → b ≤ a
le_of_ltb-false a b h = ground arith

pub eq_of_== : (a b : ℕ) → (a == b) ≡ true → a ≡ b
eq_of_== a b h = ground arith

pub Bool-cases : (b : Bool) → (b ≡ true) ⊎ (b ≡ false)
Bool-cases true = inl refl
Bool-cases false = inr refl

pub Option-cases {ℓ} : {A : Type ℓ} (o : Option A) → (o ≡ none) ⊎ ((a : A) × (o ≡ some a))
Option-cases none = inl refl
Option-cases (some a) = inr (a, refl)

pub ==_refl : (a : ℕ) → (a == a) ≡ true
==_refl a = ground arith

-- To prove something of a branch, prove it of both.
pub if_cases {ℓ κ} :
    {A : Type ℓ} (P : A → Type κ) (b : Bool) (x y : A)
    → (b ≡ true → P x)
    → (b ≡ false → P y)
    → P (if b then x else y)
if_cases P true x y yes_case no_case = yes_case refl
if_cases P false x y yes_case no_case = no_case refl

-- A `gchar *` up to its terminating NUL: a list of bytes.
abbrev pub Str : Type 0
Str = List ℕ

-- The bytes of an ASCII literal.
abbrev pub codes : String → Str
codes String.[] = []
codes (String.◌∷◌ c s) = code c ∷ codes s

-- `memcmp (a, b, n) == 0` on two buffers of one length, and `g_str_equal`.
unfoldable pub str_eq : Str → Str → Bool
str_eq [] [] = true
str_eq [] (y ∷ ys) = false
str_eq (x ∷ xs) [] = false
str_eq (x ∷ xs) (y ∷ ys) = (x == y) && str_eq xs ys

pub str_eq→eq : (a b : Str) → str_eq a b ≡ true → a ≡ b
unfolding str_eq
str_eq→eq [] [] h = refl
str_eq→eq [] (y ∷ ys) h = ground arith
str_eq→eq (x ∷ xs) [] h = ground arith
str_eq→eq (x ∷ xs) (y ∷ ys) h = ground (arith, str_eq→eq xs ys)

pub str_eq_refl : (a : Str) → str_eq a a ≡ true
unfolding str_eq
str_eq_refl [] = refl
str_eq_refl (x ∷ xs) = ground (arith, str_eq_refl xs)

pub eq→str_eq : (a b : Str) → a ≡ b → str_eq a b ≡ true
eq→str_eq a b e = ground (arith, str_eq_refl a)

pub str_eq_iff : (a b : Str) → (str_eq a b ≡ true) ↔ (a ≡ b)
str_eq_iff a b = (str_eq→eq a b, eq→str_eq a b)

-- `g_strcmp0 (a, b) == 0`: two NULLs are equal, and NULL differs from every string.
unfoldable pub strcmp0_eq : Option Str → Option Str → Bool
strcmp0_eq none none = true
strcmp0_eq none (some b) = false
strcmp0_eq (some a) none = false
strcmp0_eq (some a) (some b) = str_eq a b

pub strcmp0_eq_iff : (a b : Option Str) → (strcmp0_eq a b ≡ true) ↔ (a ≡ b)
unfolding strcmp0_eq
strcmp0_eq_iff none none = (λ _. refl, λ _. refl)
strcmp0_eq_iff none (some b) = (λ h. cc, λ h. cc)
strcmp0_eq_iff (some a) none = (λ h. cc, λ h. cc)
strcmp0_eq_iff (some a) (some b) =
    (λ h. ground (arith, str_eq→eq a b), λ h. ground (arith, eq→str_eq a b))

pub if_of_true {ℓ κ} :
    {Out : Type ℓ} (P : Out → Type κ) (b : Bool) (left right : Out)
    → b ≡ true
    → P left
    → P (if b then left else right)
if_of_true P true left right e h = h
if_of_true P false left right e h = absurd (cc e)

pub if_of_false {ℓ κ} :
    {Out : Type ℓ} (P : Out → Type κ) (b : Bool) (left right : Out)
    → b ≡ false
    → P right
    → P (if b then left else right)
if_of_false P true left right e h = absurd (cc e)
if_of_false P false left right e h = h
