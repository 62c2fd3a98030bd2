-- ===== src/Prelude/Fallible.antt =====
-- What a piece of C code comes to: a value, or undefined behaviour of a named kind.
use mathlib.Core.Path.{◌≡◌, refl}

pub data Fault : Type 0 where
  null_pointer use_after_free double_free out_of_bounds assertion_failed : Fault

pub data Outcome {ℓ} (V : Type ℓ) : Type ℓ where
  fault : Fault → Outcome V
  ok : V → Outcome V

infixl 5 ◌>>=◌
-- The code after a fault does not run.
abbrev pub ◌>>=◌ {ℓ κ} : {V : Type ℓ} {W : Type κ} → Outcome V → (V → Outcome W) → Outcome W
fault why >>= next = fault why
ok v >>= next = next v

pub >>=-eq-ok {ℓ κ} :
    {V : Type ℓ} {W : Type κ} (first : Outcome V) (next : V → Outcome W) {w : W}
    → (first >>= next) ≡ ok w
    → (v : V) × (first ≡ ok v) × (next v ≡ ok w)
>>=-eq-ok (fault why) next h = cc
>>=-eq-ok (ok v) next h = (v, refl, h)

-- The value, if there is one, has the property.
abbrev pub Ensures {ℓ κ} : {V : Type ℓ} → (V → Type κ) → Outcome V → Type κ
Ensures Q (fault why) = Unit
Ensures Q (ok v) = Q v

pub Ensures-bind {ℓ κ μ ν} :
    {V : Type ℓ} {W : Type κ} (P : V → Type μ) (Q : W → Type ν) (first : Outcome V)
    (next : V → Outcome W)
    → Ensures P first
    → ((v : V) → P v → Ensures Q (next v))
    → Ensures Q (first >>= next)
Ensures-bind P Q (fault why) next h k = tt
Ensures-bind P Q (ok v) next h k = k v h

-- The value is whatever the code makes it.
pub Ensures-any {ℓ κ ν} :
    {V : Type ℓ} {W : Type κ} (Q : W → Type ν) (first : Outcome V) (next : V → Outcome W)
    → ((v : V) → Ensures Q (next v))
    → Ensures Q (first >>= next)
Ensures-any Q (fault why) next k = tt
Ensures-any Q (ok v) next k = k v

pub bind_next {ℓ κ} :
    {V : Type ℓ} {W : Type κ} (first : Outcome V) (f g : V → Outcome W)
    → ((v : V) → f v ≡ g v)
    → (first >>= f) ≡ (first >>= g)
bind_next (fault why) f g same = refl
bind_next (ok v) f g same = same v

pub bind_assoc {ℓ κ μ} :
    {U : Type ℓ} {V : Type κ} {W : Type μ} (first : Outcome U) (f : U → Outcome V)
    (g : V → Outcome W)
    → (first >>= λ u. f u >>= g) ≡ ((first >>= f) >>= g)
bind_assoc (fault why) f g = refl
bind_assoc (ok u) f g = refl

pub Ensures-both {ℓ κ μ} :
    {V : Type ℓ} (P : V → Type κ) (Q : V → Type μ) (first : Outcome V)
    → Ensures P first
    → Ensures Q first
    → Ensures (λ v. P v × Q v) first
Ensures-both P Q (fault why) p q = tt
Ensures-both P Q (ok v) p q = (p, q)
