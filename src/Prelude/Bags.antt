-- ===== src/Prelude/Bags.antt =====
-- Lists of which only the items count and how often each occurs, not their order: a quotient.
use Prim.Native.Nat.{ℕ, zero, suc, ◌+◌}
use mathlib.Core.Path.{◌≡◌, ap}
use mathlib.Core.Option.{some}
use mathlib.Core.List.{List, [], ◌∷◌, ◌++◌}
use mathlib.Core.Quot
use mathlib.Core.Quot.{Quot}
use native.Mathlib.Nat.{ℕ_set}
use native.Mathlib.Omega.{arith}
use pool_dance.Prelude.Tests.{◌==◌, if◌then◌else◌}
use pool_dance.Prelude.Lists.{get_elem?, remove_at}

-- How often an item occurs.
abbrev pub count : ℕ → List ℕ → ℕ
count item [] = 0
count item (first ∷ rest) = (if first == item then 1 else 0) + count item rest

abbrev SameItems : List ℕ → List ℕ → Type 0
SameItems left right = (item : ℕ) → count item left ≡ count item right

abbrev pub Bag : Type 0
Bag = Quot SameItems

unfoldable pub bag : List ℕ → Bag
bag items = Quot.mk items

pub bag-eq : (left right : List ℕ) → SameItems left right → bag left ≡ bag right
unfolding bag
bag-eq left right same = Quot.sound same

-- Equal bags hold each item equally often.
pub count-bag :
    (item : ℕ) (left right : List ℕ) → bag left ≡ bag right → count item left ≡ count item right
unfolding bag
count-bag item left right e = ap (Quot.lift ℕ_set (count item) (λ _ _ same. same item)) e

pub count-append :
    (item : ℕ) (left right : List ℕ)
    → count item (left ++ right) ≡ count item left + count item right
count-append item [] right = omega arith
count-append item (first ∷ left) right = omega (arith, count-append item left right)

-- One occurrence less of what is taken out at an index.
pub count-remove_at :
    (item : ℕ) (items : List ℕ) (i found : ℕ)
    → get_elem? items i ≡ some found
    → count item items ≡ count item (remove_at i items) + count item (found ∷ [])
count-remove_at item [] i found e = absurd (cc e)
count-remove_at item (first ∷ items) zero found e =
    let same : first ≡ found = cc e in rw same (omega arith)
count-remove_at item (first ∷ items) (suc i) found e =
    omega (arith, count-remove_at item items i found e)
