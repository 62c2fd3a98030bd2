-- ===== src/Format/Decimal.antt =====
-- A number printed in decimal is read back.
use pool_dance.Prelude.{
  ℕ, zero, suc, ◌+◌, ◌-◌, ◌*◌, ◌/◌, ◌%◌, ◌≤◌, ◌<◌, ◌≡◌, refl, ap, ◌∙◌, [], ◌∷◌, Str, arith, All,
  dec_lt, ltb-true_of_lt, ltb-false_of_le,
}
use pool_dance.Format.{decimal_rounds, decimal}

-- The value of a string of digits, after `acc`.
unfoldable pub read_from : ℕ → Str → ℕ
read_from acc [] = acc
read_from acc (c ∷ s) = read_from (acc * 10 + (c - 48)) s

unfoldable pub power : ℕ → ℕ
power zero = 1
power (suc k) = 10 * power k

decimal_rounds-read :
    (k n : ℕ) (s : Str) → n < power k → read_from 0 (decimal_rounds k n s) ≡ read_from n s
unfolding power decimal_rounds read_from
decimal_rounds-read zero n s lt = let none_left : n ≡ 0 = omega arith in rw none_left refl
decimal_rounds-read (suc k) n s lt = elim (dec_lt n 10) [
  | yes small ↦
      let digit : 0 * 10 + (48 + n - 48) ≡ n = omega arith in
      rw (ltb-true_of_lt n 10 small) (ap (λ z. read_from z s) digit)
  | no large ↦
      let whole : n / 10 * 10 + (48 + n % 10 - 48) ≡ n = omega arith in
      let rest = decimal_rounds-read k (n / 10) ((48 + n % 10) ∷ s) (omega arith) in
      rw (ltb-false_of_le n 10 (omega arith)) (rest ∙ ap (λ z. read_from z s) whole)
]

-- A number below 10^20, thus any unsigned long, is read back from its digits.
pub decimal-read : (n : ℕ) → n < power 20 → read_from 0 (decimal n) ≡ n
unfolding decimal read_from
decimal-read n lt = decimal_rounds-read 20 n [] lt

-- The characters are digits.
abbrev pub IsDigit : ℕ → Type 0
IsDigit c = (48 ≤ c) × (c < 58)

decimal_rounds-IsDigit : (k n : ℕ) (s : Str) → All IsDigit s → All IsDigit (decimal_rounds k n s)
unfolding decimal_rounds
decimal_rounds-IsDigit zero n s h = h
decimal_rounds-IsDigit (suc k) n s h = elim (dec_lt n 10) [
  | yes small ↦ rw (ltb-true_of_lt n 10 small) ((omega arith, omega arith), h)
  | no large ↦
      rw (ltb-false_of_le n 10 (omega arith))
        (decimal_rounds-IsDigit k (n / 10) ((48 + n % 10) ∷ s) ((omega arith, omega arith), h))
]

pub decimal-IsDigit : (n : ℕ) → All IsDigit (decimal n)
unfolding decimal
decimal-IsDigit n = decimal_rounds-IsDigit 20 n [] tt
