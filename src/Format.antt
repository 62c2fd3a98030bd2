-- ===== src/Format.antt =====
-- The formats of g_strdup_printf that the log entries use.
pub mod Fields
pub mod Decimal
use pool_dance.Prelude.{
  ℕ, zero, suc, ◌+◌, ◌-◌, ◌*◌, ◌/◌, ◌%◌, Bool, true, false, Option, none, some, List, [], ◌∷◌, ◌++◌,
  Str, codes, ltb, ◌==◌, if◌then◌else◌,
}

-- `%s`, which prints NULL as glibc does
abbrev pub text : Option Str → Str
text none = codes "(null)"
text (some s) = s

-- `\"%s\"`
unfoldable pub quoted : Str → Str
quoted s = 34 ∷ (s ++ 34 ∷ [])

-- The digits of `n` in front of `s`, at most so many.
unfoldable pub decimal_rounds : ℕ → ℕ → Str → Str
decimal_rounds zero n s = s
decimal_rounds (suc k) n s =
    let rest = decimal_rounds k (n / 10) ((48 + n % 10) ∷ s) in
    if ltb n 10 then (48 + n) ∷ s else rest

-- `%u` and `%lu`: an unsigned long has at most 20 digits.
unfoldable pub decimal : ℕ → Str
decimal n = decimal_rounds 20 n []

-- `%s\t%s\t...`
unfoldable pub tabs : List Str → Str
tabs [] = []
tabs (field ∷ []) = field
tabs (field ∷ next ∷ fields) = field ++ (9 ∷ tabs (next ∷ fields))
