-- ===== src/Prelude/Memory.antt =====
-- Heap strings: `g_strdup`, `g_new0`, `g_free` and a read through a pointer. An address is never
-- handed out twice, so that a use of freed memory is a fault and not a chance hit on a new block.
use Prim.Native.Nat.{ℕ, suc}
use mathlib.Core.Path.{◌≡◌}
use mathlib.Core.Option.{Option, none, some}
use pool_dance.Prelude.Tests.{Str, ◌==◌, if◌then◌else◌}
use pool_dance.Prelude.Fallible.{Outcome, ok, fault, double_free, use_after_free}

pub record Memory : Type 0 where
  pub next : ℕ
  pub cell : ℕ → Option Str

-- NULL, or an address.
abbrev pub Pointer : Type 0
Pointer = Option ℕ

abbrev pub put : (ℕ → Option Str) → ℕ → Option Str → ℕ → Option Str
put f p v q = if p == q then v else f q

unfoldable pub alloc : Memory → Str → Memory × ℕ
alloc m s = (record { next = suc m.next; cell = put m.cell m.next (some s) }, m.next)

-- `g_free (NULL)` does nothing.
unfoldable pub free : Memory → Pointer → Outcome Memory
free m none = ok m
free m (some p) = elim (m.cell p) [
  | none ↦ fault double_free
  | some s ↦ ok (record m { cell = put m.cell p none })
]

-- A string read through a pointer that may be NULL, as `g_strcmp0` reads it.
unfoldable pub read : Memory → Pointer → Outcome (Option Str)
read m none = ok none
read m (some p) = elim (m.cell p) [ none ↦ fault use_after_free | some s ↦ ok (some s) ]

-- The pointer is NULL, or its block has not been freed.
abbrev pub IsLive : Memory → Pointer → Type 0
IsLive m none = Unit {0}
IsLive m (some p) = (s : Str) × (m.cell p ≡ some s)
