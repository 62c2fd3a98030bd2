-- ===== src/Witness/CountRuns.antt =====
-- A run of the theorem about the reference counts, in which one decrement is lost.
use pool_dance.Prelude.{refl, false, [], ◌∷◌, arith}
use pool_dance.RefCount.{
  loaded, dropped, Shared, reads, exchanges, refs, Reaches, here, onwards, new_shared,
}
use pool_dance.RefCount.Safe.{IsCounted, Reaches-IsCounted, new_shared-IsCounted}

-- Both owners read 2; the exchange of the second finds 1, and changes nothing.
abbrev leaked : Shared
leaked = record { ref_count = 1; owners = dropped ∷ dropped ∷ []; freed = false }

both_read :
    Reaches new_shared (record { ref_count = 2; owners = loaded 2 ∷ loaded 2 ∷ []; freed = false })
both_read = onwards (onwards (onwards here (refs 0 refl)) (reads 0 refl)) (reads 1 refl)

leaks : Reaches new_shared leaked
leaks =
    onwards (onwards both_read (exchanges 0 2 refl (omega arith)))
      (exchanges 1 2 refl (omega arith))

Reaches-IsCounted_example : IsCounted leaked
Reaches-IsCounted_example = Reaches-IsCounted leaks new_shared-IsCounted
