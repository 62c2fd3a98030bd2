-- ===== src/Witness/HashRuns.antt =====
-- Runs of the theorems about hex digits, hashes and the thread of work-validator.c.
use Prim.Native.Nat.{compare}
use pool_dance.Prelude.{
  ℕ, zero, suc, ◌≡◌, ◌↔◌, refl, false, none, [], ◌∷◌, All, ok, replicate, arith,
}
use pool_dance.WorkResult.{work_result_new}
use pool_dance.Validator.State.{work_validator_new}
use pool_dance.Validator.Hex.{hex_to_bin}
use pool_dance.Validator.Hex.Decode.{decode, Decodes, hex_to_bin-Decodes}
use pool_dance.Validator.Target.{compare_inverted_hashes}
use pool_dance.Validator.Target.Order.{le_value, IsByte, compare_inverted_hashes-compare}
use pool_dance.Validator.Thread.{validate_work_result_in_thread}
use pool_dance.Validator.Thread.Solves.{IsDigest, Solves, validate_work_result_in_thread_iff}
use pool_dance.Witness.{sample, empty_memory, zeros}

zero_bytes : (n : ℕ) → All IsByte (replicate n 0)
zero_bytes zero = tt
zero_bytes (suc n) = (omega arith, zero_bytes n)

pub replicate-IsDigest : IsDigest (replicate 32 0)
replicate-IsDigest = (refl, zero_bytes 32)

compare_inverted_hashes-compare_example :
    compare_inverted_hashes (replicate 32 0) (1 ∷ replicate 31 0)
    ≡ compare (le_value (replicate 32 0)) (le_value (1 ∷ replicate 31 0))
compare_inverted_hashes-compare_example =
    compare_inverted_hashes-compare (replicate 32 0) (1 ∷ replicate 31 0) refl refl (zero_bytes 32)
      (omega arith, zero_bytes 31)

-- The digits of 0a, ff.
hex_to_bin-Decodes_example :
    Decodes []
      (7 ∷ 7 ∷ 7 ∷ [])
      2
      (hex_to_bin (48 ∷ 97 ∷ 102 ∷ 102 ∷ []) 4 (7 ∷ 7 ∷ 7 ∷ []))
      (decode (48 ∷ 97 ∷ 102 ∷ 102 ∷ []))
hex_to_bin-Decodes_example =
    hex_to_bin-Decodes (48 ∷ 97 ∷ 102 ∷ 102 ∷ []) (7 ∷ 7 ∷ 7 ∷ []) 2 refl (omega arith)

validate_work_result_in_thread_iff_example :
    (validate_work_result_in_thread sample
        (replicate 80 0)
        (work_validator_new empty_memory)
        (work_result_new sample false (zeros 256) 3 5)
      ≡ ok none)
    ↔ Solves sample (work_validator_new empty_memory) (work_result_new sample false (zeros 256) 3 5)
unfolding work_validator_new
validate_work_result_in_thread_iff_example =
    validate_work_result_in_thread_iff sample (λ s. replicate-IsDigest) (replicate 80 0) refl
      (work_validator_new empty_memory) replicate-IsDigest
      (work_result_new sample false (zeros 256) 3 5)
