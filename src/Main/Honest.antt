-- ===== src/Main/Honest.antt =====
-- A miner that solves the work item it was sent has its share accepted.
use pool_dance.Prelude.{◌<◌, ◌≡◌, sym, ap, ◌∙◌, arith, Option, none, some, Str, length, slice, ok}
use pool_dance.Prelude.Memory.{read}
use pool_dance.Extern.{Extern}
use pool_dance.WorkResult.{WorkResult}
use pool_dance.Validator.State.{
  WorkValidator, lookup, work_item_get_data_hex, work_data_get_merkle_root_hex,
}
use pool_dance.Validator.Prevalidate.{submitter}
use pool_dance.Validator.Thread.Solves.{IsDigest, Solves}
use pool_dance.Validator.Sound.{IsSound}
use pool_dance.Main.Served.{IsOwed}
use pool_dance.Main.Acceptance.{verdict, verdict_iff}

-- The two are for one work item: they agree in the merkle root, the version and the timestamp.
pub record IsFor (work_data solution : Str) : Type 0 where
  pub root : work_data_get_merkle_root_hex solution ≡ work_data_get_merkle_root_hex work_data
  pub version : slice 0 8 solution ≡ slice 0 8 work_data
  pub timestamp : slice 136 8 solution ≡ slice 136 8 work_data
  pub sized : length solution ≡ 256

module _ {Node : Type 0} (x : Extern Node) (digest : (s : Str) → IsDigest (x.sha256 s)) (bin : Str)
    (buffer : length bin ≡ 80) (self later : WorkValidator) (sound : IsSound self)
    (target : IsDigest later.target) where
  -- A share is accepted when its work is owed to its user, it is for that work, it names the hash
  -- of the current block, and it solves the work by the later state.
  pub owed-accepted :
      (work_data solution : Str) (user : Option Str) (r : WorkResult Node)
      → IsOwed x self work_data user
      → 0 < r.ref_count
      → work_item_get_data_hex x r.work ≡ some solution
      → IsFor work_data solution
      → submitter x r ≡ user
      → read self.memory self.block_hash ≡ ok (some (slice 8 64 solution))
      → Solves x later r
      → verdict x self later r bin ≡ ok none
  owed-accepted work_data solution user r owed alive is_data for_it by_user parent solves =
      let w = owed.work in
      let root = work_data_get_merkle_root_hex solution in
      let tracked : lookup self.work_by_merkle_root root ≡ some w =
        ap (lookup self.work_by_merkle_root) for_it.root ∙ owed.tracked in
      let current_work = (sound.in_current root w tracked).1 in
      (verdict_iff x digest bin buffer self later sound target r alive).1 (record {
        work_data = solution;
        w = w;
        is_data = is_data;
        sized = for_it.sized;
        tracked = tracked;
        fits = record {
          version = owed.version ∙ sym for_it.version;
          timestamp = owed.timestamp ∙ sym for_it.timestamp;
          new = λ j lt. absurd (omega (arith, owed.unsolved));
          room = omega (arith, owed.unsolved);
          owner = owed.owner ∙ sym by_user;
          parent = rw current_work parent;
        };
        solves = solves;
      })
