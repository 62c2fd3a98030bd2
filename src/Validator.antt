-- ===== src/Validator.antt =====
-- work-validator.c: which shares a miner may submit. The children hold the hex and hash helpers,
-- the validator's state and its operations.
pub mod Hex
pub mod Target
pub mod State
pub mod Prevalidate
pub mod Thread
pub mod Blocks
pub mod Sound
pub mod Machine
