-- ===== src/Witness.antt =====
-- Runs of the theorems on concrete inputs, and the test data that they share.
pub mod ValidatorRuns
pub mod HashRuns
pub mod LoggerRuns
pub mod ServiceRuns
pub mod MonitorRuns
pub mod ServerRuns
pub mod ServeRuns
pub mod RoundRuns
pub mod CountRuns
pub mod MainRuns
use pool_dance.Prelude.{
  ℕ, ◌+◌, ◌*◌, ◌/◌, ◌%◌, ◌^◌, Bool, true, false, Option, none, some, List, [], ◌∷◌, Str, String,
  codes, replicate, Outcome, ok, fault,
}
use pool_dance.Prelude.Memory.{Memory}
use pool_dance.Extern.{Extern}
use pool_dance.Validator.Hex.{strtoul16}

-- A node is the text of a work item; every request is Alice's, and the digest is made of zeros.
abbrev pub sample : Extern Str
sample = record {
  holds_object = λ node. true;
  object_string = λ node name. some node;
  array_string = λ node i. none;
  set_object_string = λ node name text. node;
  to_text = λ node. node;
  ascii_strtoull16 = λ s. (strtoul16 s).0;
  swap_le_be = λ n.
      n % 2 ^ 8 * 2 ^ 24
      + n / 2 ^ 8 % 2 ^ 8 * 2 ^ 16
      + n / 2 ^ 16 % 2 ^ 8 * 2 ^ 8
      + n / 2 ^ 24 % 2 ^ 8;
  sha256 = λ s. replicate 32 0;
  current_request = λ conn. conn;
  credentials = λ req. (some (codes "alice"), some (codes "secret"));
  remote_address = λ conn. some (codes "192.0.2.1");
  user_agent = λ req. none;
}

abbrev pub empty_memory : Memory
empty_memory = record { next = 0; cell = λ p. none }

-- A string of so many digits 0.
abbrev pub zeros : ℕ → Str
zeros n = replicate n 48

abbrev pub value_or {ℓ} : {A : Type ℓ} → A → Outcome A → A
value_or a (ok b) = b
value_or a (fault e) = a
