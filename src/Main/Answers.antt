-- ===== src/Main/Answers.antt =====
-- Which submitted shares main.c has answered, which it has yet to answer, and which events bring
-- one.
pub mod Received
pub mod Others
pub mod Steps
use pool_dance.Prelude.{
  ℕ, ◌+◌, ◌≡◌, Bool, true, false, not, Option, none, some, List, [], ◌∷◌, ◌++◌, Str, codes,
  strcmp0_eq, ◌==◌, if◌then◌else◌, arith,
}
use pool_dance.Prelude.Bags.{count, count-append}
use pool_dance.WorkResult.{WorkResult}
use pool_dance.PoolServer.{Signal, respond_boolean}
use pool_dance.Validator.Prevalidate.{Dispatch}
use pool_dance.Main.Callbacks.{Pool}
use pool_dance.Main.Loop.{Event, method_call}

module _ {Node : Type 0} where
  -- The invocation that a signal answers with a Boolean.
  unfoldable pub answered_by : Signal Node → List ℕ
  answered_by (respond_boolean invocation_id accepted) = invocation_id ∷ []
  answered_by other = []

  unfoldable pub answered : List (Signal Node) → List ℕ
  answered [] = []
  answered (signal ∷ signals) = answered_by signal ++ answered signals

  unfoldable pub pending : List (WorkResult Node × Dispatch) → List ℕ
  pending [] = []
  pending (v ∷ vs) = v.0.invocation_id ∷ pending vs

  -- The shares received: answered, or under validation.
  abbrev pub received : Pool Node → List ℕ
  received self = answered self.responses ++ pending self.validations

  -- A call of getwork with parameters is a share.
  unfoldable pub share_of : Event Node → List ℕ
  share_of (method_call method_name params params_length invocation_id conn garbage) =
      if not (strcmp0_eq method_name (some (codes "getwork")))
      then []
      else if params_length == 0
      then []
      else invocation_id ∷ []
  share_of other = []

  unfoldable pub shares_of : List (Event Node) → List ℕ
  shares_of [] = []
  shares_of (e ∷ es) = share_of e ++ shares_of es

  -- How often an invocation was received.
  abbrev pub tally : ℕ → Pool Node → ℕ
  tally id self = count id (answered self.responses) + count id (pending self.validations)

  pub count-received : (id : ℕ) (self : Pool Node) → count id (received self) ≡ tally id self
  count-received id self = count-append id (answered self.responses) (pending self.validations)
