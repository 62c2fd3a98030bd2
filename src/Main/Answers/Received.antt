-- ===== src/Main/Answers/Received.antt =====
-- What a submitted share adds to the shares received.
use pool_dance.Prelude.{
  ℕ, zero, suc, ◌+◌, ◌≡◌, refl, ap, ◌∙◌, Bool, false, Option, none, some, List, [], ◌∷◌, ◌++◌, Str,
  ltb, if_cases, ◌==◌, inl, inr, Bool-cases, arith, Ensures, Ensures-any, Ensures-bind, strcmp0_eq,
  codes, get_elem?, remove_at,
}
use pool_dance.Prelude.Bags.{count, count-append}
use pool_dance.Extern.{Extern}
use pool_dance.WorkResult.{WorkResult, work_result_new, work_result_ref}
use pool_dance.PoolServer.{Signal, respond_boolean, enqueue, rpc_on_method_call}
use pool_dance.Validator.State.{non_null}
use pool_dance.Validator.Prevalidate.{Dispatch, work_validator_validate}
use pool_dance.Main.Callbacks.{Pool, Clock, pool_server_on_getwork, pool_server_on_putwork}
use pool_dance.Main.Loop.{method_call, on_signal, with_server, step}
use pool_dance.Main.Shares.{IsSameShare, work_validator_validate-IsSameShare}
use pool_dance.Main.Answers.{answered, answered_by, pending, share_of, tally}

module _ {Node : Type 0} where
  pub answered-append :
      (id other : ℕ) (accepted : Bool) (signals : List (Signal Node))
      → count id (answered (signals ++ respond_boolean other accepted ∷ []))
        ≡ count id (answered signals) + count id (other ∷ [])
  unfolding answered answered_by
  answered-append id other accepted [] = omega arith
  answered-append id other accepted (signal ∷ signals) =
      let ih = answered-append id other accepted signals in
      let more = count-append id (answered_by signal) (answered signals) in
      omega (
        arith,
        ih,
        more,
        count-append id (answered_by signal)
            (answered (signals ++ respond_boolean other accepted ∷ [])),
      )

  pub pending-append :
      (id : ℕ) (vs : List (WorkResult Node × Dispatch)) (v : WorkResult Node × Dispatch)
      → count id (pending (vs ++ v ∷ []))
        ≡ count id (pending vs) + count id (v.0.invocation_id ∷ [])
  unfolding pending
  pending-append id [] v = omega arith
  pending-append id (w ∷ vs) v = omega (arith, pending-append id vs v)

  pub pending-remove_at :
      (id i : ℕ) (vs : List (WorkResult Node × Dispatch)) (v : WorkResult Node × Dispatch)
      → get_elem? vs i ≡ some v
      → count id (pending vs)
        ≡ count id (pending (remove_at i vs)) + count id (v.0.invocation_id ∷ [])
  unfolding pending
  pending-remove_at id i [] v e = absurd (cc e)
  pending-remove_at id zero (w ∷ vs) v e = let same : w ≡ v = cc e in rw same (omega arith)
  pending-remove_at id (suc i) (w ∷ vs) v e = omega (arith, pending-remove_at id i vs v e)

  pub remove_at-beyond :
      (i : ℕ) (vs : List (WorkResult Node × Dispatch)) → get_elem? vs i ≡ none → remove_at i vs ≡ vs
  remove_at-beyond i [] e = refl
  remove_at-beyond zero (w ∷ vs) e = absurd (cc e)
  remove_at-beyond (suc i) (w ∷ vs) e = ap (◌∷◌ w) (remove_at-beyond i vs e)

  -- The state has received what another had, and the shares of a list.
  abbrev pub Receives : Pool Node → List ℕ → Pool Node → Type 0
  Receives self shares s = (id : ℕ) → tally id s ≡ tally id self + count id shares

  pub none_new : (self : Pool Node) → Receives self [] self
  none_new self id = omega arith

module _ {Node : Type 0} (x : Extern Node) (clock : Clock) where
  putwork-Receives :
      (self : Pool Node) (r : WorkResult Node)
      → Ensures (Receives self (r.invocation_id ∷ [])) (pool_server_on_putwork x clock self r)
  unfolding pool_server_on_putwork work_result_ref
  putwork-Receives self r =
      Ensures-bind (λ z. IsSameShare x (work_result_ref r) z.1)
        (Receives self (r.invocation_id ∷ []))
        (work_validator_validate x self.services.work_validator r) _
        (work_validator_validate-IsSameShare x self.services.work_validator r)
        λ z same id.
          let is : z.1.invocation_id ≡ r.invocation_id = same.invocation_id ∙ ref_id in
          omega
            (arith, pending-append id self.validations (z.1, z.2), ap (λ i. count id (i ∷ [])) is)
    where
      ref_id : (work_result_ref r).invocation_id ≡ r.invocation_id
      ref_id =
          if_cases {A = WorkResult Node} (λ s. s.invocation_id ≡ r.invocation_id)
            (ltb 0 r.ref_count) (record r { ref_count = r.ref_count + 1 }) r (λ _. refl) (λ _. refl)

  pub call-Receives :
      (self : Pool Node) (method_name : Option Str) (params : Node)
      (params_length invocation_id conn : ℕ) (garbage : Bool)
      → Ensures
          (Receives self
            (share_of (method_call method_name params params_length invocation_id conn garbage)))
          (step x clock self
            (method_call method_name params params_length invocation_id conn garbage))
  unfolding step rpc_on_method_call on_signal share_of pool_server_on_getwork work_result_new
  call-Receives self method_name params params_length invocation_id conn garbage =
      elim (Bool-cases (strcmp0_eq method_name (some (codes "getwork")))) [
        | inr other ↦ rw other (none_new self)
        | inl getwork ↦ elim (Bool-cases (params_length == 0)) [
          | inl asks ↦
              rw (getwork, asks)
                (Ensures-any (Receives self [])
                  (non_null (
                    (enqueue x self.services.pool_server invocation_id conn false).0.requests
                      (enqueue x self.services.pool_server invocation_id conn false).1))
                  _ (λ _. none_new self))
          | inr submits ↦
              rw (getwork, submits)
                (putwork-Receives (with_server self self.services.pool_server)
                  (work_result_new x garbage params invocation_id conn))
        ]
      ]
