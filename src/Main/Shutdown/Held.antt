-- ===== src/Main/Shutdown/Held.antt =====
-- What main.c holds, and that the clean-up releases it.
use pool_dance.Prelude.{
  ℕ, zero, suc, false, ◌+◌, ◌-◌, ◌≤◌, ◌≡◌, refl, ap, ap₂, ◌∙◌, arith, Option, none, some, ok,
  Ensures, Ensures-any, Ensures-bind,
}
use pool_dance.Prelude.Memory.{Memory}
use pool_dance.Upstream.{UpstreamService}
use pool_dance.PoolServer.{PoolServer}
use pool_dance.PoolServer.Tidy.{IsTidy}
use pool_dance.PoolServer.Freed.{pool_server_free-frees}
use pool_dance.BlockMonitor.{BlockMonitor}
use pool_dance.Validator.State.{WorkValidator, work_validator_free}
use pool_dance.Main.Startup.{Process, nothing}
use pool_dance.Main.Shutdown.{
  unref_rpc, free_upstream_service, free_block_monitor, free_pool_server, free_work_validator,
  clean_up,
}

-- One reference on the client for each component that is there.
abbrev pub one {ℓ} : {A : Type ℓ} → Option A → ℕ
one none = 0
one (some a) = 1

-- The validator can be freed: no hash of a block is freed twice.
abbrev pub IsFreeable : WorkValidator → Type 0
IsFreeable validator = (memory : Memory) × (work_validator_free validator ≡ ok memory)

abbrev pub Each {ℓ κ} : {A : Type ℓ} → (A → Type κ) → Option A → Type κ
Each P none = Unit
Each P (some a) = P a

module _ {Node : Type 0} where
  pub record IsHeld (self : Process Node) : Type 0 where
    pub refs :
        self.rpc_refs ≡ one self.upstream_service + one self.block_monitor + one self.work_validator
    pub server : Each IsTidy self.pool_server
    pub validator : Each IsFreeable self.work_validator

  unref_rpc-one :
      (self : Process Node) (n : ℕ)
      → 1 ≤ n
      → unref_rpc self n ≡ ok (record self { rpc_refs = n - 1 })
  unfolding unref_rpc
  unref_rpc-one self zero le = absurd (omega arith)
  unref_rpc-one self (suc n) le =
      let same : n ≡ suc n - 1 = omega arith in ap (λ k. ok (record self { rpc_refs = k })) same

  freed_upstream_service :
      (self : Process Node) (o : Option (UpstreamService Node))
      → self.upstream_service ≡ o
      → one o ≤ self.rpc_refs
      → free_upstream_service self o
        ≡ ok (record self { upstream_service = none; rpc_refs = self.rpc_refs - one o })
  unfolding free_upstream_service
  freed_upstream_service self none e le =
      ap₂ (λ u n. ok (record self { upstream_service = u; rpc_refs = n })) e (omega arith)
  freed_upstream_service self (some service) e le =
      unref_rpc-one (record self { upstream_service = none }) self.rpc_refs le

  freed_block_monitor :
      (self : Process Node) (o : Option BlockMonitor)
      → self.block_monitor ≡ o
      → one o ≤ self.rpc_refs
      → free_block_monitor self o
        ≡ ok (record self { block_monitor = none; rpc_refs = self.rpc_refs - one o })
  unfolding free_block_monitor
  freed_block_monitor self none e le =
      ap₂ (λ m n. ok (record self { block_monitor = m; rpc_refs = n })) e (omega arith)
  freed_block_monitor self (some monitor) e le =
      unref_rpc-one (record self { block_monitor = none }) self.rpc_refs le

  freed_pool_server :
      (self : Process Node) (o : Option PoolServer)
      → self.pool_server ≡ o
      → Each IsTidy o
      → free_pool_server self o ≡ ok (record self { pool_server = none })
  unfolding free_pool_server
  freed_pool_server self none e tidy = ap (λ s. ok (record self { pool_server = s })) e
  freed_pool_server self (some server) e tidy =
      let (left, freed, gone) = pool_server_free-frees server tidy in rw freed refl

  freed_work_validator :
      (self : Process Node) (o : Option WorkValidator)
      → self.work_validator ≡ o
      → one o ≤ self.rpc_refs
      → Each IsFreeable o
      → free_work_validator self o
        ≡ ok (record self { work_validator = none; rpc_refs = self.rpc_refs - one o })
  unfolding free_work_validator
  freed_work_validator self none e le freeable =
      ap₂ (λ v n. ok (record self { work_validator = v; rpc_refs = n })) e (omega arith)
  freed_work_validator self (some validator) e le (memory, freed) =
      rw (unref_rpc-one (record self { work_validator = none }) self.rpc_refs le) (rw freed refl)

  -- When each component that is there holds its reference on the client, the requests are well
  -- formed and the validator can be freed, the clean-up frees every component once and leaves
  -- nothing.
  pub clean_up-nothing : (self : Process Node) → IsHeld self → clean_up self ≡ ok nothing
  unfolding clean_up
  clean_up-nothing self v =
      let u = self.upstream_service in
      let m = self.block_monitor in
      let s = self.pool_server in
      let w = self.work_validator in
      let n = self.rpc_refs in
      let p : Process Node = record self { settings = none; config = none; evd_daemon = false } in
      let p1 : Process Node = record p { upstream_service = none; rpc_refs = n - one u } in
      let p2 : Process Node = record p1 { block_monitor = none; rpc_refs = n - one u - one m } in
      let p3 : Process Node = record p2 { pool_server = none } in
      rw (freed_upstream_service p u refl (omega (arith, v.refs))) (
        rw (freed_block_monitor p1 m refl (omega (arith, v.refs))) (
          rw (freed_pool_server p2 s refl v.server) (
            rw (freed_work_validator p3 w refl (omega (arith, v.refs)) v.validator)
              (ap (λ k. ok (record nothing { rpc_refs = k })) (omega (arith, v.refs))))))

  freed_if_freeable :
      (self : Process Node) (o : Option WorkValidator)
      → self.work_validator ≡ o
      → one o ≤ self.rpc_refs
      → Ensures
          (λ s. s ≡ record self { work_validator = none; rpc_refs = self.rpc_refs - one o })
          (free_work_validator self o)
  unfolding free_work_validator
  freed_if_freeable self none e le =
      ap₂ (λ v n. record self { work_validator = v; rpc_refs = n }) e (omega arith)
  freed_if_freeable self (some validator) e le =
      let s : Process Node = record self { work_validator = none; rpc_refs = self.rpc_refs - 1 } in
      rw (unref_rpc-one (record self { work_validator = none }) self.rpc_refs le)
        (Ensures-any (λ t. t ≡ s) (work_validator_free validator) (λ memory. ok s) (λ _. refl))

  -- Whatever the hashes of the validator are: if the clean-up returns, nothing is left.
  pub clean_up-frees :
      (self : Process Node)
      → self.rpc_refs ≡ one self.upstream_service + one self.block_monitor + one self.work_validator
      → Each IsTidy self.pool_server
      → Ensures (λ s. s ≡ nothing) (clean_up self)
  unfolding clean_up
  clean_up-frees self refs tidy =
      let u = self.upstream_service in
      let m = self.block_monitor in
      let w = self.work_validator in
      let n = self.rpc_refs in
      let p : Process Node = record self { settings = none; config = none; evd_daemon = false } in
      let p1 : Process Node = record p { upstream_service = none; rpc_refs = n - one u } in
      let p2 : Process Node = record p1 { block_monitor = none; rpc_refs = n - one u - one m } in
      let p3 : Process Node = record p2 { pool_server = none } in
      let p4 : Process Node = record p3 {
        work_validator = none;
        rpc_refs = n - one u - one m - one w;
      } in
      let last : Process Node → Process Node =
        λ s. record s { event_dispatcher = none; round_manager = none } in
      rw (freed_upstream_service p u refl (omega arith)) (
        rw (freed_block_monitor p1 m refl (omega arith)) (
          rw (freed_pool_server p2 self.pool_server refl tidy) (
            Ensures-bind (λ s. s ≡ p4) (λ s. s ≡ nothing) (free_work_validator p3 w)
              (λ s. ok (last s)) (freed_if_freeable p3 w refl (omega arith))
              (λ s e. ap last e ∙ ap (λ k. record nothing { rpc_refs = k }) (omega arith)))))
