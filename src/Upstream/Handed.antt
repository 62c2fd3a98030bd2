-- ===== src/Upstream/Handed.antt =====
-- No item of the cache is handed out twice or lost between two blocks.
use mathlib.Core.List.Permᴰ
use mathlib.Core.List.Permᴰ.{Permᴰ, trans}
use pool_dance.Prelude.{
  ◌≡◌, refl, sym, subst, ◌∙◌, ap, inl, inr, Bool-cases, Option, none, some, List, [], ◌∷◌, ◌++◌,
  append_assoc, ltb, if◌then◌else◌,
}
use pool_dance.Upstream.{
  UpstreamService, pop_head, push_head, fill_work_queue, rpc_on_getwork, upstream_service_get_work,
  Event, takes, answers, step, run,
}
use pool_dance.Upstream.Fill.{fill_work_queue-queue}

abbrev as_list : {Node : Type 0} → Option Node → List Node
as_list none = []
as_list (some work) = work ∷ []

module _ {Node : Type 0} where
  -- What an event hands out, and what it brings: an answer counts only if there is a call for it.
  unfoldable pub handed : UpstreamService Node → Event Node → List Node
  handed self takes = as_list (upstream_service_get_work self).0
  handed self (answers reply) = []

  unfoldable pub received : UpstreamService Node → Event Node → List Node
  received self takes = []
  received self (answers reply) = if ltb 0 self.calls then as_list reply else []

  unfoldable pub all_handed : UpstreamService Node → List (Event Node) → List Node
  all_handed self [] = []
  all_handed self (e ∷ es) = handed self e ++ all_handed (step self e) es

  unfoldable pub all_received : UpstreamService Node → List (Event Node) → List Node
  all_received self [] = []
  all_received self (e ∷ es) = received self e ++ all_received (step self e) es

  -- Out and left is what came in and what was there.
  pub record Conserves (q out into : List Node) (self : UpstreamService Node) : Type 0 where
    pub left : List Node
    pub is_left : self.work_queue ≡ some left
    pub balance : Permᴰ (out ++ left) (into ++ q)

  same_list : {a b : List Node} → a ≡ b → Permᴰ a b
  same_list {a} e = subst (Permᴰ a) e (Permᴰ.refl a)

  exchange : (a b c : List Node) → Permᴰ (a ++ (b ++ c)) (b ++ (a ++ c))
  exchange a b c =
      trans (same_list (sym (append_assoc a b c)))
        (trans (Permᴰ.append_right c (Permᴰ.append_comm a b)) (same_list (append_assoc b a c)))

  filled :
      (self : UpstreamService Node) (q out into left : List Node)
      → self.work_queue ≡ some left
      → Permᴰ (out ++ left) (into ++ q)
      → Conserves q out into (fill_work_queue self)
  filled self q out into left e balance = record {
    left = left;
    is_left = fill_work_queue-queue self ∙ e;
    balance = balance;
  }

  take-Conserves :
      (self : UpstreamService Node) (q : List Node)
      → self.work_queue ≡ some q
      → Conserves q
          (as_list (upstream_service_get_work self).0)
          []
          (upstream_service_get_work self).1
  unfolding upstream_service_get_work pop_head
  take-Conserves self [] e =
      rw e (filled (record self { work_queue = some [] }) [] [] [] [] refl (Permᴰ.refl []))
  take-Conserves self (work ∷ q) e = rw e (
      filled (record self { work_queue = some q }) (work ∷ q) (work ∷ []) [] q refl
        (Permᴰ.refl (work ∷ q)))

  answer-Conserves :
      (self : UpstreamService Node) (reply : Option Node) (q : List Node)
      → self.work_queue ≡ some q
      → Conserves q [] (as_list reply) (rpc_on_getwork self reply).0
  unfolding rpc_on_getwork push_head
  answer-Conserves self none q e = record { left = q; is_left = e; balance = Permᴰ.refl q }
  answer-Conserves self (some work) q e =
      filled _ q [] (work ∷ []) (work ∷ q) (ap (push_head work) e) (Permᴰ.refl (work ∷ q))

  step-Conserves :
      (self : UpstreamService Node) (e : Event Node) (q : List Node)
      → self.work_queue ≡ some q
      → Conserves q (handed self e) (received self e) (step self e)
  unfolding step handed received
  step-Conserves self takes q e = take-Conserves self q e
  step-Conserves self (answers reply) q e = elim (Bool-cases (ltb 0 self.calls)) [
    | inl due ↦ rw due (answer-Conserves self reply q e)
    | inr early ↦ rw early (record { left = q; is_left = e; balance = Permᴰ.refl q })
  ]

  -- Between two blocks, whatever is taken and answered in whatever order, the items handed out and
  -- those left in the cache are, up to their order, those received and those that were there: each
  -- item received is handed out at most once, and none is lost.
  pub run-Conserves :
      (self : UpstreamService Node) (es : List (Event Node)) (q : List Node)
      → self.work_queue ≡ some q
      → Conserves q (all_handed self es) (all_received self es) (run self es)
  unfolding run all_handed all_received
  run-Conserves self [] q e = record { left = q; is_left = e; balance = Permᴰ.refl q }
  run-Conserves self (e ∷ es) q is_q =
      let now = step-Conserves self e q is_q in
      let later = run-Conserves (step self e) es now.left now.is_left in
      let h = handed self e in
      let hs = all_handed (step self e) es in
      let r = received self e in
      let rs = all_received (step self e) es in
      record {
        left = later.left;
        is_left = later.is_left;
        balance = trans (same_list (append_assoc h hs later.left)) (
            trans (Permᴰ.append_left h later.balance) (
              trans (exchange h rs now.left) (
                trans (Permᴰ.append_left rs now.balance)
                  (trans (exchange rs r q) (same_list (sym (append_assoc r rs q)))))));
      }
