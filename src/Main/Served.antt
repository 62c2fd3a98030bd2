-- ===== src/Main/Served.antt =====
-- What one call of serve_work does when there is a request and a work item.
use pool_dance.Prelude.{
  ℕ, ◌≡◌, refl, ap₂, subst, ◌∙◌, Bool, true, false, ◌&&◌, Option, some, List, ◌∷◌, Str, ltb, length,
  replicate, slice, ok, arith, Ensures,
}
use pool_dance.Extern.{Extern}
use pool_dance.Upstream.{
  UpstreamService, upstream_service_has_work, upstream_service_get_work, queue_length, pop_head,
}
use pool_dance.Upstream.Fill.{fill_work_queue-queue}
use pool_dance.Upstream.Accounting.{IsAccounted, take-IsAccounted}
use pool_dance.PoolServer.{WorkRequest, pool_server_need_work}
use pool_dance.PoolServer.Tidy.{IsTidy}
use pool_dance.PoolServer.Drops.{
  dropped, dropped-IsTidy, take-freed, pool_server_get_work_request-head,
}
use pool_dance.PoolServer.Oldest.{ServesOldest, head_oldest}
use pool_dance.Validator.State.{
  WorkValidator, TrackedWork, lookup, insert, work_item_get_data_hex, work_data_get_merkle_root_hex,
  track_nonce_max,
}
use pool_dance.Validator.State.Tables.{lookup-insert_self}
use pool_dance.Validator.Blocks.{work_validator_track_work_sent}
use pool_dance.Validator.Sound.{IsSound}
use pool_dance.Validator.Sound.Operations.{work_validator_track_work_sent-IsSound}
use pool_dance.Main.{System, with_easy_target, requester, track_if_sent, serve_taken, serve_work}

module _ {Node : Type 0} (x : Extern Node) where
  -- The work is in the table of the current block as one that this user may solve.
  pub record IsOwed (validator : WorkValidator) (work_data : Str) (user : Option Str) : Type 0 where
    pub work : TrackedWork
    pub tracked :
        lookup validator.work_by_merkle_root (work_data_get_merkle_root_hex work_data) ≡ some work
    pub owner : work.user ≡ user
    pub unsolved : work.nonce_count ≡ 0
    pub version : work.version ≡ slice 0 8 work_data
    pub timestamp : work.timestamp ≡ slice 136 8 work_data

  track_work_sent-IsOwed :
      (self : WorkValidator) (user : Option Str) (item : Node) (work_data : Str)
      → work_item_get_data_hex x item ≡ some work_data
      → length work_data ≡ 256
      → IsSound self
      → (s : WorkValidator) × (work_validator_track_work_sent x self user item 0 ≡ ok s)
        × IsOwed s work_data user
        × IsSound s
  unfolding work_validator_track_work_sent
  track_work_sent-IsOwed self user item work_data e sized v =
      let w : TrackedWork = record {
        upstream_service = 0;
        user = user;
        version = slice 0 8 work_data;
        timestamp = slice 136 8 work_data;
        nonce_count = 0;
        nonces = replicate track_nonce_max 0;
        possible_stale = false;
      } in
      let s : WorkValidator = record self {
        work_by_merkle_root =
            insert self.work_by_merkle_root (work_data_get_merkle_root_hex work_data) w;
      } in
      let sent : work_validator_track_work_sent x self user item 0 ≡ ok s = rw (e, sized) refl in
      (
        s,
        sent,
        record {
          work = w;
          tracked =
              lookup-insert_self self.work_by_merkle_root (work_data_get_merkle_root_hex work_data)
                w;
          owner = refl;
          unsolved = refl;
          version = refl;
          timestamp = refl;
        },
        subst (Ensures IsSound) sent (work_validator_track_work_sent-IsSound x self user item 0 v),
      )

  -- Whether the item was sent or not, the validator goes on well formed; if it was, the work is
  -- owed.
  record IsTrackedIf (sent : Bool) (validator s : WorkValidator) (work_data : Str)
      (user : Option Str) : Type 0 where
    sound : IsSound s
    owed : sent ≡ true → IsOwed s work_data user
    kept : sent ≡ false → s ≡ validator

  track_if_sent-IsTrackedIf :
      (sent : Bool) (validator : WorkValidator) (r : WorkRequest) (item : Node) (work_data : Str)
      → work_item_get_data_hex x item ≡ some work_data
      → length work_data ≡ 256
      → IsSound validator
      → (s : WorkValidator) × (track_if_sent x sent validator r item ≡ ok s)
        × IsTrackedIf sent validator s work_data (requester x r)
  unfolding track_if_sent
  track_if_sent-IsTrackedIf false validator r item work_data e sized v =
      (validator, refl, record { sound = v; owed = λ h. absurd (cc h); kept = λ _. refl })
  track_if_sent-IsTrackedIf true validator r item work_data e sized v =
      let (s, tracked, owed, sound) =
        track_work_sent-IsOwed validator (requester x r) item work_data e sized v in
      (s, tracked, record { sound = sound; owed = λ _. owed; kept = λ h. absurd (cc h) })

  get_work-head :
      (up : UpstreamService Node) (work : Node) (rest : List Node)
      → up.work_queue ≡ some (work ∷ rest)
      → upstream_service_get_work up ≡ (some work, (upstream_service_get_work up).1)
  unfolding upstream_service_get_work pop_head
  get_work-head up work rest e = rw e refl

  get_work-rest :
      (up : UpstreamService Node) (work : Node) (rest : List Node)
      → up.work_queue ≡ some (work ∷ rest)
      → (upstream_service_get_work up).1.work_queue ≡ some rest
  unfolding upstream_service_get_work pop_head
  get_work-rest up work rest e = rw e (fill_work_queue-queue (record up { work_queue = some rest }))

  -- What serving a work item to a request leaves; `rest` is the cache without the item.
  pub record Serves (sent : Bool) (lost : ℕ) (work_data : Str) (rest : List Node)
      (self s : System Node) (p : ℕ) : Type 0 where
    pub cached : s.upstream_service.work_queue ≡ some rest
    pub served : ServesOldest self.pool_server s.pool_server p
    pub tidy : IsTidy s.pool_server
    pub accounted : IsAccounted lost s.upstream_service
    pub sound : IsSound s.work_validator
    pub owed : sent ≡ true → IsOwed s.work_validator work_data (requester x served.request)
    pub kept : sent ≡ false → s.work_validator ≡ self.work_validator

  -- When a request waits and a work item of 256 digits is cached, in well-formed components,
  -- serve_work takes the oldest request and the newest item out without a fault, so that the item
  -- is not in the cache any more and the others are, in their order, and leaves the
  -- components well formed; if the item was sent, the validator now tracks it as one that the
  -- request's user may solve, and otherwise the validator is left alone.
  pub serve_work-Serves :
      (sent : Bool) (lost : ℕ) (self : System Node) (p : ℕ) (q : List ℕ) (work : Node)
      (rest : List Node) (work_data : Str)
      → IsTidy self.pool_server
      → IsAccounted lost self.upstream_service
      → IsSound self.work_validator
      → self.pool_server.getwork_queue ≡ p ∷ q
      → self.upstream_service.work_queue ≡ some (work ∷ rest)
      → work_item_get_data_hex x (with_easy_target x work) ≡ some work_data
      → length work_data ≡ 256
      → (s : System Node) × (more : Bool) × (serve_work x sent self ≡ ok (s, more))
        × Serves sent lost work_data rest self s p
  unfolding serve_work serve_taken pool_server_need_work upstream_service_has_work queue_length
  serve_work-Serves sent lost self p q work rest work_data tidy accounted sound waits cached e
        sized =
      let oldest = head_oldest self.pool_server p q tidy waits in
      let item = with_easy_target x work in
      let (validator, tracked, t) =
        track_if_sent-IsTrackedIf sent self.work_validator oldest.request item work_data e sized
          sound in
      let up = (upstream_service_get_work self.upstream_service).1 in
      let need : ltb 0 (length self.pool_server.getwork_queue) ≡ true = ground arith in
      let has : ltb 0 (queue_length self.upstream_service.work_queue) ≡ true =
        rw (cached, queue_length) (ground arith) in
      (
        record {
          upstream_service = up;
          pool_server = dropped self.pool_server p;
          work_validator = validator;
        },
        pool_server_need_work (dropped self.pool_server p) && upstream_service_has_work up,
        rw (need, has)
            (ap₂ (serve_taken x sent self.work_validator)
                (pool_server_get_work_request-head self.pool_server p q waits)
                (get_work-head self.upstream_service work rest cached)
              ∙ rw (oldest.was_alive) (
                  rw tracked (
                    rw (take-freed self.pool_server p q oldest.request tidy waits oldest.was_alive)
                      refl))),
        record {
          cached = get_work-rest self.upstream_service work rest cached;
          served = oldest;
          tidy = dropped-IsTidy self.pool_server p tidy;
          accounted = take-IsAccounted lost self.upstream_service (work ∷ rest) cached accounted;
          sound = t.sound;
          owed = t.owed;
          kept = t.kept;
        },
      )
