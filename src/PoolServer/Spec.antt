-- ===== src/PoolServer/Spec.antt =====
-- The contract of pool-server.c: a queue of numbered requests and a list of long polls, without
-- addresses, reference counts and faults.
use pool_dance.Prelude.{
  ℕ, suc, Bool, true, false, not, Option, none, some, List, [], ◌∷◌, ◌++◌, codes, str_eq,
  strcmp0_eq, ◌==◌, if◌then◌else◌, remove,
}
use pool_dance.PoolServer.{PoolServer, WorkRequest, lp_path}
use pool_dance.PoolServer.Machine.{Event, calls, asks, closes, closes_lp, new_block, serves}

pub record Ticket : Type 0 where
  pub number : ℕ
  pub conn : ℕ
  pub invocation_id : ℕ
  pub from_lp : Bool

pub record Desk : Type 0 where
  pub waiting : List Ticket
  pub polls : List ℕ
  -- the number of the next ticket
  pub next : ℕ

-- A ticket at the end of the queue.
unfoldable pub arrive : Desk → ℕ → ℕ → Bool → Desk
arrive desk invocation_id conn from_lp = record desk {
  waiting =
      desk.waiting
      ++ record {
        number = desk.next;
        conn = conn;
        invocation_id = invocation_id;
        from_lp = from_lp;
      }
        ∷ [];
  next = suc desk.next;
}

unfoldable pub arrive_all : Desk → List ℕ → Desk
arrive_all desk [] = desk
arrive_all desk (conn ∷ conns) = arrive_all (arrive desk 0 conn true) conns

-- The queue without a ticket.
unfoldable pub leave : ℕ → List Ticket → List Ticket
leave number [] = []
leave number (t ∷ ts) = if t.number == number then leave number ts else t ∷ leave number ts

unfoldable pub first_out : List Ticket → List Ticket
first_out [] = []
first_out (t ∷ ts) = ts

module _ {Node : Type 0} where
  unfoldable pub desk_step : Desk → Event Node → Desk
  desk_step desk (calls method_name params params_length invocation_id conn) =
      if not (strcmp0_eq method_name (some (codes "getwork")))
      then desk
      else if params_length == 0
      then arrive desk invocation_id conn false
      else desk
  desk_step desk (asks path conn) =
      if not (str_eq path lp_path) then desk else record desk { polls = desk.polls ++ conn ∷ [] }
  desk_step desk (closes p) = record desk { waiting = leave p desk.waiting }
  desk_step desk (closes_lp conn) = record desk { polls = remove conn desk.polls }
  desk_step desk (new_block block) = record (arrive_all desk desk.polls) { polls = [] }
  desk_step desk serves = record desk { waiting = first_out desk.waiting }

  unfoldable pub desk_run : Desk → List (Event Node) → Desk
  desk_run desk [] = desk
  desk_run desk (e ∷ es) = desk_run (desk_step desk e) es

-- What the contract sees of a server.
unfoldable pub ticket_of : ℕ → Option WorkRequest → List Ticket
ticket_of p none = []
ticket_of p (some r) =
    record { number = p; conn = r.conn; invocation_id = r.invocation_id; from_lp = r.from_lp } ∷ []

unfoldable pub tickets : (ℕ → Option WorkRequest) → List ℕ → List Ticket
tickets requests [] = []
tickets requests (p ∷ queue) = ticket_of p (requests p) ++ tickets requests queue

unfoldable pub view : PoolServer → Desk
view self = record {
  waiting = tickets self.requests self.getwork_queue;
  polls = self.lp_conns;
  next = self.next;
}
