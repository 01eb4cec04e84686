-- ===== src/Scheduler.antt =====
-- src/subscription/scheduler.rs: lanes and per-key flow control of the received deliveries.
-- An ordering key is used through its equality only, so its type is a parameter `K`. `usize`
-- counters count deliveries in memory and do not reach their limit. A lane is its 64-bit hash.
pub mod Flow
pub mod Cases
pub mod System
pub mod Distribution
mod Tests
use beave_rs.Base.{ℕ, ◌+◌, ◌-◌, Option, none, some, List, [], ◌∷◌, ◌++◌, Eq, nat_eq, length}
use beave_rs.Base.Map.{Map, lookup, insert, remove}
use Flow.{FlowControl, FlowChange}

abbrev pub Lane : Type 0
Lane = ℕ

pub record Admission {ℓ} (K : Type ℓ) : Type ℓ where
  pub flow : Option K

pub record Ticket {ℓ} (K : Type ℓ) : Type ℓ where
  pub lane : Option Lane
  pub flow : Option K

pub record Scheduler {ℓ κ} (K : Type ℓ) (E : Type κ) : Type (ℓ ⊔ κ) where
  pub ready : List (Ticket K × E)
  pub waiting : Map Lane (List (Ticket K × E))
  pub outstanding : ℕ
  pub flow : Option (FlowControl K)

unfoldable pub new {ℓ κ} : {K : Type ℓ} {E : Type κ} → Option ℕ → Scheduler K E
new none = record { ready = []; waiting = []; outstanding = 0; flow = none }
new (some limit) = record {
  ready = [];
  waiting = [];
  outstanding = 0;
  flow = some (record { limit = limit; unfinished = []; paused = []; changes = [] });
}

-- `drain` of the lanes.
abbrev pub drain {ℓ κ} :
    {K : Type ℓ} {E : Type κ} → Map Lane (List (Ticket K × E)) → List (Ticket K × E)
drain [] = []
drain ((lane, queue) ∷ rest) = queue ++ drain rest

module _ {ℓ} {K : Type ℓ} ⦃e : Eq K⦄ where
  unfoldable pub admit_flow : Option (FlowControl K) → Option K → Option (FlowControl K) × Option K
  admit_flow (some flow) (some key) = (some (Flow.add key flow), some key)
  admit_flow flow scope = (flow, none)

  unfoldable pub release_flow : Option K → Option (FlowControl K) → Option (FlowControl K)
  release_flow (some key) (some flow) = some (Flow.release key flow)
  release_flow key flow = flow

  -- `mem::take` of the changes, which are empty without flow control.
  unfoldable pub take_changes :
      Option (FlowControl K) → Option (FlowControl K) × List (FlowChange K)
  take_changes none = (none, [])
  take_changes (some flow) = (some (record flow { changes = [] }), flow.changes)

module _ {ℓ κ} {K : Type ℓ} ⦃e : Eq K⦄ {E : Type κ} where
  unfoldable pub admit : Option K → Scheduler K E → Scheduler K E × Admission K
  unfolding admit_flow
  admit scope s =
      let (flow', key) = admit_flow s.flow scope in
      (record s { outstanding = s.outstanding + 1; flow = flow' }, record { flow = key })

  enqueue : Option Lane → Ticket K → E → Scheduler K E → Scheduler K E
  enqueue none ticket entry s = record s { ready = s.ready ++ (ticket, entry) ∷ [] }
  enqueue (some lane) ticket entry s = elim (lookup lane s.waiting) [
    | some queue ↦ record s { waiting = insert lane (queue ++ (ticket, entry) ∷ []) s.waiting }
    | none ↦ record s {
      waiting = insert lane [] s.waiting;
      ready = s.ready ++ (ticket, entry) ∷ [];
    }
  ]

  unfoldable pub push : Admission K → Option Lane → E → Scheduler K E → Scheduler K E
  unfolding enqueue
  push admission lane entry s = enqueue lane (record { lane = lane; flow = admission.flow }) entry s

  -- The private `release` of the scheduler.
  release : Option K → Scheduler K E → Scheduler K E
  unfolding release_flow
  release key s = record s { flow = release_flow key s.flow }

  unfoldable pub withdraw : Admission K → Scheduler K E → Scheduler K E
  unfolding release
  withdraw admission s = release admission.flow (record s { outstanding = s.outstanding - 1 })

  pop_ready : List (Ticket K × E) → Scheduler K E → Scheduler K E × Option (Ticket K × E)
  pop_ready [] s = (s, none)
  pop_ready (x ∷ rest) s = (record s { ready = rest }, some x)

  unfoldable pub next_ready : Scheduler K E → Scheduler K E × Option (Ticket K × E)
  unfolding pop_ready
  next_ready s = pop_ready s.ready s

  -- The successor of a lane, or the end of the lane.
  succeed : Lane → List (Ticket K × E) → Scheduler K E → Scheduler K E
  succeed lane [] s = record s { waiting = remove lane s.waiting }
  succeed lane (next ∷ rest) s = record s {
    ready = s.ready ++ next ∷ [];
    waiting = insert lane rest s.waiting;
  }

  advance : Option Lane → Scheduler K E → Scheduler K E
  unfolding succeed
  advance none s = s
  advance (some lane) s = elim (lookup lane s.waiting) [
    | none ↦ s
    | some queue ↦ succeed lane queue s
  ]

  unfoldable pub complete : Ticket K → Scheduler K E → Scheduler K E
  unfolding release advance
  complete ticket s =
      advance ticket.lane (release ticket.flow (record s { outstanding = s.outstanding - 1 }))

  unfoldable pub take_flow_changes : Scheduler K E → Scheduler K E × List (FlowChange K)
  take_flow_changes s =
      let (flow', changes) = take_changes s.flow in (record s { flow = flow' }, changes)

  unfoldable pub disable_flow_control : Scheduler K E → Scheduler K E
  disable_flow_control s = record s { flow = none }

  -- The loop over `pending`.
  unfoldable pub release_all : List (Ticket K × E) → Option (FlowControl K) → Option (FlowControl K)
  unfolding release_flow
  release_all [] flow = flow
  release_all ((ticket, entry) ∷ rest) flow = release_all rest (release_flow ticket.flow flow)

  unfoldable pub discard_pending : Scheduler K E → Scheduler K E
  unfolding release_all
  discard_pending s =
      let pending = s.ready ++ drain s.waiting in
      record s {
        ready = [];
        waiting = [];
        outstanding = s.outstanding - length pending;
        flow = release_all pending s.flow;
      }
