-- ===== src/Scheduler/Cases.antt =====
-- The branches of `push` and `complete` of src/subscription/scheduler.rs as equations.
use beave_rs.Base.{
  ◌-◌, ◌≡◌, refl, arith, Option, none, some, List, [], ◌∷◌, ◌++◌, Eq, nat_eq, Option-cases, inl,
  inr,
}
use beave_rs.Base.Map.{lookup, insert, remove}
use beave_rs.Scheduler.{
  Lane, Admission, Ticket, Scheduler, push, next_ready, complete, release_flow,
}

abbrev pub ticket_of {ℓ} : {K : Type ℓ} → Admission K → Option Lane → Ticket K
ticket_of a lane = record { lane = lane; flow = a.flow }

module _ {ℓ κ} {K : Type ℓ} ⦃e : Eq K⦄ {E : Type κ} where
  pub push_absent :
      (a : Admission K) (lane : Lane) (x : E) (q : Scheduler K E)
      → lookup lane q.waiting ≡ none
      → push a (some lane) x q ≡ record q {
        waiting = insert lane [] q.waiting;
        ready = q.ready ++ (ticket_of a (some lane), x) ∷ [];
      }
  unfolding push
  push_absent a lane x q h = ground arith

  pub push_found :
      (a : Admission K) (lane : Lane) (x : E) (q : Scheduler K E) (queue : List (Ticket K × E))
      → lookup lane q.waiting ≡ some queue
      → push a (some lane) x q
        ≡ record q { waiting = insert lane (queue ++ (ticket_of a (some lane), x) ∷ []) q.waiting }
  unfolding push
  push_found a lane x q queue h = ground arith

  -- The state of the scheduler after the counters of a completion.
  abbrev pub uncounted : Ticket K → Scheduler K E → Scheduler K E
  uncounted t q = record q { outstanding = q.outstanding - 1; flow = release_flow t.flow q.flow }

  pub complete_free :
      (t : Ticket K) (q : Scheduler K E) → t.lane ≡ none → complete t q ≡ uncounted t q
  unfolding complete
  complete_free t q h = ground arith

  pub complete_absent :
      (t : Ticket K) (q : Scheduler K E) (lane : Lane)
      → t.lane ≡ some lane
      → lookup lane q.waiting ≡ none
      → complete t q ≡ uncounted t q
  unfolding complete
  complete_absent t q lane h l = ground arith

  pub complete_last :
      (t : Ticket K) (q : Scheduler K E) (lane : Lane)
      → t.lane ≡ some lane
      → lookup lane q.waiting ≡ some []
      → complete t q ≡ record (uncounted t q) { waiting = remove lane q.waiting }
  unfolding complete
  complete_last t q lane h l = ground arith

  pub complete_next :
      (t : Ticket K) (q : Scheduler K E) (lane : Lane) (x : Ticket K × E)
      (rest : List (Ticket K × E))
      → t.lane ≡ some lane
      → lookup lane q.waiting ≡ some (x ∷ rest)
      → complete t q
        ≡ record (uncounted t q) { ready = q.ready ++ x ∷ []; waiting = insert lane rest q.waiting }
  unfolding complete
  complete_next t q lane x rest h l = ground arith

  -- Every property of the result of a completion follows from the four branches.
  pub complete_cases {μ} :
      (P : Scheduler K E → Type μ) (t : Ticket K) (q : Scheduler K E)
      → ((t.lane ≡ none) → P (uncounted t q))
      → ((lane : Lane) → t.lane ≡ some lane → lookup lane q.waiting ≡ none → P (uncounted t q))
      → ((lane : Lane)
          → t.lane ≡ some lane
          → lookup lane q.waiting ≡ some []
          → P (record (uncounted t q) { waiting = remove lane q.waiting }))
      → ((lane : Lane) (x : Ticket K × E) (rest : List (Ticket K × E))
          → t.lane ≡ some lane
          → lookup lane q.waiting ≡ some (x ∷ rest)
          → P (record (uncounted t q) {
            ready = q.ready ++ x ∷ [];
            waiting = insert lane rest q.waiting;
          }))
      → P (complete t q)
  complete_cases P t q free absent last succ = elim (Option-cases t.lane) [
    | inl h ↦ rw (complete_free t q h) (free h)
    | inr (lane, h) ↦ elim (Option-cases (lookup lane q.waiting)) [
      | inl l ↦ rw (complete_absent t q lane h l) (absent lane h l)
      | inr ([], l) ↦ rw (complete_last t q lane h l) (last lane h l)
      | inr (x ∷ rest, l) ↦ rw (complete_next t q lane x rest h l) (succ lane x rest h l)
    ]
  ]

  -- And of a push from its three branches.
  pub push_cases {μ} :
      (P : Scheduler K E → Type μ) (a : Admission K) (lane : Option Lane) (x : E)
      (q : Scheduler K E)
      → ((lane ≡ none) → P (record q { ready = q.ready ++ (ticket_of a none, x) ∷ [] }))
      → ((l : Lane)
          → lane ≡ some l
          → lookup l q.waiting ≡ none
          → P (record q {
            waiting = insert l [] q.waiting;
            ready = q.ready ++ (ticket_of a (some l), x) ∷ [];
          }))
      → ((l : Lane) (queue : List (Ticket K × E))
          → lane ≡ some l
          → lookup l q.waiting ≡ some queue
          → P (record q { waiting = insert l (queue ++ (ticket_of a (some l), x) ∷ []) q.waiting }))
      → P (push a lane x q)
  unfolding push
  push_cases P a none x q free absent found = free refl
  push_cases P a (some l) x q free absent found = elim (Option-cases (lookup l q.waiting)) [
    | inl h ↦ rw (push_absent a l x q h) (absent l refl h)
    | inr (queue, h) ↦ rw (push_found a l x q queue h) (found l queue refl h)
  ]

  -- A start takes the head of `ready` and nothing else.
  pub next_ready-some :
      (q r : Scheduler K E) (x : Ticket K × E)
      → next_ready q ≡ (r, some x)
      → (q.ready ≡ x ∷ r.ready)
        × (r.waiting ≡ q.waiting)
        × (r.outstanding ≡ q.outstanding)
        × (r.flow ≡ q.flow)
  unfolding next_ready
  next_ready-some q r x h = ground arith
