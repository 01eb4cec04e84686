-- ===== src/Scheduler/System/Fifo.antt =====
-- A lane of src/subscription/scheduler.rs is a queue: the delivery that runs stands at its head.
use mathlib.Core.List.{append-nil, append_assoc}
use beave_rs.Base.{
  ℕ, ◌+◌, ◌≤◌, ◌≡◌, refl, ap, arith, true, false, Option, none, some, List, [], ◌∷◌, ◌++◌, Eq,
  nat_eq, nat_beq_iff, length, length-append, if◌then◌else◌, inl, inr, Bool-cases,
}
use beave_rs.Base.Map.{Map, lookup, unwrap_or, lookup-insert, lookup-remove}
use beave_rs.Scheduler.Cases.{ticket_of, push_cases, complete_cases, next_ready-some}
use beave_rs.Scheduler.{
  Lane, Admission, Ticket, Scheduler, admit, push, withdraw, next_ready, complete,
  take_flow_changes, disable_flow_control, discard_pending,
}
use beave_rs.Scheduler.System.{
  System, Event, admitted, pushed, withdrawn, started, finished, requested, disabled, discarded,
  Step, admits, pushes, withdraws, starts, finishes, requests, disables, discards, Reach, initial,
  after_admit, after_requests, discard_unstarted,
}
use beave_rs.Scheduler.System.Occupancy.{
  is_lane, lane_entries, lane_entries-append, InLane, LaneInv,
}
use beave_rs.Scheduler.System.Lanes.{Reach-LaneInv}

module _ {ℓ κ} {K : Type ℓ} {E : Type κ} where
  abbrev pub queue_of : Lane → Map Lane (List (Ticket K × E)) → List E
  queue_of l waiting = lane_entries l (unwrap_or (lookup l waiting) [])

  -- What a lane holds, in the order in which it was pushed: what runs, what is ready, what waits.
  abbrev pub lane_view : Lane → System K E → List E
  lane_view l s =
      lane_entries l s.running
      ++ (lane_entries l s.scheduler.ready ++ queue_of l s.scheduler.waiting)

  -- The queue operation of an event on the lane `l`, from the contents `v` to the contents `w`.
  abbrev pub QueueStep : Lane → Event K E → List E → List E → Type κ
  QueueStep l (pushed lane x) v w = w ≡ (if is_lane l lane then v ++ x ∷ [] else v)
  QueueStep l (finished t x) v w = v ≡ (if is_lane l t.lane then x ∷ w else w)
  QueueStep l discarded v w = (dropped : List E) × (v ≡ w ++ dropped)
  QueueStep l admitted v w = w ≡ v
  QueueStep l withdrawn v w = w ≡ v
  QueueStep l started v w = w ≡ v
  QueueStep l requested v w = w ≡ v
  QueueStep l disabled v w = w ≡ v

module _ {κ} {E : Type κ} where
  regroup : (r d q : List E) (x : E) → r ++ (d ++ (q ++ x ∷ [])) ≡ (r ++ (d ++ q)) ++ x ∷ []
  regroup r d q x = simp append_assoc

  regroup_ready : (r d : List E) (x : E) → r ++ ((d ++ x ∷ []) ++ []) ≡ (r ++ (d ++ [])) ++ x ∷ []
  regroup_ready r d x = simp (append_assoc, append-nil)

  -- The only entry of a lane that runs or is ready.
  alone :
      (before after d : List E) (x : E)
      → length (before ++ x ∷ after) + length d ≤ 1
      → (before ≡ []) × (after ≡ []) × (d ≡ [])
  alone [] [] [] x h = (refl, refl, refl)
  alone [] [] (y ∷ d) x h = absurd (omega arith)
  alone [] (y ∷ after) d x h = absurd (omega arith)
  alone (y ∷ before) after d x h = absurd (omega (arith, length-append before (x ∷ after)))

module _ {ℓ κ} {K : Type ℓ} ⦃e : Eq K⦄ {E : Type κ} where
  push-QueueStep :
      (s : System K E) (before after : List (Admission K)) (a : Admission K) (lane : Option Lane)
      (x : E) (l : Lane)
      → lane_view l (record s { scheduler = push a lane x s.scheduler; decoding = before ++ after })
        ≡ (if is_lane l lane then lane_view l s ++ x ∷ [] else lane_view l s)
  push-QueueStep s before after a lane x l =
      let r = lane_entries l s.running in
      let d = lane_entries l s.scheduler.ready in
      push_cases
        (λ q.
          lane_view l (record s { scheduler = q; decoding = before ++ after })
          ≡ (if is_lane l lane then lane_view l s ++ x ∷ [] else lane_view l s))
        a lane x s.scheduler
        (λ free. ground (
          arith,
          free,
          append-nil d,
          lane_entries-append l s.scheduler.ready ((ticket_of a none, x) ∷ []),
        ))
        (λ m is_m absent. ground (
          arith,
          is_m,
          absent,
          nat_beq_iff m l,
          append-nil d,
          regroup_ready r d x,
          lookup-insert m l [] s.scheduler.waiting,
          lane_entries-append l s.scheduler.ready ((ticket_of a (some m), x) ∷ []),
        ))
        (λ m queue is_m found. ground (
          arith,
          is_m,
          found,
          nat_beq_iff m l,
          append-nil (lane_entries l queue),
          regroup r d (lane_entries l queue) x,
          lookup-insert m l (queue ++ (ticket_of a (some m), x) ∷ []) s.scheduler.waiting,
          lane_entries-append l queue ((ticket_of a (some m), x) ∷ []),
        ))

  start-QueueStep :
      (s : System K E) (q : Scheduler K E) (t : Ticket K) (x : E) (l : Lane)
      → next_ready s.scheduler ≡ (q, some (t, x))
      → lane_view l (record s { scheduler = q; running = s.running ++ (t, x) ∷ [] }) ≡ lane_view l s
  start-QueueStep s q t x l h =
      let (head, waiting, out, flow) = next_ready-some s.scheduler q (t, x) h in
      rw (waiting, head, lane_entries-append l s.running ((t, x) ∷ []))
        (elim (Bool-cases (is_lane l t.lane)) [
          | inl mine ↦ rw mine (simp append_assoc)
          | inr other ↦ rw other (simp append-nil)
        ])

  -- What a completion leaves of lane `l` behind the running deliveries.
  abbrev behind : Lane → Scheduler K E → List E
  behind l q = lane_entries l q.ready ++ queue_of l q.waiting

  behind-complete_other :
      (t : Ticket K) (q : Scheduler K E) (l : Lane)
      → ((m : Lane) (queue : List (Ticket K × E))
          → lookup m q.waiting ≡ some queue
          → InLane m queue)
      → is_lane l t.lane ≡ false
      → behind l (complete t q) ≡ behind l q
  behind-complete_other t q l queued other =
      complete_cases (λ r. behind l r ≡ behind l q) t q (λ _. refl) (λ _ _ _. refl)
        (λ m is_m last. ground (arith, is_m, lookup-remove m l q.waiting))
        (λ m y rest is_m found.
          let of_m : InLane m (y ∷ rest) = queued m (y ∷ rest) found in
          ground (
            arith,
            is_m,
            of_m.0,
            lookup-insert m l rest q.waiting,
            lane_entries-append l q.ready (y ∷ []),
            append-nil (lane_entries l q.ready),
          ))

  behind-complete_same :
      (t : Ticket K) (q : Scheduler K E) (l : Lane)
      → ((m : Lane) (queue : List (Ticket K × E))
          → lookup m q.waiting ≡ some queue
          → InLane m queue)
      → is_lane l t.lane ≡ true
      → lane_entries l q.ready ≡ []
      → behind l (complete t q) ≡ queue_of l q.waiting
  behind-complete_same t q l queued mine idle =
      complete_cases (λ r. behind l r ≡ queue_of l q.waiting) t q (λ free. ground arith)
        (λ m is_m absent. ground arith)
        (λ m is_m last. ground (arith, is_m, nat_beq_iff m l, lookup-remove m l q.waiting))
        (λ m y rest is_m found.
          let of_m : InLane m (y ∷ rest) = queued m (y ∷ rest) found in
          ground (
            arith,
            is_m,
            of_m.0,
            nat_beq_iff m l,
            lookup-insert m l rest q.waiting,
            lane_entries-append l q.ready (y ∷ []),
          ))

  finish-QueueStep :
      (s : System K E) (before after : List (Ticket K × E)) (t : Ticket K) (x : E) (l : Lane)
      → s.running ≡ before ++ (t, x) ∷ after
      → LaneInv s
      → let after_finish =
          lane_view l
            (record s { scheduler = complete t s.scheduler; running = before ++ after }) in
        lane_view l s ≡ (if is_lane l t.lane then x ∷ after_finish else after_finish)
  finish-QueueStep s before after t x l h v = elim (Bool-cases (is_lane l t.lane)) [
    | inr other ↦ rw other (
        ground (
          arith,
          other,
          h,
          lane_entries-append l before ((t, x) ∷ after),
          lane_entries-append l before after,
          behind-complete_other t s.scheduler l v.queued other,
        ))
    | inl mine ↦
        let a = lane_entries l before in
        let b = lane_entries l after in
        let ran : lane_entries l s.running ≡ a ++ x ∷ b =
          ground (arith, mine, h, lane_entries-append l before ((t, x) ∷ after)) in
        let (no_a, no_b, no_d) =
          alone a b (lane_entries l s.scheduler.ready) x
            (omega (arith, v.single l, ap length ran)) in
        rw mine (
          ground (
            arith,
            ran,
            no_a,
            no_b,
            no_d,
            lane_entries-append l before after,
            behind-complete_same t s.scheduler l v.queued mine no_d,
          ))
  ]

  step-QueueStep :
      {s t : System K E} {event : Event K E} (l : Lane)
      → Step s event t
      → LaneInv s
      → QueueStep l event (lane_view l s) (lane_view l t)
  unfolding after_admit admit withdraw after_requests take_flow_changes disable_flow_control
      discard_unstarted discard_pending lookup
  step-QueueStep l (admits scope h) v = refl
  step-QueueStep {s = s} l (pushes before after a lane x h) v =
      push-QueueStep s before after a lane x l
  step-QueueStep l (withdraws before after a h) v = refl
  step-QueueStep {s = s} l (starts q t x h) v = start-QueueStep s q t x l h
  step-QueueStep {s = s} l (finishes before after t x h) v =
      finish-QueueStep s before after t x l h v
  step-QueueStep l requests v = refl
  step-QueueStep l disables v = refl
  step-QueueStep {s = s} l discards v =
      (lane_entries l s.scheduler.ready ++ queue_of l s.scheduler.waiting, simp append-nil)

  -- In every reachable state, every call treats each lane as a queue: a push adds its delivery at
  -- the end of its own lane, a completion takes its delivery, which stands at the head, out of its
  -- own lane, discarding drops a part at the end, and every other call and every other lane leaves
  -- the contents as they are.
  pub lanes_are_queues :
      (limit : Option ℕ) {s t : System K E} {event : Event K E} (l : Lane)
      → Reach (initial limit) s
      → Step s event t
      → QueueStep l event (lane_view l s) (lane_view l t)
  lanes_are_queues limit l r st = step-QueueStep l st (Reach-LaneInv limit r)
