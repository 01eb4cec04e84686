-- ===== src/Scheduler/System/Lanes.antt =====
-- The calls of src/subscription/scheduler.rs keep the lanes: at most one delivery of each runs.
use beave_rs.Base.{
  ℕ, ◌+◌, ◌≤◌, ◌≡◌, refl, ap, ◌∙◌, arith, true, Option, none, some, List, [], ◌∷◌, ◌++◌, Eq, nat_eq,
  nat_beq_iff, length, if◌then◌else◌, inl, inr, Bool-cases,
}
use beave_rs.Base.Map.{lookup, lookup-insert, lookup-remove}
use beave_rs.Scheduler.Cases.{ticket_of, push_cases, complete_cases, next_ready-some}
use beave_rs.Scheduler.{
  Lane, Admission, Ticket, Scheduler, admit, push, withdraw, next_ready, complete,
  take_flow_changes, disable_flow_control, discard_pending,
}
use beave_rs.Scheduler.System.{
  System, Event, Step, admits, pushes, withdraws, starts, finishes, requests, disables, discards,
  Reach, here, next, initial, after_admit, after_requests, discard_unstarted,
}
use beave_rs.Scheduler.System.Occupancy.{
  not_taken_from_empty, ready_not_empty, not_waiting_in_empty, is_lane, lane_entries, InLane,
  InLane-append, active, active-append, insert_queued, remove_queued, LaneInv,
}

module _ {ℓ κ} {K : Type ℓ} ⦃e : Eq K⦄ {E : Type κ} where
  push-LaneInv :
      (s : System K E) (before after : List (Admission K)) (a : Admission K) (lane : Option Lane)
      (x : E)
      → s.decoding ≡ before ++ a ∷ after
      → LaneInv s
      → LaneInv (record s { scheduler = push a lane x s.scheduler; decoding = before ++ after })
  push-LaneInv s before after a lane x h v = elim (Bool-cases s.receiving) [
    | inr shut ↦ absurd (not_taken_from_empty before after a h (v.closed shut).0)
    | inl going ↦
        push_cases (λ q. LaneInv (record s { scheduler = q; decoding = before ++ after })) a lane x
          s.scheduler
          (λ free. record {
            queued = v.queued;
            single = λ l.
                omega (
                  arith,
                  v.single l,
                  active-append l s.scheduler.ready ((ticket_of a none, x) ∷ []),
                );
            occupied = λ r l. omega (
              arith,
              v.occupied r l,
              active-append l s.scheduler.ready ((ticket_of a none, x) ∷ []),
            );
            closed = λ shut. cc;
          })
          (λ m is_m absent. record {
            queued = λ l queue found.
                ground (arith, v.queued l queue, lookup-insert m l [] s.scheduler.waiting);
            single = λ l. ground (
              arith,
              absent,
              v.single l,
              v.occupied going l,
              nat_beq_iff m l,
              active-append l s.scheduler.ready ((ticket_of a (some m), x) ∷ []),
            );
            occupied = λ r l. ground (
              arith,
              absent,
              v.occupied r l,
              nat_beq_iff m l,
              lookup-insert m l [] s.scheduler.waiting,
              active-append l s.scheduler.ready ((ticket_of a (some m), x) ∷ []),
            );
            closed = λ shut. cc;
          })
          (λ m queue is_m found. record {
            queued = λ l queue' found'.
                insert_queued m (queue ++ (ticket_of a (some m), x) ∷ []) s.scheduler.waiting
                  v.queued
                  (InLane-append m queue (ticket_of a (some m)) x (v.queued m queue found) refl) l
                  queue' found';
            single = v.single;
            occupied = λ r l. ground (
              arith,
              found,
              v.occupied r l,
              nat_beq_iff m l,
              lookup-insert m l (queue ++ (ticket_of a (some m), x) ∷ []) s.scheduler.waiting,
            );
            closed = λ shut. cc;
          })
  ]

  start-LaneInv :
      (s : System K E) (q : Scheduler K E) (t : Ticket K) (x : E)
      → next_ready s.scheduler ≡ (q, some (t, x))
      → LaneInv s
      → LaneInv (record s { scheduler = q; running = s.running ++ (t, x) ∷ [] })
  start-LaneInv s q t x h v =
      let (head, waiting, out, flow) = next_ready-some s.scheduler q (t, x) h in
      let same : (l : Lane)
          → active l (s.running ++ (t, x) ∷ []) q.ready ≡ active l s.running s.scheduler.ready =
        λ l. omega (
          arith,
          active-append l s.running ((t, x) ∷ []),
          active-append l ((t, x) ∷ []) q.ready,
          ap (λ r. length (lane_entries l r)) head,
        ) in
      record {
        queued = λ l queue found. v.queued l queue (rw (← waiting) found);
        single = λ l. omega (arith, same l, v.single l);
        occupied = λ r l. rw waiting (same l ∙ v.occupied r l);
        closed = λ shut. absurd (ready_not_empty head (v.closed shut).1);
      }

  finish-LaneInv :
      (s : System K E) (before after : List (Ticket K × E)) (t : Ticket K) (x : E)
      → s.running ≡ before ++ (t, x) ∷ after
      → LaneInv s
      → LaneInv (record s { scheduler = complete t s.scheduler; running = before ++ after })
  finish-LaneInv s before after t x h v =
      let ran : (l : Lane)
          → length (lane_entries l s.running)
            ≡ length (lane_entries l (before ++ after)) + (if is_lane l t.lane then 1 else 0) =
        λ l. ground (
          arith,
          ap (λ r. length (lane_entries l r)) h,
          active-append l before ((t, x) ∷ after),
          active-append l before after,
        ) in
      complete_cases (λ q. LaneInv (record s { scheduler = q; running = before ++ after })) t
        s.scheduler
        (λ free. record {
          queued = v.queued;
          single = λ l. omega (arith, ran l, v.single l);
          occupied = λ r l. ground (arith, free, ran l, v.occupied r l);
          closed = v.closed;
        })
        (λ m is_m absent. record {
          queued = v.queued;
          single = λ l. omega (arith, ran l, v.single l);
          occupied = λ r l. ground (
            arith,
            is_m,
            absent,
            ran l,
            ran m,
            nat_beq_iff m l,
            nat_beq_iff m m,
            v.occupied r l,
            v.occupied r m,
          );
          closed = v.closed;
        })
        (λ m is_m last. record {
          queued = remove_queued m s.scheduler.waiting v.queued;
          single = λ l. omega (arith, ran l, v.single l);
          occupied = λ r l. ground (
            arith,
            is_m,
            last,
            ran l,
            nat_beq_iff m l,
            v.occupied r l,
            lookup-remove m l s.scheduler.waiting,
          );
          closed = λ shut. absurd (not_waiting_in_empty m (v.closed shut).2 last);
        })
        (λ m y rest is_m found.
          let of_m : InLane m (y ∷ rest) = v.queued m (y ∷ rest) found in
          record {
            queued = insert_queued m rest s.scheduler.waiting v.queued of_m.1;
            single = λ l. ground (
              arith,
              is_m,
              of_m.0,
              ran l,
              v.single l,
              active-append l s.scheduler.ready (y ∷ []),
            );
            occupied = λ r l. ground (
              arith,
              is_m,
              of_m.0,
              found,
              ran l,
              nat_beq_iff m l,
              v.occupied r l,
              active-append l s.scheduler.ready (y ∷ []),
              lookup-insert m l rest s.scheduler.waiting,
            );
            closed = λ shut. absurd (not_waiting_in_empty m (v.closed shut).2 found);
          })

  discard-LaneInv : (s : System K E) → LaneInv s → LaneInv (discard_unstarted s)
  unfolding discard_unstarted discard_pending lookup
  discard-LaneInv s v = record {
    queued = λ l queue h. cc;
    single = λ l. omega (arith, v.single l);
    occupied = λ r l. cc;
    closed = λ _. (refl, refl, refl);
  }

  admit-LaneInv :
      (scope : Option K) (s : System K E)
      → s.receiving ≡ true
      → LaneInv s
      → LaneInv (after_admit scope s)
  unfolding after_admit admit
  admit-LaneInv scope s going v = record {
    queued = v.queued;
    single = v.single;
    occupied = v.occupied;
    closed = λ shut. cc;
  }

  withdraw-LaneInv :
      (s : System K E) (before after : List (Admission K)) (a : Admission K)
      → s.decoding ≡ before ++ a ∷ after
      → LaneInv s
      → LaneInv (record s { scheduler = withdraw a s.scheduler; decoding = before ++ after })
  unfolding withdraw
  withdraw-LaneInv s before after a h v = record {
    queued = v.queued;
    single = v.single;
    occupied = v.occupied;
    closed = λ shut. absurd (not_taken_from_empty before after a h (v.closed shut).0);
  }

  initial-LaneInv : (limit : Option ℕ) → LaneInv (initial {K = K} {E = E} limit)
  unfolding initial lookup
  initial-LaneInv none = record {
    queued = λ l q h. cc;
    single = λ l. omega arith;
    occupied = λ r l. refl;
    closed = λ h. cc;
  }
  initial-LaneInv (some limit) = record {
    queued = λ l q h. cc;
    single = λ l. omega arith;
    occupied = λ r l. refl;
    closed = λ h. cc;
  }

  pub step-LaneInv : {s t : System K E} {event : Event K E} → Step s event t → LaneInv s → LaneInv t
  unfolding after_requests take_flow_changes disable_flow_control
  step-LaneInv {s = s} (admits scope h) v = admit-LaneInv scope s h v
  step-LaneInv {s = s} (pushes before after a lane x h) v = push-LaneInv s before after a lane x h v
  step-LaneInv {s = s} (withdraws before after a h) v = withdraw-LaneInv s before after a h v
  step-LaneInv {s = s} (starts q t x h) v = start-LaneInv s q t x h v
  step-LaneInv {s = s} (finishes before after t x h) v = finish-LaneInv s before after t x h v
  step-LaneInv {s = s} requests v = record {
    queued = v.queued;
    single = v.single;
    occupied = v.occupied;
    closed = v.closed;
  }
  step-LaneInv {s = s} disables v = record {
    queued = v.queued;
    single = v.single;
    occupied = v.occupied;
    closed = v.closed;
  }
  step-LaneInv {s = s} discards v = discard-LaneInv s v

  pub Reach-LaneInv : (limit : Option ℕ) {s : System K E} → Reach (initial limit) s → LaneInv s
  Reach-LaneInv limit here = initial-LaneInv limit
  Reach-LaneInv limit (next r st) = step-LaneInv st (Reach-LaneInv limit r)

  -- In every reachable state at most one delivery of a lane runs.
  pub one_running_per_lane :
      (limit : Option ℕ) {s : System K E} (l : Lane)
      → Reach (initial limit) s
      → length (lane_entries l s.running) ≤ 1
  one_running_per_lane limit l r = omega (arith, (Reach-LaneInv limit r).single l)
