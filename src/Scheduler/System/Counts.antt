-- ===== src/Scheduler/System/Counts.antt =====
-- src/subscription/scheduler.rs counts every unfinished delivery once, in all and per key.
use beave_rs.Base.{
  ℕ, ◌≡◌, refl, ap, arith, Option, none, some, List, [], ◌∷◌, ◌++◌, Eq, nat_eq, length, false,
}
use beave_rs.Base.Map.{lookup}
use beave_rs.Scheduler.{
  Lane, Admission, Ticket, Scheduler, admit_flow, admit, push, withdraw, next_ready, complete,
  drain, take_flow_changes, disable_flow_control, discard_pending,
}
use beave_rs.Scheduler.Cases.{next_ready-some}
use beave_rs.Scheduler.System.Load.{
  load, load_lanes, load-append, load-drain, load_admissions-append, stored-push, stored-complete,
}
use beave_rs.Scheduler.System.{
  System, Event, Step, admits, pushes, withdraws, starts, finishes, requests, disables, discards,
  Reach, here, next, initial, after_admit, after_requests, withdraw_all, discard_unstarted,
}
use beave_rs.Scheduler.System.Effects.{
  is_key, each, Inv, Agrees-same, release_flow-Agrees, release_flow-FlowHolds, admit_flow-Agrees,
  admit_flow-FlowHolds, take_changes-Agrees, take_changes-FlowHolds, release_all-Agrees,
  release_all-FlowHolds, load_taken, load_finished, push-IsMap, complete-IsMap, push_counts,
  complete_counts,
}

module _ {ℓ κ} {K : Type ℓ} ⦃e : Eq K⦄ {E : Type κ} where
  length-load : (l : List (Ticket K × E)) → length l ≡ load each l
  length-load [] = refl
  length-load ((t, x) ∷ l) = omega (arith, length-load l)

  admit-Inv : (scope : Option K) (s : System K E) → Inv s → Inv (after_admit scope s)
  unfolding after_admit admit
  admit-Inv scope s v =
      let a : Admission K = record { flow = (admit_flow s.scheduler.flow scope).1 } in
      record {
        lanes = v.lanes;
        counted = omega (arith, v.counted, load_admissions-append each s.decoding (a ∷ []));
        keyed = λ k.
            admit_flow-Agrees s.scheduler.flow scope k _ _ (v.keyed k)
              (omega (arith, load_admissions-append (is_key k) s.decoding (a ∷ [])));
        flows = admit_flow-FlowHolds s.held s.scheduler.flow scope v.flows;
      }

  withdraw-Inv :
      (s : System K E) (before after : List (Admission K)) (a : Admission K)
      → s.decoding ≡ before ++ a ∷ after
      → Inv s
      → Inv (record s { scheduler = withdraw a s.scheduler; decoding = before ++ after })
  unfolding withdraw
  withdraw-Inv s before after a h v = record {
    lanes = v.lanes;
    counted = omega (arith, v.counted, load_taken each before after a h);
    keyed = λ k.
        release_flow-Agrees a.flow s.scheduler.flow k _ _ (v.keyed k)
          (omega (arith, load_taken (is_key k) before after a h));
    flows = release_flow-FlowHolds s.held a.flow s.scheduler.flow v.flows;
  }

  push-Inv :
      (s : System K E) (before after : List (Admission K)) (a : Admission K) (lane : Option Lane)
      (x : E)
      → s.decoding ≡ before ++ a ∷ after
      → Inv s
      → Inv (record s { scheduler = push a lane x s.scheduler; decoding = before ++ after })
  push-Inv s before after a lane x h v =
      let (out, flow) = push_counts a lane x s.scheduler in
      record {
        lanes = push-IsMap a lane x s.scheduler v.lanes;
        counted = omega (
          arith,
          out,
          v.counted,
          load_taken each before after a h,
          stored-push each a lane x s.scheduler,
        );
        keyed = λ k. rw flow (
            Agrees-same s.scheduler.flow k _ _ (v.keyed k) (
              omega (
                arith,
                load_taken (is_key k) before after a h,
                stored-push (is_key k) a lane x s.scheduler,
              )));
        flows = rw flow v.flows;
      }

  start-Inv :
      (s : System K E) (q : Scheduler K E) (t : Ticket K) (x : E)
      → next_ready s.scheduler ≡ (q, some (t, x))
      → Inv s
      → Inv (record s { scheduler = q; running = s.running ++ (t, x) ∷ [] })
  start-Inv s q t x h v =
      let (head, waiting, out, flow) = next_ready-some s.scheduler q (t, x) h in
      record {
        lanes = rw waiting v.lanes;
        counted = omega (
          arith,
          out,
          v.counted,
          ap (load each) head,
          ap (load_lanes each) waiting,
          load-append each s.running ((t, x) ∷ []),
        );
        keyed = λ k. rw flow (
            Agrees-same s.scheduler.flow k _ _ (v.keyed k) (
              omega (
                arith,
                ap (load (is_key k)) head,
                ap (load_lanes (is_key k)) waiting,
                load-append (is_key k) s.running ((t, x) ∷ []),
              )));
        flows = rw flow v.flows;
      }

  finish-Inv :
      (s : System K E) (before after : List (Ticket K × E)) (t : Ticket K) (x : E)
      → s.running ≡ before ++ (t, x) ∷ after
      → Inv s
      → Inv (record s { scheduler = complete t s.scheduler; running = before ++ after })
  finish-Inv s before after t x h v =
      let (out, flow) = complete_counts t s.scheduler in
      record {
        lanes = complete-IsMap t s.scheduler v.lanes;
        counted = omega (
          arith,
          out,
          v.counted,
          load_finished each before after t x h,
          stored-complete each t s.scheduler v.lanes,
        );
        keyed = λ k. rw flow (
            release_flow-Agrees t.flow s.scheduler.flow k _ _ (v.keyed k) (
              omega (
                arith,
                load_finished (is_key k) before after t x h,
                stored-complete (is_key k) t s.scheduler v.lanes,
              )));
        flows = rw flow (release_flow-FlowHolds s.held t.flow s.scheduler.flow v.flows);
      }

  requests-Inv : (s : System K E) → Inv s → Inv (after_requests s)
  unfolding after_requests take_flow_changes
  requests-Inv s v = record {
    lanes = v.lanes;
    counted = v.counted;
    keyed = λ k. take_changes-Agrees s.scheduler.flow k _ (v.keyed k);
    flows = take_changes-FlowHolds s.held s.scheduler.flow v.flows;
  }

  withdraw_all-Inv :
      (l : List (Admission K)) (s : System K E)
      → s.decoding ≡ l
      → Inv s
      → Inv (record s { scheduler = withdraw_all l s.scheduler; decoding = [] })
  unfolding withdraw_all
  withdraw_all-Inv [] s h v = rw (← h) v
  withdraw_all-Inv (a ∷ l) s h v =
      withdraw_all-Inv l (record s { scheduler = withdraw a s.scheduler; decoding = l }) refl
        (withdraw-Inv s [] l a h v)

  discard_pending-Inv :
      (s : System K E)
      → Inv s
      → Inv (record s { scheduler = discard_pending s.scheduler; receiving = false })
  unfolding discard_pending
  discard_pending-Inv s v =
      let pending = s.scheduler.ready ++ drain s.scheduler.waiting in
      record {
        lanes = tt;
        counted = omega (
          arith,
          v.counted,
          length-load pending,
          load-append each s.scheduler.ready (drain s.scheduler.waiting),
          load-drain each s.scheduler.waiting,
        );
        keyed = λ k. release_all-Agrees pending s.scheduler.flow k _ _ (v.keyed k) (
            omega (
              arith,
              load-append (is_key k) s.scheduler.ready (drain s.scheduler.waiting),
              load-drain (is_key k) s.scheduler.waiting,
            ));
        flows = release_all-FlowHolds s.held pending s.scheduler.flow v.flows;
      }

  disable-Inv :
      (s : System K E) → Inv s → Inv (record s { scheduler = disable_flow_control s.scheduler })
  unfolding disable_flow_control
  disable-Inv s v = record { lanes = v.lanes; counted = v.counted; keyed = λ k. tt; flows = tt }

  initial-Inv : (limit : Option ℕ) → Inv (initial {K = K} {E = E} limit)
  unfolding initial lookup
  initial-Inv none = record { lanes = tt; counted = refl; keyed = λ k. tt; flows = tt }
  initial-Inv (some limit) = record {
    lanes = tt;
    counted = refl;
    keyed = λ k. refl;
    flows = (
      record {
        no_zero = λ k h. cc;
        paused_high = λ k h. cc;
        high_paused = λ k h g. absurd (omega arith);
      },
      record { reached = λ k. refl; needed = tt },
    );
  }

  pub step-Inv : {s t : System K E} {event : Event K E} → Step s event t → Inv s → Inv t
  unfolding discard_unstarted
  step-Inv {s = s} (admits scope h) v = admit-Inv scope s v
  step-Inv {s = s} (pushes before after a lane x h) v = push-Inv s before after a lane x h v
  step-Inv {s = s} (withdraws before after a h) v = withdraw-Inv s before after a h v
  step-Inv {s = s} (starts q t x h) v = start-Inv s q t x h v
  step-Inv {s = s} (finishes before after t x h) v = finish-Inv s before after t x h v
  step-Inv {s = s} requests v = requests-Inv s v
  step-Inv {s = s} disables v = disable-Inv s v
  step-Inv {s = s} discards v = discard_pending-Inv _ (withdraw_all-Inv s.decoding s refl v)

  -- In every state that the calls reach from a new scheduler, whatever their order: `outstanding`
  -- is the number of deliveries that are admitted and not finished, flow control (unless it is off)
  -- counts for every key the unfinished deliveries of that key, a key at the limit is paused, a
  -- paused key is above half of the limit, and the requests that wait for the source are each
  -- needed and take it from the keys it holds to the paused keys.
  pub Reach-Inv : (limit : Option ℕ) {s : System K E} → Reach (initial limit) s → Inv s
  Reach-Inv limit here = initial-Inv limit
  Reach-Inv limit (next r st) = step-Inv st (Reach-Inv limit r)
