-- ===== src/Scheduler/System.antt =====
-- src/subscription/scheduler.rs with its caller src/subscription/runtime.rs: who holds which
-- admission and which ticket between the calls, and which calls the caller makes.
pub mod Load
pub mod Effects
pub mod Counts
pub mod Occupancy
pub mod Lanes
pub mod Fifo
pub mod Pauses
use beave_rs.Base.{ℕ, Bool, true, false, Option, none, some, List, [], ◌∷◌, ◌++◌, ◌≡◌, Eq}
use beave_rs.Scheduler.Flow.Requests.{carry_out_all}
use beave_rs.Scheduler.{
  Lane, Admission, Ticket, Scheduler, new, admit, push, withdraw, next_ready, complete,
  take_flow_changes, disable_flow_control, discard_pending,
}

-- Admissions belong to deliveries that decode, tickets to jobs. `held` are the keys that the source
-- has paused. `receiving` ends when unstarted deliveries are discarded: the loop that receives has
-- been left, and nothing is pushed any more.
pub record System {ℓ κ} (K : Type ℓ) (E : Type κ) : Type (ℓ ⊔ κ) where
  pub scheduler : Scheduler K E
  pub decoding : List (Admission K)
  pub running : List (Ticket K × E)
  pub held : K → Bool
  pub receiving : Bool

pub data Event {ℓ κ} (K : Type ℓ) (E : Type κ) : Type (ℓ ⊔ κ) where
  admitted : Event K E
  pushed : Option Lane → E → Event K E
  withdrawn : Event K E
  started : Event K E
  finished : Ticket K → E → Event K E
  requested : Event K E
  disabled : Event K E
  discarded : Event K E

unfoldable pub initial {ℓ κ} : {K : Type ℓ} {E : Type κ} → Option ℕ → System K E
unfolding new
initial limit = record {
  scheduler = new limit;
  decoding = [];
  running = [];
  held = λ k. false;
  receiving = true;
}

module _ {ℓ κ} {K : Type ℓ} ⦃e : Eq K⦄ {E : Type κ} where
  unfoldable pub after_admit : Option K → System K E → System K E
  after_admit scope s =
      let (q, admission) = admit scope s.scheduler in
      record s { scheduler = q; decoding = s.decoding ++ admission ∷ [] }

  -- The loop over the source's pause and resume requests.
  unfoldable pub after_requests : System K E → System K E
  after_requests s =
      let (q, changes) = take_flow_changes s.scheduler in
      record s { scheduler = q; held = carry_out_all changes s.held }

  unfoldable pub withdraw_all : List (Admission K) → Scheduler K E → Scheduler K E
  withdraw_all [] q = q
  withdraw_all (admission ∷ rest) q = withdraw_all rest (withdraw admission q)

  -- `discard_unstarted`.
  unfoldable pub discard_unstarted : System K E → System K E
  discard_unstarted s = record s {
    scheduler = discard_pending (withdraw_all s.decoding s.scheduler);
    decoding = [];
    receiving = false;
  }

  pub data Step (s : System K E) : Event K E → System K E → Type (ℓ ⊔ κ) where
    admits : (scope : Option K) → s.receiving ≡ true → Step s admitted (after_admit scope s)
    pushes :
        (before after : List (Admission K)) (a : Admission K) (lane : Option Lane) (entry : E)
        → s.decoding ≡ before ++ a ∷ after
        → Step s
            (pushed lane entry)
            (record s { scheduler = push a lane entry s.scheduler; decoding = before ++ after })
    withdraws :
        (before after : List (Admission K)) (a : Admission K)
        → s.decoding ≡ before ++ a ∷ after
        → Step s withdrawn
            (record s { scheduler = withdraw a s.scheduler; decoding = before ++ after })
    starts :
        (q : Scheduler K E) (ticket : Ticket K) (entry : E)
        → next_ready s.scheduler ≡ (q, some (ticket, entry))
        → Step s started (record s { scheduler = q; running = s.running ++ (ticket, entry) ∷ [] })
    finishes :
        (before after : List (Ticket K × E)) (ticket : Ticket K) (entry : E)
        → s.running ≡ before ++ (ticket, entry) ∷ after
        → Step s
            (finished ticket entry)
            (record s { scheduler = complete ticket s.scheduler; running = before ++ after })
    requests : Step s requested (after_requests s)
    disables : Step s disabled (record s { scheduler = disable_flow_control s.scheduler })
    discards : Step s discarded (discard_unstarted s)

  pub data Reach (s : System K E) : System K E → Type (ℓ ⊔ κ) where
    here : Reach s s
    next : {t u : System K E} {event : Event K E} → Reach s t → Step t event u → Reach s u
