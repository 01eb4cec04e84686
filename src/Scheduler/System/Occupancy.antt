-- ===== src/Scheduler/System/Occupancy.antt =====
-- Which lanes of src/subscription/scheduler.rs are occupied: who runs or is ready in a lane, and who
-- waits behind.
use beave_rs.Base.{
  ℕ, ◌+◌, ◌≤◌, ◌≡◌, refl, ap, ◌∙◌, arith, Bool, true, false, Option, none, some, List, [], ◌∷◌,
  ◌++◌, nat_eq, nat_beq, nat_beq_iff, length, length-append, if◌then◌else◌, inl, inr, Bool-cases,
  subst,
}
use beave_rs.Base.Map.{Map, lookup, insert, remove, contains, lookup-insert, lookup-remove}
use beave_rs.Scheduler.{Lane, Ticket, new}
use beave_rs.Scheduler.System.{System}

abbrev pub is_lane : Lane → Option Lane → Bool
is_lane l none = false
is_lane l (some m) = nat_beq m l

module _ {ℓ κ} {K : Type ℓ} {E : Type κ} where
  -- The entries of one lane, in order.
  abbrev pub lane_entries : Lane → List (Ticket K × E) → List E
  lane_entries l [] = []
  lane_entries l ((t, x) ∷ rest) =
      let entries = lane_entries l rest in if is_lane l t.lane then x ∷ entries else entries

  pub lane_entries-append :
      (l : Lane) (xs ys : List (Ticket K × E))
      → lane_entries l (xs ++ ys) ≡ lane_entries l xs ++ lane_entries l ys
  lane_entries-append l [] ys = refl
  lane_entries-append l ((t, x) ∷ xs) ys = ground (arith, lane_entries-append l xs ys)

  -- Every ticket of a queue is of the queue's lane.
  abbrev pub InLane : Lane → List (Ticket K × E) → Type 0
  InLane l [] = Unit
  InLane l ((t, x) ∷ rest) = (t.lane ≡ some l) × InLane l rest

  pub InLane-append :
      (l : Lane) (xs : List (Ticket K × E)) (t : Ticket K) (x : E)
      → InLane l xs
      → t.lane ≡ some l
      → InLane l (xs ++ (t, x) ∷ [])
  InLane-append l [] t x h e = (e, tt)
  InLane-append l ((u, y) ∷ xs) t x h e = (h.0, InLane-append l xs t x h.1 e)

  -- How many deliveries of a lane run or are ready.
  abbrev pub active : Lane → List (Ticket K × E) → List (Ticket K × E) → ℕ
  active l running ready = length (lane_entries l running) + length (lane_entries l ready)

  pub active-append :
      (l : Lane) (xs ys : List (Ticket K × E))
      → length (lane_entries l (xs ++ ys)) ≡ length (lane_entries l xs) + length (lane_entries l ys)
  active-append l xs ys =
      ap length (lane_entries-append l xs ys)
      ∙ length-append (lane_entries l xs) (lane_entries l ys)

pub not_taken_from_empty {μ} :
    {A : Type μ} {l : List A} (before after : List A) (a : A) → l ≡ before ++ a ∷ after → l ≡ [] → ⊥
not_taken_from_empty [] after a h n = cc
not_taken_from_empty (b ∷ before) after a h n = cc

pub ready_not_empty {μ} : {A : Type μ} {l r : List A} {a : A} → l ≡ a ∷ r → l ≡ [] → ⊥
ready_not_empty h n = cc

pub not_waiting_in_empty {μ} :
    {V : Type μ} (m : Lane) {waiting : Map Lane V} {v : V}
    → waiting ≡ []
    → lookup m waiting ≡ some v
    → ⊥
unfolding lookup
not_waiting_in_empty m empty found = cc (ap (lookup m) empty)

module _ {ℓ κ} {K : Type ℓ} {E : Type κ} where
  pub insert_queued :
      (m : Lane) (queue : List (Ticket K × E)) (waiting : Map Lane (List (Ticket K × E)))
      → ((l : Lane) (r : List (Ticket K × E)) → lookup l waiting ≡ some r → InLane l r)
      → InLane m queue
      → (l : Lane) (r : List (Ticket K × E)) → lookup l (insert m queue waiting) ≡ some r
      → InLane l r
  insert_queued m queue waiting old new l r h = elim (Bool-cases (nat_beq m l)) [
    | inl same ↦
        let e : m ≡ l = (nat_beq_iff m l).0 same in
        let f : queue ≡ r = ground (arith, h, same, lookup-insert m l queue waiting) in
        subst (λ k. InLane k r) e (subst (InLane m) f new)
    | inr differ ↦ old l r (ground (arith, h, differ, lookup-insert m l queue waiting))
  ]

  pub remove_queued :
      (m : Lane) (waiting : Map Lane (List (Ticket K × E)))
      → ((l : Lane) (r : List (Ticket K × E)) → lookup l waiting ≡ some r → InLane l r)
      → (l : Lane) (r : List (Ticket K × E)) → lookup l (remove m waiting) ≡ some r
      → InLane l r
  remove_queued m waiting old l r h = old l r (ground (arith, h, lookup-remove m l waiting))

pub record LaneInv {ℓ κ} {K : Type ℓ} {E : Type κ} (s : System K E) : Type (ℓ ⊔ κ) where
  pub queued :
      (l : Lane) (queue : List (Ticket K × E))
      → lookup l s.scheduler.waiting ≡ some queue
      → InLane l queue
  pub single : (l : Lane) → active l s.running s.scheduler.ready ≤ 1
  pub occupied :
      s.receiving ≡ true
      → (l : Lane)
      → active l s.running s.scheduler.ready ≡ (if contains l s.scheduler.waiting then 1 else 0)
  pub closed :
      s.receiving ≡ false
      → (s.decoding ≡ []) × (s.scheduler.ready ≡ []) × (s.scheduler.waiting ≡ [])
