-- ===== src/Scheduler/System/Load.antt =====
-- How many deliveries of src/subscription/scheduler.rs wait, weighed by their flow key.
use beave_rs.Base.{
  ℕ, ◌+◌, ◌≡◌, refl, arith, Option, none, some, List, [], ◌∷◌, ◌++◌, Eq, nat_eq, Option-cases, inl,
  inr,
}
use beave_rs.Base.Map.{Map, lookup, IsMap, total, total-insert, total-remove}
use beave_rs.Scheduler.{Lane, Admission, Ticket, Scheduler, push, next_ready, complete, drain}

module _ {ℓ κ} {K : Type ℓ} {E : Type κ} (w : Option K → ℕ) where
  abbrev pub load : List (Ticket K × E) → ℕ
  load [] = 0
  load ((ticket, entry) ∷ rest) = w ticket.flow + load rest

  abbrev pub load_lanes : Map Lane (List (Ticket K × E)) → ℕ
  load_lanes = total load

  -- What the scheduler stores.
  abbrev pub stored : Scheduler K E → ℕ
  stored q = load q.ready + load_lanes q.waiting

  pub load-append : (xs ys : List (Ticket K × E)) → load (xs ++ ys) ≡ load xs + load ys
  load-append [] ys = omega arith
  load-append ((t, x) ∷ xs) ys = omega (arith, load-append xs ys)

  pub load-drain : (m : Map Lane (List (Ticket K × E))) → load (drain m) ≡ load_lanes m
  load-drain [] = refl
  load-drain ((lane, queue) ∷ m) = omega (arith, load-append queue (drain m), load-drain m)

abbrev pub load_admissions {ℓ} : {K : Type ℓ} → (Option K → ℕ) → List (Admission K) → ℕ
load_admissions w [] = 0
load_admissions w (a ∷ rest) = w a.flow + load_admissions w rest

pub load_admissions-append {ℓ} :
    {K : Type ℓ} (w : Option K → ℕ) (xs ys : List (Admission K))
    → load_admissions w (xs ++ ys) ≡ load_admissions w xs + load_admissions w ys
load_admissions-append w [] ys = omega arith
load_admissions-append w (a ∷ xs) ys = omega (arith, load_admissions-append w xs ys)

module _ {ℓ κ} {K : Type ℓ} ⦃e : Eq K⦄ {E : Type κ} (w : Option K → ℕ) where
  pub stored-push :
      (a : Admission K) (lane : Option Lane) (x : E) (q : Scheduler K E)
      → stored w (push a lane x q) ≡ stored w q + w a.flow
  unfolding push
  stored-push a none x q =
      let t : Ticket K = record { lane = none; flow = a.flow } in
      omega (arith, load-append w q.ready ((t, x) ∷ []))
  stored-push a (some lane) x q =
      let t : Ticket K = record { lane = some lane; flow = a.flow } in
      elim (Option-cases (lookup lane q.waiting)) [
        | inl absent ↦ ground (
          arith,
          absent,
          load-append w q.ready ((t, x) ∷ []),
          total-insert (load w) lane [] q.waiting,
        )
        | inr (queue, found) ↦ ground (
          arith,
          found,
          load-append w queue ((t, x) ∷ []),
          total-insert (load w) lane (queue ++ (t, x) ∷ []) q.waiting,
        )
      ]

  stored-succeed :
      (t : Ticket K) (lane : Lane) (queue : List (Ticket K × E)) (q : Scheduler K E)
      → t.lane ≡ some lane
      → lookup lane q.waiting ≡ some queue
      → IsMap q.waiting
      → stored w (complete t q) ≡ stored w q
  unfolding complete
  stored-succeed t lane [] q l found m =
      ground (arith, l, found, total-remove (load w) lane q.waiting m)
  stored-succeed t lane (next ∷ rest) q l found m = ground (
    arith,
    l,
    found,
    load-append w q.ready (next ∷ []),
    total-insert (load w) lane rest q.waiting,
  )

  -- A completion moves a successor and drops nothing.
  pub stored-complete :
      (t : Ticket K) (q : Scheduler K E) → IsMap q.waiting → stored w (complete t q) ≡ stored w q
  unfolding complete
  stored-complete t q m = elim (Option-cases t.lane) [
    | inl free ↦ ground (arith, free)
    | inr (lane, l) ↦ elim (Option-cases (lookup lane q.waiting)) [
      | inl absent ↦ ground (arith, l, absent)
      | inr (queue, found) ↦ stored-succeed t lane queue q l found m
    ]
  ]

  pub stored-next_ready :
      (q r : Scheduler K E) (t : Ticket K) (x : E)
      → next_ready q ≡ (r, some (t, x))
      → stored w r + w t.flow ≡ stored w q
  unfolding next_ready
  stored-next_ready q r t x h = ground arith
