-- ===== src/Scheduler/System/Effects.antt =====
-- src/subscription/scheduler.rs counts: the invariant, and the effect of each call on its parts.
use beave_rs.Base.{
  ℕ, ◌+◌, ◌-◌, ◌≡◌, refl, ap, arith, Bool, Option, none, some, List, [], ◌∷◌, ◌++◌, Eq, ◌==◌,
  nat_eq, if◌then◌else◌,
}
use beave_rs.Base.Map.{IsMap, insert-IsMap, remove-IsMap}
use beave_rs.Scheduler.Flow.{FlowControl}
use beave_rs.Scheduler.Flow.Hysteresis.{
  unfinished_of, unfinished_of-add, unfinished_of-release, FlowInv, add-FlowInv, release-FlowInv,
}
use beave_rs.Scheduler.Flow.Requests.{Mirrors, add-Mirrors, release-Mirrors, carry_out_all}
use beave_rs.Scheduler.{
  Lane, Admission, Ticket, Scheduler, admit_flow, take_changes, push, complete, release_flow,
  release_all,
}
use beave_rs.Scheduler.Cases.{ticket_of, push_cases, complete_cases}
use beave_rs.Scheduler.System.Load.{
  load, stored, load_admissions, load-append, load_admissions-append,
}
use beave_rs.Scheduler.System.{System}

-- Whether a flow key is `k`, as a number.
abbrev pub is_key {ℓ} : {K : Type ℓ} ⦃e : Eq K⦄ → K → Option K → ℕ
is_key k none = 0
is_key k (some j) = if j == k then 1 else 0

abbrev pub each {ℓ} : {K : Type ℓ} → Option K → ℕ
each key = 1

-- Every delivery that is not finished, weighed by its flow key.
abbrev pub load_all {ℓ κ} : {K : Type ℓ} {E : Type κ} → (Option K → ℕ) → System K E → ℕ
load_all w s = load_admissions w s.decoding + stored w s.scheduler + load w s.running

-- What flow control counts for `k` is the load of `k`, unless flow control is off.
abbrev pub Agrees {ℓ} : {K : Type ℓ} ⦃e : Eq K⦄ → Option (FlowControl K) → K → ℕ → Type 0
Agrees none k n = Unit
Agrees (some f) k n = unfinished_of f k ≡ n

abbrev pub FlowHolds {ℓ} : {K : Type ℓ} ⦃e : Eq K⦄ → (K → Bool) → Option (FlowControl K) → Type ℓ
FlowHolds held none = Unit
FlowHolds held (some f) = FlowInv f × Mirrors held f

pub record Inv {ℓ κ} {K : Type ℓ} ⦃e : Eq K⦄ {E : Type κ} (s : System K E) : Type (ℓ ⊔ κ) where
  pub lanes : IsMap s.scheduler.waiting
  pub counted : s.scheduler.outstanding ≡ load_all each s
  pub keyed : (k : K) → Agrees s.scheduler.flow k (load_all (is_key k) s)
  pub flows : FlowHolds s.held s.scheduler.flow

module _ {ℓ} {K : Type ℓ} ⦃e : Eq K⦄ where
  pub release_flow-Agrees :
      (key : Option K) (f : Option (FlowControl K)) (k : K) (n m : ℕ)
      → Agrees f k n
      → n ≡ m + is_key k key
      → Agrees (release_flow key f) k m
  unfolding release_flow
  release_flow-Agrees none none k n m a h = tt
  release_flow-Agrees none (some f) k n m a h = omega arith
  release_flow-Agrees (some key) none k n m a h = tt
  release_flow-Agrees (some key) (some f) k n m a h = omega (arith, unfinished_of-release f key k)

  pub release_flow-FlowHolds :
      (held : K → Bool) (key : Option K) (f : Option (FlowControl K))
      → FlowHolds held f
      → FlowHolds held (release_flow key f)
  unfolding release_flow
  release_flow-FlowHolds held none none h = tt
  release_flow-FlowHolds held none (some f) h = h
  release_flow-FlowHolds held (some key) none h = tt
  release_flow-FlowHolds held (some key) (some f) h =
      (release-FlowInv f key h.0, release-Mirrors held f key h.1)

  pub Agrees-same :
      (f : Option (FlowControl K)) (k : K) (n m : ℕ) → Agrees f k n → n ≡ m → Agrees f k m
  Agrees-same none k n m a h = tt
  Agrees-same (some f) k n m a h = omega arith

  pub admit_flow-Agrees :
      (f : Option (FlowControl K)) (scope : Option K) (k : K) (n m : ℕ)
      → Agrees f k n
      → m ≡ n + is_key k (admit_flow f scope).1
      → Agrees (admit_flow f scope).0 k m
  unfolding admit_flow
  admit_flow-Agrees none scope k n m a h = tt
  admit_flow-Agrees (some f) none k n m a h = omega arith
  admit_flow-Agrees (some f) (some key) k n m a h = omega (arith, unfinished_of-add f key k)

  pub admit_flow-FlowHolds :
      (held : K → Bool) (f : Option (FlowControl K)) (scope : Option K)
      → FlowHolds held f
      → FlowHolds held (admit_flow f scope).0
  unfolding admit_flow
  admit_flow-FlowHolds held none scope h = tt
  admit_flow-FlowHolds held (some f) none h = h
  admit_flow-FlowHolds held (some f) (some key) h =
      (add-FlowInv f key h.0, add-Mirrors held f key h.1)

  pub take_changes-Agrees :
      (f : Option (FlowControl K)) (k : K) (n : ℕ) → Agrees f k n → Agrees (take_changes f).0 k n
  unfolding take_changes
  take_changes-Agrees none k n a = tt
  take_changes-Agrees (some f) k n a = a

  pub take_changes-FlowHolds :
      (held : K → Bool) (f : Option (FlowControl K))
      → FlowHolds held f
      → FlowHolds (carry_out_all (take_changes f).1 held) (take_changes f).0
  unfolding take_changes
  take_changes-FlowHolds held none h = tt
  take_changes-FlowHolds held (some f) (v, m) = (
    record { no_zero = v.no_zero; paused_high = v.paused_high; high_paused = v.high_paused },
    record { reached = m.reached; needed = tt },
  )

  pub release_all-Agrees {κ} :
      {E : Type κ} (l : List (Ticket K × E)) (f : Option (FlowControl K)) (k : K) (n m : ℕ)
      → Agrees f k n
      → n ≡ m + load (is_key k) l
      → Agrees (release_all l f) k m
  unfolding release_all
  release_all-Agrees [] f k n m a h = Agrees-same f k n m a (omega arith)
  release_all-Agrees ((t, x) ∷ l) f k n m a h =
      release_all-Agrees l (release_flow t.flow f) k (m + load (is_key k) l) m
        (release_flow-Agrees t.flow f k n _ a (omega arith)) refl

  pub release_all-FlowHolds {κ} :
      {E : Type κ} (held : K → Bool) (l : List (Ticket K × E)) (f : Option (FlowControl K))
      → FlowHolds held f
      → FlowHolds held (release_all l f)
  unfolding release_all
  release_all-FlowHolds held [] f h = h
  release_all-FlowHolds held ((t, x) ∷ l) f h =
      release_all-FlowHolds held l (release_flow t.flow f) (release_flow-FlowHolds held t.flow f h)

  -- Taking one admission out of the list.
  pub load_taken :
      (w : Option K → ℕ) {l : List (Admission K)} (before after : List (Admission K))
      (a : Admission K)
      → l ≡ before ++ a ∷ after
      → load_admissions w l ≡ load_admissions w (before ++ after) + w a.flow
  load_taken w before after a h = omega (
    arith,
    ap (load_admissions w) h,
    load_admissions-append w before (a ∷ after),
    load_admissions-append w before after,
  )

module _ {ℓ κ} {K : Type ℓ} ⦃e : Eq K⦄ {E : Type κ} where
  pub push-IsMap :
      (a : Admission K) (lane : Option Lane) (x : E) (q : Scheduler K E)
      → IsMap q.waiting
      → IsMap (push a lane x q).waiting
  push-IsMap a lane x q m =
      push_cases (λ r. IsMap r.waiting) a lane x q (λ _. m) (λ l _ _. insert-IsMap l [] q.waiting m)
        (λ l queue _ _. insert-IsMap l (queue ++ (ticket_of a (some l), x) ∷ []) q.waiting m)

  pub complete-IsMap :
      (t : Ticket K) (q : Scheduler K E) → IsMap q.waiting → IsMap (complete t q).waiting
  complete-IsMap t q m =
      complete_cases (λ r. IsMap r.waiting) t q (λ _. m) (λ _ _ _. m)
        (λ l _ _. remove-IsMap l q.waiting m) (λ l _ rest _ _. insert-IsMap l rest q.waiting m)

  -- What a call does to the counter and to flow control does not depend on the lanes.
  pub push_counts :
      (a : Admission K) (lane : Option Lane) (x : E) (q : Scheduler K E)
      → ((push a lane x q).outstanding ≡ q.outstanding) × ((push a lane x q).flow ≡ q.flow)
  push_counts a lane x q =
      push_cases (λ r. (r.outstanding ≡ q.outstanding) × (r.flow ≡ q.flow)) a lane x q
        (λ _. (refl, refl)) (λ _ _ _. (refl, refl)) (λ _ _ _ _. (refl, refl))

  pub complete_counts :
      (t : Ticket K) (q : Scheduler K E)
      → ((complete t q).outstanding ≡ q.outstanding - 1)
        × ((complete t q).flow ≡ release_flow t.flow q.flow)
  complete_counts t q =
      complete_cases
        (λ r. (r.outstanding ≡ q.outstanding - 1) × (r.flow ≡ release_flow t.flow q.flow)) t q
        (λ _. (refl, refl)) (λ _ _ _. (refl, refl)) (λ _ _ _. (refl, refl))
        (λ _ _ _ _ _. (refl, refl))

  pub load_finished :
      (w : Option K → ℕ) {l : List (Ticket K × E)} (before after : List (Ticket K × E))
      (t : Ticket K) (x : E)
      → l ≡ before ++ (t, x) ∷ after
      → load w l ≡ load w (before ++ after) + w t.flow
  load_finished w before after t x h =
      omega
        (arith, ap (load w) h, load-append w before ((t, x) ∷ after), load-append w before after)
