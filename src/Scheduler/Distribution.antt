-- ===== src/Scheduler/Distribution.antt =====
-- src/subscription/scheduler.rs: `Distributor`, and `distribute` of src/subscription/runtime.rs. The
-- keyed hash of the standard library is the argument `hash`, and `key` is the subscription's
-- distribution.
use beave_rs.Base.{Bool, false, Option, none, some, Eq}
use beave_rs.Base.Results.{Result, ok, err}
use beave_rs.Scheduler.{Lane, Admission, Scheduler, push}

pub record Distributor {ℓ κ} (M : Type ℓ) (I : Type κ) : Type (ℓ ⊔ κ) where
  pub assign : M → I → Option Lane
  pub keeps_source_order : Bool

hash_key {ℓ} : {K : Type ℓ} → (K → Lane) → Option K → Option Lane
hash_key hash none = none
hash_key hash (some k) = some (hash k)

unfoldable pub new_distributor {ℓ κ μ} :
    {M : Type ℓ} {I : Type κ} {K : Type μ}
    → (K → Lane)
    → (M → I → Option K)
    → Bool
    → Distributor M I
unfolding hash_key
new_distributor hash key keeps = record {
  assign = λ m v. hash_key hash (key m v);
  keeps_source_order = keeps;
}

-- Without keeping the source order.
unfoldable pub by_key {ℓ κ μ} :
    {M : Type ℓ} {I : Type κ} {K : Type μ} → (K → Lane) → (M → I → Option K) → Distributor M I
unfolding new_distributor
by_key hash key = new_distributor hash key false

-- A delivery that failed to decode has no lane.
unfoldable pub lane_of {ℓ κ μ} :
    {M : Type ℓ} {I : Type κ} {X : Type μ} → Distributor M I → M → Result X I → Option Lane
lane_of d m (ok value) = d.assign m value
lane_of d m (err e) = none

unfoldable pub distribute {ℓ κ μ ν} :
    {K : Type ℓ} ⦃e : Eq K⦄ {M : Type κ} {I : Type μ} {X : Type ν}
    → Distributor M I
    → Admission K
    → M × Result X I
    → Scheduler K (M × Result X I)
    → Scheduler K (M × Result X I)
unfolding lane_of
distribute d admission (m, value) s = push admission (lane_of d m value) (m, value) s
