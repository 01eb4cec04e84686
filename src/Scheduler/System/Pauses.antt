-- ===== src/Scheduler/System/Pauses.antt =====
-- What the source holds paused after it carried out the requests of src/subscription/scheduler.rs.
use beave_rs.Base.{ℕ, ◌/◌, ◌<◌, ◌≡◌, arith, true, false, ◌⊎◌, Bool-cases, Option, some, Eq, subst}
use beave_rs.Scheduler.Flow.{FlowControl}
use beave_rs.Scheduler.{take_changes, take_flow_changes}
use beave_rs.Scheduler.System.{System, Reach, initial, after_requests}
use beave_rs.Scheduler.System.Effects.{is_key, load_all, Agrees, FlowHolds}
use beave_rs.Scheduler.System.Counts.{Reach-Inv}

module _ {ℓ κ} {K : Type ℓ} ⦃e : Eq K⦄ {E : Type κ} where
  -- In every reachable state with flow control on, once the source has carried out the requests
  -- taken from the scheduler, a key is paused, and then it has more than half of `limit` unfinished
  -- deliveries, or it is not paused, and then it has fewer than `limit` or none at all.
  pub requests_pause :
      (limit : Option ℕ) {s : System K E} (f : FlowControl K) (k : K)
      → Reach (initial limit) s
      → s.scheduler.flow ≡ some f
      → (((after_requests s).held k ≡ true) × (f.limit / 2 < load_all (is_key k) s))
        ⊎ (((after_requests s).held k ≡ false)
            × ((load_all (is_key k) s < f.limit) ⊎ (load_all (is_key k) s ≡ 0)))
  unfolding after_requests take_flow_changes take_changes
  requests_pause limit {s = s} f k r on =
      let v = Reach-Inv limit r in
      let agrees : Agrees (some f) k (load_all (is_key k) s) =
        subst (λ o. Agrees o k (load_all (is_key k) s)) on (v.keyed k) in
      let holds : FlowHolds s.held (some f) = subst (FlowHolds s.held) on v.flows in
      ground (
        arith,
        on,
        agrees,
        holds.0.paused_high k,
        holds.0.high_paused k,
        holds.1.reached k,
        Bool-cases ((after_requests s).held k),
      )
