-- ===== src/Health/Laws.antt =====
-- What the reports of src/health/state.rs say.
use beave_rs.Base.{
  ℕ, ◌+◌, ◌/◌, ◌^◌, ◌≤◌, ◌<◌, Bool, true, false, not, ◌&&◌, Option, some, List, [], ◌∷◌, all, All,
  map, ◌≡◌, ◌≢◌, ◌↔◌, ◌⊎◌, refl, arith, ◌*◌, none, Option-cases, inl, inr,
}
use beave_rs.Base.Map.{is_some}
use beave_rs.Token.{Tokens}
use beave_rs.Health.{
  Run, running, stopping, stopped, failed, Tracker, progressed, connected_by, overdue, is_stalled,
  report_at, Health, is_failed, is_shutting_down, report,
}

-- A subscription is reported ready exactly if its source ended and it stopped, or it is running, is
-- neither waiting to receive again nor retrying a publication, and its source is not disconnected.
pub ready_iff :
    (answer : ℕ → Option Bool) (now : ℕ) (t : Tracker)
    → ((report_at answer now t).ready ≡ true) ↔ (
        (t.status ≡ stopped)
        ⊎ ((t.status ≡ running)
            × (t.receive_backoff ≡ false)
            × (t.publish_retries ≡ 0)
            × (connected_by answer t.run ≢ some false)))
unfolding report_at
ready_iff answer now t = ground arith

-- A run whose stall timeout passed between the last progress and now.
abbrev pub HasTimedOut : ℕ → ℕ → Option Run → Type 0
HasTimedOut now last r =
    (run : Run) × (timeout : ℕ) × (r ≡ some run)
    × (run.stall_timeout ≡ some timeout)
    × ((timeout ≡ 0) ⊎ (last * 1000000 + timeout ≤ now))

abbrev pub HasStalled : ℕ → Tracker → Type 0
HasStalled now t = HasTimedOut now t.last_progress t.run

overdue_iff : (now last : ℕ) (r : Option Run) → (overdue now last r ≡ true) ↔ HasTimedOut now last r
overdue_iff now last none =
    (λ h. ground arith, λ (run, timeout, h, set_to, late). ground (arith, h))
overdue_iff now last (some run) = elim (Option-cases run.stall_timeout) [
  | inl absent ↦ (
    λ h. ground (arith, h, absent),
    λ (other, timeout, h, set_to, late). ground (arith, h, set_to, absent),
  )
  | inr (timeout, there) ↦ (
    λ h. (run, timeout, refl, there, ground (arith, h, there)),
    λ (other, limit, h, set_to, late). ground (arith, h, set_to, there, late),
  )
]

-- A subscription is reported stalled exactly if it is running or stopping, has deliveries in flight,
-- and has a stall timeout, in nanoseconds, that passed since its last progress, in milliseconds. A
-- timeout of 0 always has.
pub stalled_iff :
    (answer : ℕ → Option Bool) (now : ℕ) (t : Tracker)
    → ((report_at answer now t).stalled ≡ true)
      ↔ (((t.status ≡ running) ⊎ (t.status ≡ stopping)) × (0 < t.in_flight) × HasStalled now t)
unfolding report_at is_stalled
stalled_iff answer now t =
    let at = overdue_iff now t.last_progress t.run in
    (
      λ h. (ground (arith, h), ground (arith, h), at.0 (ground (arith, h))),
      λ (active, busy, late). ground (arith, active, busy, at.1 late),
    )

-- Progress restarts the stall timeout: a subscription is not stalled for the timeout after it, up to
-- the millisecond that the recorded time is rounded down by, while the clock's milliseconds fit 64
-- bits.
pub progressed_lem :
    (answer : ℕ → Option Bool) (now later timeout : ℕ) (probe : Option ℕ) (t : Tracker)
    → t.run ≡ some (record { probe = probe; stall_timeout = some timeout })
    → now / 1000000 < 2 ^ 64
    → now ≤ later
    → later + 1000000 ≤ now + timeout
    → (report_at answer later (progressed now t)).stalled ≡ false
unfolding report_at is_stalled progressed
progressed_lem answer now later timeout probe t run small order soon = ground (arith, run)

all-lives :
    (answer : ℕ → Option Bool) (now : ℕ) (ts : List Tracker)
    → (all (λ s. not (is_failed s.status) && not s.stalled) (map (report_at answer now) ts) ≡ true)
      ↔ All (λ t. (t.status ≢ failed) × ((report_at answer now t).stalled ≡ false)) ts
unfolding report_at
all-lives answer now [] = (λ e. tt, λ e. refl)
all-lives answer now (t ∷ ts) = ground (arith, all-lives answer now ts)

all-ready :
    (answer : ℕ → Option Bool) (now : ℕ) (ts : List Tracker)
    → (all (λ s. s.ready) (map (report_at answer now) ts) ≡ true)
      ↔ All (λ t. (report_at answer now t).ready ≡ true) ts
all-ready answer now [] = (λ e. tt, λ e. refl)
all-ready answer now (t ∷ ts) = ground (arith, all-ready answer now ts)

-- The application is reported live exactly if no subscription has failed or is stalled, and ready
-- exactly if it was started, its shutdown token is not cancelled and every subscription is ready.
pub report_iff :
    (answer : ℕ → Option Bool) (tokens : Tokens) (now : ℕ) (h : Health)
    → (((report answer tokens now h).live ≡ true)
        ↔ All
            (λ t. (t.status ≢ failed) × ((report_at answer now t).stalled ≡ false))
            h.subscriptions)
      × (((report answer tokens now h).ready ≡ true) ↔ (
          (is_some h.shutdown ≡ true)
          × (is_shutting_down tokens h.shutdown ≡ false)
          × All (λ t. (report_at answer now t).ready ≡ true) h.subscriptions))
unfolding report
report_iff answer tokens now h =
    let lives = all-lives answer now h.subscriptions in
    let readies = all-ready answer now h.subscriptions in
    (ground (arith, lives), ground (arith, readies))
