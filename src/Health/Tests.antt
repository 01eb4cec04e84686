-- ===== src/Health/Tests.antt =====
-- The theorems on src/health/state.rs at concrete trackers.
use beave_rs.Base.{
  ℕ, ◌<◌, ◌≡◌, ◌≢◌, ◌↔◌, ◌⊎◌, Bool, true, false, Option, some, [], ◌∷◌, All, arith, refl,
}
use beave_rs.Base.Map.{is_some}
use beave_rs.Token.{no_tokens}
use beave_rs.Health.{
  running, stopping, stopped, failed, Tracker, progressed, connected_by, report_at, Health,
  is_shutting_down, report,
}
use beave_rs.Health.Laws.{ready_iff, stalled_iff, progressed_lem, HasStalled, report_iff}

abbrev answer : ℕ → Option Bool
answer probe = some true

-- Running with two deliveries in flight and a stall timeout of a minute.
abbrev orders : Tracker
orders = record {
  name = "orders";
  status = running;
  receive_failures = 0;
  receive_backoff = false;
  publish_retries = 0;
  in_flight = 2;
  last_progress = 0;
  run = some (record { probe = some 4; stall_timeout = some 60000000000 });
}

abbrev app : Health
app = record { subscriptions = orders ∷ []; shutdown = some 0 }

ready_iff_example : ((report_at answer 1 orders).ready ≡ true) ↔ (
    (orders.status ≡ stopped)
    ⊎ ((orders.status ≡ running)
        × (orders.receive_backoff ≡ false)
        × (orders.publish_retries ≡ 0)
        × (connected_by answer orders.run ≢ some false)))
ready_iff_example = ready_iff answer 1 orders

stalled_iff_example : ((report_at answer 120000000000 orders).stalled ≡ true) ↔ (
    ((orders.status ≡ running) ⊎ (orders.status ≡ stopping))
    × (0 < orders.in_flight)
    × HasStalled 120000000000 orders)
stalled_iff_example = stalled_iff answer 120000000000 orders

progressed_lem_example :
    (report_at answer 90000000000 (progressed 60000000000 orders)).stalled ≡ false
progressed_lem_example =
    progressed_lem answer 60000000000 90000000000 60000000000 (some 4) orders refl (omega arith)
      (omega arith) (omega arith)

report_iff_example :
    (((report answer no_tokens 1 app).live ≡ true)
      ↔ All (λ t. (t.status ≢ failed) × ((report_at answer 1 t).stalled ≡ false)) app.subscriptions)
    × (((report answer no_tokens 1 app).ready ≡ true) ↔ (
        (is_some app.shutdown ≡ true)
        × (is_shutting_down no_tokens app.shutdown ≡ false)
        × All (λ t. (report_at answer 1 t).ready ≡ true) app.subscriptions))
report_iff_example = report_iff answer no_tokens 1 app
