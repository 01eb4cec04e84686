-- ===== src/Health.antt =====
-- src/health/state.rs: the health that each subscription's tracker records and the report of an
-- application. Times are nanoseconds after the tracker's epoch. A source's probe is an identity, and
-- its answer at the time of a report is an argument. The atomics are read and written one at a time.
pub mod Laws
mod Tests
use beave_rs.Base.{
  ℕ, ◌+◌, ◌-◌, ◌*◌, ◌/◌, ◌%◌, ◌^◌, min, ltb, leb, nat_beq, if◌then◌else◌, Bool, true, false, not,
  ◌&&◌, ◌||◌, String, Option, none, some, List, [], ◌∷◌, ◌++◌, all, map,
}
use beave_rs.Base.Map.{is_some}
use beave_rs.Token.{Token, Tokens, is_cancelled}

-- `Pending`, `Running`, `Stopping`, `Stopped`, `Failed`.
pub data SubscriptionStatus : Type 0 where
  pending running stopping stopped failed : SubscriptionStatus

pub record Run : Type 0 where
  pub probe : Option ℕ
  pub stall_timeout : Option ℕ

pub record Tracker : Type 0 where
  pub name : String
  pub status : SubscriptionStatus
  pub receive_failures : ℕ
  pub receive_backoff : Bool
  pub publish_retries : ℕ
  pub in_flight : ℕ
  pub last_progress : ℕ  -- milliseconds
  pub run : Option Run

abbrev pub new : String → Tracker
new name = record {
  name = name;
  status = pending;
  receive_failures = 0;
  receive_backoff = false;
  publish_retries = 0;
  in_flight = 0;
  last_progress = 0;
  run = none;
}

-- `as_millis`, capped at `u64::MAX`.
unfoldable pub progressed : ℕ → Tracker → Tracker
progressed now t = record t { last_progress = min (now / 1000000) (2 ^ 64 - 1) }

unfoldable pub set_status : SubscriptionStatus → Tracker → Tracker
set_status status t = record t { status = status }

-- `OnceLock::set` keeps the first value.
unfoldable pub start : ℕ → Option ℕ → Option ℕ → Tracker → Tracker
unfolding progressed set_status
start now probe stall_timeout t =
    let run =
      if is_some t.run
      then t.run
      else some (record { probe = probe; stall_timeout = stall_timeout }) in
    set_status running (progressed now (record t { run = run }))

unfoldable pub set_in_flight : ℕ → Tracker → Tracker
set_in_flight n t = record t { in_flight = n }

unfoldable pub receive_failed : ℕ → Tracker → Tracker
receive_failed failures t = record t { receive_failures = failures; receive_backoff = true }

unfoldable pub receive_resumed : Tracker → Tracker
receive_resumed t = record t { receive_backoff = false }

unfoldable pub receive_succeeded : Tracker → Tracker
receive_succeeded t = record t { receive_failures = 0 }

-- The guard of a retried publication, and its drop: `fetch_add` and `fetch_sub` wrap.
unfoldable pub publish_retry : Tracker → Tracker
publish_retry t = record t { publish_retries = (t.publish_retries + 1) % 2 ^ 64 }

unfoldable pub drop_retry : Tracker → Tracker
drop_retry t = record t { publish_retries = (t.publish_retries + (2 ^ 64 - 1)) % 2 ^ 64 }

pub record SubscriptionReport : Type 0 where
  pub name : String
  pub status : SubscriptionStatus
  pub receive_failures : ℕ
  pub receive_backoff : Bool
  pub publish_retries : ℕ
  pub connected : Option Bool
  pub stalled : Bool
  pub ready : Bool

abbrev is_active : SubscriptionStatus → Bool
is_active running = true
is_active stopping = true
is_active _ = false

abbrev is_disconnected : Option Bool → Bool
is_disconnected (some false) = true
is_disconnected _ = false

abbrev pub connected_by : (ℕ → Option Bool) → Option Run → Option Bool
connected_by answer none = none
connected_by answer (some run) = elim run.probe [ none ↦ none | some probe ↦ answer probe ]

-- Whether the stall timeout passed since the last progress.
abbrev pub overdue : ℕ → ℕ → Option Run → Bool
overdue now last none = false
overdue now last (some run) = elim run.stall_timeout [
  | none ↦ false
  | some timeout ↦ leb timeout (now - last * 1000000)
]

unfoldable pub is_stalled : ℕ → Tracker → Bool
is_stalled now t = is_active t.status && ltb 0 t.in_flight && overdue now t.last_progress t.run

ready_in : SubscriptionStatus → Bool → ℕ → Option Bool → Bool
ready_in running backoff retries connected =
    not backoff && nat_beq retries 0 && not (is_disconnected connected)
ready_in stopped backoff retries connected = true
ready_in pending backoff retries connected = false
ready_in stopping backoff retries connected = false
ready_in failed backoff retries connected = false

unfoldable pub report_at : (ℕ → Option Bool) → ℕ → Tracker → SubscriptionReport
unfolding is_stalled ready_in
report_at answer now t =
    let connected = connected_by answer t.run in
    record {
      name = t.name;
      status = t.status;
      receive_failures = t.receive_failures;
      receive_backoff = t.receive_backoff;
      publish_retries = t.publish_retries;
      connected = connected;
      stalled = is_stalled now t;
      ready = ready_in t.status t.receive_backoff t.publish_retries connected;
    }

pub record HealthReport : Type 0 where
  pub live : Bool
  pub ready : Bool
  pub shutting_down : Bool
  pub subscriptions : List SubscriptionReport

-- The registry: the trackers and the token set when the application starts.
pub record Health : Type 0 where
  pub subscriptions : List Tracker
  pub shutdown : Option Token

abbrev pub is_failed : SubscriptionStatus → Bool
is_failed failed = true
is_failed _ = false

abbrev pub is_shutting_down : Tokens → Option Token → Bool
is_shutting_down tokens none = false
is_shutting_down tokens (some token) = is_cancelled token tokens

unfoldable pub report : (ℕ → Option Bool) → Tokens → ℕ → Health → HealthReport
report answer tokens now h =
    let subscriptions = map (report_at answer now) h.subscriptions in
    let shutting_down = is_shutting_down tokens h.shutdown in
    record {
      live = all (λ s. not (is_failed s.status) && not s.stalled) subscriptions;
      ready = is_some h.shutdown && not shutting_down && all (λ s. s.ready) subscriptions;
      shutting_down = shutting_down;
      subscriptions = subscriptions;
    }

unfoldable pub register : String → Health → Health
register name h = record h { subscriptions = h.subscriptions ++ new name ∷ [] }

unfoldable pub start_all : Token → Health → Health
start_all token h = record h { shutdown = if is_some h.shutdown then h.shutdown else some token }
