-- ===== src/Pulsar/Tests.antt =====
-- Runs of the task of src/adapters/pulsar/resend.rs, and its theorem on one of them.
use beave_rs.Base.{List, ℕ, ◌+◌, ◌≡◌, refl, false, some, [], ◌∷◌, nat_beq, if◌then◌else◌}
use beave_rs.Base.Results.{Result, ok, err}
use beave_rs.Retry.{default_policy}
use beave_rs.Pulsar.Resend.{
  Event, Client, Attempt, accepted, resent, failed, await_receipts, await_fuel,
}
use beave_rs.Pulsar.Resend.Orders.{IsInOrder, await_receipts-IsInOrder}
use beave_rs.Pulsar.Resend.Settling.{Answers, await_receipts_lem}

-- A broker that rejects the sends 1 and 2 with a persistence error and 3 because the topic has
-- terminated. Sends are counted by the world.
abbrev answer : ℕ → Result ℕ (Unit {0})
answer send =
    if nat_beq send 1
    then err 7
    else if nat_beq send 2
    then err 7
    else if nat_beq send 3
    then err 8
    else ok tt

abbrev broker : Client ℕ ℕ ℕ ℕ
broker = record {
  send = λ m w. (w, w + 1);
  await = λ send w. (answer send, w);
  rejection_code = λ x. some x;
  not_allowed_error = 9;
  topic_terminated_error = 8;
  now = λ w. w;
  sleep_until = λ t w. w;
  random = λ w. 0;
  is_closed = λ id w. false;
}

abbrev attempt : ℕ → ℕ → Attempt ℕ ℕ
attempt id send = record { message = id; receipt = send; sent_at = 0; failures = 0; result = id }

-- The rejected messages are sent again in their order.
rejected_run :
    await_receipts broker default_policy 9
      ((attempt 30 3 ∷ []) ∷ [])
      (attempt 10 1 ∷ attempt 20 2 ∷ [])
      10
    ≡ some (resent 10 ∷ resent 20 ∷ failed 30 8 ∷ accepted 10 ∷ accepted 20 ∷ [])
unfolding await_receipts
rejected_run = refl

await_receipts_lem_example :
    Answers broker default_policy 10 ((attempt 30 3 ∷ []) ∷ []) (attempt 10 1 ∷ attempt 20 2 ∷ []) (
      await_receipts broker default_policy
        (await_fuel default_policy ((attempt 30 3 ∷ []) ∷ []) (attempt 10 1 ∷ attempt 20 2 ∷ []))
        ((attempt 30 3 ∷ []) ∷ [])
        (attempt 10 1 ∷ attempt 20 2 ∷ [])
        10)
await_receipts_lem_example =
    await_receipts_lem broker default_policy 10 ((attempt 30 3 ∷ []) ∷ [])
      (attempt 10 1 ∷ attempt 20 2 ∷ []) 10

await_receipts-IsInOrder_example :
    (t : List (Event ℕ)) × (await_receipts broker default_policy
        (await_fuel default_policy [] (attempt 10 1 ∷ attempt 20 2 ∷ []))
        []
        (attempt 10 1 ∷ attempt 20 2 ∷ [])
        10
      ≡ some t)
    × IsInOrder broker default_policy (attempt 10 1 ∷ attempt 20 2 ∷ []) t
await_receipts-IsInOrder_example =
    await_receipts-IsInOrder broker default_policy (attempt 10 1 ∷ attempt 20 2 ∷ []) 10
