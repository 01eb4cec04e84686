-- ===== src/Pulsar/Resend.antt =====
-- src/adapters/pulsar/resend.rs: the task of a `Resender`, which awaits the receipts of its producer's
-- sends in order and sends rejected messages again. The producer, the clock and what the senders do
-- meanwhile are parameters, on a world.
pub mod Settling
pub mod Orders
use beave_rs.Base.{
  ℕ, zero, suc, ◌+◌, Bool, true, false, not, ◌||◌, Option, none, some, List, [], ◌∷◌, ◌++◌, leb,
  nat_beq, if◌then◌else◌, max, ◌-◌, length,
}
use beave_rs.Base.Results.{Result, ok, err}
use beave_rs.Retry.{RetryPolicy, delay}

-- The client library, with receipts `R` and errors `X`.
pub record Client (W M R X : Type 0) : Type 0 where
  pub send : M → W → R × W
  pub await : R → W → Result X (Unit {0}) × W
  -- The code of `ClientError::SendRejected`.
  pub rejection_code : X → Option ℕ
  pub not_allowed_error : ℕ
  pub topic_terminated_error : ℕ
  pub now : W → ℕ
  pub sleep_until : ℕ → W → W
  pub random : W → ℕ
  -- Whether the sender of a message gave up its outcome.
  pub is_closed : ℕ → W → Bool

-- `result` tells whose outcome it is.
pub record Attempt (M R : Type 0) : Type 0 where
  pub message : M
  pub receipt : R
  pub sent_at : ℕ
  pub failures : ℕ
  pub result : ℕ

-- What the task did with an attempt whose receipt it awaited.
pub data Event (X : Type 0) : Type 0 where
  accepted dropped resent : ℕ → Event X
  failed : ℕ → X → Event X

pub record Settled (W M R X : Type 0) : Type 0 where
  pub event : Event X
  pub again : List (Attempt M R)
  pub world : W

unfoldable pub arrived : {A : Type 0} → List (List A) → List A
arrived [] = []
arrived (now_there ∷ later) = now_there

unfoldable pub not_yet : {A : Type 0} → List (List A) → List (List A)
not_yet [] = []
not_yet (now_there ∷ later) = later

module _ {W M R X : Type 0} (c : Client W M R X) (retry : RetryPolicy) where
  unfoldable pub resendable_code : Option ℕ → Bool
  resendable_code none = false
  resendable_code (some code) =
      not (nat_beq c.not_allowed_error code || nat_beq c.topic_terminated_error code)

  unfoldable pub resendable : X → Bool
  unfolding resendable_code
  resendable error = resendable_code (c.rejection_code error)

  unfoldable pub settled_by : Event X → W → Settled W M R X
  settled_by event w = record { event = event; again = []; world = w }

  -- An attempt whose message is sent again, after its delay.
  unfoldable pub resend : Attempt M R → W → Settled W M R X
  unfolding delay
  resend a w =
      let w' = c.sleep_until (a.sent_at + delay retry (c.random w) a.failures) w in
      let (receipt, after) = c.send a.message w' in
      record {
        event = resent a.result;
        again = record a { receipt = receipt; sent_at = c.now after } ∷ [];
        world = after;
      }

  -- An attempt with this failure counted.
  unfoldable pub after_error : Attempt M R → X → W → Settled W M R X
  unfolding settled_by resend resendable
  after_error a error w =
      if not (resendable error) || leb retry.max_attempts a.failures
      then settled_by (failed a.result error) w
      else if c.is_closed a.result w
      then settled_by (dropped a.result) w
      else resend a w

  unfoldable pub after_receipt : Attempt M R → Result X (Unit {0}) → W → Settled W M R X
  unfolding settled_by after_error
  after_receipt a (ok tt) w = settled_by (accepted a.result) w
  after_receipt a (err error) w = after_error (record a { failures = a.failures + 1 }) error w

  -- The body of the loop of `await_receipts`, for the attempt at the front of the queue.
  unfoldable pub settle : Attempt M R → W → Settled W M R X
  unfolding after_receipt
  settle a w = let (answer, after) = c.await a.receipt w in after_receipt a answer after

  unfoldable pub then_did : Event X → Option (List (Event X)) → Option (List (Event X))
  then_did event none = none
  then_did event (some t) = some (event ∷ t)

  -- An iteration after it took what arrived; with nothing pending it waits for more.
  unfoldable pub iterate :
      (List (List (Attempt M R)) → List (Attempt M R) → W → Option (List (Event X)))
      → List (List (Attempt M R))
      → List (Attempt M R)
      → W
      → Option (List (Event X))
  unfolding settle then_did
  iterate continue arrivals (a ∷ pending) w =
      let s = settle a w in then_did s.event (continue arrivals (pending ++ s.again) s.world)
  iterate continue (x ∷ arrivals) [] w = continue (x ∷ arrivals) [] w
  iterate continue [] [] w = some []

  -- `await_receipts`. Before each iteration the channel delivers the next list of attempts; after the
  -- last it is closed. `none` is a run that has no fuel left.
  unfoldable pub await_receipts :
      ℕ → List (List (Attempt M R)) → List (Attempt M R) → W → Option (List (Event X))
  unfolding iterate arrived not_yet
  await_receipts zero arrivals pending w = none
  await_receipts (suc fuel) arrivals pending w =
      iterate (await_receipts fuel) (not_yet arrivals) (pending ++ arrived arrivals) w

module _ {M R : Type 0} where
  unfoldable pub total : (Attempt M R → ℕ) → List (Attempt M R) → ℕ
  total f [] = 0
  total f (a ∷ rest) = f a + total f rest

  unfoldable pub total_all : (Attempt M R → ℕ) → List (List (Attempt M R)) → ℕ
  unfolding total
  total_all f [] = 0
  total_all f (xs ∷ rest) = total f xs + total_all f rest

  -- The sends of an attempt that are still awaited: at least the one that was made.
  unfoldable pub sends_left : RetryPolicy → Attempt M R → ℕ
  sends_left retry a = max 1 (retry.max_attempts - a.failures)

  -- Fuel for a run: an iteration for each send, one for each arrival and one more.
  unfoldable pub await_fuel : RetryPolicy → List (List (Attempt M R)) → List (Attempt M R) → ℕ
  unfolding total total_all sends_left
  await_fuel retry arrivals pending =
      total (sends_left retry) pending + total_all (sends_left retry) arrivals + length arrivals + 1
