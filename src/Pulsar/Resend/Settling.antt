-- ===== src/Pulsar/Resend/Settling.antt =====
-- Every attempt of a `Resender` of src/adapters/pulsar/resend.rs gets one outcome.
use beave_rs.Base.{
  ℕ, zero, suc, ◌+◌, ◌-◌, ◌≤◌, ◌<◌, ◌≡◌, ◌⊎◌, inl, inr, refl, arith, not, ◌||◌, Option, none, some,
  List, [], ◌∷◌, ◌++◌, leb, nat_beq, if◌then◌else◌, either_branch,
}
use beave_rs.Base.Results.{Result, ok, err}
use beave_rs.Retry.{RetryPolicy}
use beave_rs.Pulsar.Resend.{
  Client, Attempt, Event, accepted, dropped, resent, failed, Settled, resendable, settled_by,
  resend, after_error, after_receipt, settle, then_did, arrived, not_yet, iterate, await_receipts,
  total, total_all, sends_left, await_fuel,
}

-- Whether an event is an outcome of the sender, or a resend of its message.
abbrev pub outcome : {X : Type 0} → ℕ → Event X → ℕ
outcome id (accepted k) = if nat_beq id k then 1 else 0
outcome id (dropped k) = if nat_beq id k then 1 else 0
outcome id (failed k error) = if nat_beq id k then 1 else 0
outcome id (resent k) = 0

abbrev pub resending : {X : Type 0} → ℕ → Event X → ℕ
resending id (resent k) = if nat_beq id k then 1 else 0
resending id event = 0

unfoldable pub tally : {X : Type 0} → (Event X → ℕ) → List (Event X) → ℕ
tally f [] = 0
tally f (event ∷ t) = f event + tally f t

module _ {M R : Type 0} where
  -- An attempt of the sender.
  abbrev pub awaits : ℕ → Attempt M R → ℕ
  awaits id a = if nat_beq id a.result then 1 else 0

  -- The further sends that the policy allows an attempt of the sender.
  abbrev pub resends_left : RetryPolicy → ℕ → Attempt M R → ℕ
  resends_left retry id a = if nat_beq id a.result then retry.max_attempts - 1 - a.failures else 0

  total-append :
      (f : Attempt M R → ℕ) (xs ys : List (Attempt M R))
      → total f (xs ++ ys) ≡ total f xs + total f ys
  unfolding total
  total-append f [] ys = omega arith
  total-append f (x ∷ xs) ys = omega (arith, total-append f xs ys)

  total-arrived :
      (f : Attempt M R → ℕ) (arrivals : List (List (Attempt M R)))
      → total f (arrived arrivals) + total_all f (not_yet arrivals) ≡ total_all f arrivals
  unfolding total total_all arrived not_yet
  total-arrived f [] = omega arith
  total-arrived f (xs ∷ rest) = omega arith

module _ {W M R X : Type 0} (c : Client W M R X) (retry : RetryPolicy) where
  -- What settling an attempt makes of it.
  Settles : ℕ → Attempt M R → Settled W M R X → Type 0
  Settles id a s =
      (total (sends_left retry) s.again < sends_left retry a)
      × (outcome id s.event + total (awaits id) s.again ≡ awaits id a)
      × (resending id s.event + total (resends_left retry id) s.again ≤ resends_left retry id a)

  Settles-error :
      (id : ℕ) (a : Attempt M R) (error : X) (w : W)
      → Settles id a (after_error c retry (record a { failures = a.failures + 1 }) error w)
  unfolding Settles after_error settled_by resend total sends_left
  Settles-error id a error w =
      either_branch (Settles id a)
        (not (resendable c retry error) || leb retry.max_attempts (a.failures + 1)) _ _
        (λ final. (omega arith, ground arith, omega arith))
        (λ again.
          either_branch (Settles id a) (c.is_closed a.result w) _ _
            (λ closed. (omega arith, ground arith, omega arith))
            (λ awaited. (ground (arith, again), ground arith, ground (arith, again))))

  Settles-receipt :
      (id : ℕ) (a : Attempt M R) (r : Result X (Unit {0})) (w : W)
      → Settles id a (after_receipt c retry a r w)
  unfolding Settles after_receipt settled_by total sends_left
  Settles-receipt id a (ok tt) w = (omega arith, ground arith, omega arith)
  Settles-receipt id a (err error) w = Settles-error id a error w

  Settles-settle : (id : ℕ) (a : Attempt M R) (w : W) → Settles id a (settle c retry a w)
  unfolding settle
  Settles-settle id a w =
      let (answer, after) = c.await a.receipt w in Settles-receipt id a answer after

  -- A run that comes to its end has one outcome for every attempt of a sender, and no more resends
  -- for the sender than its attempts have left.
  abbrev pub Answers :
      ℕ → List (List (Attempt M R)) → List (Attempt M R) → Option (List (Event X)) → Type 0
  Answers id arrivals pending o =
      (t : List (Event X)) × (o ≡ some t)
      × (tally (outcome id) t ≡ total (awaits id) pending + total_all (awaits id) arrivals)
      × (tally (resending id) t
          ≤ total (resends_left retry id) pending + total_all (resends_left retry id) arrivals)

  Answers-did :
      (id : ℕ) (arrivals : List (List (Attempt M R))) (a : Attempt M R)
      (pending : List (Attempt M R)) (s : Settled W M R X) (o : Option (List (Event X)))
      → Settles id a s
      → Answers id arrivals (pending ++ s.again) o
      → Answers id arrivals (a ∷ pending) (then_did c retry s.event o)
  unfolding Settles then_did tally total
  Answers-did id arrivals a pending s none h (t, found, k, l) = ground (arith, found)
  Answers-did id arrivals a pending s (some u) (less, one, few) (t, found, k, l) = (
    s.event ∷ u,
    refl,
    ground (arith, found, k, one, total-append (awaits id) pending s.again),
    ground (arith, found, l, few, total-append (resends_left retry id) pending s.again),
  )

  -- A run with enough fuel.
  Runs :
      ℕ
      → ℕ
      → (List (List (Attempt M R)) → List (Attempt M R) → W → Option (List (Event X)))
      → Type 0
  Runs id fuel run =
      (arrivals : List (List (Attempt M R))) (pending : List (Attempt M R)) (w : W)
      → await_fuel retry arrivals pending ≤ fuel
      → Answers id arrivals pending (run arrivals pending w)

  Answers-iterate :
      (id fuel : ℕ)
      (run : List (List (Attempt M R)) → List (Attempt M R) → W → Option (List (Event X)))
      (arrivals : List (List (Attempt M R))) (pending : List (Attempt M R)) (w : W)
      → Runs id fuel run
      → await_fuel retry arrivals pending ≤ fuel + 1
      → ((arrivals ≡ []) ⊎ (await_fuel retry arrivals pending ≤ fuel))
      → Answers id arrivals pending (iterate c retry run arrivals pending w)
  unfolding Runs iterate await_fuel total total_all tally Settles
  Answers-iterate id fuel run arrivals (a ∷ pending) w h enough left =
      let s = settle c retry a w in
      let settles = Settles-settle id a w in
      Answers-did id arrivals a pending s (run arrivals (pending ++ s.again) s.world) settles (
        h arrivals (pending ++ s.again) s.world
          (omega (arith, enough, settles.0, total-append (sends_left retry) pending s.again)))
  Answers-iterate id fuel run (x ∷ arrivals) [] w h enough (inl absent) = ground (arith, absent)
  Answers-iterate id fuel run (x ∷ arrivals) [] w h enough (inr left) = h (x ∷ arrivals) [] w left
  Answers-iterate id fuel run [] [] w h enough left = ([], refl, refl, omega arith)

  left_over :
      (arrivals : List (List (Attempt M R))) (pending : List (Attempt M R)) (fuel : ℕ)
      → await_fuel retry arrivals pending ≤ suc fuel
      → (await_fuel retry (not_yet arrivals) (pending ++ arrived arrivals) ≤ fuel + 1)
        × ((not_yet arrivals ≡ [])
            ⊎ (await_fuel retry (not_yet arrivals) (pending ++ arrived arrivals) ≤ fuel))
  unfolding await_fuel not_yet arrived total_all
  left_over [] pending fuel h =
      (omega (arith, h, total-append (sends_left retry) pending []), inl refl)
  left_over (xs ∷ rest) pending fuel h =
      let counts = total-append (sends_left retry) pending xs in
      (omega (arith, h, counts), inr (omega (arith, h, counts)))

  Runs-await_receipts : (id fuel : ℕ) → Runs id fuel (await_receipts c retry fuel)
  unfolding Runs await_receipts await_fuel
  Runs-await_receipts id zero arrivals pending w h = ground (arith, h)
  Runs-await_receipts id (suc fuel) arrivals pending w h =
      let (enough, left) = left_over arrivals pending fuel h in
      let (t, found, one, few) =
        Answers-iterate id fuel (await_receipts c retry fuel) (not_yet arrivals)
          (pending ++ arrived arrivals) w (Runs-await_receipts id fuel) enough left in
      (
        t,
        found,
        omega (
          arith,
          one,
          total-append (awaits id) pending (arrived arrivals),
          total-arrived (awaits id) arrivals,
        ),
        omega (
          arith,
          few,
          total-append (resends_left retry id) pending (arrived arrivals),
          total-arrived (resends_left retry id) arrivals,
        ),
      )

  -- With fuel for every send that the policy allows, for every arrival and for one iteration more, the
  -- task comes to its end. By then every attempt that was pending or arrived had exactly one outcome:
  -- its message was accepted, it failed, or its sender gave up. It is sent again at most as often as
  -- the policy allows after its failures so far. Stated for a sender and all its attempts.
  pub await_receipts_lem :
      (id : ℕ) (arrivals : List (List (Attempt M R))) (pending : List (Attempt M R)) (w : W)
      → Answers id arrivals pending
          (await_receipts c retry (await_fuel retry arrivals pending) arrivals pending w)
  unfolding Runs
  await_receipts_lem id arrivals pending w =
      Runs-await_receipts id (await_fuel retry arrivals pending) arrivals pending w (omega arith)
