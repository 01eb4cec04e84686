-- ===== src/Batching.antt =====
-- src/subscription/transaction.rs: deliveries of a transactional subscription are enlisted into
-- batches, and a task of its own commits one batch after the other in a transaction of the sink.
-- The channel's deliveries and the ends of the waits for them are a list of steps, each with what
-- the rest of the program does until then; the list ends when every enlister is dropped. The sink's
-- `commit` is a parameter, in a world of its own. The texts of tracing and metrics are left out.
pub mod Committing
pub mod Answers
pub mod Attempts
pub mod Orders
mod Tests
use beave_rs.Base.{
  ℕ, zero, suc, ◌+◌, leb, ltb, Bool, true, false, not, ◌||◌, Option, none, some, String, List, [],
  ◌∷◌, ◌++◌, length, retain, any, if◌then◌else◌, map, nat_eq,
}
use beave_rs.Base.Results.{Result, ok, err}
use beave_rs.Errors.{BoxError, msg, chain, context, is_rejected}
use beave_rs.Retry.{RetryPolicy, delay}
use beave_rs.Token.{Token}

-- `TransactionBatch`; only its size matters here, since time passes between the steps.
pub record TransactionBatch : Type 0 where
  pub max_deliveries : ℕ
  pub max_linger : ℕ

-- `done` is the identity of the channel that answers the waiting job.
pub record Entry (M P : Type 0) : Type 0 where
  pub delivery : M
  pub outputs : List P
  pub revocation : Option Token
  pub enlisted : ℕ
  pub done : ℕ

-- What the committer calls: the sink, the clock, and the tokens and channels of other tasks, in the
-- world `W`. `quote` is the debug format of a string.
pub record Outside (W M P : Type 0) : Type 0 where
  pub commit : List (M × List P) → W → Result BoxError (Unit {0}) × W
  pub sleep : ℕ → W → W
  pub is_cancelled : Token → W → Bool
  pub is_closed : ℕ → W → Bool
  pub random : W → ℕ
  pub quote : String → String

pub record Committer (W M P : Type 0) : Type 0 where
  pub sink : Outside W M P
  pub batch : TransactionBatch
  pub policy : RetryPolicy

-- What a committer did: a delivery left its batch, a transaction was tried, a job was answered. The
-- world is the one that the batch was looked at or the transaction started in.
pub data Event (W M P : Type 0) : Type 0 where
  left : W → Entry M P → Event W M P
  refused : W → List (Entry M P) → BoxError → Event W M P
  committed : W → List (Entry M P) → Event W M P
  answered : Entry M P → Result BoxError (Unit {0}) → Event W M P

-- A step of the channel after the change of the world: a delivery, or nothing until the deadline.
pub record Arrival (W M P : Type 0) : Type 0 where
  pub meanwhile : W → W
  pub entry : Option (Entry M P)

pub record Committed (W M P : Type 0) : Type 0 where
  pub world : W
  pub members : List (Entry M P)
  pub trace : List (Event W M P)
  pub result : Result BoxError (Unit {0})

pub record Ran (W M P : Type 0) : Type 0 where
  pub world : W
  pub trace : List (Event W M P)
  pub failure : Option String

module _ {W M P : Type 0} (c : Committer W M P) where
  unfoldable pub is_revoked : Option Token → W → Bool
  is_revoked none w = false
  is_revoked (some t) w = c.sink.is_cancelled t w

  unfoldable pub abandoned : W → Entry M P → Bool
  unfolding is_revoked
  abandoned w m = c.sink.is_closed m.done w || is_revoked m.revocation w

  -- What `retain` takes out of a batch.
  unfoldable pub leave : W → List (Entry M P) → List (Event W M P)
  leave w members = map (left w) (retain (abandoned w) members)

  unfoldable pub stay : W → List (Entry M P) → List (Entry M P)
  stay w members = retain (λ m. not (abandoned w m)) members

  unfoldable pub batch_of : List (Entry M P) → List (M × List P)
  batch_of members = map (λ m. (m.delivery, m.outputs)) members

  -- What an iteration did before the rest of the loop.
  unfoldable pub preceded : List (Event W M P) → Option (Committed W M P) → Option (Committed W M P)
  preceded t none = none
  preceded t (some r) = some (record r { trace = t ++ r.trace })

  unfoldable pub fail : W → List (Entry M P) → BoxError → Option (Committed W M P)
  fail w members e = some (record { world = w; members = members; trace = []; result = err e })

  -- The loop after a commit that returned, with its next iterations: after an abandonment, and after
  -- an attempt that counts.
  unfoldable pub after_commit :
      ℕ
      → W
      → List (Entry M P)
      → (W → Option (Committed W M P))
      → (W → Option (Committed W M P))
      → Result BoxError (Unit {0}) × W
      → Option (Committed W M P)
  unfolding preceded fail
  after_commit attempt start members abandon again (ok u, w) = some (record {
    world = w;
    members = members;
    trace = committed start members ∷ [];
    result = ok tt;
  })
  after_commit attempt start members abandon again (err e, w) =
      preceded (refused start members e ∷ []) (
        if is_rejected e
        then fail w members (context "a transaction batch cannot route a rejected output" e)
        else if any (abandoned w) members
        then abandon w
        else if leb c.policy.max_attempts attempt
        then fail w members (context "publish retry exhausted" e)
        else again (c.sink.sleep (delay c.policy (c.sink.random w) attempt) w))

  unfoldable pub try_commit :
      ℕ
      → List (Entry M P)
      → (W → Option (Committed W M P))
      → (W → Option (Committed W M P))
      → W
      → Option (Committed W M P)
  unfolding after_commit batch_of
  try_commit attempt [] abandon again w =
      some (record { world = w; members = []; trace = []; result = ok tt })
  try_commit attempt (m ∷ ms) abandon again w =
      after_commit attempt w (m ∷ ms) abandon again (c.sink.commit (batch_of (m ∷ ms)) w)

  -- The loop of `commit`, from an attempt on; `none` is out of fuel.
  unfoldable pub commit_from : ℕ → ℕ → List (Entry M P) → W → Option (Committed W M P)
  unfolding leave stay preceded try_commit
  commit_from zero attempt members w = none
  commit_from (suc fuel) attempt members w = preceded (leave w members) (
      try_commit attempt (stay w members) (commit_from fuel attempt (stay w members))
        (commit_from fuel (suc attempt) (stay w members)) w)

  abbrev pub commit_fuel : List (Entry M P) → ℕ
  commit_fuel members = suc (length members + c.policy.max_attempts)

  unfoldable pub commit : List (Entry M P) → W → Option (Committed W M P)
  commit members w = commit_from (commit_fuel members) 1 members w

  abbrev pub Batch : Type 0
  Batch = List (Entry M P) × List (Arrival W M P) × W

  -- The `select!` on a step: a batch ends at its deadline.
  unfoldable pub take_entry : Batch → (Entry M P → Batch) → Option (Entry M P) → Batch
  take_entry ended more none = ended
  take_entry ended more (some e) = more e

  -- The deliveries of a batch, from its first on, and the steps after it.
  unfoldable pub collect : List (Entry M P) → List (Arrival W M P) → W → Batch
  unfolding take_entry
  collect members [] w = (members, [], w)
  collect members (a ∷ rest) w =
      let more = λ (e : Entry M P). collect (members ++ e ∷ []) rest (a.meanwhile w) in
      if ltb (length members) c.batch.max_deliveries
      then take_entry (members, rest, a.meanwhile w) more a.entry
      else (members, a ∷ rest, w)

  -- What `member.done.send` passes on.
  unfoldable pub answer : Option String → Result BoxError (Unit {0})
  answer none = ok tt
  answer (some failure) = err (msg failure)

  unfoldable pub answer_all : Option String → List (Entry M P) → List (Event W M P)
  unfolding answer
  answer_all failure members = map (λ m. answered m (answer failure)) members

  unfoldable pub failure_after : Option String → Result BoxError (Unit {0}) → Option String
  failure_after none (ok u) = none
  failure_after none (err e) = some (chain c.sink.quote e)
  failure_after (some failure) r = some failure

  -- A batch after a failed one is not committed.
  unfoldable pub commit_unless : Option String → List (Entry M P) → W → Option (Committed W M P)
  commit_unless none members w = commit members w
  commit_unless (some failure) members w =
      some (record { world = w; members = members; trace = []; result = ok tt })

  unfoldable pub after_trace : List (Event W M P) → Option (Ran W M P) → Option (Ran W M P)
  after_trace t none = none
  after_trace t (some r) = some (record r { trace = t ++ r.trace })

  -- The rest of an iteration, with the next ones.
  unfoldable pub after_batch :
      Option String
      → (Option String → W → Option (Ran W M P))
      → Option (Committed W M P)
      → Option (Ran W M P)
  unfolding after_trace failure_after answer_all
  after_batch failure next none = none
  after_batch failure next (some r) =
      let failed = failure_after failure r.result in
      after_trace (r.trace ++ answer_all failed r.members) (next failed r.world)

  -- An iteration from the batch that was collected on.
  unfoldable pub run_batch :
      Option String
      → (Option String → List (Arrival W M P) → W → Option (Ran W M P))
      → Batch
      → Option (Ran W M P)
  unfolding after_batch commit_unless
  run_batch failure next (members, rest, w) =
      after_batch failure (λ failed after. next failed rest after) (commit_unless failure members w)

  -- An iteration of `while let`, which waits on as long as no delivery comes.
  unfoldable pub take_arrival :
      Option String
      → (Option String → List (Arrival W M P) → W → Option (Ran W M P))
      → List (Arrival W M P)
      → W
      → Option (Entry M P)
      → Option (Ran W M P)
  unfolding run_batch collect
  take_arrival failure next rest w none = next failure rest w
  take_arrival failure next rest w (some e) = run_batch failure next (collect (e ∷ []) rest w)

  -- The loop of `run`; `none` is out of fuel.
  unfoldable pub run_from : ℕ → Option String → List (Arrival W M P) → W → Option (Ran W M P)
  unfolding take_arrival
  run_from zero failure arrivals w = none
  run_from (suc fuel) failure [] w = some (record { world = w; trace = []; failure = failure })
  run_from (suc fuel) failure (a ∷ rest) w =
      take_arrival failure (run_from fuel) rest (a.meanwhile w) a.entry

  unfoldable pub run : List (Arrival W M P) → W → Option (Ran W M P)
  run arrivals w = run_from (suc (length arrivals)) none arrivals w
