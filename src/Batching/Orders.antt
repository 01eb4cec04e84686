-- ===== src/Batching/Orders.antt =====
-- The order of the transactions and the answers of src/subscription/transaction.rs.
use beave_rs.Base.{
  ℕ, zero, suc, ◌≡◌, refl, sym, subst, Bool, true, false, Option, none, some, String, List, [], ◌∷◌,
  ◌++◌, length, retain, append_assoc, map,
}
use beave_rs.Base.Results.{Result, ok, err}
use beave_rs.Errors.{BoxError, chain}
use beave_rs.Batching.{
  Entry, Committer, Committed, Event, left, refused, committed, answered, abandoned, leave,
  preceded, fail, commit, commit_fuel, Arrival, Ran, collect, answer, answer_all, failure_after,
  commit_unless, after_trace, after_batch, run_batch, take_arrival, run_from, run,
}
use beave_rs.Batching.Answers.{run_settles}
use beave_rs.Batching.Committing.{Invariant, commit_from-holds}

-- Who waits for an answer after a batch.
abbrev pub waiting_of : {A : Type 0} → Result BoxError (Unit {0}) → List A → List A
waiting_of (ok u) members = members
waiting_of (err e) members = []

module _ {W M P : Type 0} where
  -- What happens in a row, where `waiting` are the deliveries of the last transaction that are not
  -- answered yet, and `stopped` says whether a job was answered with a failure. A transaction is tried
  -- or committed only if nobody waits and no failure was answered. A job is answered with success only
  -- if its delivery is the next of the last transaction, and with a failure only if nobody waits.
  abbrev pub Orderly : List (Entry M P) → Bool → List (Event W M P) → Type 0
  Orderly waiting stopped [] = waiting ≡ []
  Orderly waiting stopped (left w m ∷ t) = Orderly waiting stopped t
  Orderly waiting stopped (refused w ms e ∷ t) =
      (stopped ≡ false) × (waiting ≡ []) × Orderly [] stopped t
  Orderly waiting stopped (committed w ms ∷ t) =
      (stopped ≡ false) × (waiting ≡ []) × Orderly ms stopped t
  Orderly waiting stopped (answered m (ok u) ∷ t) =
      (stopped ≡ false) × (ms : List (Entry M P)) × (waiting ≡ m ∷ ms) × Orderly ms stopped t
  Orderly waiting stopped (answered m (err e) ∷ t) = (waiting ≡ []) × Orderly [] true t

  -- A part that keeps whatever follows it orderly.
  Neutral : List (Event W M P) → Type 0
  Neutral t = (rest : List (Event W M P)) → Orderly [] false rest → Orderly [] false (t ++ rest)

  Leads : Option (Committed W M P) → Type 0
  Leads none = Unit
  Leads (some r) =
      (rest : List (Event W M P))
      → Orderly (waiting_of r.result r.members) false rest
      → Orderly [] false (r.trace ++ rest)

  Neutral-left : (w : W) (ms : List (Entry M P)) → Neutral (map (left w) ms)
  unfolding Neutral
  Neutral-left w [] rest h = h
  Neutral-left w (m ∷ ms) rest h = Neutral-left w ms rest h

module _ {W M P : Type 0} (c : Committer W M P) where
  Leads-preceded :
      (t : List (Event W M P)) (o : Option (Committed W M P))
      → Neutral t
      → Leads o
      → Leads (preceded c t o)
  unfolding Neutral Leads preceded
  Leads-preceded t none neutral h = tt
  Leads-preceded t (some r) neutral h = λ rest after.
      subst (λ (s : List (Event W M P)). Orderly [] false s) (sym (append_assoc t r.trace rest))
        (neutral (r.trace ++ rest) (h rest after))

  Leads-Invariant : Invariant c (λ k ms o. Leads o)
  unfolding Leads fail Neutral leave
  Leads-Invariant = record {
    stopped = λ k ms. tt;
    empty = λ k w rest h. h;
    success = λ k start w ms whole rest h. (refl, refl, h);
    leaving = λ k ms w o h.
        Leads-preceded (leave c w ms) o (Neutral-left w (retain (abandoned c w) ms)) h;
    failure = λ k ms start w abandon again e whole f g.
        let tried : Neutral (refused start ms e ∷ []) = λ rest h. (refl, refl, h) in
        record {
          rejection = λ marked. Leads-preceded (refused start ms e ∷ []) _ tried (λ rest h. h);
          abandonment = λ unmarked gone. Leads-preceded (refused start ms e ∷ []) _ tried (f w);
          exhaustion =
              λ unmarked last. Leads-preceded (refused start ms e ∷ []) _ tried (λ rest h. h);
          repetition =
              λ unmarked more after. Leads-preceded (refused start ms e ∷ []) _ tried (g after);
        };
  }

  -- The answers with success to the members of a transaction, and with a failure to those of a batch
  -- that has none.
  answer_all-ok :
      (ms : List (Entry M P)) (rest : List (Event W M P))
      → Orderly [] false rest
      → Orderly ms false (answer_all c none ms ++ rest)
  unfolding answer_all answer
  answer_all-ok [] rest h = h
  answer_all-ok (m ∷ ms) rest h = (refl, ms, refl, answer_all-ok ms rest h)

  answer_all-err :
      (failure : String) (b : Bool) (ms : List (Entry M P)) (rest : List (Event W M P))
      → ((b : Bool) → Orderly [] b rest)
      → Orderly [] b (answer_all c (some failure) ms ++ rest)
  unfolding answer_all answer
  answer_all-err failure b [] rest h = h b
  answer_all-err failure b (m ∷ ms) rest h = (refl, answer_all-err failure true ms rest h)

  -- After a failure it does not matter whether one was answered.
  OrderlyAfter : Option String → List (Event W M P) → Type 0
  OrderlyAfter none t = Orderly [] false t
  OrderlyAfter (some failure) t = (b : Bool) → Orderly [] b t

  RunOrderly : Option String → Option (Ran W M P) → Type 0
  unfolding OrderlyAfter
  RunOrderly failure none = Unit
  RunOrderly failure (some r) = OrderlyAfter failure r.trace

  RunOrderly-answered :
      (result : Result BoxError (Unit {0})) (ms : List (Entry M P)) (t : List (Event W M P))
      (o : Option (Ran W M P))
      → ((rest : List (Event W M P))
          → Orderly (waiting_of result ms) false rest
          → Orderly [] false (t ++ rest))
      → RunOrderly (failure_after c none result) o
      → RunOrderly none (after_trace c (t ++ answer_all c (failure_after c none result) ms) o)
  unfolding RunOrderly after_trace failure_after OrderlyAfter
  RunOrderly-answered result ms t none leads h = tt
  RunOrderly-answered (ok u) ms t (some next) leads h =
      subst (λ (s : List (Event W M P)). Orderly [] false s)
        (sym (append_assoc t (answer_all c none ms) next.trace))
        (leads (answer_all c none ms ++ next.trace) (answer_all-ok ms next.trace h))
  RunOrderly-answered (err e) ms t (some next) leads h =
      let failed = some (chain c.sink.quote e) in
      subst (λ (s : List (Event W M P)). Orderly [] false s)
        (sym (append_assoc t (answer_all c failed ms) next.trace))
        (leads (answer_all c failed ms ++ next.trace)
          (answer_all-err (chain c.sink.quote e) false ms next.trace h))

  RunOrderly-after :
      (next : Option String → W → Option (Ran W M P)) (o : Option (Committed W M P))
      → Leads o
      → ((failed : Option String) (w : W) → RunOrderly failed (next failed w))
      → RunOrderly none (after_batch c none next o)
  unfolding Leads RunOrderly after_batch
  RunOrderly-after next none leads later = tt
  RunOrderly-after next (some r) leads later =
      RunOrderly-answered r.result r.members r.trace (next (failure_after c none r.result) r.world)
        leads (later (failure_after c none r.result) r.world)

  RunOrderly-failed :
      (failure : String) (ms : List (Entry M P)) (o : Option (Ran W M P))
      → RunOrderly (some failure) o
      → RunOrderly (some failure) (after_trace c (answer_all c (some failure) ms) o)
  unfolding RunOrderly after_trace OrderlyAfter
  RunOrderly-failed failure ms none h = tt
  RunOrderly-failed failure ms (some next) h = λ b. answer_all-err failure b ms next.trace h

  RunOrderly-batch :
      (failure : Option String)
      (next : Option String → List (Arrival W M P) → W → Option (Ran W M P))
      (batch : List (Entry M P) × List (Arrival W M P) × W)
      → ((failed : Option String) (rest : List (Arrival W M P)) (w : W)
          → RunOrderly failed (next failed rest w))
      → RunOrderly failure (run_batch c failure next batch)
  unfolding run_batch commit_unless after_batch commit
  RunOrderly-batch none next (members, rest, w) later =
      RunOrderly-after (λ failed after. next failed rest after) (commit c members w)
        (commit_from-holds c (λ k ms o. Leads o) Leads-Invariant (commit_fuel c members) 1 members
          w)
        (λ failed after. later failed rest after)
  RunOrderly-batch (some failure) next (members, rest, w) later =
      RunOrderly-failed failure members (next (some failure) rest w) (later (some failure) rest w)

  RunOrderly-taken :
      (failure : Option String)
      (next : Option String → List (Arrival W M P) → W → Option (Ran W M P))
      (rest : List (Arrival W M P)) (w : W) (entry : Option (Entry M P))
      → ((failed : Option String) (rest : List (Arrival W M P)) (w : W)
          → RunOrderly failed (next failed rest w))
      → RunOrderly failure (take_arrival c failure next rest w entry)
  unfolding take_arrival
  RunOrderly-taken failure next rest w none later = later failure rest w
  RunOrderly-taken failure next rest w (some e) later =
      RunOrderly-batch failure next (collect c (e ∷ []) rest w) later

  RunOrderly-from :
      (fuel : ℕ) (failure : Option String) (arrivals : List (Arrival W M P)) (w : W)
      → RunOrderly failure (run_from c fuel failure arrivals w)
  unfolding RunOrderly run_from OrderlyAfter
  RunOrderly-from zero failure arrivals w = tt
  RunOrderly-from (suc fuel) none [] w = refl
  RunOrderly-from (suc fuel) (some failure) [] w = λ b. refl
  RunOrderly-from (suc fuel) failure (a ∷ rest) w =
      RunOrderly-taken failure (run_from c fuel) rest (a.meanwhile w) a.entry (RunOrderly-from fuel)

  -- Batches commit in order and stop at the first failure: a transaction is tried or committed only
  -- when every delivery of the one before was answered and no job was answered with a failure, a job is
  -- answered with success only if the last transaction committed its delivery, the deliveries of a
  -- transaction in their order, and in the end no delivery of a committed transaction is unanswered.
  pub run-Orderly :
      (arrivals : List (Arrival W M P)) (w : W)
      → (r : Ran W M P) × (run c arrivals w ≡ some r) × Orderly [] false r.trace
  unfolding RunOrderly run OrderlyAfter
  run-Orderly arrivals w =
      let (r, h, settles) = run_settles c (λ m. true) arrivals w in
      let orderly = RunOrderly-from (suc (length arrivals)) none arrivals w in
      (r, h, subst (λ (o : Option (Ran W M P)). RunOrderly none o) h orderly)
