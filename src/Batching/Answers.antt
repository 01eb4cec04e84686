-- ===== src/Batching/Answers.antt =====
-- Every delivery that src/subscription/transaction.rs receives is answered once or leaves its batch.
use beave_rs.Base.{
  ℕ, zero, suc, ◌+◌, ◌≤◌, ◌<◌, ◌≡◌, refl, subst, sym, arith, Bool, not, Option, none, some, String,
  List, [], ◌∷◌, ◌++◌, length, retain, count_if, map, if◌then◌else◌, ltb, either_branch,
  count_if-append,
}
use beave_rs.Errors.{BoxError}
use beave_rs.Batching.{
  Entry, Committer, Committed, Event, left, refused, committed, answered, abandoned, stay, leave,
  preceded, fail, commit, commit_fuel, Arrival, Ran, Batch, take_entry, take_arrival, collect,
  answer_all, failure_after, commit_unless, after_trace, after_batch, run_batch, run_from, run,
}
use beave_rs.Batching.Committing.{Invariant, commit_from-holds, commit_returns}

module _ {A : Type 0} (p : A → Bool) where
  abbrev pub counted : Option A → ℕ
  counted none = 0
  counted (some e) = if p e then 1 else 0

  count_if-retain :
      (q : A → Bool) (ms : List A)
      → count_if p (retain q ms) + count_if p (retain (λ m. not (q m)) ms) ≡ count_if p ms
  count_if-retain q [] = refl
  count_if-retain q (m ∷ ms) = ground (arith, count_if-retain q ms)

module _ {W M P : Type 0} where
  -- How many entries that pass a test were answered or left.
  abbrev pub settled : (Entry M P → Bool) → List (Event W M P) → ℕ
  settled p [] = 0
  settled p (left w m ∷ t) = (if p m then 1 else 0) + settled p t
  settled p (refused w ms e ∷ t) = settled p t
  settled p (committed w ms ∷ t) = settled p t
  settled p (answered m r ∷ t) = (if p m then 1 else 0) + settled p t

  abbrev pub received : (Entry M P → Bool) → List (Arrival W M P) → ℕ
  received p [] = 0
  received p (a ∷ rest) = counted p a.entry + received p rest

  settled-append :
      (p : Entry M P → Bool) (t u : List (Event W M P))
      → settled p (t ++ u) ≡ settled p t + settled p u
  settled-append p [] u = omega arith
  settled-append p (left w m ∷ t) u = omega (arith, settled-append p t u)
  settled-append p (refused w ms e ∷ t) u = settled-append p t u
  settled-append p (committed w ms ∷ t) u = settled-append p t u
  settled-append p (answered m r ∷ t) u = omega (arith, settled-append p t u)

  settled-left :
      (p : Entry M P → Bool) (w : W) (ms : List (Entry M P))
      → settled p (map (left w) ms) ≡ count_if p ms
  settled-left p w [] = refl
  settled-left p w (m ∷ ms) = omega (arith, settled-left p w ms)

module _ {W M P : Type 0} (c : Committer W M P) (p : Entry M P → Bool) where
  Accounts : ℕ → List (Entry M P) → Option (Committed W M P) → Type 0
  Accounts k ms none = Unit
  Accounts k ms (some r) = settled p r.trace + count_if p r.members ≡ count_if p ms

  Accounts-refused :
      (k : ℕ) (ms : List (Entry M P)) (w : W) (e : BoxError) (o : Option (Committed W M P))
      → Accounts k ms o
      → Accounts k ms (preceded c (refused w ms e ∷ []) o)
  unfolding Accounts preceded
  Accounts-refused k ms w e none h = tt
  Accounts-refused k ms w e (some r) h = h

  Accounts-left :
      (k : ℕ) (ms : List (Entry M P)) (w : W) (o : Option (Committed W M P))
      → Accounts k (stay c w ms) o
      → Accounts k ms (preceded c (leave c w ms) o)
  unfolding Accounts preceded leave stay
  Accounts-left k ms w none h = tt
  Accounts-left k ms w (some r) h = omega (
    arith,
    h,
    settled-append p (leave c w ms) r.trace,
    settled-left p w (retain (abandoned c w) ms),
    count_if-retain p (abandoned c w) ms,
  )

  Accounts-Invariant : Invariant c Accounts
  unfolding Accounts fail
  Accounts-Invariant = record {
    stopped = λ k ms. tt;
    empty = λ k w. omega arith;
    success = λ k start w ms whole. omega arith;
    leaving = Accounts-left;
    failure = λ k ms start w abandon again e whole f g. record {
      rejection = λ marked. Accounts-refused k ms start e _ (omega arith);
      abandonment = λ unmarked gone. Accounts-refused k ms start e _ (f w);
      exhaustion = λ unmarked last. Accounts-refused k ms start e _ (omega arith);
      repetition = λ unmarked more after. Accounts-refused k ms start e _ (g after);
    };
  }

  settled-answered :
      (failure : Option String) (ms : List (Entry M P))
      → settled p (answer_all c failure ms) ≡ count_if p ms
  unfolding answer_all
  settled-answered failure [] = refl
  settled-answered failure (m ∷ ms) = omega (arith, settled-answered failure ms)

  -- What a batch takes and leaves to come, and that no step comes twice.
  Collects : ℕ → ℕ → Batch c → Type 0
  Collects n steps b = (count_if p b.0 + received p b.1 ≡ n) × (length b.1 ≤ steps)

  Collects-taken :
      (n steps : ℕ) (ended : Batch c) (more : Entry M P → Batch c) (entry : Option (Entry M P))
      → (entry ≡ none → Collects n steps ended)
      → ((e : Entry M P) → entry ≡ some e → Collects n steps (more e))
      → Collects n steps (take_entry c ended more entry)
  unfolding take_entry
  Collects-taken n steps ended more none f g = f refl
  Collects-taken n steps ended more (some e) f g = g e refl

  collect-Collects :
      (members : List (Entry M P)) (arrivals : List (Arrival W M P)) (w : W) (n steps : ℕ)
      → count_if p members + received p arrivals ≡ n
      → length arrivals ≤ steps
      → Collects n steps (collect c members arrivals w)
  unfolding collect Collects
  collect-Collects members [] w n steps h s = (h, s)
  collect-Collects members (a ∷ rest) w n steps h s =
      either_branch (Collects n steps) (ltb (length members) c.batch.max_deliveries) _ _
        (λ room.
          Collects-taken n steps (members, rest, a.meanwhile w) _ a.entry
            (λ e. (ground (arith, h, e), omega (arith, s)))
            (λ m e.
              collect-Collects (members ++ m ∷ []) rest (a.meanwhile w) n steps
                (ground (arith, h, e, count_if-append p members (m ∷ []))) (omega (arith, s))))
        (λ full. (h, s))

  Settles : ℕ → Option (Ran W M P) → Type 0
  Settles n o = (r : Ran W M P) × (o ≡ some r) × (settled p r.trace ≡ n)

  Settles-traced :
      (t : List (Event W M P)) (n : ℕ) (o : Option (Ran W M P))
      → Settles n o
      → Settles (settled p t + n) (after_trace c t o)
  unfolding Settles after_trace
  Settles-traced t n none (r, e, h) = ground arith
  Settles-traced t n (some next) (r, e, h) =
      (_, refl, ground (arith, settled-append p t next.trace, e, h))

  Settles-after :
      (n : ℕ) (failure : Option String) (next : Option String → W → Option (Ran W M P))
      (ms : List (Entry M P)) (r : Committed W M P)
      → settled p r.trace + count_if p r.members ≡ count_if p ms
      → ((failed : Option String) (w : W) → Settles n (next failed w))
      → Settles (count_if p ms + n) (after_batch c failure next (some r))
  unfolding after_batch
  Settles-after n failure next ms r h later =
      let failed = failure_after c failure r.result in
      let t = r.trace ++ answer_all c failed r.members in
      subst (λ k. Settles k (after_trace c t (next failed r.world)))
        (omega (
          arith,
          h,
          settled-append p r.trace (answer_all c failed r.members),
          settled-answered failed r.members,
        ))
        (Settles-traced t n (next failed r.world) (later failed r.world))

  Settles-committed :
      (n : ℕ) (failure : Option String) (next : Option String → W → Option (Ran W M P))
      (ms : List (Entry M P)) (w : W)
      → ((failed : Option String) (w : W) → Settles n (next failed w))
      → Settles (count_if p ms + n) (after_batch c failure next (commit_unless c failure ms w))
  unfolding commit_unless commit Accounts
  Settles-committed n none next ms w later =
      let (r, e) = commit_returns c ms w in
      let accounts = commit_from-holds c Accounts Accounts-Invariant (commit_fuel c ms) 1 ms w in
      subst (λ o. Settles (count_if p ms + n) (after_batch c none next o)) (sym e)
        (Settles-after n none next ms r (subst (λ o. Accounts 1 ms o) e accounts) later)
  Settles-committed n (some failure) next ms w later =
      Settles-after n (some failure) next ms _ (omega arith) later

  Settles-taken :
      (fuel : ℕ) (failure : Option String) (rest : List (Arrival W M P)) (w : W)
      (entry : Option (Entry M P))
      → length rest < fuel
      → ((failed : Option String) (arrivals : List (Arrival W M P)) (after : W)
          → length arrivals < fuel
          → Settles (received p arrivals) (run_from c fuel failed arrivals after))
      → Settles
          (counted p entry + received p rest)
          (take_arrival c failure (run_from c fuel) rest w entry)
  unfolding take_arrival run_batch Collects
  Settles-taken fuel failure rest w none h later =
      subst (λ k. Settles k (run_from c fuel failure rest w)) (omega arith) (later failure rest w h)
  Settles-taken fuel failure rest w (some m) h later =
      let b = collect c (m ∷ []) rest w in
      let (takes, ends) =
        collect-Collects (m ∷ []) rest w (counted p (some m) + received p rest) (length rest)
          (omega arith) (omega arith) in
      subst (λ k. Settles k (run_batch c failure (run_from c fuel) b)) takes
        (Settles-committed (received p b.1) failure
          (λ failed after. run_from c fuel failed b.1 after) b.0 b.2
          (λ failed after. later failed b.1 after (omega (arith, ends, h))))

  Settles-from :
      (fuel : ℕ) (failure : Option String) (arrivals : List (Arrival W M P)) (w : W)
      → length arrivals < fuel
      → Settles (received p arrivals) (run_from c fuel failure arrivals w)
  unfolding run_from Settles
  Settles-from zero failure arrivals w h = ground arith
  Settles-from (suc fuel) failure [] w h = (_, refl, refl)
  Settles-from (suc fuel) failure (a ∷ rest) w h =
      Settles-taken fuel failure rest (a.meanwhile w) a.entry (omega (arith, h)) (Settles-from fuel)

  -- The loop over batches ends when every enlister is dropped, and by then each delivery that it
  -- received either had its job answered or left its batch, once: for every test on deliveries, as
  -- many that pass it were received as were answered or left.
  pub run_settles :
      (arrivals : List (Arrival W M P)) (w : W)
      → (r : Ran W M P) × (run c arrivals w ≡ some r) × (settled p r.trace ≡ received p arrivals)
  unfolding Settles run
  run_settles arrivals w = Settles-from (suc (length arrivals)) none arrivals w (omega arith)
