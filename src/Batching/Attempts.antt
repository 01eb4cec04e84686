-- ===== src/Batching/Attempts.antt =====
-- The attempts of `commit` in src/subscription/transaction.rs: whom they leave out, and when the
-- batch is given up.
use beave_rs.Base.{
  ℕ, suc, ◌+◌, ◌≤◌, ◌<◌, ◌≡◌, ◌⊎◌, inl, inr, refl, subst, arith, true, false, not, Option, none,
  some, List, [], ◌∷◌, ◌++◌, length, retain, any, All, map, length-retain-le, ◌-◌, either_branch,
}
use beave_rs.Base.Results.{Result, ok, err}
use beave_rs.Errors.{BoxError, context, is_rejected}
use beave_rs.Batching.{
  Entry, Committer, Committed, Event, left, refused, committed, answered, abandoned, stay, leave,
  preceded, fail, commit, commit_fuel,
}
use beave_rs.Batching.Committing.{IsWhole, Invariant, commit_from-holds, commit_returns}

module _ {W M P : Type 0} (c : Committer W M P) where
  -- A delivery leaves only when it is abandoned, and a transaction starts with at least one and at
  -- most `n` deliveries, none of which is abandoned.
  abbrev pub IsProper : ℕ → Event W M P → Type 0
  IsProper n (left w m) = abandoned c w m ≡ true
  IsProper n (refused w ms e) = (0 < length ms) × (length ms ≤ n) × (any (abandoned c w) ms ≡ false)
  IsProper n (committed w ms) = (0 < length ms) × (length ms ≤ n) × (any (abandoned c w) ms ≡ false)
  IsProper n (answered m r) = Unit

  -- How many transactions failed.
  abbrev pub failures : List (Event W M P) → ℕ
  failures [] = 0
  failures (refused w ms e ∷ t) = suc (failures t)
  failures (left w m ∷ t) = failures t
  failures (committed w ms ∷ t) = failures t
  failures (answered m r ∷ t) = failures t

  -- Why a batch is given up after so many failed transactions.
  abbrev pub GivesUp : ℕ → Result BoxError (Unit {0}) → Type 0
  GivesUp tries (ok u) = Unit
  GivesUp tries (err reason) =
      (e : BoxError) × (((is_rejected e ≡ true)
          × (reason ≡ context "a transaction batch cannot route a rejected output" e))
        ⊎ ((is_rejected e ≡ false)
            × (c.policy.max_attempts ≤ tries)
            × (reason ≡ context "publish retry exhausted" e)))

  GivesUp-le :
      (few many : ℕ) (r : Result BoxError (Unit {0})) → few ≤ many → GivesUp few r → GivesUp many r
  GivesUp-le few many (ok u) h g = tt
  GivesUp-le few many (err reason) h (e, inl g) = (e, inl g)
  GivesUp-le few many (err reason) h (e, inr (unmarked, last, text)) =
      (e, inr (unmarked, omega (arith, h, last), text))

  failures-left :
      (w : W) (ms : List (Entry M P)) (t : List (Event W M P))
      → failures (map (left w) ms ++ t) ≡ failures t
  failures-left w [] t = refl
  failures-left w (m ∷ ms) t = failures-left w ms t

  IsProper-left :
      (n : ℕ) (w : W) (ms : List (Entry M P)) (t : List (Event W M P))
      → All (IsProper n) t
      → All (IsProper n) (leave c w ms ++ t)
  unfolding leave
  IsProper-left n w [] t h = h
  IsProper-left n w (m ∷ ms) t h =
      let rest = retain (abandoned c w) ms in
      let later = IsProper-left n w ms t h in
      either_branch (λ (ls : List (Entry M P)). All (IsProper n) (map (left w) ls ++ t))
        (abandoned c w m) (m ∷ rest) rest (λ gone. (gone, later)) (λ stays. later)

  -- What holds of a batch of at most `n` deliveries whose attempts before this one are `tries` at
  -- most.
  Attempted : ℕ → ℕ → List (Entry M P) → Option (Committed W M P) → Type 0
  Attempted n tries ms none = Unit
  Attempted n tries ms (some r) =
      length ms ≤ n → All (IsProper n) r.trace × GivesUp (tries + failures r.trace) r.result

  Attempted-left :
      (n tries : ℕ) (ms : List (Entry M P)) (w : W) (o : Option (Committed W M P))
      → Attempted n tries (stay c w ms) o
      → Attempted n tries ms (preceded c (leave c w ms) o)
  unfolding Attempted preceded leave stay
  Attempted-left n tries ms w none h = tt
  Attempted-left n tries ms w (some r) h = λ small.
      let (proper, why) =
        h (omega (arith, small, length-retain-le (λ m. not (abandoned c w m)) ms)) in
      (
        IsProper-left n w ms r.trace proper,
        GivesUp-le _ _ r.result (omega (arith, failures-left w (retain (abandoned c w) ms) r.trace))
            why,
      )

  Attempted-refused :
      (n tries some_tries : ℕ) (ms : List (Entry M P)) (w : W) (e : BoxError)
      (o : Option (Committed W M P))
      → IsWhole c w ms
      → some_tries ≤ suc tries
      → Attempted n some_tries ms o
      → Attempted n tries ms (preceded c (refused w ms e ∷ []) o)
  unfolding Attempted preceded
  Attempted-refused n tries some_tries ms w e none whole le h = tt
  Attempted-refused n tries some_tries ms w e (some r) whole le h = λ small.
      let (proper, why) = h small in
      (((whole.0, small, whole.1), proper), GivesUp-le _ _ r.result (omega (arith, le)) why)

  -- The attempt `k` has `k - 1` before it.
  Attempted-Invariant : (n : ℕ) → Invariant c (λ k ms o. Attempted n (k - 1) ms o)
  unfolding Attempted fail
  Attempted-Invariant n = record {
    stopped = λ k ms. tt;
    empty = λ k w small. (tt, tt);
    success = λ k start w ms whole small. (((whole.0, small, whole.1), tt), tt);
    leaving = λ k. Attempted-left n (k - 1);
    failure = λ k ms start w abandon again e whole f g. record {
      rejection = λ marked.
          Attempted-refused n (k - 1) (k - 1) ms start e (fail c w ms _) whole (omega arith)
            (λ small. (tt, (e, inl (marked, refl))));
      abandonment = λ unmarked gone.
          Attempted-refused n (k - 1) (k - 1) ms start e _ whole (omega arith) (f w);
      exhaustion = λ unmarked last.
          Attempted-refused n (k - 1) (suc (k - 1)) ms start e (fail c w ms _) whole (omega arith)
            (λ small. (tt, (e, inr (unmarked, omega (arith, last), refl))));
      repetition = λ unmarked more after.
          Attempted-refused n (k - 1) (suc k - 1) ms start e _ whole (omega arith) (g after);
    };
  }

  -- Committing a batch ends. A delivery leaves the batch only if it is abandoned, and no transaction
  -- starts with none or with an abandoned one or with more than the batch has. The batch fails only
  -- because of a rejection, or after at least `max_attempts` failed transactions.
  pub commit_lem :
      (members : List (Entry M P)) (w : W)
      → (r : Committed W M P) × (commit c members w ≡ some r)
        × All (IsProper (length members)) r.trace
        × GivesUp (failures r.trace) r.result
  unfolding commit Attempted
  commit_lem members w =
      let (r, e) = commit_returns c members w in
      let n = length members in
      let holds =
        commit_from-holds c (λ k ms o. Attempted n (k - 1) ms o) (Attempted-Invariant n)
          (commit_fuel c members) 1 members w in
      let (proper, why) = subst (λ o. Attempted n 0 members o) e holds (omega arith) in
      (r, e, proper, GivesUp-le _ _ r.result (omega arith) why)
