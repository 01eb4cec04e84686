-- ===== src/Batching/Committing.antt =====
-- The loop of `commit` in src/subscription/transaction.rs: its cases, and that it ends.
use beave_rs.Base.{
  ℕ, zero, suc, ◌+◌, ◌-◌, ◌≤◌, ◌<◌, ◌≡◌, refl, arith, leb, Bool, true, false, not, Option, none,
  some, List, [], ◌∷◌, length, retain, any, length-retain-le, either_branch,
}
use beave_rs.Base.Map.{is_some}
use beave_rs.Base.Results.{Result, ok, err}
use beave_rs.Errors.{BoxError, is_rejected, context}
use beave_rs.Batching.{
  Entry, Committer, Committed, Event, refused, committed, abandoned, stay, leave, preceded, fail,
  after_commit, try_commit, commit_from, commit_fuel, commit, batch_of,
}

-- Taking out what a test holds for makes a list shorter if there is something.
shorter :
    {A : Type 0} (p : A → Bool) (xs : List A)
    → any p xs ≡ true
    → length (retain (λ x. not (p x)) xs) < length xs
shorter p [] h = ground arith
shorter p (x ∷ xs) h = ground (arith, shorter p xs, length-retain-le (λ y. not (p y)) xs)

any-retain : {A : Type 0} (p : A → Bool) (xs : List A) → any p (retain (λ x. not (p x)) xs) ≡ false
any-retain p [] = refl
any-retain p (x ∷ xs) = ground (arith, any-retain p xs)

module _ {W M P : Type 0} (c : Committer W M P) where
  -- What a predicate of the loop's outcome has to satisfy after a commit of `members` that started
  -- in `start` and failed with `e`.
  pub record Failed (Q : Option (Committed W M P) → Type 0) (attempt : ℕ)
      (members : List (Entry M P)) (abandon again : W → Option (Committed W M P)) (e : BoxError)
      (w : W) : Type 0 where
    pub rejection :
        is_rejected e ≡ true
        → Q (fail c w members (context "a transaction batch cannot route a rejected output" e))
    pub abandonment : is_rejected e ≡ false → any (abandoned c w) members ≡ true → Q (abandon w)
    pub exhaustion :
        is_rejected e ≡ false
        → c.policy.max_attempts ≤ attempt
        → Q (fail c w members (context "publish retry exhausted" e))
    pub repetition :
        is_rejected e ≡ false → attempt < c.policy.max_attempts → (after : W) → Q (again after)

  pub after_commit-err :
      (Q : Option (Committed W M P) → Type 0) (attempt : ℕ) (start : W) (members : List (Entry M P))
      (abandon again : W → Option (Committed W M P)) (e : BoxError) (w : W)
      → Failed
          (λ o. Q (preceded c (refused start members e ∷ []) o))
          attempt
          members
          abandon
          again
          e
          w
      → Q (after_commit c attempt start members abandon again (err e, w))
  unfolding after_commit
  after_commit-err Q attempt start members abandon again e w f =
      let R = λ (o : Option (Committed W M P)). Q (preceded c (refused start members e ∷ []) o) in
      either_branch R (is_rejected e) _ _ f.rejection λ unmarked.
        either_branch R (any (abandoned c w) members) _ _ (f.abandonment unmarked) λ all_stay.
          either_branch R (leb c.policy.max_attempts attempt) _ _
            (λ last. f.exhaustion unmarked (ground arith))
            (λ more. f.repetition unmarked (ground arith) _)

  Returns : Option (Committed W M P) → Type 0
  Returns o = is_some o ≡ true

  Returns-preceded :
      (t : List (Event W M P)) (o : Option (Committed W M P)) → Returns o → Returns (preceded c t o)
  unfolding preceded Returns
  Returns-preceded t none h = h
  Returns-preceded t (some r) h = refl

  -- How many iterations are left: one for each delivery that may leave, and one for each attempt.
  iterations : ℕ → List (Entry M P) → W → ℕ
  iterations attempt members w = length (stay c w members) + (c.policy.max_attempts - attempt)

  Returns-tried :
      (fuel attempt : ℕ) (m : Entry M P) (ms : List (Entry M P)) (w : W)
      (r : Result BoxError (Unit {0}) × W)
      → length (m ∷ ms) + (c.policy.max_attempts - attempt) < suc fuel
      → ((next : ℕ) (after : W)
          → iterations next (m ∷ ms) after < fuel
          → Returns (commit_from c fuel next (m ∷ ms) after))
      → Returns (
          after_commit c attempt w
            (m ∷ ms)
            (commit_from c fuel attempt (m ∷ ms))
            (commit_from c fuel (suc attempt) (m ∷ ms))
            r)
  unfolding Returns after_commit fail preceded iterations stay
  Returns-tried fuel attempt m ms w (ok u, after) h ends = refl
  Returns-tried fuel attempt m ms w (err e, after) h ends =
      after_commit-err Returns attempt w (m ∷ ms) (commit_from c fuel attempt (m ∷ ms))
        (commit_from c fuel (suc attempt) (m ∷ ms)) e after
        (record {
          rejection = λ marked. refl;
          abandonment = λ unmarked gone.
              Returns-preceded (refused w (m ∷ ms) e ∷ []) _
                (ends attempt after (ground (arith, h, shorter (abandoned c after) (m ∷ ms) gone)));
          exhaustion = λ unmarked last. refl;
          repetition = λ unmarked more later. Returns-preceded (refused w (m ∷ ms) e ∷ []) _ (
              ends (suc attempt) later (
                ground
                  (arith, h, more, length-retain-le (λ y. not (abandoned c later y)) (m ∷ ms))));
        })

  Returns-try :
      (fuel attempt : ℕ) (members : List (Entry M P)) (w : W)
      → length members + (c.policy.max_attempts - attempt) < suc fuel
      → ((next : ℕ) (after : W)
          → iterations next members after < fuel
          → Returns (commit_from c fuel next members after))
      → Returns (
          try_commit c attempt members
            (commit_from c fuel attempt members)
            (commit_from c fuel (suc attempt) members)
            w)
  unfolding Returns try_commit
  Returns-try fuel attempt [] w h ends = refl
  Returns-try fuel attempt (m ∷ ms) w h ends =
      Returns-tried fuel attempt m ms w (c.sink.commit (batch_of c (m ∷ ms)) w) h ends

  Returns-from :
      (fuel attempt : ℕ) (members : List (Entry M P)) (w : W)
      → iterations attempt members w < fuel
      → Returns (commit_from c fuel attempt members w)
  unfolding Returns commit_from iterations
  Returns-from zero attempt members w h = ground arith
  Returns-from (suc fuel) attempt members w h = Returns-preceded (leave c w members) _ (
      Returns-try fuel attempt (stay c w members) w h
        (λ next after. Returns-from fuel next (stay c w members) after))

  returned : (o : Option (Committed W M P)) → Returns o → (r : Committed W M P) × (o ≡ some r)
  unfolding Returns
  returned none h = ground arith
  returned (some r) h = (r, refl)

  -- The loop that commits a batch ends: after at most one iteration for each delivery of the batch,
  -- for each attempt that the policy allows and one more, whatever the sink answers and however many
  -- deliveries are abandoned meanwhile.
  pub commit_returns :
      (members : List (Entry M P)) (w : W) → (r : Committed W M P) × (commit c members w ≡ some r)
  unfolding commit Returns iterations stay
  commit_returns members w = returned (commit c members w) (
      Returns-from (commit_fuel c members) 1 members w
        (ground (arith, length-retain-le (λ m. not (abandoned c w m)) members)))

  -- A batch that a transaction can start with: it is not empty, and nothing in it is abandoned.
  abbrev pub IsWhole : W → List (Entry M P) → Type 0
  IsWhole w ms = (0 < length ms) × (any (abandoned c w) ms ≡ false)

  -- A predicate of an attempt, its deliveries and the outcome of the loop that every iteration
  -- keeps.
  pub record Invariant (Q : ℕ → List (Entry M P) → Option (Committed W M P) → Type 0) : Type 0 where
    pub stopped : (k : ℕ) (ms : List (Entry M P)) → Q k ms none
    pub empty :
        (k : ℕ) (w : W)
        → Q k [] (some (record { world = w; members = []; trace = []; result = ok tt }))
    pub success :
        (k : ℕ) (start w : W) (ms : List (Entry M P))
        → IsWhole start ms
        → Q k ms (
            some
              (record { world = w; members = ms; trace = committed start ms ∷ []; result = ok tt }))
    pub leaving :
        (k : ℕ) (ms : List (Entry M P)) (w : W) (o : Option (Committed W M P))
        → Q k (stay c w ms) o
        → Q k ms (preceded c (leave c w ms) o)
    pub failure :
        (k : ℕ) (ms : List (Entry M P)) (start w : W) (abandon again : W → Option (Committed W M P))
        (e : BoxError)
        → IsWhole start ms
        → ((w : W) → Q k ms (abandon w))
        → ((w : W) → Q (suc k) ms (again w))
        → Failed (λ o. Q k ms (preceded c (refused start ms e ∷ []) o)) k ms abandon again e w

  module _ (Q : ℕ → List (Entry M P) → Option (Committed W M P) → Type 0) (inv : Invariant Q) where
    after-holds :
        (k : ℕ) (start : W) (ms : List (Entry M P)) (abandon again : W → Option (Committed W M P))
        (r : Result BoxError (Unit {0}) × W)
        → IsWhole start ms
        → ((w : W) → Q k ms (abandon w))
        → ((w : W) → Q (suc k) ms (again w))
        → Q k ms (after_commit c k start ms abandon again r)
    unfolding after_commit
    after-holds k start ms abandon again (ok u, w) whole f g = inv.success k start w ms whole
    after-holds k start ms abandon again (err e, w) whole f g =
        after_commit-err (Q k ms) k start ms abandon again e w
          (inv.failure k ms start w abandon again e whole f g)

    try-holds :
        (k : ℕ) (ms : List (Entry M P)) (abandon again : W → Option (Committed W M P)) (w : W)
        → any (abandoned c w) ms ≡ false
        → ((w : W) → Q k ms (abandon w))
        → ((w : W) → Q (suc k) ms (again w))
        → Q k ms (try_commit c k ms abandon again w)
    unfolding try_commit
    try-holds k [] abandon again w stays f g = inv.empty k w
    try-holds k (m ∷ ms) abandon again w stays f g =
        after-holds k w (m ∷ ms) abandon again (c.sink.commit (batch_of c (m ∷ ms)) w)
          (omega arith, stays) f g

    pub commit_from-holds :
        (fuel k : ℕ) (ms : List (Entry M P)) (w : W) → Q k ms (commit_from c fuel k ms w)
    unfolding commit_from stay
    commit_from-holds zero k ms w = inv.stopped k ms
    commit_from-holds (suc fuel) k ms w = inv.leaving k ms w _ (
        try-holds k (stay c w ms) _ _ w (any-retain (abandoned c w) ms)
          (commit_from-holds fuel k (stay c w ms)) (commit_from-holds fuel (suc k) (stay c w ms)))
