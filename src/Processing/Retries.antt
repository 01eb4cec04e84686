-- ===== src/Processing/Retries.antt =====
-- `retry_publish` of src/subscription/processing.rs, described attempt by attempt.
use beave_rs.Base.{
  ℕ, zero, suc, ◌-◌, ◌<◌, ◌≡◌, ◌⊎◌, inl, inr, refl, sym, ap, ◌∙◌, arith, max, Bool, true, false,
  not, Bool-cases, subst,
}
use beave_rs.Base.Results.{Result, ok, err}
use beave_rs.Processing.Actions.{Types, Outcome, Action, pure, raise, after, ◌>>=◌, try}
use beave_rs.Processing.{Pipeline, after_attempt, retry_publish_from, retry_publish}

module _ {T : Types} where
  -- The world after so many attempts, and the attempt that follows them.
  abbrev pub world_after : {A : Type 0} → Action T A → ℕ → T.World → T.World
  world_after publish zero w = w
  world_after publish (suc k) w = world_after publish k (publish w).world

  abbrev pub attempt : {A : Type 0} → Action T A → ℕ → T.World → Outcome T A
  attempt publish k w = publish (world_after publish k w)

module _ {T : Types} (p : Pipeline T) where
  abbrev pub retryable : {A : Type 0} → Result T.BoxError A → Bool
  retryable (ok a) = false
  retryable (err e) = not (p.is_rejection e)

  -- The outcome is that of attempt `k`: all before it failed and could be retried, and it is the last
  -- of `n`, succeeded or was rejected.
  pub record Retried {A : Type 0} (n : ℕ) (publish : Action T A) (w : T.World) (r : Outcome T A)
      : Type 0 where
    pub k : ℕ
    pub within : k < n
    pub before : (j : ℕ) → j < k → retryable (attempt publish j w).result ≡ true
    pub result : r.result ≡ (attempt publish k w).result
    pub world : r.world ≡ (attempt publish k w).world
    pub last : (suc k ≡ n) ⊎ (retryable (attempt publish k w).result ≡ false)

  Stops :
      {A : Type 0} (again : T.BoxError → Action T A) (r : Result T.BoxError A) (w : T.World)
      → Type 0
  Stops again r w =
      ((after_attempt p again r w).result ≡ r) × ((after_attempt p again r w).world ≡ w)

  stops :
      {A : Type 0} (again : T.BoxError → Action T A) (r : Result T.BoxError A) (w : T.World)
      → retryable r ≡ false
      → Stops again r w
  unfolding Stops after_attempt pure raise
  stops again (ok a) w h = (refl, refl)
  stops again (err e) w h = ground arith

  goes_on :
      {A : Type 0} (again : T.BoxError → Action T A) (r : Result T.BoxError A)
      → retryable r ≡ true
      → (e : T.BoxError) × (r ≡ err e) × (after_attempt p again r ≡ again e)
  unfolding after_attempt
  goes_on again (ok a) h = cc
  goes_on again (err e) h = (e, refl, ground arith)

  Retried-now :
      {A : Type 0} (n : ℕ) (again : T.BoxError → Action T A) (publish : Action T A) (w : T.World)
      → retryable (publish w).result ≡ false
      → Retried (suc n) publish w ((try publish >>= after_attempt p again) w)
  unfolding Stops ◌>>=◌ after try
  Retried-now n again publish w h =
      let (same, same_world) = stops again (publish w).result (publish w).world h in
      record {
        k = 0;
        within = omega arith;
        before = λ j lt. ground (arith, lt);
        result = same;
        world = same_world;
        last = inr h;
      }

  Retried-last :
      {A : Type 0} (publish : Action T A) (w : T.World)
      → Retried 1 publish w ((try publish >>= after_attempt p raise) w)
  unfolding ◌>>=◌ after try raise
  Retried-last publish w = elim (Bool-cases (retryable (publish w).result)) [
    | inr h ↦ Retried-now 0 raise publish w h
    | inl h ↦
        let (e, failed, again) = goes_on raise (publish w).result h in
        record {
          k = 0;
          within = omega arith;
          before = λ j lt. ground (arith, lt);
          result = ap (λ f. (f (publish w).world).result) again ∙ sym failed;
          world = ap (λ f. (f (publish w).world).world) again;
          last = inl refl;
        }
  ]

  Retried-later :
      {A : Type 0} (n : ℕ) (rest publish : Action T A) (w : T.World)
      → retryable (publish w).result ≡ true
      → Retried n publish (publish w).world (rest (publish w).world)
      → Retried (suc n) publish w ((try publish >>= after_attempt p λ e. rest) w)
  unfolding ◌>>=◌ after try
  Retried-later n rest publish w h v =
      let (e, failed, again) = goes_on (λ e. rest) (publish w).result h in
      record {
        k = suc v.k;
        within = omega (arith, v.within);
        before = λ j lt. earlier j lt;
        result = ap (λ f. (f (publish w).world).result) again ∙ v.result;
        world = ap (λ f. (f (publish w).world).world) again ∙ v.world;
        last = elim v.last [ inl all_used ↦ inl (ap suc all_used) | inr ended ↦ inr ended ];
      }
    where
      earlier : (j : ℕ) → j < suc v.k → retryable (attempt publish j w).result ≡ true
      earlier zero lt = h
      earlier (suc j) lt = v.before j (omega (arith, lt))

  Retried-from :
      {A : Type 0} (left : ℕ) (publish : Action T A) (w : T.World)
      → Retried (suc left) publish w (retry_publish_from p left publish w)
  unfolding retry_publish_from
  Retried-from zero publish w = Retried-last publish w
  Retried-from (suc left) publish w = elim (Bool-cases (retryable (publish w).result)) [
    | inr h ↦ Retried-now (suc left) (λ e. retry_publish_from p left publish) publish w h
    | inl h ↦
        Retried-later (suc left) (retry_publish_from p left publish) publish w h
          (Retried-from left publish (publish w).world)
  ]

  -- Publishing with retries returns the outcome of one of its first `max_attempts` attempts, of the
  -- first if that is 0: the attempts before it failed without a rejection, and it succeeded, was
  -- rejected or was the last one allowed.
  pub retry_publish_lem :
      {A : Type 0} (max_attempts : ℕ) (publish : Action T A) (w : T.World)
      → Retried (max max_attempts 1) publish w (retry_publish p max_attempts publish w)
  unfolding retry_publish
  retry_publish_lem max_attempts publish w =
      subst (λ n. Retried n publish w (retry_publish_from p (max_attempts - 1) publish w))
        (omega arith) (Retried-from (max_attempts - 1) publish w)
