-- ===== src/Processing/Attempts.antt =====
-- How often src/subscription/processing.rs calls the handler for one delivery.
use beave_rs.Base.{
  ℕ, zero, suc, ◌+◌, ◌-◌, ◌≤◌, ◌≡◌, refl, sym, arith, max, Option, none, List, [], ◌∷◌, All, subst,
}
use beave_rs.Base.Results.{Result, ok, err}
use beave_rs.ErrorPolicy.{rejected, retry_exhausted}
use beave_rs.Processing.Actions.{Types, Event, Action, Call, pure, raise, call, after, ◌>>=◌}
use beave_rs.Processing.{
  Answer, returns, retry, reject, fatal, Flow, proceed, intercept, Middleware, Pipeline,
}
use beave_rs.Processing.Deliveries.{
  Handled, failure, after_hook, pre_handlers, after_post, post_handlers, mapped_first, after_mapped,
  map_outputs, finished, finish, after_handler, attempt_handler, after_hooks, handle,
}
use beave_rs.Processing.Handling.{HandlePost, handle_lem}

add_zero : (n : ℕ) → n ≡ n + 0
add_zero n = omega arith

add_assoc : (k m n : ℕ) → k + m + n ≡ k + (m + n)
add_assoc k m n = omega arith

module _ (T : Types) (calls : T.World → ℕ) where
  -- A hook leaves the count of calls of the handler as it is.
  pub record IsUncounted (m : Middleware T) : Type 0 where
    pub before : (input : T.Input) (w : T.World) → calls (m.pre_handler input w).0 ≡ calls w
    pub behind :
        (input : T.Input) (output : T.Output) (w : T.World)
        → calls (m.post_handler input output w).0 ≡ calls w

  -- A measure of the world counts the calls of the pipeline's handler.
  pub record Counter (p : Pipeline T) : Type 0 where
    pub handles : (value : T.Input) (w : T.World) → calls (p.handler value w).0 ≡ calls w + 1
    pub hooks : All IsUncounted p.middleware

  -- Started at a count `n`, an action ends at a count and with a result that satisfy `Q`.
  Counts : {A : Type 0} → Action T A → ℕ → (ℕ → Result T.BoxError A → Type 0) → Type 0
  Counts f n Q = (w : T.World) → calls w ≡ n → Q (calls (f w).world) (f w).result

  abbrev Uncounted : {A : Type 0} → Action T A → Type 0
  Uncounted f = (n : ℕ) → Counts f n (λ m r. m ≡ n)

  counts-pure :
      {A : Type 0} (n : ℕ) (Q : ℕ → Result T.BoxError A → Type 0) (a : A)
      → Q n (ok a)
      → Counts (pure a) n Q
  unfolding Counts pure
  counts-pure n Q a h w at = subst (λ m. Q m (ok a)) (sym at) h

  counts-raise :
      {A : Type 0} (n : ℕ) (Q : ℕ → Result T.BoxError A → Type 0) (e : T.BoxError)
      → Q n (err e)
      → Counts (raise e) n Q
  unfolding Counts raise
  counts-raise n Q e h w at = subst (λ m. Q m (err e)) (sym at) h

  counts-call :
      {A B : Type 0} (n d : ℕ) (Q : ℕ → Result T.BoxError B → Type 0) (f : Call T A)
      (k : A → Action T B)
      → ((w : T.World) → calls (f w).0 ≡ calls w + d)
      → ((a : A) → Counts (k a) (n + d) Q)
      → Counts (call f >>= k) n Q
  unfolding Counts call ◌>>=◌ after
  counts-call n d Q f k counted next w at = next (f w).1 (f w).0 (omega (arith, counted w, at))

  counts-after :
      {A B : Type 0} (n : ℕ) (Q : ℕ → Result T.BoxError B → Type 0) (k : A → Action T B)
      (w : T.World) (t : List (Event T)) (r : Result T.BoxError A)
      → calls w ≡ n
      → ((a : A) → Counts (k a) n Q)
      → ((e : T.BoxError) → Q n (err e))
      → Q (calls (after w t r k).world) (after w t r k).result
  unfolding Counts after
  counts-after n Q k w t (ok a) at next stop = next a w at
  counts-after n Q k w t (err e) at next stop = subst (λ m. Q m (err e)) (sym at) (stop e)

  counts-bind :
      {A B : Type 0} (n : ℕ) (Q : ℕ → Result T.BoxError B → Type 0) (f : Action T A)
      (k : A → Action T B)
      → Uncounted f
      → ((a : A) → Counts (k a) n Q)
      → ((e : T.BoxError) → Q n (err e))
      → Counts (f >>= k) n Q
  unfolding Counts ◌>>=◌
  counts-bind n Q f k quiet next stop w at =
      counts-after n Q k (f w).world (f w).trace (f w).result (quiet n w at) next stop

  Uncounted-pure : {A : Type 0} (a : A) → Uncounted (pure a)
  Uncounted-pure a n = counts-pure n (λ m r. m ≡ n) a refl

  Uncounted-raise : (A : Type 0) (e : T.BoxError) → Uncounted (raise {A = A} e)
  Uncounted-raise A e n = counts-raise n (λ m r. m ≡ n) e refl

  Uncounted-bind :
      {A B : Type 0} (f : Action T A) (k : A → Action T B)
      → Uncounted f
      → ((a : A) → Uncounted (k a))
      → Uncounted (f >>= k)
  Uncounted-bind f k quiet next n =
      counts-bind n (λ m r. m ≡ n) f k quiet (λ a. next a n) (λ e. refl)

  Uncounted-call :
      {A B : Type 0} (f : Call T A) (k : A → Action T B)
      → ((w : T.World) → calls (f w).0 ≡ calls w)
      → ((a : A) → Uncounted (k a))
      → Uncounted (call f >>= k)
  Uncounted-call f k quiet next n =
      counts-call n 0 (λ m r. m ≡ n) f k (λ w. omega (arith, quiet w))
        (λ a. subst (λ m. Counts (k a) m (λ u r. u ≡ n)) (add_zero n) (next a n))

  module _ (p : Pipeline T) where
    hooked :
        (next : T.Input → Action T (Result T.BoxError (Flow T.Input T.Output)))
        → ((value : T.Input) → Uncounted (next value))
        → (a : Answer T.BoxError (Flow T.Input T.Output)) → Uncounted (after_hook p next a)
    unfolding after_hook
    hooked next h (returns (proceed value)) = h value
    hooked next h (returns (intercept values)) = Uncounted-pure (ok (intercept values))
    hooked next h (reject e) = Uncounted-pure (err e)
    hooked next h (retry e) = Uncounted-raise _ e
    hooked next h (fatal e) = Uncounted-raise _ e

    pre-Uncounted :
        (ms : List (Middleware T)) (value : T.Input)
        → All IsUncounted ms
        → Uncounted (pre_handlers p ms value)
    unfolding pre_handlers
    pre-Uncounted [] value h = Uncounted-pure (ok (proceed value))
    pre-Uncounted (m ∷ ms) value (h, hs) =
        Uncounted-call (m.pre_handler value) (after_hook p (pre_handlers p ms)) (h.before value)
          (hooked (pre_handlers p ms) (λ v. pre-Uncounted ms v hs))

    posted :
        (next : T.Output → Action T (Result T.BoxError T.Output))
        → ((output : T.Output) → Uncounted (next output))
        → (a : Answer T.BoxError T.Output) → Uncounted (after_post p next a)
    unfolding after_post
    posted next h (returns output) = h output
    posted next h (reject e) = Uncounted-pure (err e)
    posted next h (retry e) = Uncounted-raise _ e
    posted next h (fatal e) = Uncounted-raise _ e

    post-Uncounted :
        (input : T.Input) (ms : List (Middleware T)) (output : T.Output)
        → All IsUncounted ms
        → Uncounted (post_handlers p input ms output)
    unfolding post_handlers
    post-Uncounted input [] output h = Uncounted-pure (ok output)
    post-Uncounted input (m ∷ ms) output (h, hs) =
        Uncounted-call (m.post_handler input output) (after_post p (post_handlers p input ms))
          (h.behind input output)
          (posted (post_handlers p input ms) (λ o. post-Uncounted input ms o hs))

    mapped : (o : T.Output) (r : Result T.BoxError (List T.Output)) → Uncounted (mapped_first p o r)
    unfolding mapped_first
    mapped o (ok rest) = Uncounted-pure (ok (o ∷ rest))
    mapped o (err e) = Uncounted-pure (err e)

    after_mapped-Uncounted :
        (rest : Action T (Result T.BoxError (List T.Output)))
        → Uncounted rest
        → (r : Result T.BoxError T.Output) → Uncounted (after_mapped p rest r)
    unfolding after_mapped
    after_mapped-Uncounted rest h (ok o) = Uncounted-bind rest (mapped_first p o) h (mapped o)
    after_mapped-Uncounted rest h (err e) = Uncounted-pure (err e)

    map-Uncounted :
        (input : T.Input) (os : List T.Output)
        → All IsUncounted p.middleware
        → Uncounted (map_outputs p input os)
    unfolding map_outputs
    map-Uncounted input [] h = Uncounted-pure (ok [])
    map-Uncounted input (o ∷ os) h =
        Uncounted-bind (post_handlers p input p.middleware o)
          (after_mapped p (map_outputs p input os)) (post-Uncounted input p.middleware o h)
          (after_mapped-Uncounted (map_outputs p input os) (map-Uncounted input os h))

    -- Started at the count `start`, the handler was called as often as the result says, or at most
    -- `bound` times if it ends in an error.
    abbrev pub Counted : ℕ → ℕ → ℕ → Result T.BoxError (Handled p) → Type 0
    Counted start bound m (ok (ok out)) = m ≡ start + out.attempts
    Counted start bound m (ok (err f)) = m ≡ start + f.attempts
    Counted start bound m (err e) = m ≤ start + bound

    finish-Counted :
        (start bound : ℕ) (os : List T.Output) (input : T.Input) (attempts : ℕ)
        (commit : Option T.Commit)
        → All IsUncounted p.middleware
        → attempts ≤ bound
        → Counts (finish p os input attempts commit) (start + attempts) (Counted start bound)
    unfolding finish finished
    finish-Counted start bound os input attempts commit h le =
        counts-bind (start + attempts) (Counted start bound) (map_outputs p input os)
          (finished p input attempts commit) (map-Uncounted input os h) ended
          (λ e. omega (arith, le))
      where
        ended :
            (r : Result T.BoxError (List T.Output))
            → Counts (finished p input attempts commit r) (start + attempts) (Counted start bound)
        ended (ok values) =
            counts-pure (start + attempts) (Counted start bound)
              (ok (record { values = values; input = input; attempts = attempts; commit = commit }))
              refl
        ended (err e) =
            counts-pure (start + attempts) (Counted start bound)
              (err (failure p rejected e attempts input)) refl

    after_handler-Counted :
        (start bound : ℕ) (input : T.Input) (attempts : ℕ)
        (again : T.BoxError → Action T (Handled p))
        → All IsUncounted p.middleware
        → attempts ≤ bound
        → ((e : T.BoxError) → Counts (again e) (start + attempts) (Counted start bound))
        → (a : Answer T.BoxError (List T.Output × Option T.Commit))
        → Counts (after_handler p input attempts again a) (start + attempts) (Counted start bound)
    unfolding after_handler
    after_handler-Counted start bound input attempts again h le next (returns (os, commit)) =
        finish-Counted start bound os input attempts commit h le
    after_handler-Counted start bound input attempts again h le next (retry e) = next e
    after_handler-Counted start bound input attempts again h le next (reject e) =
        counts-pure (start + attempts) (Counted start bound)
          (err (failure p rejected e attempts input)) refl
    after_handler-Counted start bound input attempts again h le next (fatal e) =
        counts-raise (start + attempts) (Counted start bound) e (omega (arith, le))

    -- The attempt after `done` ones.
    attempt-Counted :
        (start bound left done : ℕ) (value input : T.Input)
        → Counter p
        → done + 1 + left ≡ bound
        → Counts
            (attempt_handler p left (done + 1) value input)
            (start + done)
            (Counted start bound)
    unfolding attempt_handler
    attempt-Counted start bound zero done value input c h =
        counts-call (start + done) 1 (Counted start bound) (p.handler value)
          (after_handler p input (done + 1)
            (λ e. pure (err (failure p retry_exhausted e (done + 1) input))))
          (c.handles value)
          (λ a.
            subst
              (λ n.
                Counts
                  (after_handler p input (done + 1)
                    (λ e. pure (err (failure p retry_exhausted e (done + 1) input))) a)
                  n (Counted start bound))
              (sym (add_assoc start done 1))
              (after_handler-Counted start bound input (done + 1)
                (λ e. pure (err (failure p retry_exhausted e (done + 1) input))) c.hooks
                (omega (arith, h))
                (λ e.
                  counts-pure (start + (done + 1)) (Counted start bound)
                    (err (failure p retry_exhausted e (done + 1) input)) refl)
                a))
    attempt-Counted start bound (suc left) done value input c h =
        counts-call (start + done) 1 (Counted start bound) (p.handler value)
          (after_handler p input (done + 1)
            (λ e. attempt_handler p left (done + 1 + 1) value input))
          (c.handles value)
          (λ a.
            subst
              (λ n.
                Counts
                  (after_handler p input (done + 1)
                    (λ e. attempt_handler p left (done + 1 + 1) value input) a)
                  n (Counted start bound))
              (sym (add_assoc start done 1))
              (after_handler-Counted start bound input (done + 1)
                (λ e. attempt_handler p left (done + 1 + 1) value input) c.hooks (omega (arith, h))
                (λ e. attempt-Counted start bound left (done + 1) value input c (omega (arith, h)))
                a))

    after_hooks-Counted :
        (start : ℕ) (input : T.Input) (r : Result T.BoxError (Flow T.Input T.Output))
        → Counter p
        → Counts (after_hooks p input r) (start + 0) (Counted start (max p.handler_attempts 1))
    unfolding after_hooks
    after_hooks-Counted start input (err e) c =
        counts-pure (start + 0) (Counted start (max p.handler_attempts 1))
          (err (failure p rejected e 0 input)) refl
    after_hooks-Counted start input (ok (intercept values)) c =
        finish-Counted start (max p.handler_attempts 1) values input 0 none c.hooks (omega arith)
    after_hooks-Counted start input (ok (proceed value)) c =
        attempt-Counted start (max p.handler_attempts 1) (p.handler_attempts - 1) 0 value input c
          (omega arith)

    -- Hooks and handler attempts publish, commit and acknowledge nothing. The handler is called as
    -- often as the outputs or the failure that they come to say, which is at most `max_attempts` times,
    -- and once if that is 0; no more often if they end in an error. A failure that they route is a
    -- rejection, or the handler's retries are exhausted, which happens after exactly that many
    -- attempts, and it carries the input as decoded. The calls are counted by any measure of the world
    -- that each call of the handler increases by one and that no hook changes.
    pub handle_attempts :
        (c : Counter p) (input : T.Input) (w : T.World)
        → HandlePost T p
            (max p.handler_attempts 1)
            input
            (handle p input w).trace
            (handle p input w).result
          × Counted
              (calls w)
              (max p.handler_attempts 1)
              (calls (handle p input w).world)
              (handle p input w).result
    unfolding handle Counts
    handle_attempts c input w = (
      handle_lem p input w,
      counts-bind (calls w + 0) (Counted (calls w) (max p.handler_attempts 1))
          (pre_handlers p p.middleware input) (after_hooks p input)
          (pre-Uncounted p.middleware input c.hooks) (λ r. after_hooks-Counted (calls w) input r c)
          (λ e. omega arith) w (omega arith),
    )
