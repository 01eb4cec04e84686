-- ===== src/Processing/Handling.antt =====
-- Hooks and handler attempts of src/subscription/processing.rs: they publish and acknowledge
-- nothing, and the failures they route.
use beave_rs.Base.{
  ℕ, zero, suc, ◌+◌, ◌-◌, ◌≤◌, ◌≡◌, ◌⊎◌, inl, inr, refl, arith, max, Option, none, some, List, [],
  ◌∷◌,
}
use beave_rs.Base.Results.{Result, ok, err}
use beave_rs.ErrorPolicy.{rejected, retry_exhausted}
use beave_rs.Processing.Actions.{Types, Action, pure, Ensures}
use beave_rs.Processing.Rules.{
  Post, Silent, ensures-pure, ensures-raise, ensures-call, silent-bind, after_silent,
}
use beave_rs.Processing.{
  Answer, returns, retry, reject, fatal, Flow, proceed, intercept, Middleware, Pipeline,
}
use beave_rs.Processing.Deliveries.{
  Handled, failure, after_hook, pre_handlers, after_post, post_handlers, mapped_first, after_mapped,
  map_outputs, finished, finish, after_handler, attempt_handler, after_hooks, handle,
}

-- What `handle` returns for an input, when the handler has at most `bound` attempts: it has done no
-- event, and a failure keeps the decoded input, is a rejection or says how often the handler ran.
abbrev pub HandlePost : (T : Types) (p : Pipeline T) → ℕ → T.Input → Post T (Handled p)
HandlePost T p bound input t (ok (ok out)) = (t ≡ []) × (out.attempts ≤ bound) × (out.input ≡ input)
HandlePost T p bound input t (ok (err f)) =
    (t ≡ [])
    × (f.input ≡ some input)
    × (((f.kind ≡ rejected) × (f.attempts ≤ bound))
        ⊎ ((f.kind ≡ retry_exhausted) × (f.attempts ≡ bound)))
HandlePost T p bound input t (err e) = t ≡ []

module _ {T : Types} (p : Pipeline T) where
  silent-pure : {A : Type 0} (a : A) → Ensures (pure a) (Silent T)
  silent-pure a = ensures-pure T (Silent T) a refl

  after_hook_silent :
      (next : T.Input → Action T (Result T.BoxError (Flow T.Input T.Output)))
      → ((value : T.Input) → Ensures (next value) (Silent T))
      → (a : Answer T.BoxError (Flow T.Input T.Output)) → Ensures (after_hook p next a) (Silent T)
  unfolding after_hook
  after_hook_silent next h (returns (proceed value)) = h value
  after_hook_silent next h (returns (intercept values)) = silent-pure (ok (intercept values))
  after_hook_silent next h (reject e) = silent-pure (err e)
  after_hook_silent next h (retry e) = ensures-raise T (Silent T) e refl
  after_hook_silent next h (fatal e) = ensures-raise T (Silent T) e refl

  pre_handlers_silent :
      (ms : List (Middleware T)) (value : T.Input) → Ensures (pre_handlers p ms value) (Silent T)
  unfolding pre_handlers
  pre_handlers_silent [] value = silent-pure (ok (proceed value))
  pre_handlers_silent (m ∷ ms) value =
      ensures-call T (Silent T) (m.pre_handler value) (after_hook p (pre_handlers p ms))
        (after_hook_silent (pre_handlers p ms) (pre_handlers_silent ms))

  after_post_silent :
      (next : T.Output → Action T (Result T.BoxError T.Output))
      → ((output : T.Output) → Ensures (next output) (Silent T))
      → (a : Answer T.BoxError T.Output) → Ensures (after_post p next a) (Silent T)
  unfolding after_post
  after_post_silent next h (returns output) = h output
  after_post_silent next h (reject e) = silent-pure (err e)
  after_post_silent next h (retry e) = ensures-raise T (Silent T) e refl
  after_post_silent next h (fatal e) = ensures-raise T (Silent T) e refl

  post_handlers_silent :
      (input : T.Input) (ms : List (Middleware T)) (output : T.Output)
      → Ensures (post_handlers p input ms output) (Silent T)
  unfolding post_handlers
  post_handlers_silent input [] output = silent-pure (ok output)
  post_handlers_silent input (m ∷ ms) output =
      ensures-call T (Silent T) (m.post_handler input output)
        (after_post p (post_handlers p input ms))
        (after_post_silent (post_handlers p input ms) (post_handlers_silent input ms))

  mapped_first_silent :
      (o : T.Output) (r : Result T.BoxError (List T.Output))
      → Ensures (mapped_first p o r) (Silent T)
  unfolding mapped_first
  mapped_first_silent o (ok rest) = silent-pure (ok (o ∷ rest))
  mapped_first_silent o (err e) = silent-pure (err e)

  after_mapped_silent :
      (rest : Action T (Result T.BoxError (List T.Output)))
      → Ensures rest (Silent T)
      → (r : Result T.BoxError T.Output) → Ensures (after_mapped p rest r) (Silent T)
  unfolding after_mapped
  after_mapped_silent rest h (ok o) =
      silent-bind T rest (mapped_first p o) h (mapped_first_silent o)
  after_mapped_silent rest h (err e) = silent-pure (err e)

  map_outputs_silent :
      (input : T.Input) (os : List T.Output) → Ensures (map_outputs p input os) (Silent T)
  unfolding map_outputs
  map_outputs_silent input [] = silent-pure (ok [])
  map_outputs_silent input (o ∷ os) =
      silent-bind T (post_handlers p input p.middleware o) (after_mapped p (map_outputs p input os))
        (post_handlers_silent input p.middleware o)
        (after_mapped_silent (map_outputs p input os) (map_outputs_silent input os))

  finish_post :
      (bound : ℕ) (os : List T.Output) (input : T.Input) (attempts : ℕ) (commit : Option T.Commit)
      → attempts ≤ bound
      → Ensures (finish p os input attempts commit) (HandlePost T p bound input)
  unfolding finish finished
  finish_post bound os input attempts commit le =
      after_silent T (HandlePost T p bound input) (map_outputs p input os)
        (finished p input attempts commit) (map_outputs_silent input os) finishing (λ e. refl)
    where
      finishing :
          (r : Result T.BoxError (List T.Output))
          → Ensures (finished p input attempts commit r) (HandlePost T p bound input)
      finishing (ok values) =
          ensures-pure T (HandlePost T p bound input)
            (ok (record { values = values; input = input; attempts = attempts; commit = commit }))
            (refl, le, refl)
      finishing (err e) =
          ensures-pure T (HandlePost T p bound input) (err (failure p rejected e attempts input))
            (refl, refl, inl (refl, le))

  after_handler_post :
      (bound : ℕ) (input : T.Input) (attempts : ℕ) (again : T.BoxError → Action T (Handled p))
      → attempts ≤ bound
      → ((e : T.BoxError) → Ensures (again e) (HandlePost T p bound input))
      → (a : Answer T.BoxError (List T.Output × Option T.Commit))
      → Ensures (after_handler p input attempts again a) (HandlePost T p bound input)
  unfolding after_handler
  after_handler_post bound input attempts again le next (returns (os, commit)) =
      finish_post bound os input attempts commit le
  after_handler_post bound input attempts again le next (retry e) = next e
  after_handler_post bound input attempts again le next (reject e) =
      ensures-pure T (HandlePost T p bound input) (err (failure p rejected e attempts input))
        (refl, refl, inl (refl, le))
  after_handler_post bound input attempts again le next (fatal e) =
      ensures-raise T (HandlePost T p bound input) e refl

  attempt_post :
      (bound left attempts : ℕ) (value input : T.Input)
      → attempts + left ≡ bound
      → Ensures (attempt_handler p left attempts value input) (HandlePost T p bound input)
  unfolding attempt_handler
  attempt_post bound zero attempts value input h =
      ensures-call T (HandlePost T p bound input) (p.handler value) _ (
        after_handler_post bound input attempts
          (λ e. pure (err (failure p retry_exhausted e attempts input))) (omega (arith, h))
          (λ e.
            ensures-pure T (HandlePost T p bound input)
              (err (failure p retry_exhausted e attempts input))
              (refl, refl, inr (refl, omega (arith, h)))))
  attempt_post bound (suc left) attempts value input h =
      ensures-call T (HandlePost T p bound input) (p.handler value) _ (
        after_handler_post bound input attempts
          (λ e. attempt_handler p left (attempts + 1) value input) (omega (arith, h))
          (λ e. attempt_post bound left (attempts + 1) value input (omega (arith, h))))

  -- Hooks and handler attempts publish, commit and acknowledge nothing. The handler runs at most
  -- `max_attempts` times, and once if that is 0. A failure that they route is a rejection, or the
  -- handler's retries are exhausted, which happens after exactly that many attempts, and it carries
  -- the input as decoded.
  pub handle_lem :
      (input : T.Input) → Ensures (handle p input) (HandlePost T p (max p.handler_attempts 1) input)
  unfolding handle after_hooks
  handle_lem input =
      after_silent T (HandlePost T p (max p.handler_attempts 1) input)
        (pre_handlers p p.middleware input) (after_hooks p input)
        (pre_handlers_silent p.middleware input) hooked (λ e. refl)
    where
      hooked :
          (r : Result T.BoxError (Flow T.Input T.Output))
          → Ensures (after_hooks p input r) (HandlePost T p (max p.handler_attempts 1) input)
      hooked (err e) =
          ensures-pure T (HandlePost T p (max p.handler_attempts 1) input)
            (err (failure p rejected e 0 input)) (refl, refl, inl (refl, omega arith))
      hooked (ok (intercept values)) =
          finish_post (max p.handler_attempts 1) values input 0 none (omega arith)
      hooked (ok (proceed value)) =
          attempt_post (max p.handler_attempts 1) (p.handler_attempts - 1) 1 value input
            (omega arith)
