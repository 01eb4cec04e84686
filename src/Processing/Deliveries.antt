-- ===== src/Processing/Deliveries.antt =====
-- src/subscription/processing.rs: middleware, handler attempts, failure routing and the whole of
-- `process`. A subscription whose outputs are published one by one (`Publish`).
use beave_rs.Base.{ℕ, suc, zero, ◌+◌, ◌-◌, Option, none, some, List, [], ◌∷◌}
use beave_rs.Base.Results.{Result, ok, err}
use beave_rs.ErrorPolicy.{
  FailureKind, decode, rejected, retry_exhausted, encode, publish_rejected, FailureAction, stop,
  dead_letter, discard, action,
}
use beave_rs.Processing.Actions.{
  Types, dead_lettered, Action, Call, pure, raise, ◌>>=◌, ◌>>◌, call, perform,
}
use beave_rs.Processing.{
  Answer, returns, retry, reject, fatal, Flow, proceed, intercept, Failure, Outputs, Middleware,
  Completion, done, pending, committing, encode_failed, refused, Pipeline, PendingAck,
  await_completions, await_commit, complete, ack_delivery, finish_pending,
}

module _ {T : Types} (p : Pipeline T) where
  abbrev pub Fails : Type 0
  Fails = Failure T.BoxError T.Input

  -- `Handled`: outputs to complete, or a failure to route.
  abbrev pub Handled : Type 0
  Handled = Result Fails (Outputs T.Input T.Output T.Commit)

  abbrev pub failure : FailureKind → T.BoxError → ℕ → T.Input → Fails
  failure kind e attempts input = record {
    kind = kind;
    error = e;
    attempts = attempts;
    input = some input;
  }

  -- The pre-handler hooks, in order, while they let the delivery continue.
  unfoldable pub after_hook :
      (T.Input → Action T (Result T.BoxError (Flow T.Input T.Output)))
      → Answer T.BoxError (Flow T.Input T.Output)
      → Action T (Result T.BoxError (Flow T.Input T.Output))
  after_hook next (returns (proceed value)) = next value
  after_hook next (returns (intercept values)) = pure (ok (intercept values))
  after_hook next (reject e) = pure (err e)
  after_hook next (retry e) = raise e
  after_hook next (fatal e) = raise e

  unfoldable pub pre_handlers :
      List (Middleware T) → T.Input → Action T (Result T.BoxError (Flow T.Input T.Output))
  unfolding after_hook
  pre_handlers [] value = pure (ok (proceed value))
  pre_handlers (m ∷ ms) value = call (m.pre_handler value) >>= after_hook (pre_handlers ms)

  unfoldable pub after_post :
      (T.Output → Action T (Result T.BoxError T.Output))
      → Answer T.BoxError T.Output
      → Action T (Result T.BoxError T.Output)
  after_post next (returns output) = next output
  after_post next (reject e) = pure (err e)
  after_post next (retry e) = raise e
  after_post next (fatal e) = raise e

  -- One output through every post-handler hook; `err` is a rejection.
  unfoldable pub post_handlers :
      T.Input → List (Middleware T) → T.Output → Action T (Result T.BoxError T.Output)
  unfolding after_post
  post_handlers input [] output = pure (ok output)
  post_handlers input (m ∷ ms) output =
      call (m.post_handler input output) >>= after_post (post_handlers input ms)

  unfoldable pub mapped_first :
      T.Output → Result T.BoxError (List T.Output) → Action T (Result T.BoxError (List T.Output))
  mapped_first output (ok rest) = pure (ok (output ∷ rest))
  mapped_first output (err e) = pure (err e)

  unfoldable pub after_mapped :
      Action T (Result T.BoxError (List T.Output))
      → Result T.BoxError T.Output
      → Action T (Result T.BoxError (List T.Output))
  unfolding mapped_first
  after_mapped rest (ok output) = rest >>= mapped_first output
  after_mapped rest (err e) = pure (err e)

  unfoldable pub map_outputs :
      T.Input → List T.Output → Action T (Result T.BoxError (List T.Output))
  unfolding after_mapped
  map_outputs input [] = pure (ok [])
  map_outputs input (o ∷ os) =
      post_handlers input p.middleware o >>= after_mapped (map_outputs input os)

  unfoldable pub finished :
      T.Input → ℕ → Option T.Commit → Result T.BoxError (List T.Output) → Action T Handled
  finished input attempts commit (ok values) =
      pure (ok (record { values = values; input = input; attempts = attempts; commit = commit }))
  finished input attempts commit (err e) = pure (err (failure rejected e attempts input))

  -- `finish`: the post-handler hooks over every output.
  unfoldable pub finish : List T.Output → T.Input → ℕ → Option T.Commit → Action T Handled
  unfolding finished
  finish outputs input attempts commit =
      map_outputs input outputs >>= finished input attempts commit

  -- The `match` on the handler's answer; `again` is the next attempt, if one is left.
  unfoldable pub after_handler :
      T.Input
      → ℕ
      → (T.BoxError → Action T Handled)
      → Answer T.BoxError (List T.Output × Option T.Commit)
      → Action T Handled
  after_handler input attempts again (returns (outputs, commit)) =
      finish outputs input attempts commit
  after_handler input attempts again (retry e) = again e
  after_handler input attempts again (reject e) = pure (err (failure rejected e attempts input))
  after_handler input attempts again (fatal e) = raise e

  -- The attempt number `attempts` of the handler, with `left` attempts after it. `value` is what the
  -- hooks made of `input`.
  unfoldable pub attempt_handler : ℕ → ℕ → T.Input → T.Input → Action T Handled
  unfolding after_handler
  attempt_handler zero attempts value input =
      call (p.handler value)
      >>= after_handler input attempts λ e. pure (err (failure retry_exhausted e attempts input))
  attempt_handler (suc left) attempts value input =
      call (p.handler value)
      >>= after_handler input attempts λ e. attempt_handler left (attempts + 1) value input

  unfoldable pub after_hooks :
      T.Input → Result T.BoxError (Flow T.Input T.Output) → Action T Handled
  after_hooks input (err e) = pure (err (failure rejected e 0 input))
  after_hooks input (ok (intercept values)) = finish values input 0 none
  after_hooks input (ok (proceed value)) = attempt_handler (p.handler_attempts - 1) 1 value input

  unfoldable pub handle : T.Input → Action T Handled
  unfolding after_hooks
  handle input = pre_handlers p.middleware input >>= after_hooks input

  unfoldable pub acknowledged : Completion T → Action T (Option (PendingAck T))
  acknowledged done = pure none
  acknowledged (pending m cs commit) = ack_delivery p m >> pure none
  acknowledged (committing f) = pure (some (await_commit f))
  acknowledged (encode_failed m e) = raise e
  acknowledged (refused m e) = raise e

  -- Acknowledges a delivery without output through the completion stage.
  unfoldable pub acknowledge : T.Message → Action T (Option (PendingAck T))
  unfolding acknowledged
  acknowledge m = complete p m [] none >>= acknowledged

  unfoldable pub send_dead_letter :
      Option (Fails → T.Message → Call T (Result T.BoxError Unit))
      → T.Message
      → Fails
      → Action T (Option (PendingAck T))
  send_dead_letter none m f = raise (p.no_dead_letter_sink f.error)
  send_dead_letter (some dlq) m f = perform (λ a. dead_lettered f.kind) (dlq f m) >> acknowledge m

  unfoldable pub route_by : FailureAction → T.Message → Fails → Action T (Option (PendingAck T))
  unfolding send_dead_letter
  route_by stop m f = raise f.error
  route_by discard m f = acknowledge m
  route_by dead_letter m f = send_dead_letter p.dlq m f

  unfoldable pub route : T.Message → Fails → Action T (Option (PendingAck T))
  unfolding route_by
  route m f = route_by (action p.error_policy f.kind) m f

  -- The `match` of `process` on the completion of a delivery's outputs.
  unfoldable pub after_completion : T.Input → ℕ → Completion T → Action T (Option (PendingAck T))
  after_completion input attempts done = pure none
  after_completion input attempts (pending m cs commit) =
      pure (some (await_completions m cs commit))
  after_completion input attempts (committing f) = pure (some (await_commit f))
  after_completion input attempts (encode_failed m e) = route m (failure encode e attempts input)
  after_completion input attempts (refused m e) =
      route m (failure publish_rejected e attempts input)

  unfoldable pub after_handled : T.Message → Handled → Action T (Option (PendingAck T))
  unfolding after_completion
  after_handled m (err f) = route m f
  after_handled m (ok outputs) =
      complete p m outputs.values outputs.commit >>= after_completion outputs.input outputs.attempts

  unfoldable pub process : T.Message → Result T.BoxError T.Input → Action T (Option (PendingAck T))
  unfolding after_handled
  process m (err e) = route m (record { kind = decode; error = e; attempts = 0; input = none })
  process m (ok input) = handle input >>= after_handled m

  -- What the runtime does with the acknowledgement that `process` returns.
  unfoldable pub finish_delivery : Option (PendingAck T) → Action T Unit
  finish_delivery none = pure tt
  finish_delivery (some ack) = finish_pending p ack

  -- A delivery to its end.
  unfoldable pub deliver : T.Message → Result T.BoxError T.Input → Action T Unit
  deliver m decoded = process m decoded >>= finish_delivery
