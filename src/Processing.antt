-- ===== src/Processing.antt =====
-- src/subscription/processing.rs and the sequential completion of src/subscription/completion.rs:
-- one delivery from its decoded value to its acknowledgement. Delays, metrics, tracing and health
-- counters are not modelled, nor are the texts that `context` adds to an error.
pub mod Actions
pub mod Deliveries
pub mod Rules
pub mod Publishing
pub mod Completing
pub mod Routing
pub mod Handling
pub mod Delivering
pub mod Attempts
pub mod Retries
mod Tests
use beave_rs.Base.{
  ℕ, suc, zero, ◌+◌, ◌-◌, Bool, true, false, if◌then◌else◌, Option, none, some, List, [], ◌∷◌, all,
  map,
}
use beave_rs.Base.Map.{is_some}
use beave_rs.Base.Results.{Result, ok, err}
use beave_rs.ErrorPolicy.{
  FailureKind, decode, rejected, retry_exhausted, encode, publish_rejected, FailureAction, stop,
  dead_letter, discard, ErrorPolicy, action,
}
use Actions.{
  Types, Event, submitted, waited, committed, dead_lettered, acked, Action, Call, pure, raise,
  ◌>>=◌, ◌>>◌, try, call, perform,
}

-- `HandlerError`, beside the answer of a handler that returned.
pub data Answer (E A : Type 0) : Type 0 where
  returns : A → Answer E A
  retry reject fatal : E → Answer E A

pub data Flow (I O : Type 0) : Type 0 where
  proceed : I → Flow I O  -- `Continue`
  intercept : List O → Flow I O

pub record Failure (E I : Type 0) : Type 0 where
  pub kind : FailureKind
  pub error : E
  pub attempts : ℕ
  pub input : Option I

pub record Outputs (I O C : Type 0) : Type 0 where
  pub values : List O
  pub input : I
  pub attempts : ℕ
  pub commit : Option C

pub record Middleware (T : Types) : Type 0 where
  pub pre_handler : T.Input → Call T (Answer T.BoxError (Flow T.Input T.Output))
  pub post_handler : T.Input → T.Output → Call T (Answer T.BoxError T.Output)

-- `completion.rs`: how processing ended at the completion stage.
pub data Completion (T : Types) : Type 0 where
  done : Completion T
  pending : T.Message → List (Option T.Future) → Option T.Commit → Completion T
  committing : T.Future → Completion T
  encode_failed : T.Message → T.BoxError → Completion T  -- `Completion::Encode`
  refused : T.Message → T.BoxError → Completion T  -- `Completion::Rejected`

-- The pipeline of a subscription and the code it calls: the sink, the source's acknowledgement, the
-- state store's commit, the handler and the route to the dead-letter sink.
pub record Pipeline (T : Types) : Type 0 where
  pub handler : T.Input → Call T (Answer T.BoxError (List T.Output × Option T.Commit))
  pub middleware : List (Middleware T)
  pub prepare_from : T.Output → T.Message → Result T.BoxError T.Prepared
  pub submit : T.Prepared → Call T (Result T.BoxError (Option T.Future))
  pub wait : T.Future → Call T (Result T.BoxError (Unit {0}))
  pub apply_commit : T.Commit → Call T (Result T.BoxError (Unit {0}))
  pub ack : T.Message → Call T (Result T.BoxError (Unit {0}))
  -- `PublishRejected::is`
  pub is_rejection : T.BoxError → Bool
  pub dlq : Option (Failure T.BoxError T.Input → T.Message → Call T (Result T.BoxError (Unit {0})))
  pub no_dead_letter_sink : T.BoxError → T.BoxError
  pub handler_attempts : ℕ
  pub publish_attempts : ℕ
  pub error_policy : ErrorPolicy

pub data PendingAck (T : Types) : Type 0 where
  await_completions : T.Message → List (Option T.Future) → Option T.Commit → PendingAck T
  await_commit : T.Future → PendingAck T

module _ {T : Types} (p : Pipeline T) where
  -- The `match` of `retry_publish` on one attempt.
  unfoldable pub after_attempt :
      {A : Type 0} → (T.BoxError → Action T A) → Result T.BoxError A → Action T A
  after_attempt again (ok a) = pure a
  after_attempt again (err e) = if p.is_rejection e then raise e else again e

  -- `retry_publish` with so many attempts left after this one.
  unfoldable pub retry_publish_from : {A : Type 0} → ℕ → Action T A → Action T A
  retry_publish_from zero publish = try publish >>= after_attempt raise
  retry_publish_from (suc left) publish =
      try publish >>= after_attempt λ e. retry_publish_from left publish

  unfoldable pub retry_publish : {A : Type 0} → ℕ → Action T A → Action T A
  retry_publish max_attempts publish = retry_publish_from (max_attempts - 1) publish

  unfoldable pub submit : T.Prepared → Action T (Option T.Future)
  submit output = perform submitted (p.submit output)

  -- `Completion::wait`
  unfoldable pub wait : Option T.Future → Action T Unit
  wait none = pure tt
  wait (some f) = perform (λ a. waited f) (p.wait f)

  unfoldable pub wait_all : List (Option T.Future) → Action T Unit
  wait_all [] = pure tt
  wait_all (c ∷ cs) = wait c >> wait_all cs

  unfoldable pub commit_state : Option T.Commit → Action T Unit
  commit_state none = pure tt
  commit_state (some c) = perform (λ a. committed c) (p.apply_commit c)

  -- `acknowledge` of `completion.rs`.
  unfoldable pub ack_delivery : T.Message → Action T Unit
  ack_delivery m = perform (λ a. acked m) (p.ack m)

  -- Prepares every output, stopping at the first error.
  unfoldable pub prepare : T.Message → List T.Output → Result T.BoxError (List T.Prepared)
  prepare m [] = ok []
  prepare m (o ∷ os) =
      let rest = prepare m os in
      elim (p.prepare_from o m) [
        | err e ↦ err e
        | ok x ↦ elim rest [ err e ↦ err e | ok xs ↦ ok (x ∷ xs) ]
      ]

  -- The submitted outputs, and the rejection that ended the loop, if any.
  abbrev pub Submissions : Type 0
  Submissions = List (Option T.Future) × Option T.BoxError

  unfoldable pub submitted_first : Option T.Future → Submissions → Action T Submissions
  submitted_first c (cs, e) = pure (c ∷ cs, e)

  unfoldable pub after_submit :
      Action T Submissions → Result T.BoxError (Option T.Future) → Action T Submissions
  unfolding submitted_first
  after_submit rest (ok c) = rest >>= submitted_first c
  after_submit rest (err e) = if p.is_rejection e then pure ([], some e) else raise e

  -- The publish loop of `Publish::complete`.
  unfoldable pub submit_all : List T.Prepared → Action T Submissions
  unfolding after_submit
  submit_all [] = pure ([], none)
  submit_all (x ∷ xs) =
      try (retry_publish p.publish_attempts (submit x)) >>= after_submit (submit_all xs)

  abbrev pub all_done : List (Option T.Future) → Bool
  all_done = all λ c. if is_some c then false else true

  -- `Publish::complete` after the publish loop.
  unfoldable pub conclude : T.Message → Option T.Commit → Submissions → Action T (Completion T)
  conclude m commit (cs, some e) = wait_all cs >> pure (refused m e)
  conclude m commit (cs, none) =
      if all_done cs
      then commit_state commit >> ack_delivery m >> pure done
      else pure (pending m cs commit)

  unfoldable pub complete_prepared :
      T.Message → Option T.Commit → Result T.BoxError (List T.Prepared) → Action T (Completion T)
  complete_prepared m commit (err e) = pure (encode_failed m e)
  complete_prepared m commit (ok xs) = submit_all xs >>= conclude m commit

  -- `Publish::complete`
  unfoldable pub complete : T.Message → List T.Output → Option T.Commit → Action T (Completion T)
  unfolding complete_prepared
  complete m outputs commit = complete_prepared m commit (prepare m outputs)

  -- What `PendingAck` runs.
  unfoldable pub finish_pending : PendingAck T → Action T Unit
  finish_pending (await_completions m cs commit) =
      wait_all cs >> (commit_state commit >> ack_delivery m)
  finish_pending (await_commit f) = wait (some f)
