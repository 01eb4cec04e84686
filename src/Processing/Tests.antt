-- ===== src/Processing/Tests.antt =====
-- Deliveries through a pipeline of src/subscription/processing.rs whose sink fails once and accepts
-- odd outputs before they reach their destination, and the theorems on them.
use beave_rs.Base.{
  ℕ, ◌+◌, ◌*◌, ◌/◌, ◌≡◌, refl, max, nat_beq, if◌then◌else◌, Option, none, some, List, [], ◌∷◌,
}
use beave_rs.Base.Results.{Result, ok, err}
use beave_rs.ErrorPolicy.{rejected, dead_letter, dead_letter_all, action}
use beave_rs.Processing.Actions.{
  Types, submitted, waited, committed, acked, Call, pure, raise, ◌>>=◌, after, try, call, noted,
  perform,
}
use beave_rs.Processing.{
  Answer, returns, Pipeline, complete, submit, retry_publish, retry_publish_from, after_attempt,
  submitted_first, after_submit, submit_all, complete_prepared, prepare, conclude, wait_all, wait,
  commit_state, ack_delivery, finish_pending,
}
use beave_rs.Processing.Deliveries.{
  handle, route, deliver, failure, process, pre_handlers, attempt_handler, finish, map_outputs,
  post_handlers, after_hooks, after_handler, after_mapped, mapped_first, finished, after_handled,
  after_completion, finish_delivery,
}
use beave_rs.Processing.Retries.{Retried, retry_publish_lem}
use beave_rs.Processing.Completing.{CompletePost, complete_lem}
use beave_rs.Processing.Routing.{Routed, route_lem}
use beave_rs.Processing.Handling.{HandlePost}
use beave_rs.Processing.Attempts.{Counter, Counted, handle_attempts}
use beave_rs.Processing.Delivering.{Delivered, Because, handled, deliver_lem}

-- The world counts calls.
abbrev numbers : Types
numbers = record {
  World = ℕ;
  Message = ℕ;
  Input = ℕ;
  Output = ℕ;
  Prepared = ℕ;
  Future = ℕ;
  Commit = ℕ;
  BoxError = ℕ;
}

abbrev accepts : ℕ → Call numbers (Result ℕ Unit)
accepts x w = (w + 1, ok tt)

-- The first call fails.
abbrev sends : ℕ → Call numbers (Result ℕ (Option ℕ))
sends x w =
    (w + 1, if nat_beq w 1 then err 500 else if nat_beq (x / 2 * 2) x then ok none else ok (some x))

abbrev two_outputs : ℕ → Call numbers (Answer ℕ (List ℕ × Option ℕ))
two_outputs input w = (w + 1, returns (input ∷ (input + 1) ∷ [], some 9))

abbrev line : Pipeline numbers
line = record {
  handler = two_outputs;
  middleware = [];
  prepare_from = λ o m. ok o;
  submit = sends;
  wait = accepts;
  apply_commit = accepts;
  ack = accepts;
  is_rejection = λ e. nat_beq e 400;
  dlq = some (λ f. accepts);
  no_dead_letter_sink = λ e. e;
  handler_attempts = 3;
  publish_attempts = 3;
  error_policy = dead_letter_all;
}

deliver_lem_example :
    Delivered numbers
      (Because line (handled line (ok 4) 0))
      7
      (deliver line 7 (ok 4) 0).trace
      (deliver line 7 (ok 4) 0).result
deliver_lem_example = deliver_lem line 7 (ok 4) 0

complete_lem_example :
    CompletePost numbers 7
      (4 ∷ 5 ∷ [])
      (some 9)
      (complete line 7 (4 ∷ 5 ∷ []) (some 9) 1).trace
      (complete line 7 (4 ∷ 5 ∷ []) (some 9) 1).result
complete_lem_example = complete_lem line 7 (4 ∷ 5 ∷ []) (some 9) 1

route_lem_example :
    Routed numbers dead_letter rejected 7
      (route line 7 (failure line rejected 400 1 4) 0).trace
      (route line 7 (failure line rejected 400 1 4) 0).result
unfolding action
route_lem_example = route_lem line 7 (failure line rejected 400 1 4) 0

-- Each call of the handler adds one to the world, and there are no hooks.
counter : Counter numbers (λ w. w) line
counter = record { handles = λ value w. refl; hooks = tt }

handle_attempts_example :
    HandlePost numbers line (max 3 1) 4 (handle line 4 0).trace (handle line 4 0).result
    × Counted numbers (λ w. w) line 0 (max 3 1) (handle line 4 0).world (handle line 4 0).result
handle_attempts_example = handle_attempts numbers (λ w. w) line counter 4 0

retry_publish_lem_example :
    Retried line (max 3 1) (submit line 4) 1 (retry_publish line 3 (submit line 4) 1)
retry_publish_lem_example = retry_publish_lem line 3 (submit line 4) 1

-- Both outputs are submitted, the odd one is waited for, the state is committed, then the delivery
-- is acknowledged.
delivered_trace :
    (deliver line 7 (ok 4) 0).trace
    ≡ submitted none ∷ submitted (some 5) ∷ waited 5 ∷ committed 9 ∷ acked 7 ∷ []
unfolding deliver process handle pre_handlers attempt_handler finish map_outputs post_handlers
    after_hooks after_handler after_mapped mapped_first finished after_handled after_completion
    finish_delivery finish_pending complete complete_prepared prepare submit_all after_submit
    submitted_first submit retry_publish retry_publish_from after_attempt conclude wait_all wait
    commit_state ack_delivery pure raise ◌>>=◌ after try call perform noted
delivered_trace = refl
