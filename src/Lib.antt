-- ===== src/Lib.antt =====
-- The core of beave-rs, a framework whose subscriptions connect a source, a handler and a sink.
--
-- A subscription's runtime (src/subscription/runtime.rs) admits each received delivery to the
-- scheduler (src/subscription/scheduler.rs), decodes it, pushes it to its lane and starts the
-- deliveries that the scheduler hands out. One delivery then goes through hooks, handler attempts,
-- publication and acknowledgement (src/subscription/processing.rs and completion.rs), under the
-- retry policies (src/retry.rs) and the error policy (src/error_policy.rs). The Kafka source counts
-- what was delivered and acknowledged of each partition and commits the offsets below
-- (src/adapters/kafka/progress.rs); it revokes deliveries through cancellation tokens
-- (src/shutdown.rs).
--
-- The files, and what each models:
-- - Base, Base/*: shared names; Boolean tests on native numbers, lists, decidable equality of keys,
--   HashMap and HashSet as association lists, Result.
-- - Scheduler: Scheduler with admit, push, withdraw, next_ready, complete, take_flow_changes,
--   disable_flow_control and discard_pending, each on the whole state. Scheduler/Distribution: the
--   lane of a delivery. Scheduler/Flow: FlowControl with add and remove (here release and settle). Scheduler/System: who holds which admission and
--   ticket between the calls, and the calls of runtime.rs as a step relation. The other files there
--   hold proofs.
-- - Processing/Actions: actions on an abstract world that record what they did to the sink, the
--   state store and the source, in order. Processing: the retry loop and the sequential completion
--   Publish::complete. Processing/Deliveries: handle, finish, route and process of processing.rs,
--   and the acknowledgement that process leaves to the runtime. The other files there hold proofs.
-- - Kafka/Progress: Progress with activate, revoke, revoke_all, register, complete, release,
--   committed, begin_handoff, settled, commit_position (here position), pause and resume.
--   Kafka/Progress/Received: the offsets of one partition. Kafka/Consumer: rebalances, deliveries,
--   outcomes and commits in any order, beside a history of each assignment.
-- - Kafka/Source: the source's receive, pause and resume and a delivery's ack and drop
--   (src/adapters/kafka/source.rs), and what Context of progress.rs does at rebalances and at a
--   hand-off, beside a record of what was delivered, acknowledged, offered and sent.
--   Source/Account, Source/Calls and Source/Rebalances hold proofs.
-- - Kafka/Transactions: transactions of the transactional sink (src/adapters/kafka/transaction.rs).
--   Transactions/Offsets: SourceOffsets. Transactions/Protocol: the order in which a producer may be
--   used. The other files there hold proofs.
-- - Pulsar/Resend: await_receipts of src/adapters/pulsar/resend.rs. Resend/Settling and
--   Resend/Orders hold proofs.
-- - Batching: Committer::run and Committer::commit of src/subscription/transaction.rs. The files
--   there hold proofs: Committing (the loop ends), Attempts, Answers, Orders.
-- - State: the in-memory store of src/state/memory.rs and the handle of src/state/value.rs.
--   State/Handling: run_stateful of src/subscription/handler.rs and Emit. Position: OrderingKey and
--   Position of src/message.rs. State/Beginning and State/Redelivery hold proofs.
-- - Errors: Error and BoxError of src/error.rs with context and chain, and PublishRejected of
--   src/sink.rs.
-- - Retry: RetryPolicy and its delay. ErrorPolicy: FailureKind, FailureAction, ErrorPolicy.
-- - Health: the tracker of a subscription and the reports of src/health/state.rs.
-- - Lease: the visibility leases of src/adapters/sqs/lease.rs, with remove as finish.
--   Lease/Laws and Lease/Keeping hold proofs.
-- - Token: CancellationToken as an identity in a store of channels.
--
-- Numbers are natural numbers. Generations of Kafka assignments wrap at 2^64 as in the source; the
-- consumer's history assumes that they do not get there. Kafka offsets are not negative and stay
-- below the limit of i64. Durations are nanoseconds with Duration's own limit, at which they
-- saturate. Counters of deliveries in memory do not reach the limit of usize. A loop over retries
-- recurs on the attempts that are left, so no fuel is needed. The loop that commits a batch has fuel
-- for one iteration per delivery, one per attempt and one more, and the loop over batches for one
-- iteration per step of the channel and one more; the task that awaits receipts has fuel for every
-- send that the policy allows, for every arrival and for one iteration more. Theorems show that all
-- three are enough.
--
-- Parameters: the handler, the hooks, the sink, the state commit, the source's acknowledgement,
-- the dead-letter route and PublishRejected::is answer anything, in a world of their own. Keys are
-- a type with decidable equality. What errors of other code print in the alternate format is an
-- argument. The Kafka and Pulsar client libraries and what other tasks do while a call waits are
-- parameters on a world. The random bits of a jittered delay are an argument, and so is whether a
-- token has no other clone. What the rest of the program does while a task waits is a change of
-- the world that comes with the step it waits for.
--
-- Not modelled: the channels and tasks behind batches, the lock that makes deliveries of one state
-- key take turns, abandoning a job when its delivery is revoked, the select loops and timeouts of
-- the runtime, metrics and tracing, the loop that extends leases, locks of the brokers, and the
-- adapters' calls of client libraries.
pub mod Base
pub mod Retry
pub mod ErrorPolicy
pub mod Position
pub mod State
pub mod Batching
pub mod Errors
pub mod Health
pub mod Processing
pub mod Scheduler
pub mod Token
pub mod Kafka
pub mod Lease
pub mod Pulsar
