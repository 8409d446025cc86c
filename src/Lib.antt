-- ===== src/Lib.antt =====
-- GoGuardLib: circuit breakers, retries, health checks and a dead-letter queue for Go services.
--
-- The parts and how they interact. A guarded call goes through a circuit breaker, which counts
-- outcomes in a rolling window, and is retried under a budget. An open circuit is probed by a health
-- check until it may close again. A message runs through the steps of a pipeline. Work that cannot be
-- done now is stored, with its progress, as a record of a queue and leased again later, under a token,
-- by a redriver, whose handler resumes the pipeline; the queue's state machine is shared by the stores.
-- A Kafka consumer feeds messages to pipelines and commits their offsets once they are done or stored.
--
-- Which file models what:
--   Engine.antt            internal/engine/engine.go: RollingWindow, a ring of buckets with totals.
--   Ibreaker.antt          internal/breaker/breaker.go: Breaker, with every method that changes it as
--                          a function of the breaker and the clock's reading. Ibreaker/Random.antt is
--                          xorshift64, Ibreaker/Bulkhead.antt the interleavings of tryAcquire.
--   Breaker.antt           breaker/breaker.go: the public Breaker, its permits and its prober.
--   Health.antt            health/health.go: Config.WithDefaults, delay, and Run over a Target.
--   Retry.antt             retry/retry.go: backoffs, Budget, Do.
--   Errors.antt            the errors of these packages, with errors.Is and errors.As.
--   Dlq/Record.antt        dlq/record.go: Record, Size, Validate.
--   Dlq/Ordered.antt       dlq/machine.go: insertOrdered and the removal from a list.
--   Dlq/Groups.antt        dlq/machine.go: the groups of the queue's index, by dependency.
--   Dlq/Keys.antt          dlq/machine.go: byKey.
--   Dlq/Machine.antt       dlq/machine.go: the machine, link, unlink, move, prepare, insert, remove.
--   Dlq/Machine/Leasing    dlq/machine.go: eligible, scanGroup, selectLease, grant.
--   Dlq/Machine/Settling   dlq/machine.go: held, checkpoints, nack, release, park, requeue, replay.
--   Dlq/Machine/Reading    dlq/machine.go: parkedItems, hasOrderKey, stats.
--   Dlq/Memory.antt        dlq/memory.go: MemoryStore, one function per method; Dlq/Memory/Calls.antt
--                          are its calls in any sequence.
--   Dlq/Store.antt         dlq/store.go: the Store interface, a record of calls with what Append
--                          promises. Dlq/Memory/Promised.antt fills it with the in-memory store.
--   Dlq/Redriver.antt      dlq/redrive.go: process, settle, block, park, unavailable, and
--                          the part of fill that queues leases.
--   Pipeline.antt          pipeline/pipeline.go: Step, New, the checkpoint and its load.
--   Pipeline/Run.antt      pipeline/pipeline.go: save, call, classify, advance, failed, compensate.
--   Pipeline/Execute.antt  pipeline/pipeline.go: Execute, store, Handler.
--   Pipeline/Rewind.antt   pipeline/pipeline.go: Describe, Rewind, Redrive, the keys and the saved data.
--   Kafka.antt             kafka/consumer.go: the consumer's state. Kafka/Maps.antt are its maps.
--   Kafka/Committing       kafka/consumer.go: markDone, pending, the commits, finalCommit.
--   Kafka/Queueing         kafka/consumer.go: send, released, dropQueued.
--   Kafka/Completing       kafka/consumer.go: complete, noteFailure, rewind.
--   Kafka/Accepting        kafka/consumer.go: accept, dispatchBacklog.
--   Kafka/Rebalancing      kafka/consumer.go: onAssigned, onRevoked, updateThrottle, reconcile.
--   Kafka/Processing       kafka/consumer.go: process.
--   Kafka/Calls.antt       kafka/consumer.go: NewConsumer, and the calls that Run makes, in any order.
-- The other files below each of these are its proofs. Prelude.antt has the names and lemmas they share.
--
-- How state is modelled. A struct is a record, a method a function from it to the new one and its
-- result. A mutex, or an atomic operation, makes a step. The clock's readings, the random seeds and
-- the tokens drawn are arguments. Times are numbers of nanoseconds, 0 for the zero time; rates are in
-- basis points, as the code computes them. A pointer to an item of the queue is the item's Seq. A Go
-- map is a list of entries, and a map from IDs the list of the items themselves.
--
-- A step's calls, the client's answers and the contexts' ends are arguments too, given for each
-- call, and so are the codec of checkpoints (encoding/json) and the redactor. A checkpoint that a
-- run saves is one the store has accepted. A call of a step is all the attempts at its function
-- that its policy allows, and is one event, with the error it ended with. The consumer's `sent`,
-- which the code does not have, keeps every offset that the client was given to commit. What is
-- sent to the worker pool is a list of tasks.
--
-- Bounds and fuel. Natural numbers stand for the int64s that are never negative, and an option for
-- those of which -1 means none. The loop of Do recurs on the retries left, which it uses up; the
-- merge of a lease recurs on the number of records asked for, at which the code stops too. The loop of
-- markDone recurs on the number of completed offsets, since each turn takes one of them, and the loop
-- of dispatchBacklog on the length of the backlog, since each turn takes a task from it. Every other
-- loop follows a list.
--
-- Not modelled: the rounding of the retry budget's floats, file and network I/O, HTTP, JSON,
-- cryptography, event sinks and the texts of errors. The write-ahead log and the HTTP guard have no
-- module here; nor have the redriver's dispatch and rate limiter, the Kafka service, and the
-- consumer's mirror and its check of the brokers. Times and counts that the code only reports are
-- left out where nothing depends on them.
pub mod Prelude
pub mod Engine
pub mod Ibreaker
pub mod Errors
pub mod Retry
pub mod Health
pub mod Breaker
pub mod Dlq
pub mod Pipeline
pub mod Kafka
