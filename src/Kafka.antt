-- ===== src/Kafka.antt =====
-- kafka/consumer.go: the state of a consumer. Its maps are association lists, and the channels of the
-- worker pool are lists, first in first out. What the client answers to a call is an argument of the
-- operation that makes the call. Offsets are natural numbers, and -1 is `none`.
pub mod Maps
pub mod Committing
pub mod Queueing
pub mod Completing
pub mod Accepting
pub mod Rebalancing
pub mod Processing
pub mod Calls
pub mod Settled
mod Examples
use Prim.Native.String.{String}
use text.Mathlib.Text.{◌==◌ as str_eq}
use go_guard_lib.Prelude.{ℕ, Bool, true, false, ◌&&◌, ◌==◌, Option, none, some, List, [], ◌∷◌}
use go_guard_lib.Errors.{Err}
use go_guard_lib.Dlq.Record.{Bytes, Header}
use go_guard_lib.Pipeline.Execute.{Input, Result}

pub record TopicPartition : Type 0 where
  pub topic : String
  pub index : ℕ

unfoldable pub tp_eq : TopicPartition → TopicPartition → Bool
tp_eq a b = str_eq a.topic b.topic && (a.index == b.index)

pub record Message : Type 0 where
  pub tp : TopicPartition
  pub offset : ℕ
  pub key : Bytes
  pub value : Bytes
  pub headers : List Header

-- `next` is the next offset to accept and `frontier` the one that every safe offset is below: both are
-- `none` until the first message. `failed_at` is the lowest offset that has failed and is to be retried.
pub record Partition : Type 0 where
  pub paused : Bool
  pub pause_reason : String
  pub retry_at : ℕ
  pub failures : ℕ
  pub gen : ℕ
  pub next : Option ℕ
  pub frontier : Option ℕ
  pub completed : List ℕ
  pub inflight : ℕ
  pub failed_at : Option ℕ

pub record Task : Type 0 where
  pub m : Message
  pub input : Input
  pub gen : ℕ

-- What a worker reports.
pub record Finished : Type 0 where
  pub task : Task
  pub res : Result
  pub err : Option Err

pub data Counter : Type 0 where
  received done_count deferred_count parked_count retried backpressure commits commit_errors
        rebalances unstorable :
      Counter

-- `pooled` is true with more than one worker. `skips` is true with `UnstorableSkip`.
pub record Config : Type 0 where
  pub pooled : Bool
  pub max_in_flight : ℕ
  pub ignore_key_order : Bool
  pub commit_interval : ℕ
  pub commit_batch : ℕ
  pub skips : Bool
  pub topics : List String
  pub backoff : ℕ → ℕ

-- A key within a partition.
abbrev pub KeyId : Type 0
KeyId = TopicPartition × String

-- `work` are the tasks sent to the workers and not yet taken. `tally` holds each increment of a counter.
-- `sent` is no field of the code's: it holds every offset that `Client.Commit` was called with.
pub record Consumer : Type 0 where
  pub cfg : Config
  pub parts : List (TopicPartition × Partition)
  pub safe : List (TopicPartition × ℕ)
  pub committed : List (TopicPartition × ℕ)
  pub sent : List (TopicPartition × ℕ)
  pub since_commit : ℕ
  pub last_commit : ℕ
  pub gen : ℕ
  pub backlog : List Task
  pub inflight : ℕ
  pub throttled : Bool
  pub stopping : Bool
  pub work : List Task
  pub key_queues : List (KeyId × List Task)
  pub tally : List Counter

abbrev pub add : Counter → Consumer → Consumer
add k c = record c { tally = k ∷ c.tally }

-- The consumer after a call, and the error that ends `Run`.
abbrev pub Outcome : Type 0
Outcome = Consumer × Option Err
