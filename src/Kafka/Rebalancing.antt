-- ===== src/Kafka/Rebalancing.antt =====
-- kafka/consumer.go: partitions given and taken away, and the pauses that hold a topic back.
use Prim.Native.String.{String}
use text.Mathlib.Text.{◌==◌ as str_eq}
use go_guard_lib.Prelude.{
  ℕ, ◌+◌, ◌/◌, Bool, true, false, ◌&&◌, ◌||◌, not, if◌then◌else◌, ltb, leb, Option, none, List, [],
  ◌∷◌, length,
}
use go_guard_lib.Errors.{Err}
use go_guard_lib.Kafka.{TopicPartition, tp_eq, Partition, Task, Consumer, add, rebalances}
use go_guard_lib.Kafka.Maps.{put, del}
use go_guard_lib.Kafka.Committing.{commit_partitions}
use go_guard_lib.Kafka.Queueing.{drop_queued}

abbrev pub new_partition : ℕ → Partition
new_partition gen = record {
  paused = false;
  pause_reason = "";
  retry_at = 0;
  failures = 0;
  gen = gen;
  next = none;
  frontier = none;
  completed = [];
  inflight = 0;
  failed_at = none;
}

unfoldable pub assign_all : List TopicPartition → Consumer → Consumer
unfolding put del
assign_all [] c = c
assign_all (tp ∷ tps) c = assign_all tps (record c {
  gen = c.gen + 1;
  parts = put tp (new_partition (c.gen + 1)) c.parts;
  committed = del tp c.committed;
})

unfoldable pub on_assigned : List TopicPartition → Consumer → Consumer
unfolding assign_all
on_assigned tps c = assign_all tps (add rebalances c)

unfoldable pub revoke_all : List TopicPartition → Consumer → Consumer
unfolding del drop_queued
revoke_all [] c = c
revoke_all (tp ∷ tps) c = revoke_all tps (
    drop_queued tp none
      (record c { parts = del tp c.parts; safe = del tp c.safe; committed = del tp c.committed }))

abbrev is_one_of : TopicPartition → List TopicPartition → Bool
is_one_of tp [] = false
is_one_of tp (x ∷ xs) = tp_eq x tp || is_one_of tp xs

abbrev pub tasks_kept : List TopicPartition → List Task → List Task
tasks_kept tps [] = []
tasks_kept tps (t ∷ ts) = if is_one_of t.m.tp tps then tasks_kept tps ts else t ∷ tasks_kept tps ts

-- The client's answer to the commit is given.
unfoldable pub on_revoked : Option Err → List TopicPartition → Consumer → Consumer
unfolding revoke_all commit_partitions tp_eq
on_revoked answer tps c =
    let c' = revoke_all tps (commit_partitions answer tps c) in
    add rebalances (record c' { backlog = tasks_kept tps c'.backlog })

unfoldable pub update_throttle : Consumer → Consumer
update_throttle c =
    let held = c.inflight + length c.backlog in
    if leb c.cfg.max_in_flight held
    then record c { throttled = true }
    else (if leb held (c.cfg.max_in_flight / 2) then record c { throttled = false } else c)

-- Why a partition is to be paused, or "". `refusing` says of which topics a breaker is open.
unfoldable pub reason_of : (String → Bool) → ℕ → Bool → TopicPartition → Partition → String
reason_of refusing now throttled tp p =
    if refusing tp.topic
    then "breaker_open"
    else (if ltb now p.retry_at then "retry_backoff" else (if throttled then "backlog" else ""))

abbrev pub set_paused : Bool → String → Partition → Partition
set_paused true reason p = record p { paused = true; pause_reason = reason }
set_paused false reason p = record p { paused = false }

-- A partition after `reconcile`: whether the client agreed to the pauses and to the resumes is given.
-- The reason is noted before the client is asked.
abbrev pub reconciled_part : Bool → Bool → String → Partition → Partition
reconciled_part paused resumed reason p =
    let want = not (str_eq reason "") in
    if want && not p.paused
    then set_paused paused reason (record p { pause_reason = reason })
    else (if not want && p.paused && resumed then set_paused false reason p else p)

unfoldable pub reconcile_all :
    (String → Bool)
    → ℕ
    → Bool
    → Bool
    → Bool
    → List (TopicPartition × Partition)
    → List (TopicPartition × Partition)
unfolding reason_of
reconcile_all refusing now throttled paused resumed [] = []
reconcile_all refusing now throttled paused resumed ((tp, p) ∷ ps) =
    let rest = reconcile_all refusing now throttled paused resumed ps in
    (tp, reconciled_part paused resumed (reason_of refusing now throttled tp p) p) ∷ rest

unfoldable pub reconcile : (String → Bool) → ℕ → Bool → Bool → Consumer → Consumer
unfolding reconcile_all
reconcile refusing now paused resumed c = record c {
  parts = reconcile_all refusing now c.throttled paused resumed c.parts;
}
