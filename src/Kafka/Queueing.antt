-- ===== src/Kafka/Queueing.antt =====
-- kafka/consumer.go: the messages of a key run one after another: those that wait are queued behind the
-- one that runs. `work` is nil unless the consumer is pooled.
use Prim.Native.String.{String}
use text.Mathlib.Text.{◌==◌ as str_eq}
use go_guard_lib.Prelude.{
  ℕ, ◌+◌, ◌-◌, Bool, ◌&&◌, ◌||◌, not, if◌then◌else◌, Option, none, some, List, [], ◌∷◌, ◌++◌,
  length,
}
use go_guard_lib.Kafka.{TopicPartition, tp_eq, Partition, Task, KeyId, Consumer}
use go_guard_lib.Kafka.Maps.{get, put}

abbrev pub KeyQueues : Type 0
KeyQueues = List (KeyId × List Task)

unfoldable pub key_eq : KeyId → KeyId → Bool
unfolding tp_eq
key_eq (tp, k) (tp', k') = tp_eq tp tp' && str_eq k k'

-- `c.keyQueues[k]`, and whether it is there.
unfoldable pub queue_of : KeyId → KeyQueues → Option (List Task)
unfolding key_eq
queue_of k [] = none
queue_of k ((k', q) ∷ qs) = if key_eq k' k then some q else queue_of k qs

unfoldable pub set_queue : KeyId → List Task → KeyQueues → KeyQueues
unfolding key_eq
set_queue k q [] = (k, q) ∷ []
set_queue k q ((k', q') ∷ qs) =
    let rest = set_queue k q qs in if key_eq k' k then (k, q) ∷ qs else (k', q') ∷ rest

unfoldable pub drop_queue : KeyId → KeyQueues → KeyQueues
unfolding key_eq
drop_queue k [] = []
drop_queue k ((k', q') ∷ qs) =
    let rest = drop_queue k qs in if key_eq k' k then rest else (k', q') ∷ rest

abbrev pub key_of : Task → KeyId
key_of t = (t.m.tp, t.input.order_key)

abbrev to_work : Task → Consumer → Consumer
to_work t c = record c { work = c.work ++ t ∷ [] }

abbrev pub send_keyed : Task → Option (List Task) → Consumer → Consumer
send_keyed t none c = to_work t (record c { key_queues = set_queue (key_of t) [] c.key_queues })
send_keyed t (some q) c = record c { key_queues = set_queue (key_of t) (q ++ t ∷ []) c.key_queues }

unfoldable pub send : Task → Consumer → Consumer
unfolding queue_of set_queue
send t c =
    if str_eq t.input.order_key ""
    then to_work t c
    else send_keyed t (queue_of (key_of t) c.key_queues) c

abbrev pub next_of : KeyId → Option (List Task) → Consumer → Consumer
next_of k none c = record c { key_queues = drop_queue k c.key_queues }
next_of k (some []) c = record c { key_queues = drop_queue k c.key_queues }
next_of k (some (t ∷ q)) c = to_work t (record c { key_queues = set_queue k q c.key_queues })

unfoldable pub released : Task → Consumer → Consumer
unfolding queue_of set_queue drop_queue
released t c =
    if str_eq t.input.order_key "" || not c.cfg.pooled
    then c
    else next_of (key_of t) (queue_of (key_of t) c.key_queues) c

-- Whether `dropQueued` is about the key: one key of the partition, or all of them.
abbrev pub is_dropped : TopicPartition → Option String → KeyId → Bool
is_dropped tp none (tp', k) = tp_eq tp' tp
is_dropped tp (some key) (tp', k) = tp_eq tp' tp && str_eq k key

-- How many tasks it discards, and the queues after it.
unfoldable pub count_dropped : TopicPartition → Option String → KeyQueues → ℕ
unfolding tp_eq
count_dropped tp only [] = 0
count_dropped tp only ((k, q) ∷ qs) =
    let rest = count_dropped tp only qs in if is_dropped tp only k then length q + rest else rest

abbrev emptied : Option String → KeyId → KeyQueues → KeyQueues
emptied none k qs = qs
emptied (some key) k qs = (k, []) ∷ qs

unfoldable pub queues_left : TopicPartition → Option String → KeyQueues → KeyQueues
unfolding tp_eq
queues_left tp only [] = []
queues_left tp only ((k, q) ∷ qs) =
    let rest = queues_left tp only qs in
    if is_dropped tp only k then emptied only k rest else (k, q) ∷ rest

abbrev pub less_inflight : TopicPartition → ℕ → Option Partition → Consumer → Consumer
less_inflight tp n none c = c
less_inflight tp n (some p) c = record c {
  parts = put tp (record p { inflight = p.inflight - n }) c.parts;
}

unfoldable pub drop_queued : TopicPartition → Option String → Consumer → Consumer
unfolding count_dropped queues_left get put
drop_queued tp only c =
    let n = count_dropped tp only c.key_queues in
    less_inflight tp n (get tp c.parts)
      (record c { inflight = c.inflight - n; key_queues = queues_left tp only c.key_queues })
