-- ===== src/Kafka/Examples.antt =====
-- kafka/consumer.go: the theorems on a consumer of one topic.
use go_guard_lib.Prelude.{
  ℕ, ◌≤◌, ◌≡◌, refl, true, false, ◌&&◌, not, ltb, leb, none, some, List, [], ◌∷◌, arith,
}
use go_guard_lib.Pipeline.Execute.{done}
use go_guard_lib.Kafka.{TopicPartition, Message, Partition, Task, Finished, Consumer}
use go_guard_lib.Kafka.Committing.{has}
use go_guard_lib.Kafka.Committing.Frontier.{mark_all, offset_or, mark_all-frontier}
use go_guard_lib.Kafka.Accepting.{
  Texts, input_of, accept, Running, dispatch_one, has_turn, dispatch_backlog,
}
use go_guard_lib.Kafka.Accepting.Drained.{dispatch_backlog-drained}
use go_guard_lib.Kafka.Rebalancing.{on_assigned, on_revoked}
use go_guard_lib.Kafka.Calls.{
  Options, initial, Calls, none_made, and_then, accepting, dispatching, revoking, assigning,
}
use go_guard_lib.Kafka.Settled.{Fact, is_among}
use go_guard_lib.Kafka.Settled.Runs.{AllRely, committed-safe}
use go_guard_lib.Kafka.Settled.Accepting.{Begins}

abbrev a_partition : Partition
a_partition = record {
  paused = false;
  pause_reason = "";
  retry_at = 0;
  failures = 0;
  gen = 1;
  next = some 9;
  frontier = some 5;
  completed = [];
  inflight = 0;
  failed_at = none;
}

abbrev marked : List ℕ
marked = 7 ∷ 5 ∷ 8 ∷ []

-- 6 has not finished, so 7 and 8 wait.
mark_all-frontier_example :
    (has (offset_or 5 (mark_all marked a_partition).frontier) marked ≡ false)
    × (5 ≤ offset_or 5 (mark_all marked a_partition).frontier)
    × ((leb 5 5 && ltb 5 (offset_or 5 (mark_all marked a_partition).frontier) && not (has 5 marked))
        ≡ false)
mark_all-frontier_example = mark_all-frontier 5 marked a_partition 5 refl refl

abbrev orders : TopicPartition
orders = record { topic = "orders"; index = 0 }

abbrev options : Options
options = record {
  has_client = true;
  has_store = true;
  needs_durable = false;
  is_durable = false;
  bindings = record { topic = "orders"; has_pipeline = true } ∷ [];
  workers = 1;
  max_in_flight = 0;
  ignore_key_order = true;
  commit_interval = 0;
  commit_batch = 1;
  skips = false;
  backoff = λ n. n;
}

abbrev texts : Texts
texts = record { id_of = λ t p o. t; text = λ bs. "" }

abbrev a_message : Message
a_message = record { tp = orders; offset = 3; key = none; value = none; headers = [] }

-- Every message is done.
abbrev running : Running
running = record {
  exec = λ t. (done, none);
  during = λ t. record { seek = none; now = 1; ended = false };
}

-- The message at 3 is done, and those before it were.
abbrev up_to_three : Fact
up_to_three tp o = ltb o 4

abbrev assigned : Consumer
assigned = on_assigned (orders ∷ []) (initial options)

abbrev accepted : Consumer
accepted = (accept texts none a_message assigned).0

abbrev a_task : Task
a_task = record { m = a_message; input = input_of texts true a_message; gen = 1 }

abbrev worked : Consumer
worked = (dispatch_one running a_task (record accepted { backlog = [] })).0

abbrev given_up : Consumer
given_up = on_revoked none (orders ∷ []) worked

accepted-backlog : accepted.backlog ≡ a_task ∷ []
unfolding accept on_assigned initial go_guard_lib.Kafka.tp_eq
accepted-backlog = refl

abbrev one_message : Calls (initial options) given_up
one_message =
    and_then
      (and_then
        (and_then
          (and_then (none_made (initial options)) (assigning (orders ∷ []) (initial options)))
          (accepting texts none a_message assigned))
        (dispatching running a_task [] accepted accepted-backlog))
      (revoking none (orders ∷ []) worked)

begins : Begins up_to_three a_message assigned
begins p at fresh o below = ground (arith, below)

one_message-AllRely : AllRely up_to_three one_message
one_message-AllRely = ((((tt, tt), begins), λ e. refl), tt)

-- What was committed is no longer kept, but it was sent.
given_up-sent : is_among orders 4 given_up.sent ≡ true
unfolding on_revoked dispatch_one accept on_assigned initial
given_up-sent = refl

committed-safe_example : up_to_three orders 2 ≡ true
committed-safe_example =
    committed-safe up_to_three options given_up one_message orders 4 2 one_message-AllRely
      given_up-sent (omega arith)

dispatch_backlog-drained_example : has_turn (dispatch_backlog running accepted).0 ≡ false
unfolding dispatch_backlog accept on_assigned initial
dispatch_backlog-drained_example = dispatch_backlog-drained running accepted refl
