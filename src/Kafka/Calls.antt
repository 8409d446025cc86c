-- ===== src/Kafka/Calls.antt =====
-- kafka/consumer.go: a consumer when it is made (`NewConsumer`), and the calls that change it, one at a
-- time, since they are all made on the goroutine that polls.
use Prim.Native.String.{String}
use text.Mathlib.Text.{◌==◌ as str_eq}
use go_guard_lib.Prelude.{
  ℕ, ◌*◌, ◌≡◌, Bool, true, false, ◌&&◌, ◌||◌, not, if◌then◌else◌, ltb, ◌==◌, Option, List, [], ◌∷◌,
  mem_str,
}
use go_guard_lib.Errors.{Err}
use go_guard_lib.Kafka.{TopicPartition, Message, Task, Finished, Consumer, Config}
use go_guard_lib.Kafka.Committing.{maybe_commit, Try, final_commit}
use go_guard_lib.Kafka.Completing.{Meanwhile, complete}
use go_guard_lib.Kafka.Accepting.{Texts, accept, Running, dispatch_one}
use go_guard_lib.Kafka.Rebalancing.{on_assigned, on_revoked, update_throttle, reconcile}

-- The configuration that is given. `has_pipeline` is false for a binding without one, and a duration
-- that is negative is 0 here.
pub record Binding : Type 0 where
  pub topic : String
  pub has_pipeline : Bool

pub record Options : Type 0 where
  pub has_client : Bool
  pub has_store : Bool
  pub needs_durable : Bool
  pub is_durable : Bool
  pub bindings : List Binding
  pub workers : ℕ
  pub max_in_flight : ℕ
  pub ignore_key_order : Bool
  pub commit_interval : ℕ
  pub commit_batch : ℕ
  pub skips : Bool
  pub backoff : ℕ → ℕ

abbrev or_default : ℕ → ℕ → ℕ
or_default n d = if n == 0 then d else n

abbrev at_least : ℕ → ℕ → ℕ
at_least n m = if ltb m n then n else m

abbrev topics_of : List Binding → List String
topics_of [] = []
topics_of (b ∷ bs) = b.topic ∷ topics_of bs

abbrev config_of : Options → Config
config_of o =
    let workers = or_default o.workers 1 in
    record {
      pooled = ltb 1 workers;
      max_in_flight = at_least workers (or_default o.max_in_flight (4 * workers));
      ignore_key_order = o.ignore_key_order;
      commit_interval = or_default o.commit_interval 1000000000;
      commit_batch = or_default o.commit_batch 1000;
      skips = o.skips;
      topics = topics_of o.bindings;
      backoff = o.backoff;
    }

unfoldable pub initial : Options → Consumer
initial o = record {
  cfg = config_of o;
  parts = [];
  safe = [];
  committed = [];
  sent = [];
  since_commit = 0;
  last_commit = 0;
  gen = 0;
  backlog = [];
  inflight = 0;
  throttled = false;
  stopping = false;
  work = [];
  key_queues = [];
  tally = [];
}

pub data NewConsumer : Type 0 where
  consumer : Consumer → NewConsumer
  needs_client_and_store not_durable needs_binding incomplete_binding bound_twice : NewConsumer

abbrev check_bindings : List String → List Binding → NewConsumer → NewConsumer
check_bindings seen [] c = c
check_bindings seen (b ∷ bs) c =
    let rest = check_bindings (b.topic ∷ seen) bs c in
    if str_eq b.topic "" || not b.has_pipeline
    then incomplete_binding
    else (if mem_str b.topic seen then bound_twice else rest)

abbrev has_none : List Binding → Bool
has_none [] = true
has_none (b ∷ bs) = false

unfoldable pub new_consumer : Options → NewConsumer
unfolding initial
new_consumer o =
    if not o.has_client || not o.has_store
    then needs_client_and_store
    else (if o.needs_durable && not o.is_durable
        then not_durable
        else (if has_none o.bindings
            then needs_binding
            else check_bindings [] o.bindings (consumer (initial o))))

-- One call on the goroutine that polls, given what the client, the clock and the workers answer.
pub data Call : Consumer → Consumer → Type 0 where
  accepting :
      (ts : Texts) (seek : Option Err) (m : Message) (c : Consumer) → Call c (accept ts seek m c).0
  dispatching :
      (w : Running) (t : Task) (rest : List Task) (c : Consumer)
      → c.backlog ≡ t ∷ rest
      → Call c (dispatch_one w t (record c { backlog = rest })).0
  applying : (w : Meanwhile) (r : Finished) (c : Consumer) → Call c (complete w r c).0
  committing :
      (answer : Option Err) (force : Bool) (now : ℕ) (c : Consumer)
      → Call c (maybe_commit answer force now c)
  finishing : (t : Try) (ts : List Try) (c : Consumer) → Call c (final_commit t ts c).0
  stopping : (c : Consumer) → Call c (record c { stopping = true })
  assigning : (tps : List TopicPartition) (c : Consumer) → Call c (on_assigned tps c)
  revoking :
      (answer : Option Err) (tps : List TopicPartition) (c : Consumer)
      → Call c (on_revoked answer tps c)
  throttling : (c : Consumer) → Call c (update_throttle c)
  reconciling :
      (refusing : String → Bool) (now : ℕ) (paused resumed : Bool) (c : Consumer)
      → Call c (reconcile refusing now paused resumed c)

-- A sequence of calls, the latest last.
pub data Calls : Consumer → Consumer → Type 0 where
  none_made : (c : Consumer) → Calls c c
  and_then : {c d e : Consumer} → Calls c d → Call d e → Calls c e
