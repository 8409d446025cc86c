-- ===== src/Kafka/Processing/Examples.antt =====
-- kafka/consumer.go: the theorem on a message that comes after one with its key that is stored.
use Prim.Native.String.{String}
use go_guard_lib.Prelude.{ℕ, suc, false, none, some, List, [], ◌∷◌, length}
use go_guard_lib.Errors.{Err, live}
use go_guard_lib.Breaker.{returned}
use go_guard_lib.Dlq.Record as DlqRecord
use go_guard_lib.Dlq.Memory.{MemoryStore, new_memory_store, append}
use go_guard_lib.Pipeline.{Pipeline, Checkpoint}
use go_guard_lib.Pipeline.Run.{Around, Surroundings}
use go_guard_lib.Pipeline.Execute.{Input, as_record}

abbrev draws : ℕ → String
draws n = "token"

abbrev message : String → Input
message id = record {
  id = id;
  source = record { kind = "kafka"; name = "orders"; partition = 0; offset = 4 };
  key = none;
  value = none;
  headers = [];
  order_key = "orders-7";
}

-- The first message of the key waits in the store.
abbrev one_waiting : MemoryStore
one_waiting =
    (append
      (new_memory_store (record { max_records = 0; max_bytes = some 0; max_record_bytes = 0 })) live
      (as_record (message "m1") DlqRecord.pending "charge" "" none) 5).0

abbrev a_pipeline : Pipeline
a_pipeline = record { name = "order"; version = "1"; steps = []; saga = false; owned = [] }

abbrev around : Around
around = record {
  attempts = λ n. record { refused = none; ends = returned none };
  ctx_ended = λ n. false;
  wait_ended = λ n. false;
  change = λ s. s;
  ctx = live;
  at = 5;
  persisted = none;
}

abbrev quiet : Surroundings
quiet = record { forward = λ i. around; backward = λ i. around; turning = none }

abbrev hidden : Err → String
hidden e = "an error"

abbrev encode_length : Checkpoint → List ℕ
encode_length c = suc (length c.completed) ∷ []
