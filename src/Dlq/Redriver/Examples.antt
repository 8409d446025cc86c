-- ===== src/Dlq/Redriver/Examples.antt =====
-- dlq/redrive.go: the theorems on a record that is leased from the in-memory store.
use Prim.Native.String.{String}
use go_guard_lib.Prelude.{ℕ, refl, false, none, some, [], ◌∷◌}
use go_guard_lib.Errors.{plain}
use go_guard_lib.Dlq.Record.{Record, leased}
use go_guard_lib.Dlq.Machine.Leasing.{Lease}
use go_guard_lib.Dlq.Memory.{MemoryStore, new_memory_store}
use go_guard_lib.Dlq.Memory.Promised.{memory_store}
use go_guard_lib.Dlq.Redriver.{Redriver, settle}
use go_guard_lib.Breaker.{FnEnd, returned}
use go_guard_lib.Dlq.Redriver.{queue_leases, process}
use go_guard_lib.Dlq.Redriver.Busy.{IsWith, Works, idle, queues, handles, works-IsWith}
use go_guard_lib.Dlq.Redriver.Settles.{IsKept, settle-IsKept}

abbrev draws : ℕ → String
draws n = "token"

abbrev a_store : MemoryStore
a_store = new_memory_store (record { max_records = 0; max_bytes = some 0; max_record_bytes = 0 })

abbrev a_record : Record
a_record = record {
  id = "m1";
  seq = 1;
  state = leased;
  source = record { kind = "kafka"; name = "orders"; partition = 0; offset = 4 };
  key = none;
  value = none;
  headers = [];
  order_key = "";
  blocked_on = "charge";
  attempts = 10;
  first_failed = 1;
  last_failed = 1;
  next_attempt = 0;
  last_error = "";
  checkpoint = none;
  schema_version = 1;
}

abbrev a_lease : Lease
a_lease = record { leased_record = a_record; token = "token"; until = 90 }

abbrev a_redriver : Redriver
a_redriver = record {
  cfg = record {
    workers = 4;
    lease_ttl = 60;
    poll_interval = 5;
    max_attempts = 10;
    backoff = λ n. n;
    redact = λ e. "an error";
    itoa = λ n. "10";
  };
  blocked_until = [];
  was_unavailable = [];
  active = [];
  inflight = 1;
  tally = [];
}

settle-IsKept_example :
    IsKept
      (memory_store draws)
      a_store
      a_lease
      7
      (settle (memory_store draws) a_store a_lease (some (plain 1)) false 7 a_redriver).0
settle-IsKept_example =
    settle-IsKept (memory_store draws) a_store a_lease (plain 1) false 7 a_redriver

abbrev idle_one : Redriver
idle_one = record a_redriver { inflight = 0 }

abbrev with_one : Redriver
with_one = (queue_leases (memory_store draws) a_store (a_lease ∷ []) idle_one).1

abbrev succeeds : MemoryStore → Lease → MemoryStore × FnEnd
succeeds s l = (s, returned none)

abbrev afterwards : Redriver
afterwards = (process (memory_store draws) succeeds a_store a_lease false false 7 with_one).1

abbrev one_handled : Works (memory_store draws) idle_one [] afterwards []
unfolding queue_leases
one_handled =
    handles succeeds a_store a_lease false false 7 [] []
      (queues a_store (a_lease ∷ []) (idle idle_one []))

works-IsWith_example : IsWith afterwards []
works-IsWith_example = works-IsWith (memory_store draws) one_handled ((refl, refl), refl, λ x. refl)
