-- ===== src/Dlq/Memory/Calls/Examples.antt =====
-- dlq/memory.go, dlq/machine.go: the theorems at a store with a few records, and tests of the model.
use Prim.Native.String.{String}
use go_guard_lib.Prelude.{
  ℕ, ◌≤◌, ◌≡◌, refl, true, false, if◌then◌else◌, ◌==◌, none, some, List, [], ◌∷◌, ◌++◌, arith,
  length,
}
use go_guard_lib.Errors.{live}
use go_guard_lib.Dlq.Record.{Record, pending, validate, size}
use go_guard_lib.Dlq.Ordered.Reference.{Absent, insert_sorted, insert_ordered-sorted}
use go_guard_lib.Dlq.Ordered.{insert_ordered, remove_elem}
use go_guard_lib.Dlq.Groups.{Group, find_group, add_item, drop_item, set_wake}
use go_guard_lib.Dlq.Machine.{MemItem, find_id, find_seq, put}
use go_guard_lib.Dlq.Keys.{key_items, append_key}
use go_guard_lib.Dlq.Machine.View.{seqs}
use go_guard_lib.Dlq.Machine.Index.{IsIndexed}
use go_guard_lib.Dlq.Machine.Settling.{NackOptions}
use go_guard_lib.Dlq.Machine.Leasing.{LeaseRequest, select_lease, grant, best_head, eligible}
use go_guard_lib.Dlq.Machine.Leasing.Merging.{All}
use go_guard_lib.Dlq.Machine.Leasing.Oldest.{served}
use go_guard_lib.Dlq.Machine.Leasing.Chosen.{select_lease-oldest}
use go_guard_lib.Dlq.Machine.Leasing.Granting.{grant-exclusive}
use go_guard_lib.Dlq.Machine.Reading.{parked_items}
use go_guard_lib.Dlq.Memory.{
  MemoryStore, MemoryOptions, new_memory_store, append, get, checkpoint, ack, nack, release, park,
}
use go_guard_lib.Dlq.Memory.Calls.{Call, c_append, c_lease, c_park, calls}
use go_guard_lib.Dlq.Memory.Calls.Invariant.{new-calls-IsIndexed}
use go_guard_lib.Dlq.Memory.Calls.Promises.{
  IsFirst, select_lease-IsFirst, append-get, appended, stale_token-refused, refused, lost,
}
use go_guard_lib.Dlq.Memory.Calls.Limit.{new-calls-length}

abbrev pub a_record : String → String → String → Record
a_record id key dep = record {
  id = id;
  seq = 0;
  state = pending;
  source = record { kind = "http"; name = "orders"; partition = 0; offset = 0 };
  key = none;
  value = some (1 ∷ 2 ∷ []);
  headers = [];
  order_key = key;
  blocked_on = dep;
  attempts = 0;
  first_failed = 0;
  last_failed = 0;
  next_attempt = 0;
  last_error = "";
  checkpoint = none;
  schema_version = 0;
}

abbrev pub tokens : ℕ → String
tokens n = if n == 0 then "t0" else "t1"

abbrev pub options : MemoryOptions
options = record { max_records = 3; max_bytes = none; max_record_bytes = 0 }

abbrev pub two_appends : List Call
two_appends = c_append live (a_record "a" "k" "db") 5 ∷ c_append live (a_record "b" "k" "db") 6 ∷ []

abbrev pub two_records : MemoryStore
two_records = calls tokens (new_memory_store options) two_appends

abbrev pub any_lease : LeaseRequest
any_lease = record { blocked_on = ""; skip = []; max = 2; ttl = 30 }

abbrev pub one_parked : MemoryStore
one_parked =
    calls tokens (new_memory_store options)
      (two_appends ++ c_lease live any_lease 10 ∷ c_park live "a" "t0" "poison" 11 ∷ [])

-- The second record of the key waits behind the first.
leases_head : seqs (select_lease two_records.m 10 any_lease).0 ≡ 1 ∷ []
unfolding calls select_lease best_head new_memory_store validate find_id add_item insert_ordered
    find_seq eligible key_items append_key
leases_head = refl

parks_head : seqs (parked_items one_parked.m 0 10) ≡ 1 ∷ []
unfolding calls parked_items select_lease best_head new_memory_store validate find_id add_item
    insert_ordered find_seq eligible key_items append_key put set_wake drop_item remove_elem
parks_head = refl

pub one_parked-IsIndexed : IsIndexed one_parked.m
one_parked-IsIndexed =
    new-calls-IsIndexed tokens options
      (two_appends ++ c_lease live any_lease 10 ∷ c_park live "a" "t0" "poison" 11 ∷ [])

new-calls-IsIndexed_example : IsIndexed one_parked.m
new-calls-IsIndexed_example =
    new-calls-IsIndexed tokens options
      (two_appends ++ c_lease live any_lease 10 ∷ c_park live "a" "t0" "poison" 11 ∷ [])

pub two_records-IsIndexed : IsIndexed two_records.m
two_records-IsIndexed = new-calls-IsIndexed tokens options two_appends

abbrev db_group : Group
db_group = record { dep = "db"; items = 1 ∷ 2 ∷ []; hint = some 2; wake = 0 }

abbrev pub head_item : MemItem
head_item = record {
  stored = record (a_record "a" "k" "db") {
    seq = 1;
    first_failed = 5;
    last_failed = 5;
    schema_version = 1;
  };
  token = "";
  lease_until = 0;
  size = 80;
  body_ref = 0;
  ckpt_ref = 0;
  body_n = 0;
  ckpt_n = 0;
  reserved = false;
  ver = 0;
}

select_lease-oldest_example : served 2 1 (select_lease two_records.m 10 any_lease).0 ≡ true
unfolding calls select_lease best_head new_memory_store validate size find_id find_group add_item
    insert_ordered find_seq eligible key_items append_key
select_lease-oldest_example =
    select_lease-oldest two_records.m 10 any_lease two_records-IsIndexed "db" db_group head_item
      refl refl refl refl refl (omega arith)

grant-exclusive_example :
    let (its, m1) = select_lease two_records.m 10 any_lease in
    let m2 = (grant tokens 0 m1 its 10 30).0 in
    All (λ it. Absent it.stored.seq (seqs (select_lease m2 39 any_lease).0)) its
grant-exclusive_example =
    grant-exclusive tokens 0 two_records.m 10 30 39 any_lease any_lease two_records-IsIndexed
      (omega arith)

select_lease-IsFirst_example :
    All (IsFirst two_records.m) (select_lease two_records.m 10 any_lease).0
select_lease-IsFirst_example = select_lease-IsFirst two_records.m 10 any_lease two_records-IsIndexed

append-get_example :
    get (append two_records live (a_record "c" "" "") 7).0 live "c"
    ≡ appended two_records (a_record "c" "" "") 7
unfolding calls append new_memory_store validate size find_id add_item insert_ordered append_key
append-get_example = append-get two_records (a_record "c" "" "") 7 refl refl

abbrev nack_options : NackOptions
nack_options = record { delay = 1; err = "down"; blocked_on = ""; refund = true }

stale_token-refused_example :
    let no = refused two_records (lost two_records "a") in
    (checkpoint two_records live "a" "t0" none ≡ no)
    × (ack two_records live "a" "t0" ≡ no)
    × (nack two_records live "a" "t0" nack_options 9 ≡ no)
    × (release two_records live "a" "t0" ≡ no)
    × (park two_records live "a" "t0" "poison" 9 ≡ no)
unfolding calls append new_memory_store validate size find_id add_item insert_ordered append_key
stale_token-refused_example =
    stale_token-refused two_records "a" "t0" none nack_options "poison" 9 refl refl

new-calls-length_example : length two_records.m.items ≤ 3
new-calls-length_example = new-calls-length tokens options two_appends (omega arith)

insert_ordered-sorted_example :
    insert_ordered (1 ∷ 4 ∷ 9 ∷ []) 6 (some 4) ≡ insert_sorted 6 (1 ∷ 4 ∷ 9 ∷ [])
insert_ordered-sorted_example = insert_ordered-sorted (1 ∷ 4 ∷ 9 ∷ []) 6 (some 4) (omega arith) refl

abbrev one_leased : MemoryStore
one_leased = calls tokens (new_memory_store options) (two_appends ++ c_lease live any_lease 10 ∷ [])

one_leased-IsIndexed : IsIndexed one_leased.m
one_leased-IsIndexed =
    new-calls-IsIndexed tokens options (two_appends ++ c_lease live any_lease 10 ∷ [])
