-- ===== src/Dlq/Memory.antt =====
-- dlq/memory.go: the store that keeps its records in memory. The mutex makes each call one step; the
-- clock's reading and the call's context are arguments. `none` for an error is nil.
pub mod Calls
pub mod Promised
use Prim.Native.String.{String}
use go_guard_lib.Prelude.{
  ℕ, ◌+◌, Bool, true, false, ◌&&◌, ◌||◌, not, if◌then◌else◌, ltb, ◌==◌, Option, none, some, List,
  [], ◌∷◌, length,
}
use go_guard_lib.Errors.{
  Err, canceled, deadline_exceeded, store_err, StoreErr, closed, not_found, not_parked,
  invalid_request, CtxErr, live, ctx_canceled, ctx_deadline,
}
use go_guard_lib.Dlq.Record.{Record, Bytes, State, is_parked}
use go_guard_lib.Dlq.Machine.{
  Machine, MemItem, Limits, new_machine, find_id, Prepared, store, duplicate, reject, prepare,
  insert, remove,
}
use go_guard_lib.Dlq.Machine.Leasing.{LeaseRequest, Lease, select_lease, grant}
use go_guard_lib.Dlq.Machine.Settling.{
  Found, found, failed, held, check_checkpoint, set_checkpoint, NackOptions, apply_nack,
  apply_release, apply_park, apply_requeue,
}
use go_guard_lib.Dlq.Machine.Reading.{parked_records, has_order_key, StoreStats, stats}

-- `max_bytes` is `none` where the option is negative.
pub record MemoryOptions : Type 0 where
  pub max_records : ℕ
  pub max_bytes : Option ℕ
  pub max_record_bytes : ℕ

-- `drawn` counts the tokens drawn from `crypto/rand`.
pub record MemoryStore : Type 0 where
  pub m : Machine
  pub closed : Bool
  pub drawn : ℕ

abbrev default_memory_max_bytes : ℕ
default_memory_max_bytes = 536870912

abbrev bytes_limit : Option ℕ → ℕ
bytes_limit none = 0
bytes_limit (some n) = if n == 0 then default_memory_max_bytes else n

unfoldable pub new_memory_store : MemoryOptions → MemoryStore
unfolding new_machine
new_memory_store o = record {
  m = new_machine (record {
    max_records = o.max_records;
    max_bytes = bytes_limit o.max_bytes;
    max_record_bytes = o.max_record_bytes;
  });
  closed = false;
  drawn = 0;
}

unfoldable pub begin : MemoryStore → CtxErr → Option Err
begin s ctx_canceled = some canceled
begin s ctx_deadline = some deadline_exceeded
begin s live = if s.closed then some (store_err closed) else none

-- A call on a store: the store after it, and its result.
abbrev pub Reply : Type 0 → Type 0
Reply A = MemoryStore × A

abbrev pub with_machine : MemoryStore → Machine → MemoryStore
with_machine s m = record s { m = m }

-- The rest of a call, unless there is an error.
abbrev pub begun : MemoryStore → Option Err → Reply (Option Err) → Reply (Option Err)
begun s none r = r
begun s (some e) r = (s, some e)

-- A call that needs an item.
abbrev pub with_item : MemoryStore → Found → (MemItem → Reply (Option Err)) → Reply (Option Err)
with_item s (failed e) f = (s, some (store_err e))
with_item s (found it) f = f it

abbrev pub append_prepared : MemoryStore → Prepared → Reply (Option Err)
append_prepared s (store r) = (with_machine s (insert s.m r), none)
append_prepared s duplicate = (s, none)
append_prepared s (reject e) = (s, some (store_err e))

unfoldable pub append : MemoryStore → CtxErr → Record → ℕ → Reply (Option Err)
unfolding begin prepare insert
append s ctx r now = begun s (begin s ctx) (append_prepared s (prepare s.m r now))

unfoldable pub validate_lease : LeaseRequest → Option Err
validate_lease req =
    if ltb req.max 1 || req.ttl == 0 then some (store_err invalid_request) else none

abbrev pub leased_out : (ℕ → String) → MemoryStore → LeaseRequest → ℕ → Reply (List Lease)
leased_out tokens s req now =
    let (items, m) = select_lease s.m now req in
    let (m', leases) = grant tokens s.drawn m items now req.ttl in
    (record s { m = m'; drawn = s.drawn + length leases }, leases)

-- The leases, or the error of a call that is refused.
pub data Leases : Type 0 where
  leases : List Lease → Leases
  no_leases : Err → Leases

abbrev pub as_leases : Reply (List Lease) → Reply Leases
as_leases r = (r.0, leases r.1)

abbrev pub lease_begun : MemoryStore → Option Err → Reply Leases → Reply Leases
lease_begun s none r = r
lease_begun s (some e) r = (s, no_leases e)

unfoldable pub lease : (ℕ → String) → MemoryStore → CtxErr → LeaseRequest → ℕ → Reply Leases
unfolding begin validate_lease select_lease grant
lease tokens s ctx req now =
    lease_begun s (validate_lease req)
      (lease_begun s (begin s ctx) (as_leases (leased_out tokens s req now)))

abbrev pub checked_checkpoint : MemoryStore → Option StoreErr → Machine → Reply (Option Err)
checked_checkpoint s (some e) m = (s, some (store_err e))
checked_checkpoint s none m = (with_machine s m, none)

unfoldable pub checkpoint : MemoryStore → CtxErr → String → String → Bytes → Reply (Option Err)
unfolding begin held check_checkpoint set_checkpoint
checkpoint s ctx id token cp = begun s (begin s ctx) (
    with_item s (held s.m id token)
      (λ it. checked_checkpoint s (check_checkpoint s.m it cp) (set_checkpoint s.m it cp)))

unfoldable pub ack : MemoryStore → CtxErr → String → String → Reply (Option Err)
unfolding begin held remove
ack s ctx id token =
    begun s (begin s ctx)
      (with_item s (held s.m id token) (λ it. (with_machine s (remove s.m it), none)))

unfoldable pub nack : MemoryStore → CtxErr → String → String → NackOptions → ℕ → Reply (Option Err)
unfolding begin held apply_nack
nack s ctx id token o now = begun s (begin s ctx) (
    with_item s (held s.m id token) (λ it.
      (with_machine s (apply_nack s.m it now (now + o.delay) o.err o.blocked_on o.refund), none)))

unfoldable pub release : MemoryStore → CtxErr → String → String → Reply (Option Err)
unfolding begin held apply_release
release s ctx id token =
    begun s (begin s ctx)
      (with_item s (held s.m id token) (λ it. (with_machine s (apply_release s.m it), none)))

unfoldable pub park : MemoryStore → CtxErr → String → String → String → ℕ → Reply (Option Err)
unfolding begin held apply_park
park s ctx id token reason now =
    begun s (begin s ctx) (
      with_item s (held s.m id token) (λ it. (with_machine s (apply_park s.m it now reason), none)))

abbrev pub check_parked : Option MemItem → Found
check_parked none = failed not_found
check_parked (some it) = if is_parked it.stored.state then found it else failed not_parked

-- `s.parked(id)`: the item, if it is parked.
unfoldable pub parked_item : MemoryStore → String → Found
parked_item s id = check_parked (find_id id s.m.items)

abbrev pub fits_if : Bool → Option StoreErr → Option StoreErr
fits_if replace e = if replace then e else none

unfoldable pub requeue_with : MemoryStore → CtxErr → String → Bool → Bytes → Reply (Option Err)
unfolding begin parked_item check_checkpoint apply_requeue
requeue_with s ctx id replace cp = begun s (begin s ctx) (
    with_item s (parked_item s id) (λ it.
      checked_checkpoint s (fits_if replace (check_checkpoint s.m it cp))
        (apply_requeue s.m it replace cp)))

unfoldable pub requeue : MemoryStore → CtxErr → String → Reply (Option Err)
unfolding requeue_with
requeue s ctx id = requeue_with s ctx id false none

unfoldable pub discard : MemoryStore → CtxErr → String → Reply (Option Err)
unfolding begin parked_item remove
discard s ctx id =
    begun s (begin s ctx)
      (with_item s (parked_item s id) (λ it. (with_machine s (remove s.m it), none)))

-- What a call that only reads gives.
pub data Read (A : Type 0) : Type 0 where
  read : A → Read A
  not_read : Err → Read A

abbrev pub record_of : Option MemItem → Read Record
record_of none = not_read (store_err not_found)
record_of (some it) = read it.stored

abbrev pub if_begun : {A : Type 0} → Option Err → Read A → Read A
if_begun none r = r
if_begun (some e) r = not_read e

unfoldable pub get : MemoryStore → CtxErr → String → Read Record
unfolding begin
get s ctx id = if_begun (begin s ctx) (record_of (find_id id s.m.items))

unfoldable pub parked : MemoryStore → CtxErr → ℕ → ℕ → Read (List Record)
unfolding begin parked_records
parked s ctx after limit = if_begun (begin s ctx) (read (parked_records s.m after limit))

unfoldable pub has_key_in : MemoryStore → CtxErr → String → Read Bool
unfolding begin has_order_key
has_key_in s ctx k = if_begun (begin s ctx) (read (has_order_key s.m k))

unfoldable pub stats_of : MemoryStore → CtxErr → ℕ → Read StoreStats
unfolding begin stats
stats_of s ctx now = if_begun (begin s ctx) (read (stats s.m now))

unfoldable pub close : MemoryStore → MemoryStore
close s = record s { closed = true }
