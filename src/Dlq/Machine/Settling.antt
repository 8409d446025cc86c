-- ===== src/Dlq/Machine/Settling.antt =====
-- dlq/machine.go: what a lease's holder, an operator and the replay of a log do to an item that is in
-- the store. A method that the code calls for its effect alone returns the machine.
use Prim.Native.String.{String}
use text.Mathlib.Text.{◌==◌ as str_eq}
use go_guard_lib.Prelude.{
  ℕ, ◌+◌, ◌-◌, Bool, true, false, ◌&&◌, ◌||◌, not, if◌then◌else◌, ltb, Option, none, some, List, [],
  ◌∷◌,
}
use go_guard_lib.Errors.{StoreErr, full, invalid_record, not_found, lease_lost}
use go_guard_lib.Dlq.Record.{
  Record, Bytes, byte_len, headers_size, pending, leased, parked, is_leased, is_parked, size,
}
use go_guard_lib.Dlq.Machine.{
  MemItem, Machine, find_id, put, put_item, move, remove, insert_item, is_some,
}

-- The result of a lookup.
pub data Found : Type 0 where
  found : MemItem → Found
  failed : StoreErr → Found

abbrev pub check_held : String → Option MemItem → Found
check_held token none = failed not_found
check_held token (some it) =
    if not (is_leased it.stored.state) || str_eq it.token "" || not (str_eq it.token token)
    then failed lease_lost
    else found it

-- The item, if `token` is its current lease.
unfoldable pub held : Machine → String → String → Found
held m id token = check_held token (find_id id m.items)

abbrev pub unlease : MemItem → MemItem
unlease it = record it { token = ""; lease_until = 0 }

-- Stores the item with its new size.
unfoldable pub resize : Machine → MemItem → Machine
resize m it =
    let n = size it.stored + it.body_n + it.ckpt_n in
    record m { items = put (record it { size = n }) m.items; bytes = m.bytes + n - it.size }

-- Whether the checkpoint fits in the limits: `none` is yes. What the code calls `grow` is the
-- checkpoint's length less `old`, and may be negative.
unfoldable pub check_checkpoint : Machine → MemItem → Bytes → Option StoreErr
check_checkpoint m it cp =
    let n = byte_len cp in
    let old = byte_len it.stored.checkpoint + it.ckpt_n in
    if ltb 0 m.lim.max_bytes && ltb old n && ltb (m.lim.max_bytes + old) (m.bytes + n)
    then some full
    else (if ltb 0 m.lim.max_record_bytes && ltb (m.lim.max_record_bytes + old) (it.size + n)
        then some invalid_record
        else none)

abbrev pub with_checkpoint : MemItem → Bytes → ℕ → ℕ → MemItem
with_checkpoint it cp ref n = record it {
  ver = it.ver + 1;
  stored = record it.stored { checkpoint = cp };
  ckpt_ref = ref;
  ckpt_n = n;
}

unfoldable pub set_checkpoint : Machine → MemItem → Bytes → Machine
unfolding resize
set_checkpoint m it cp = resize m (with_checkpoint it cp 0 0)

-- The checkpoint, of `n` bytes, is on disk at `ref`.
unfoldable pub set_checkpoint_ref : Machine → MemItem → ℕ → ℕ → Machine
unfolding resize
set_checkpoint_ref m it n ref = resize m (with_checkpoint it none ref n)

pub record NackOptions : Type 0 where
  pub delay : ℕ
  pub err : String
  pub blocked_on : String
  pub refund : Bool

abbrev pub or_same : String → String → String
or_same dep b = if str_eq b "" then dep else b

abbrev refunded : Bool → ℕ → ℕ
refunded refund n = if refund && ltb 0 n then n - 1 else n

abbrev pub nacked : MemItem → ℕ → ℕ → String → Bool → MemItem
nacked it at next err refund = unlease (record it {
  stored = record it.stored {
    attempts = refunded refund it.stored.attempts;
    last_failed = at;
    next_attempt = next;
    last_error = err;
  };
})

unfoldable pub apply_nack : Machine → MemItem → ℕ → ℕ → String → String → Bool → Machine
unfolding move resize
apply_nack m it at next err blocked_on refund =
    let (m', it') = move m it pending (or_same it.stored.blocked_on blocked_on) in
    resize m' (nacked it' at next err refund)

abbrev pub released : MemItem → MemItem
released it =
    unlease
      (record it { stored = record it.stored { attempts = refunded true it.stored.attempts } })

unfoldable pub apply_release : Machine → MemItem → Machine
unfolding move
apply_release m it =
    let (m', it') = move m it pending it.stored.blocked_on in put_item m' (released it')

abbrev pub park_item : MemItem → ℕ → String → MemItem
park_item it at reason =
    unlease (record it { stored = record it.stored { last_failed = at; last_error = reason } })

unfoldable pub apply_park : Machine → MemItem → ℕ → String → Machine
unfolding move resize
apply_park m it at reason =
    let (m', it') = move m it parked it.stored.blocked_on in resize m' (park_item it' at reason)

abbrev pub requeued : MemItem → MemItem
requeued it = record it { stored = record it.stored { attempts = 0; next_attempt = 0 } }

unfoldable pub apply_requeue : Machine → MemItem → Bool → Bytes → Machine
unfolding move set_checkpoint
apply_requeue m it replace cp =
    let (m', it') = move m it pending it.stored.blocked_on in
    let it'' = requeued it' in
    let m'' = put_item m' it'' in if replace then set_checkpoint m'' it'' cp else m''

-- The bytes of the parts of a record that go to disk with its body.
abbrev body_size : Record → ℕ
body_size r = byte_len r.key + byte_len r.value + headers_size r.headers

abbrev is_present : Bytes → Bool
is_present none = false
is_present (some bs) = true

abbrev pub offloaded : Record → ℕ → MemItem
offloaded r body = record {
  stored = record r { key = none; value = none; headers = []; checkpoint = none };
  token = "";
  lease_until = 0;
  size = size r;
  body_ref = body;
  ckpt_ref = if is_present r.checkpoint then body else 0;
  body_n = body_size r;
  ckpt_n = byte_len r.checkpoint;
  reserved = false;
  ver = 0;
}

-- Stores a record whose payload is on disk at `body`.
unfoldable pub insert_offloaded : Machine → Record → ℕ → Machine
unfolding insert_item
insert_offloaded m r body =
    if is_some (find_id r.id m.items) then m else insert_item m (offloaded r body)

-- The entries of a log, applied again; an entry about a record that is gone changes nothing.
pub data Entry : Type 0 where
  e_lease e_ack e_release e_discard : (id : String) → Entry
  e_nack : (id : String) (at next : ℕ) (err blocked_on : String) (refund : Bool) → Entry
  e_park : (id : String) (at : ℕ) (reason : String) → Entry

abbrev pub replay_lease : Machine → MemItem → Machine
replay_lease m it =
    let it' = record it { stored = record it.stored { attempts = it.stored.attempts + 1 } } in
    (move (put_item m it') it' leased it.stored.blocked_on).0

abbrev pub entry_id : Entry → String
entry_id (e_lease id) = id
entry_id (e_ack id) = id
entry_id (e_release id) = id
entry_id (e_discard id) = id
entry_id (e_nack id at next err b r) = id
entry_id (e_park id at reason) = id

abbrev pub replay_entry : Machine → Entry → MemItem → Machine
replay_entry m (e_lease id) it = replay_lease m it
replay_entry m (e_ack id) it = remove m it
replay_entry m (e_release id) it = apply_release m it
replay_entry m (e_discard id) it = if is_parked it.stored.state then remove m it else m
replay_entry m (e_nack id at next err b r) it = apply_nack m it at next err b r
replay_entry m (e_park id at reason) it = apply_park m it at reason

abbrev pub when_found : Machine → Option MemItem → (MemItem → Machine) → Machine
when_found m none f = m
when_found m (some it) f = f it

unfoldable pub replay : Machine → Entry → Machine
unfolding move remove apply_release apply_nack apply_park
replay m e = when_found m (find_id (entry_id e) m.items) (replay_entry m e)

-- Leases of a process that is gone become pending records. A step changes only its own item, so the
-- items still to come are the ones the machine holds.
unfoldable pub end_lease : Machine → MemItem → Machine
unfolding move
end_lease m it =
    let (m', it') = move m it pending it.stored.blocked_on in
    if is_leased it.stored.state then put_item m' (unlease it') else m

unfoldable pub end_leases : List MemItem → Machine → Machine
unfolding end_lease
end_leases [] m = m
end_leases (it ∷ its) m = end_leases its (end_lease m it)

unfoldable pub end_replay : Machine → Machine
unfolding end_leases
end_replay m = end_leases m.items m
