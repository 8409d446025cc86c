-- ===== src/Dlq/Memory/Calls/Invariant.antt =====
-- dlq/memory.go, dlq/machine.go: the index stays exact, whatever is called.
use Prim.Native.String.{String}
use go_guard_lib.Prelude.{ℕ, ◌+◌, ◌≡◌, refl, none, List, [], ◌∷◌, arith, Option-cases, inl, inr}
use go_guard_lib.Errors.{CtxErr}
use go_guard_lib.Dlq.Record.{Record, validate}
use go_guard_lib.Dlq.Groups.Laws.{none_left}
use go_guard_lib.Dlq.Groups.{find_group}
use go_guard_lib.Dlq.Keys.{key_items}
use go_guard_lib.Dlq.Keys.Laws.{none_left as no_keys}
use go_guard_lib.Dlq.Machine.{
  Machine, MemItem, Limits, new_machine, find_id, prepare, Prepared, store, duplicate, reject,
  insert, new_item, remove,
}
use go_guard_lib.Dlq.Machine.Index.{IsIndexed}
use go_guard_lib.Dlq.Machine.Index.Storing.{insert_item-IsIndexed, remove-IsIndexed}
use go_guard_lib.Dlq.Machine.Index.Changing.{
  Holds, set_checkpoint-IsIndexed, apply_nack-IsIndexed, apply_release-IsIndexed,
  apply_park-IsIndexed, apply_requeue-IsIndexed,
}
use go_guard_lib.Dlq.Machine.Index.Replaying.{find_id-seq}
use go_guard_lib.Dlq.Machine.Leasing.{LeaseRequest, select_lease}
use go_guard_lib.Dlq.Machine.Leasing.Chosen.{select_lease-Takes, select_lease-IsIndexed}
use go_guard_lib.Dlq.Machine.Leasing.Granting.{grant-IsIndexed, Takes-Holds}
use go_guard_lib.Dlq.Machine.Settling.{
  found, held, check_checkpoint, set_checkpoint, apply_requeue, apply_nack, apply_release,
  apply_park,
}
use go_guard_lib.Dlq.Memory.{
  MemoryStore, MemoryOptions, lease_begun, as_leases, leased_out, with_machine, new_memory_store,
  begin, append_prepared, checked_checkpoint, fits_if, parked_item, validate_lease, append, lease,
  checkpoint, ack, nack, release, park, requeue_with, discard, close,
}
use go_guard_lib.Dlq.Memory.Calls.Guards.{
  begun-keeps, lease_begun-keeps, with_item-keeps, checked_checkpoint-keeps,
}
use go_guard_lib.Dlq.Memory.Calls.{
  Call, c_append, c_lease, c_checkpoint, c_ack, c_nack, c_release, c_park, c_requeue, c_discard,
  c_close, call, calls,
}

pub new_machine-IsIndexed : (lim : Limits) → IsIndexed (new_machine lim)
unfolding new_machine find_group key_items
new_machine-IsIndexed lim = record {
  ascending = tt;
  within = tt;
  index = record {
    tidy = none_left;
    grouped = λ d. refl;
    in_order = refl;
    hinted = refl;
    pendings = refl;
    leases = refl;
    parkings = refl;
  };
  tidy_keys = no_keys;
  keyed = λ k h. refl;
  sized = refl;
}

prepare-seq : (m : Machine) (r q : Record) (now : ℕ) → prepare m r now ≡ store q → q.seq ≡ m.seq + 1
unfolding prepare
prepare-seq m r q now e = elim (Option-cases (validate r)) [
  | inl n ↦ ground arith
  | inr (x, n) ↦ ground arith
]

insert-IsIndexed :
    (m : Machine) (r : Record) → IsIndexed m → r.seq ≡ m.seq + 1 → IsIndexed (insert m r)
unfolding insert
insert-IsIndexed m r v e = ground (arith, v, insert_item-IsIndexed m (new_item r) v (omega arith))

append_prepared-IsIndexed :
    (s : MemoryStore) (p : Prepared)
    → ((q : Record) → p ≡ store q → q.seq ≡ s.m.seq + 1)
    → IsIndexed s.m
    → IsIndexed (append_prepared s p).0.m
append_prepared-IsIndexed s (store q) h v = insert-IsIndexed s.m q v (h q refl)
append_prepared-IsIndexed s duplicate h v = v
append_prepared-IsIndexed s (reject e) h v = v

module _ (s : MemoryStore) (v : IsIndexed s.m) where
  held-Holds : (id token : String) (it : MemItem) → held s.m id token ≡ found it → Holds s.m it
  unfolding held
  held-Holds id token it e = elim (Option-cases (find_id id s.m.items)) [
    | inl n ↦ ground arith
    | inr (x, n) ↦ ground (arith, find_id-seq id x s.m.items v.ascending n)
  ]

  parked-Holds : (id : String) (it : MemItem) → parked_item s id ≡ found it → Holds s.m it
  unfolding parked_item
  parked-Holds id it e = elim (Option-cases (find_id id s.m.items)) [
    | inl n ↦ ground arith
    | inr (x, n) ↦ ground (arith, find_id-seq id x s.m.items v.ascending n)
  ]

  lease-IsIndexed :
      (tokens : ℕ → String) (ctx : CtxErr) (req : LeaseRequest) (now : ℕ)
      → IsIndexed (lease tokens s ctx req now).0.m
  unfolding lease
  lease-IsIndexed tokens ctx req now =
      let c = select_lease-Takes s.m now req v in
      let its = (select_lease s.m now req).0 in
      let w =
        grant-IsIndexed tokens s.drawn (select_lease s.m now req).1 its now req.ttl
          (select_lease-IsIndexed s.m now req v) c.1 (Takes-Holds s.m now req its c.2) in
      let r = as_leases (leased_out tokens s req now) in
      lease_begun-keeps IsIndexed s v (validate_lease req) (lease_begun s (begin s ctx) r)
        (lease_begun-keeps IsIndexed s v (begin s ctx) r w)

  pub call-IsIndexed : (tokens : ℕ → String) (c : Call) → IsIndexed (call tokens s c).m
  unfolding call append checkpoint ack nack release park requeue_with discard close
  call-IsIndexed tokens (c_append ctx r now) =
      let p = prepare s.m r now in
      begun-keeps IsIndexed s v (begin s ctx) (append_prepared s p)
        (append_prepared-IsIndexed s p (λ q e. prepare-seq s.m r q now e) v)
  call-IsIndexed tokens (c_lease ctx req now) = lease-IsIndexed tokens ctx req now
  call-IsIndexed tokens (c_checkpoint ctx id token cp) =
      with_item-keeps IsIndexed s v (begin s ctx) (held s.m id token)
        (λ it. checked_checkpoint s (check_checkpoint s.m it cp) (set_checkpoint s.m it cp))
        λ it e.
          checked_checkpoint-keeps IsIndexed s v (check_checkpoint s.m it cp)
            (set_checkpoint s.m it cp)
            (set_checkpoint-IsIndexed s.m it cp v (held-Holds id token it e))
  call-IsIndexed tokens (c_ack ctx id token) =
      with_item-keeps IsIndexed s v (begin s ctx) (held s.m id token)
        (λ it. (with_machine s (remove s.m it), none))
        λ it e. remove-IsIndexed s.m it v (held-Holds id token it e)
  call-IsIndexed tokens (c_nack ctx id token o now) =
      with_item-keeps IsIndexed s v (begin s ctx) (held s.m id token)
        (λ it. (
          with_machine s (apply_nack s.m it now (now + o.delay) o.err o.blocked_on o.refund),
          none,
        ))
        λ it e.
          apply_nack-IsIndexed s.m it v (held-Holds id token it e) now (now + o.delay) o.err
            o.blocked_on o.refund
  call-IsIndexed tokens (c_release ctx id token) =
      with_item-keeps IsIndexed s v (begin s ctx) (held s.m id token)
        (λ it. (with_machine s (apply_release s.m it), none))
        λ it e. apply_release-IsIndexed s.m it v (held-Holds id token it e)
  call-IsIndexed tokens (c_park ctx id token reason now) =
      with_item-keeps IsIndexed s v (begin s ctx) (held s.m id token)
        (λ it. (with_machine s (apply_park s.m it now reason), none))
        λ it e. apply_park-IsIndexed s.m it v (held-Holds id token it e) now reason
  call-IsIndexed tokens (c_requeue ctx id replace cp) =
      with_item-keeps IsIndexed s v (begin s ctx) (parked_item s id)
        (λ it.
          checked_checkpoint s (fits_if replace (check_checkpoint s.m it cp))
            (apply_requeue s.m it replace cp))
        λ it e.
          checked_checkpoint-keeps IsIndexed s v (fits_if replace (check_checkpoint s.m it cp))
            (apply_requeue s.m it replace cp)
            (apply_requeue-IsIndexed s.m it v (parked-Holds id it e) replace cp)
  call-IsIndexed tokens (c_discard ctx id) =
      with_item-keeps IsIndexed s v (begin s ctx) (parked_item s id)
        (λ it. (with_machine s (remove s.m it), none))
        λ it e. remove-IsIndexed s.m it v (parked-Holds id it e)
  call-IsIndexed tokens c_close = v

calls-IsIndexed :
    (tokens : ℕ → String) (s : MemoryStore) (cs : List Call)
    → IsIndexed s.m
    → IsIndexed (calls tokens s cs).m
unfolding calls
calls-IsIndexed tokens s [] v = v
calls-IsIndexed tokens s (c ∷ cs) v =
    calls-IsIndexed tokens (call tokens s c) cs (call-IsIndexed s v tokens c)

-- After any sequence of calls on a new store, the items are in Seq order, none above the last Seq
-- given out; the groups, the parked list and the lists of the order keys hold exactly the items that
-- belong to them, in Seq order; the hint of each such list, if it has one, is an element of it; and the
-- counts by state and the byte total are the items' own.
pub new-calls-IsIndexed :
    (tokens : ℕ → String) (o : MemoryOptions) (cs : List Call)
    → IsIndexed (calls tokens (new_memory_store o) cs).m
unfolding new_memory_store
new-calls-IsIndexed tokens o cs =
    calls-IsIndexed tokens (new_memory_store o) cs
      (new_machine-IsIndexed (new_memory_store o).m.lim)
