-- ===== src/Dlq/Memory/Calls/Limit.antt =====
-- dlq/memory.go, dlq/machine.go: a store holds no more records than its limit.
use Prim.Native.String.{String}
use go_guard_lib.Prelude.{
  ℕ, ◌+◌, ◌≤◌, ◌<◌, ◌≡◌, refl, ◌∙◌, Option, none, List, [], ◌∷◌, arith, Option-cases, inl, inr,
  length, length-append,
}
use go_guard_lib.Errors.{Err, StoreErr}
use go_guard_lib.Dlq.Record.{Record, validate}
use go_guard_lib.Dlq.Machine.{
  Machine, MemItem, Limits, new_machine, link, prepare, Prepared, store, duplicate, reject, insert,
  insert_item, new_item, remove,
}
use go_guard_lib.Dlq.Machine.Leasing.{grant, select_lease}
use go_guard_lib.Dlq.Machine.Settling.{
  Found, held, check_checkpoint, set_checkpoint, apply_nack, apply_release, apply_park,
  apply_requeue,
}
use go_guard_lib.Dlq.Memory.{
  MemoryStore, MemoryOptions, lease_begun, as_leases, leased_out, with_machine, new_memory_store,
  begin, begun, with_item, append_prepared, checked_checkpoint, fits_if, parked_item,
  validate_lease, append, lease, checkpoint, ack, nack, release, park, requeue_with, discard, close,
}
use go_guard_lib.Dlq.Memory.Calls.Guards.{
  begun-keeps, lease_begun-keeps, with_item-keeps, checked_checkpoint-keeps,
}
use go_guard_lib.Dlq.Memory.Calls.{
  Call, c_append, c_lease, c_checkpoint, c_ack, c_nack, c_release, c_park, c_requeue, c_discard,
  c_close, call, calls,
}
use go_guard_lib.Dlq.Memory.Calls.Fewer.{
  NoMore, remove-NoMore, set_checkpoint-NoMore, nack-NoMore, release-NoMore, park-NoMore,
  requeue-NoMore, grant-NoMore,
}

-- No more records than `max_records`, where it is a limit.
abbrev pub IsWithin : Limits → Machine → Type 0
IsWithin lim m = (m.lim ≡ lim) × (0 < lim.max_records → length m.items ≤ lim.max_records)

fewer : (lim : Limits) (m m' : Machine) → IsWithin lim m → NoMore m m' → IsWithin lim m'
fewer lim m m' v n = (n.0 ∙ v.0, λ h. omega (arith, v.1 h, n.1))

insert-length :
    (m : Machine) (r : Record)
    → ((insert m r).lim ≡ m.lim) × (length (insert m r).items ≤ length m.items + 1)
unfolding insert insert_item link
insert-length m r = ground (arith, length-append m.items (new_item r ∷ []))

prepare-room :
    (m : Machine) (r q : Record) (now : ℕ)
    → prepare m r now ≡ store q
    → 0 < m.lim.max_records
    → length m.items < m.lim.max_records
unfolding prepare
prepare-room m r q now e h = elim (Option-cases (validate r)) [
  | inl n ↦ ground arith
  | inr (x, n) ↦ ground arith
]

append_prepared-IsWithin :
    (lim : Limits) (s : MemoryStore) (p : Prepared)
    → ((q : Record)
        → p ≡ store q
        → 0 < s.m.lim.max_records
        → length s.m.items < s.m.lim.max_records)
    → IsWithin lim s.m
    → IsWithin lim (append_prepared s p).0.m
append_prepared-IsWithin lim s (store q) h v =
    let i = insert-length s.m q in (i.0 ∙ v.0, λ g. ground (arith, i.1, h q refl, v.0, g))
append_prepared-IsWithin lim s duplicate h v = v
append_prepared-IsWithin lim s (reject e) h v = v

module _ (lim : Limits) (s : MemoryStore) (v : IsWithin lim s.m) where
  item-IsWithin :
      (o : Option Err) (f : Found) (g : MemItem → Machine)
      → ((it : MemItem) → NoMore s.m (g it))
      → IsWithin lim (begun s o (with_item s f (λ it. (with_machine s (g it), none)))).0.m
  item-IsWithin o f g n =
      with_item-keeps (IsWithin lim) s v o f (λ it. (with_machine s (g it), none))
        λ it e. fewer lim s.m (g it) v (n it)

  checked-IsWithin :
      (o : Option Err) (f : Found) (c : MemItem → Option StoreErr) (g : MemItem → Machine)
      → ((it : MemItem) → NoMore s.m (g it))
      → IsWithin lim (begun s o (with_item s f (λ it. checked_checkpoint s (c it) (g it)))).0.m
  checked-IsWithin o f c g n =
      with_item-keeps (IsWithin lim) s v o f (λ it. checked_checkpoint s (c it) (g it))
        λ it e.
          checked_checkpoint-keeps (IsWithin lim) s v (c it) (g it) (fewer lim s.m (g it) v (n it))

  call-IsWithin : (tokens : ℕ → String) (c : Call) → IsWithin lim (call tokens s c).m
  unfolding call append lease select_lease checkpoint ack nack release park requeue_with discard
      close
  call-IsWithin tokens (c_append ctx r now) =
      let p = prepare s.m r now in
      begun-keeps (IsWithin lim) s v (begin s ctx) (append_prepared s p)
        (append_prepared-IsWithin lim s p (λ q e. prepare-room s.m r q now e) v)
  call-IsWithin tokens (c_lease ctx req now) =
      let r = as_leases (leased_out tokens s req now) in
      let (its, m') = select_lease s.m now req in
      lease_begun-keeps (IsWithin lim) s v (validate_lease req) (lease_begun s (begin s ctx) r) (
        lease_begun-keeps (IsWithin lim) s v (begin s ctx) r (
          fewer lim m' (grant tokens s.drawn m' its now req.ttl).0 v
            (grant-NoMore tokens s.drawn m' its now req.ttl)))
  call-IsWithin tokens (c_checkpoint ctx id token cp) =
      checked-IsWithin (begin s ctx) (held s.m id token) (λ it. check_checkpoint s.m it cp)
        (λ it. set_checkpoint s.m it cp) λ it. set_checkpoint-NoMore s.m it cp
  call-IsWithin tokens (c_ack ctx id token) =
      item-IsWithin (begin s ctx) (held s.m id token) (remove s.m) (remove-NoMore s.m)
  call-IsWithin tokens (c_nack ctx id token o now) =
      item-IsWithin (begin s ctx) (held s.m id token)
        (λ it. apply_nack s.m it now (now + o.delay) o.err o.blocked_on o.refund)
        λ it. nack-NoMore s.m it now (now + o.delay) o.err o.blocked_on o.refund
  call-IsWithin tokens (c_release ctx id token) =
      item-IsWithin (begin s ctx) (held s.m id token) (apply_release s.m) (release-NoMore s.m)
  call-IsWithin tokens (c_park ctx id token reason now) =
      item-IsWithin (begin s ctx) (held s.m id token) (λ it. apply_park s.m it now reason)
        λ it. park-NoMore s.m it now reason
  call-IsWithin tokens (c_requeue ctx id replace cp) =
      checked-IsWithin (begin s ctx) (parked_item s id)
        (λ it. fits_if replace (check_checkpoint s.m it cp)) (λ it. apply_requeue s.m it replace cp)
        λ it. requeue-NoMore s.m it replace cp
  call-IsWithin tokens (c_discard ctx id) =
      item-IsWithin (begin s ctx) (parked_item s id) (remove s.m) (remove-NoMore s.m)
  call-IsWithin tokens c_close = v

calls-IsWithin :
    (tokens : ℕ → String) (lim : Limits) (s : MemoryStore) (cs : List Call)
    → IsWithin lim s.m
    → IsWithin lim (calls tokens s cs).m
unfolding calls
calls-IsWithin tokens lim s [] v = v
calls-IsWithin tokens lim s (c ∷ cs) v =
    calls-IsWithin tokens lim (call tokens s c) cs (call-IsWithin lim s v tokens c)

-- After any sequence of calls on a new store that has a limit of records, it holds no more of them.
pub new-calls-length :
    (tokens : ℕ → String) (o : MemoryOptions) (cs : List Call)
    → 0 < o.max_records
    → length (calls tokens (new_memory_store o) cs).m.items ≤ o.max_records
unfolding new_memory_store new_machine
new-calls-length tokens o cs h =
    let s = new_memory_store o in (calls-IsWithin tokens s.m.lim s cs (refl, λ g. omega arith)).1 h
