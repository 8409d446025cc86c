-- ===== src/Dlq/Machine/Index/Offloading.antt =====
-- dlq/machine.go: what a store that keeps payloads on disk does with an item keeps the index exact.
use Prim.Native.String.{String}
use go_guard_lib.Prelude.{ℕ, ◌<◌, refl, none, true, false, ◌∙◌, arith}
use go_guard_lib.Dlq.Record.{Record}
use go_guard_lib.Dlq.Groups.{set_wake}
use go_guard_lib.Dlq.Groups.Laws.{group_items-wake, wake-IsTidy}
use go_guard_lib.Dlq.Machine.{Machine, MemItem, put_item}
use go_guard_lib.Dlq.Machine.Index.{IsIndexed}
use go_guard_lib.Dlq.Machine.Index.Storing.{insert_item-IsIndexed}
use go_guard_lib.Dlq.Machine.Index.Changing.{Holds, put_item-IsIndexed, resize-IsIndexed}
use go_guard_lib.Dlq.Machine.Leasing.{reserve, unreserve}
use go_guard_lib.Dlq.Machine.Settling.{
  insert_offloaded, offloaded, set_checkpoint_ref, with_checkpoint,
}

-- Waking a group changes its wake time alone.
woken-IsIndexed :
    (m : Machine) (d : String)
    → IsIndexed m
    → IsIndexed (record m { groups = set_wake 0 d m.groups })
woken-IsIndexed m d v = record {
  ascending = v.ascending;
  within = v.within;
  index = record {
    tidy = wake-IsTidy 0 d m.groups v.index.tidy;
    grouped = λ e. group_items-wake 0 d e m.groups ∙ v.index.grouped e;
    in_order = v.index.in_order;
    hinted = v.index.hinted;
    pendings = v.index.pendings;
    leases = v.index.leases;
    parkings = v.index.parkings;
  };
  tidy_keys = v.tidy_keys;
  keyed = v.keyed;
  sized = v.sized;
}

-- On a queue whose index is exact, storing a record whose payload is on disk and whose Seq is new, and
-- recording of an item of the queue where its checkpoint is, that a lease reads it, and that it no
-- longer does, all leave the index exact.
pub offloading-IsIndexed :
    (m : Machine) (r : Record) (it : MemItem) (body n ref : ℕ)
    → IsIndexed m
    → m.seq < r.seq
    → Holds m it
    → IsIndexed (insert_offloaded m r body)
      × IsIndexed (set_checkpoint_ref m it n ref)
      × IsIndexed (reserve m it)
      × IsIndexed (unreserve m it)
unfolding insert_offloaded set_checkpoint_ref reserve unreserve
offloading-IsIndexed m r it body n ref v h f =
    let free = record it { reserved = false } in
    let w = put_item-IsIndexed m it free v f (refl, refl, refl, refl) refl in
    (
      ground (arith, v, insert_item-IsIndexed m (offloaded r body) v h),
      resize-IsIndexed m it (with_checkpoint it none ref n) v f (refl, refl, refl, refl) refl,
      put_item-IsIndexed m it (record it { reserved = true }) v f (refl, refl, refl, refl) refl,
      ground (arith, v, w, woken-IsIndexed (put_item m free) it.stored.blocked_on w),
    )
