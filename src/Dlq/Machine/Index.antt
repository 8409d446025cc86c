-- ===== src/Dlq/Machine/Index.antt =====
-- dlq/machine.go: the invariant of the queue's state machine. The index (groups, parked list, keys,
-- counts) and the byte total are exact views of the items.
pub mod Moving
pub mod Storing
pub mod Changing
pub mod Replaying
pub mod Offloading
use Prim.Native.String.{String}
use text.Mathlib.Text.{◌==◌ as str_eq}
use go_guard_lib.Prelude.{
  ℕ, ◌≤◌, ◌≡◌, Bool, true, false, ◌&&◌, not, if◌then◌else◌, Option, List, [], ◌∷◌, sum_by,
}
use go_guard_lib.Dlq.Record.{State, pending, leased, parked, is_parked, is_pending, is_leased}
use go_guard_lib.Dlq.Ordered.Reference.{Ascending}
use go_guard_lib.Dlq.Ordered.{is_within}
use go_guard_lib.Dlq.Groups.{Group, group_items}
use go_guard_lib.Dlq.Groups.Laws.{IsTidy}
use go_guard_lib.Dlq.Keys.{key_items}
use go_guard_lib.Dlq.Keys.Laws.{IsTidy as IsTidyKeys}
use go_guard_lib.Dlq.Machine.{MemItem, Counts, Machine}
use go_guard_lib.Dlq.Machine.View.{seqs, pick, Within}

abbrev pub waits_on : String → MemItem → Bool
waits_on d it = not (is_parked it.stored.state) && str_eq it.stored.blocked_on d

abbrev pub has_key : String → MemItem → Bool
has_key k it = str_eq it.stored.order_key k

abbrev pub in_park : MemItem → Bool
in_park it = is_parked it.stored.state

abbrev pub one : Bool → ℕ
one b = if b then 1 else 0

abbrev pub item_size : MemItem → ℕ
item_size it = it.size

-- The index by state and dependency, as a view of these items. A hint is an element of its list.
pub record IsIndex (items : List MemItem) (groups : List Group) (parked : List ℕ) (hint : Option ℕ)
    (c : Counts) : Type 0 where
  pub tidy : IsTidy groups
  pub grouped : (d : String) → group_items d groups ≡ pick (waits_on d) items
  pub in_order : parked ≡ pick in_park items
  pub hinted : is_within hint parked ≡ true
  pub pendings : c.n_pending ≡ sum_by (λ it. one (is_pending it.stored.state)) items
  pub leases : c.n_leased ≡ sum_by (λ it. one (is_leased it.stored.state)) items
  pub parkings : c.n_parked ≡ sum_by (λ it. one (is_parked it.stored.state)) items

pub record IsIndexed (m : Machine) : Type 0 where
  pub ascending : Ascending (seqs m.items)
  pub within : Within m.seq m.items
  pub index : IsIndex m.items m.groups m.parked_list m.parked_hint m.counts
  pub tidy_keys : IsTidyKeys m.by_key
  pub keyed : (k : String) → str_eq k "" ≡ false → key_items k m.by_key ≡ pick (has_key k) m.items
  pub sized : m.bytes ≡ sum_by item_size m.items
