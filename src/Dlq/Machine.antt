-- ===== src/Dlq/Machine.antt =====
-- dlq/machine.go: the queue's state machine: its state, the index, storing and removing. The map
-- `items` and the list `order` are one list, oldest first; an item is found by its ID or, where the
-- code has a pointer to it, by its Seq, and a method that changes an item returns it. `it.grp` is nil
-- exactly for a parked item, so that test is made on the state. Bytes and counts never fall below 0
-- (Machine/Index.antt), so subtraction is exact.
pub mod Leasing
pub mod Settling
pub mod Reading
pub mod View
pub mod Index
use Prim.Native.String.{String}
use text.Mathlib.Text.{◌==◌ as str_eq}
use go_guard_lib.Prelude.{
  ℕ, ◌+◌, ◌-◌, ◌≤◌, Bool, true, false, ◌&&◌, ◌||◌, not, if◌then◌else◌, ltb, leb, ◌==◌, pred, Option,
  none, some, List, [], ◌∷◌, ◌++◌, length,
}
use go_guard_lib.Errors.{StoreErr, full, invalid_record}
use go_guard_lib.Dlq.Record.{
  Record, State, pending, leased, parked, is_parked, size, validate, current_schema,
}
use go_guard_lib.Dlq.Ordered.{insert_ordered, new_hint, remove_elem, forget_hint}
use go_guard_lib.Dlq.Groups.{Group, add_item, drop_item, set_wake}
use go_guard_lib.Dlq.Keys.{KeyEntry, key_items, append_key, drop_key}

-- A limit of 0 is none.
pub record Limits : Type 0 where
  pub max_records : ℕ
  pub max_bytes : ℕ
  pub max_record_bytes : ℕ

-- `body_ref` and `ckpt_ref` are where a store that keeps payloads on disk finds them, 0 for nowhere.
pub record MemItem : Type 0 where
  pub stored : Record
  pub token : String
  pub lease_until : ℕ
  pub size : ℕ
  pub body_ref : ℕ
  pub ckpt_ref : ℕ
  pub body_n : ℕ
  pub ckpt_n : ℕ
  pub reserved : Bool
  pub ver : ℕ

pub record Counts : Type 0 where
  pub n_pending : ℕ
  pub n_leased : ℕ
  pub n_parked : ℕ

unfoldable pub count_up : State → Counts → Counts
count_up pending c = record c { n_pending = c.n_pending + 1 }
count_up leased c = record c { n_leased = c.n_leased + 1 }
count_up parked c = record c { n_parked = c.n_parked + 1 }

unfoldable pub count_down : State → Counts → Counts
count_down pending c = record c { n_pending = c.n_pending - 1 }
count_down leased c = record c { n_leased = c.n_leased - 1 }
count_down parked c = record c { n_parked = c.n_parked - 1 }

pub record Machine : Type 0 where
  pub lim : Limits
  pub items : List MemItem
  pub by_key : List KeyEntry
  pub seq : ℕ
  pub bytes : ℕ
  pub groups : List Group
  pub parked_list : List ℕ
  pub parked_hint : Option ℕ
  pub counts : Counts

unfoldable pub new_machine : Limits → Machine
new_machine lim = record {
  lim = lim;
  items = [];
  by_key = [];
  seq = 0;
  bytes = 0;
  groups = [];
  parked_list = [];
  parked_hint = none;
  counts = record { n_pending = 0; n_leased = 0; n_parked = 0 };
}

unfoldable pub find_id : String → List MemItem → Option MemItem
find_id id [] = none
find_id id (it ∷ its) = if str_eq it.stored.id id then some it else find_id id its

unfoldable pub find_seq : ℕ → List MemItem → Option MemItem
find_seq s [] = none
find_seq s (it ∷ its) = if it.stored.seq == s then some it else find_seq s its

-- The item with this one's Seq becomes this one.
unfoldable pub put : MemItem → List MemItem → List MemItem
put it [] = []
put it (x ∷ xs) = if x.stored.seq == it.stored.seq then it ∷ xs else x ∷ put it xs

unfoldable pub delete : ℕ → List MemItem → List MemItem
delete s [] = []
delete s (x ∷ xs) = if x.stored.seq == s then xs else x ∷ delete s xs

abbrev pub put_item : Machine → MemItem → Machine
put_item m it = record m { items = put it m.items }

-- Adds the item to the index according to its state.
unfoldable pub link : Machine → MemItem → Machine
unfolding count_up
link m it =
    let r = it.stored in
    let p = is_parked r.state in
    record m {
      counts = count_up r.state m.counts;
      parked_list = if p then insert_ordered m.parked_list r.seq m.parked_hint else m.parked_list;
      parked_hint = if p then new_hint m.parked_list r.seq m.parked_hint else m.parked_hint;
      groups = if p then m.groups else add_item r.seq r.blocked_on m.groups;
    }

-- Removes the item from the index.
unfoldable pub unlink : Machine → MemItem → Machine
unfolding count_down
unlink m it =
    let r = it.stored in
    let p = is_parked r.state in
    record m {
      counts = count_down r.state m.counts;
      parked_list = if p then remove_elem r.seq m.parked_list else m.parked_list;
      parked_hint = if p then forget_hint m.parked_hint r.seq else m.parked_hint;
      groups = if p then m.groups else drop_item r.seq r.blocked_on m.groups;
    }

abbrev pub moved : MemItem → State → String → MemItem
moved it state dep = record it {
  ver = it.ver + 1;
  stored = record it.stored { state = state; blocked_on = dep };
}

-- Changes an item's state and the dependency it waits on. Within one group it keeps its place.
unfoldable pub move : Machine → MemItem → State → String → Machine × MemItem
unfolding link unlink
move m it state dep =
    let it' = moved it state dep in
    let m' = put_item m it' in
    if not (is_parked it.stored.state) && not (is_parked state) && str_eq it.stored.blocked_on dep
    then (
      record m' {
        counts = count_up state (count_down it.stored.state m.counts);
        groups = set_wake 0 dep m.groups;
      },
      it',
    )
    else (link (unlink m' it) it', it')

-- What `prepare` says of a record that is to be appended.
pub data Prepared : Type 0 where
  store : Record → Prepared
  duplicate : Prepared
  reject : StoreErr → Prepared

abbrev or_zero : ℕ → ℕ → ℕ
or_zero t u = if t == 0 then u else t

abbrev pub is_some {ℓ} : {A : Type ℓ} → Option A → Bool
is_some none = false
is_some (some a) = true

-- The record exactly as it will be stored.
abbrev pub completed : Machine → Record → ℕ → Record
completed m r now =
    let first = or_zero r.first_failed now in
    record r {
      seq = m.seq + 1;
      first_failed = first;
      last_failed = or_zero r.last_failed first;
      schema_version = or_zero r.schema_version current_schema;
    }

abbrev fits : Machine → Record → ℕ → Prepared
fits m r now =
    if ltb 0 m.lim.max_records && leb m.lim.max_records (length m.items)
    then reject full
    else (if ltb 0 m.lim.max_bytes && ltb m.lim.max_bytes (m.bytes + size r)
        then reject full
        else store (completed m r now))

unfoldable pub prepare : Machine → Record → ℕ → Prepared
prepare m r now = elim (validate r) [
  | some e ↦ reject e
  | none ↦
      if ltb 0 m.lim.max_record_bytes && ltb m.lim.max_record_bytes (size r)
      then reject invalid_record
      else (if is_some (find_id r.id m.items) then duplicate else fits m r now)
]

abbrev pub new_item : Record → MemItem
new_item r = record {
  stored = r;
  token = "";
  lease_until = 0;
  size = size r;
  body_ref = 0;
  ckpt_ref = 0;
  body_n = 0;
  ckpt_n = 0;
  reserved = false;
  ver = 0;
}

-- The part that `insert` and `insertOffloaded` share.
unfoldable pub insert_item : Machine → MemItem → Machine
unfolding link
insert_item m it =
    let r = it.stored in
    let m' = link (record m { items = m.items ++ it ∷ [] }) it in
    record m' {
      by_key = if str_eq r.order_key "" then m.by_key else append_key r.seq r.order_key m.by_key;
      bytes = m.bytes + it.size;
      seq = if ltb m.seq r.seq then r.seq else m.seq;
    }

-- Stores a prepared record, without capacity checks.
unfoldable pub insert : Machine → Record → Machine
unfolding insert_item
insert m r = if is_some (find_id r.id m.items) then m else insert_item m (new_item r)

-- The item behind the head of an order key, which the head's leaving may unblock.
abbrev wake_item : Option MemItem → List Group → List Group
wake_item none gs = gs
wake_item (some it) gs =
    if is_parked it.stored.state then gs else set_wake 0 it.stored.blocked_on gs

abbrev wake_next : ℕ → List ℕ → List MemItem → List Group → List Group
wake_next s [] items gs = gs
wake_next s (x ∷ []) items gs = gs
wake_next s (x ∷ y ∷ ys) items gs = if x == s then wake_item (find_seq y items) gs else gs

-- The item is gone, so its version is not raised.
unfoldable pub remove : Machine → MemItem → Machine
unfolding unlink
remove m it =
    let r = it.stored in
    let m' = unlink m it in
    let items = delete r.seq m.items in
    record m' {
      items = items;
      bytes = m.bytes - it.size;
      by_key = if str_eq r.order_key "" then m.by_key else drop_key r.seq r.order_key m.by_key;
      groups =
          if str_eq r.order_key ""
          then m'.groups
          else wake_next r.seq (key_items r.order_key m.by_key) items m'.groups;
    }
