-- ===== src/Dlq/Machine/Index/Storing.antt =====
-- dlq/machine.go: storing a record and removing one keep the index exact.
use Prim.Native.String.{String}
use text.Mathlib.Text.{◌==◌ as str_eq}
use text.Mathlib.TextEquality.{eq_iff}
use go_guard_lib.Prelude.{
  ℕ, ◌<◌, ◌≡◌, refl, false, Option, none, some, List, [], ◌∷◌, ◌++◌, sum_by-append, arith,
}
use go_guard_lib.Dlq.Groups.{Group, group_items}
use go_guard_lib.Dlq.Groups.Laws.{IsTidy, group_items-wake, wake-IsTidy}
use go_guard_lib.Dlq.Keys.{key_items}
use go_guard_lib.Dlq.Keys.Laws.{
  key_items-append, append-IsTidy, key_items-drop, drop-IsTidy, IsTidy as IsTidyKeys,
}
use go_guard_lib.Dlq.Machine.{
  MemItem, Machine, find_seq, delete, link, unlink, insert_item, remove, wake_item, wake_next,
}
use go_guard_lib.Dlq.Machine.View.{
  pick, Within-append, Within-mono, Within-Absent, Within-delete, seqs-append, seqs-delete,
  pick-append, pick-delete, sum_by-delete,
}
use go_guard_lib.Dlq.Machine.Index.{has_key, item_size, IsIndex, IsIndexed}
use go_guard_lib.Dlq.Machine.Index.Moving.{link-IsIndex, unlink-IsIndex}

-- A stored item has a Seq above all others.
module _ (m : Machine) (it : MemItem) (v : IsIndexed m) (above : m.seq < it.stored.seq) where
  new : List MemItem
  new = m.items ++ it ∷ []

  insert-IsIndex :
      let m' = insert_item m it in
      IsIndex m'.items m'.groups m'.parked_list m'.parked_hint m'.counts
  unfolding insert_item link new
  insert-IsIndex =
      link-IsIndex (record m { items = new }) it m.items new v.ascending
        (Within-Absent m.seq it.stored.seq m.items v.within above)
        (λ p. (pick-append p m.seq it m.items v.within above).0)
        (λ g. omega (arith, sum_by-append g m.items (it ∷ []))) v.index

  insert-IsTidyKeys : IsTidyKeys (insert_item m it).by_key
  unfolding insert_item
  insert-IsTidyKeys =
      ground
        (arith, v.tidy_keys, append-IsTidy it.stored.seq it.stored.order_key m.by_key v.tidy_keys)

  insert-keyed :
      (k : String)
      → str_eq k "" ≡ false
      → key_items k (insert_item m it).by_key ≡ pick (has_key k) (insert_item m it).items
  unfolding insert_item link
  insert-keyed k h = ground (
    arith,
    v.keyed k h,
    eq_iff it.stored.order_key k,
    eq_iff it.stored.order_key "",
    eq_iff k "",
    pick-append (has_key k) m.seq it m.items v.within above,
    key_items-append it.stored.seq it.stored.order_key k m.by_key,
  )

  pub insert_item-IsIndexed : IsIndexed (insert_item m it)
  unfolding insert_item link
  insert_item-IsIndexed = record {
    ascending = seqs-append m.seq it m.items v.within above v.ascending;
    within = ground (
      arith,
      Within-append it.stored.seq it m.items
          (Within-mono m.seq it.stored.seq m.items (omega arith) v.within) (omega arith),
    );
    index = insert-IsIndex;
    tidy_keys = insert-IsTidyKeys;
    keyed = insert-keyed;
    sized = omega (arith, v.sized, sum_by-append item_size m.items (it ∷ []));
  }

-- An item leaves the store. Waking the next one of its key changes wake times alone.
wake_item-items :
    (o : Option MemItem) (gs : List Group) (d : String)
    → group_items d (wake_item o gs) ≡ group_items d gs
wake_item-items none gs d = refl
wake_item-items (some it) gs d = ground (arith, group_items-wake 0 it.stored.blocked_on d gs)

wake_item-IsTidy : (o : Option MemItem) (gs : List Group) → IsTidy gs → IsTidy (wake_item o gs)
wake_item-IsTidy none gs v = v
wake_item-IsTidy (some it) gs v = ground (arith, v, wake-IsTidy 0 it.stored.blocked_on gs v)

wake_next-items :
    (s : ℕ) (l : List ℕ) (items : List MemItem) (gs : List Group) (d : String)
    → group_items d (wake_next s l items gs) ≡ group_items d gs
wake_next-items s [] items gs d = refl
wake_next-items s (x ∷ []) items gs d = refl
wake_next-items s (x ∷ y ∷ ys) items gs d = ground (arith, wake_item-items (find_seq y items) gs d)

wake_next-IsTidy :
    (s : ℕ) (l : List ℕ) (items : List MemItem) (gs : List Group)
    → IsTidy gs
    → IsTidy (wake_next s l items gs)
wake_next-IsTidy s [] items gs v = v
wake_next-IsTidy s (x ∷ []) items gs v = v
wake_next-IsTidy s (x ∷ y ∷ ys) items gs v =
    ground (arith, v, wake_item-IsTidy (find_seq y items) gs v)

module _ (m : Machine) (it : MemItem) (v : IsIndexed m)
    (f : find_seq it.stored.seq m.items ≡ some it) where
  left : List MemItem
  left = delete it.stored.seq m.items

  remove-IsIndex :
      let m' = remove m it in IsIndex m'.items m'.groups m'.parked_list m'.parked_hint m'.counts
  unfolding remove
  remove-IsIndex =
      let u = unlink-IsIndex m it f v.index in
      let keys = key_items it.stored.order_key m.by_key in
      let gs = (unlink m it).groups in
      record {
        tidy = ground (
          arith,
          u.tidy,
          wake_next-IsTidy it.stored.seq keys (delete it.stored.seq m.items) gs u.tidy,
        );
        grouped = λ d. ground (
          arith,
          u.grouped d,
          wake_next-items it.stored.seq keys (delete it.stored.seq m.items) gs d,
        );
        in_order = u.in_order;
        hinted = u.hinted;
        pendings = u.pendings;
        leases = u.leases;
        parkings = u.parkings;
      }

  remove-keyed :
      (k : String)
      → str_eq k "" ≡ false
      → key_items k (remove m it).by_key ≡ pick (has_key k) (remove m it).items
  unfolding remove
  remove-keyed k h = ground (
    arith,
    v.keyed k h,
    eq_iff it.stored.order_key k,
    eq_iff it.stored.order_key "",
    eq_iff k "",
    pick-delete (has_key k) it.stored.seq it m.items f,
    key_items-drop it.stored.seq it.stored.order_key k m.by_key v.tidy_keys,
  )

  pub remove-IsIndexed : IsIndexed (remove m it)
  unfolding remove unlink
  remove-IsIndexed = record {
    ascending = seqs-delete it.stored.seq m.items v.ascending;
    within = Within-delete m.seq it.stored.seq m.items v.within;
    index = remove-IsIndex;
    tidy_keys =
        ground
          (arith, v.tidy_keys, drop-IsTidy it.stored.seq it.stored.order_key m.by_key v.tidy_keys);
    keyed = remove-keyed;
    sized = omega (arith, v.sized, sum_by-delete item_size it.stored.seq it m.items f);
  }
