-- ===== src/Dlq/Machine/Reading.antt =====
-- dlq/machine.go: what is read of the queue without changing it.
pub mod Paging
pub mod Exact
use Prim.Native.String.{String}
use text.Mathlib.Text.{◌==◌ as str_eq}
use go_guard_lib.Prelude.{
  ℕ, ◌+◌, ◌-◌, Bool, true, false, ◌&&◌, not, if◌then◌else◌, ltb, leb, ◌==◌, Option, none, some,
  List, [], ◌∷◌, map, length, sum_by,
}
use go_guard_lib.Dlq.Record.{Record, is_pending, is_parked}
use go_guard_lib.Dlq.Groups.{Group}
use go_guard_lib.Dlq.Keys.{KeyEntry, key_items}
use go_guard_lib.Dlq.Machine.{MemItem, Machine, Counts, find_seq}
use go_guard_lib.Dlq.Machine.Leasing.{is_head}

abbrev max_parked_page_bytes : ℕ
max_parked_page_bytes = 33554432

-- `n` items of `bytes` are on the page already. An item of the parked list is one of the machine's.
unfoldable pub scan_parked : List MemItem → ℕ → ℕ → ℕ → ℕ → List ℕ → List MemItem
scan_parked items after limit n bytes [] = []
scan_parked items after limit n bytes (s ∷ ss) = elim (find_seq s items) [
  | none ↦ scan_parked items after limit n bytes ss
  | some it ↦
      let skip = leb it.stored.seq after in
      let rest =
        scan_parked items after limit (if skip then n else n + 1)
          (if skip then bytes else bytes + it.size) ss in
      if leb limit n
      then []
      else (if skip
          then rest
          else (if ltb 0 n && ltb max_parked_page_bytes (bytes + it.size) then [] else it ∷ rest))
]

abbrev pub page_limit : ℕ → ℕ
page_limit limit = if limit == 0 then 100 else if ltb 1000 limit then 1000 else limit

-- A page of parked items with a Seq above `after`. A limit of 0 stands for every one below 1.
unfoldable pub parked_items : Machine → ℕ → ℕ → List MemItem
unfolding scan_parked
parked_items m after limit = scan_parked m.items after (page_limit limit) 0 0 m.parked_list

unfoldable pub parked_records : Machine → ℕ → ℕ → List Record
unfolding parked_items
parked_records m after limit = map (λ it. it.stored) (parked_items m after limit)

abbrev pub is_empty : List ℕ → Bool
is_empty [] = true
is_empty (x ∷ xs) = false

unfoldable pub has_order_key : Machine → String → Bool
has_order_key m k = not (str_eq k "") && not (is_empty (key_items k m.by_key))

-- A signed duration.
pub data Span : Type 0 where
  forward backward : ℕ → Span

abbrev time_sub : ℕ → ℕ → Span
time_sub now t = if leb t now then forward (now - t) else backward (t - now)

-- The times are `none` where the code leaves them zero.
pub record StoreStats : Type 0 where
  pub total_bytes : ℕ
  pub by_state : Counts
  pub oldest_pending : Option Span
  pub oldest_parked : Option Span
  pub blocked_keys : ℕ
  pub by_dependency : List (String × ℕ)

-- The first Pending item of a group.
unfoldable pub first_pending : List MemItem → List ℕ → Option MemItem
first_pending items [] = none
first_pending items (s ∷ ss) = elim (find_seq s items) [
  | none ↦ first_pending items ss
  | some it ↦ if is_pending it.stored.state then some it else first_pending items ss
]

abbrev older : Option MemItem → Option MemItem → Option MemItem
older none o = o
older (some a) none = some a
older (some a) (some b) = if ltb b.stored.seq a.stored.seq then some b else some a

unfoldable pub oldest_of : List MemItem → Option MemItem → List Group → Option MemItem
unfolding first_pending
oldest_of items o [] = o
oldest_of items o (g ∷ gs) = oldest_of items (older o (first_pending items g.items)) gs

abbrev pub waiting : ℕ → Option MemItem → Option Span
waiting now none = none
waiting now (some it) = some (time_sub now it.stored.first_failed)

abbrev pub front : List MemItem → List ℕ → Option MemItem
front items [] = none
front items (s ∷ ss) = find_seq s items

abbrev blocks_key : List KeyEntry → Option MemItem → ℕ
blocks_key ks none = 0
blocks_key ks (some it) =
    if not (str_eq it.stored.order_key "")
      && is_head it.stored.seq (key_items it.stored.order_key ks)
    then 1
    else 0

abbrev dependencies : List Group → List (String × ℕ)
dependencies [] = []
dependencies (g ∷ gs) =
    if str_eq g.dep "" then dependencies gs else (g.dep, length g.items) ∷ dependencies gs

unfoldable pub stats : Machine → ℕ → StoreStats
unfolding oldest_of
stats m now = record {
  total_bytes = m.bytes;
  by_state = m.counts;
  oldest_pending = waiting now (oldest_of m.items none m.groups);
  oldest_parked = waiting now (front m.items m.parked_list);
  blocked_keys = sum_by (λ s. blocks_key m.by_key (find_seq s m.items)) m.parked_list;
  by_dependency = dependencies m.groups;
}
