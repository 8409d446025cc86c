-- ===== src/Dlq/Machine/Leasing.antt =====
-- dlq/machine.go: which items a lease takes. The source of tokens, `crypto/rand`, is a parameter: its
-- n-th token. The code goes through its map of groups in any order; Seqs differ, so the order of the
-- merged list does not depend on it.
pub mod Scanning
pub mod Merging
pub mod Choosing
pub mod Chosen
pub mod Granting
pub mod Oldest
use Prim.Native.String.{String}
use text.Mathlib.Text.{◌==◌ as str_eq}
use go_guard_lib.Prelude.{
  ℕ, zero, suc, ◌+◌, ◌≤◌, Bool, true, false, ◌&&◌, ◌||◌, not, if◌then◌else◌, ltb, leb, ◌==◌, Option,
  none, some, List, [], ◌∷◌, map,
}
use go_guard_lib.Prelude.{mem_str}
use go_guard_lib.Dlq.Record.{Record, State, pending, leased, parked, is_parked}
use go_guard_lib.Dlq.Groups.{Group, set_wake}
use go_guard_lib.Dlq.Keys.{KeyEntry, key_items}
use go_guard_lib.Dlq.Machine.{MemItem, Machine, find_seq, put, put_item, move}

pub record LeaseRequest : Type 0 where
  pub blocked_on : String
  pub skip : List String
  pub max : ℕ
  pub ttl : ℕ

pub record Lease : Type 0 where
  pub leased_record : Record
  pub token : String
  pub until : ℕ

abbrev pub is_head : ℕ → List ℕ → Bool
is_head s [] = false
is_head s (x ∷ xs) = x == s

-- Whether the item's state lets it be leased at `now`.
abbrev pub is_due : MemItem → State → ℕ → Bool
is_due it parked now = false
is_due it pending now = leb it.stored.next_attempt now
is_due it leased now = leb it.lease_until now

unfoldable pub eligible : Machine → MemItem → ℕ → Bool
eligible m it now =
    not it.reserved
    && is_due it it.stored.state now
    && (str_eq it.stored.order_key ""
        || is_head it.stored.seq (key_items it.stored.order_key m.by_key))

abbrev pub due_at : MemItem → State → ℕ
due_at it pending = it.stored.next_attempt
due_at it leased = it.lease_until
due_at it parked = 0

-- The earliest time, after `now`, of those seen; 0 for none.
abbrev pub earlier : ℕ → ℕ → ℕ → ℕ
earlier now t next = if ltb now t && (next == 0 || ltb t next) then t else next

abbrev max_wake_skew : ℕ
max_wake_skew = 1000000000

-- What a scan found, and when the items it passed over are due.
pub record Scan : Type 0 where
  pub out : List MemItem
  pub next : ℕ

-- `n` items are found already. An item of a group is one of the machine's.
unfoldable pub scan_items : Machine → ℕ → ℕ → ℕ → ℕ → List ℕ → Scan
scan_items m now max n next [] = record { out = []; next = next }
scan_items m now max n next (s ∷ ss) = elim (find_seq s m.items) [
  | none ↦ scan_items m now max n next ss
  | some it ↦
      let e = eligible m it now in
      let rest =
        scan_items m now max (if e then n + 1 else n)
          (if e then next else earlier now (due_at it it.stored.state) next) ss in
      record {
        out = if e then (if (n + 1) == max then it ∷ [] else it ∷ rest.out) else rest.out;
        next = rest.next;
      }
]

abbrev wake_time : ℕ → ℕ → ℕ
wake_time now next =
    if next == 0 || ltb (now + max_wake_skew) next then now + max_wake_skew else next

abbrev pub is_empty : List MemItem → Bool
is_empty [] = true
is_empty (x ∷ xs) = false

-- Up to `max` eligible items of the group, oldest first, and the group.
unfoldable pub scan_group : Machine → Group → ℕ → ℕ → List MemItem × Group
unfolding scan_items
scan_group m g now max =
    let r = scan_items m now max 0 0 g.items in
    (r.out, record g { wake = if is_empty r.out then wake_time now r.next else g.wake })

-- Whether the request is about this group, and the group may have something due.
abbrev pub considered : ℕ → LeaseRequest → Group → Bool
considered now req g =
    (str_eq req.blocked_on "" || str_eq g.dep req.blocked_on)
    && not (mem_str g.dep req.skip)
    && not (ltb 0 g.wake && ltb now g.wake)

-- The groups' candidates, and the groups with the wake times that the scans left.
unfoldable pub candidates :
    Machine → ℕ → LeaseRequest → List Group → List (List MemItem) × List Group
unfolding scan_group
candidates m now req [] = ([], [])
candidates m now req (g ∷ gs) =
    let (lists, gs') = candidates m now req gs in
    let (out, g') = scan_group m g now req.max in
    let c = considered now req g in
    (if c && not (is_empty out) then out ∷ lists else lists, (if c then g' else g) ∷ gs')

pub record Best : Type 0 where
  pub first : MemItem
  pub others : List (List MemItem)

abbrev better : MemItem → List MemItem → List (List MemItem) → Option Best → Best
better x xs ls none = record { first = x; others = xs ∷ ls }
better x xs ls (some b) =
    let c = leb x.stored.seq b.first.stored.seq in
    record { first = if c then x else b.first; others = if c then xs ∷ ls else (x ∷ xs) ∷ b.others }

abbrev with_empty : Option Best → Option Best
with_empty none = none
with_empty (some b) = some (record b { others = [] ∷ b.others })

-- The oldest of the heads, the first of them on a tie, and the lists without it.
unfoldable pub best_head : List (List MemItem) → Option Best
best_head [] = none
best_head ([] ∷ ls) = with_empty (best_head ls)
best_head ((x ∷ xs) ∷ ls) = some (better x xs ls (best_head ls))

-- The oldest of the candidates, at most `max`.
unfoldable pub merge : ℕ → List (List MemItem) → List MemItem
merge zero ls = []
merge (suc n) ls = elim (best_head ls) [ none ↦ [] | some b ↦ b.first ∷ merge n b.others ]

-- The items a lease hands out. Only wake times change.
unfoldable pub select_lease : Machine → ℕ → LeaseRequest → List MemItem × Machine
unfolding candidates merge
select_lease m now req =
    let (lists, gs) = candidates m now req m.groups in
    (merge req.max lists, record m { groups = gs })

-- `it.reserved = true`, and its end, which lets the next scan see the item at once.
unfoldable pub reserve : Machine → MemItem → Machine
reserve m it = put_item m (record it { reserved = true })

unfoldable pub unreserve : Machine → MemItem → Machine
unreserve m it =
    let r = it.reserved in
    record m {
      items = if r then put (record it { reserved = false }) m.items else m.items;
      groups =
          if r && not (is_parked it.stored.state)
          then set_wake 0 it.stored.blocked_on m.groups
          else m.groups;
    }

abbrev pub leased_to : MemItem → String → ℕ → MemItem
leased_to it token until = record it { token = token; lease_until = until }

abbrev pub counted : MemItem → MemItem
counted it = record it { stored = record it.stored { attempts = it.stored.attempts + 1 } }

-- One item is leased under a fresh token.
unfoldable pub grant_one : Machine → MemItem → String → ℕ → Machine × Lease
unfolding move
grant_one m it token until =
    let it' = leased_to it token until in
    let (m', it'') = move (put_item m it') it' leased it.stored.blocked_on in
    let it''' = counted it'' in
    (put_item m' it''', record { leased_record = it'''.stored; token = token; until = until })

-- The selected items are leased; `drawn` tokens were drawn before.
unfoldable pub grant : (ℕ → String) → ℕ → Machine → List MemItem → ℕ → ℕ → Machine × List Lease
unfolding grant_one
grant tokens drawn m [] now ttl = (m, [])
grant tokens drawn m (it ∷ its) now ttl =
    let (m', l) = grant_one m it (tokens drawn) (now + ttl) in
    let (m'', ls) = grant tokens (drawn + 1) m' its now ttl in (m'', l ∷ ls)
