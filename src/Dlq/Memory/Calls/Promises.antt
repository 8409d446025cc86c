-- ===== src/Dlq/Memory/Calls/Promises.antt =====
-- dlq/memory.go: what a store promises its callers: appends, settling under a token, and order keys.
use Prim.Native.String.{String}
use text.Mathlib.Text.{◌==◌ as str_eq}
use text.Mathlib.TextEquality.{eq_iff}
use go_guard_lib.Prelude.{
  ℕ, ◌≡◌, refl, Bool, true, false, ◌&&◌, not, if◌then◌else◌, Option, none, some, List, [], ◌∷◌,
  ◌++◌, arith, Option-cases, inl, inr, ◌⊎◌,
}
use go_guard_lib.Errors.{Err, StoreErr, store_err, lease_lost, not_found, live}
use go_guard_lib.Dlq.Record.{Record, Bytes, is_leased, validate}
use go_guard_lib.Dlq.Machine.{
  Machine, MemItem, find_id, prepare, Prepared, store, duplicate, reject, insert, insert_item,
  new_item, is_some, completed, link,
}
use go_guard_lib.Dlq.Machine.View.{pick}
use go_guard_lib.Dlq.Machine.Index.{IsIndexed, has_key}
use go_guard_lib.Dlq.Machine.Leasing.{LeaseRequest, select_lease, eligible, is_head}
use go_guard_lib.Dlq.Machine.Leasing.Merging.{All}
use go_guard_lib.Dlq.Machine.Leasing.Chosen.{Takes, select_lease-Takes}
use go_guard_lib.Dlq.Machine.Settling.{NackOptions, failed, held}
use go_guard_lib.Dlq.Memory.{
  MemoryStore, Reply, begin, append, checkpoint, ack, nack, release, park, get, Read, read,
}

-- The holder of a token: the record is leased under it.
abbrev pub is_held : MemoryStore → String → String → Bool
is_held s id token = elim (find_id id s.m.items) [
  | none ↦ false
  | some it ↦ is_leased it.stored.state && not (str_eq token "") && str_eq it.token token
]

abbrev pub lost : MemoryStore → String → StoreErr
lost s id = if is_some (find_id id s.m.items) then lease_lost else not_found

abbrev pub refused : MemoryStore → StoreErr → Reply (Option Err)
refused s e = (s, some (store_err e))

held-lost :
    (s : MemoryStore) (id token : String)
    → is_held s id token ≡ false
    → held s.m id token ≡ failed (lost s id)
unfolding held
held-lost s id token h = elim (Option-cases (find_id id s.m.items)) [
  | inl n ↦ ground arith
  | inr (it, n) ↦ ground (arith, h, eq_iff token "", eq_iff it.token "", eq_iff it.token token)
]

-- Under any other token than a record's current one, on an open store, each of the five calls that
-- take a token changes nothing and returns the lease as lost, or the record as not found.
pub stale_token-refused :
    (s : MemoryStore) (id token : String) (cp : Bytes) (o : NackOptions) (reason : String) (now : ℕ)
    → begin s live ≡ none
    → is_held s id token ≡ false
    → (checkpoint s live id token cp ≡ refused s (lost s id))
      × (ack s live id token ≡ refused s (lost s id))
      × (nack s live id token o now ≡ refused s (lost s id))
      × (release s live id token ≡ refused s (lost s id))
      × (park s live id token reason now ≡ refused s (lost s id))
unfolding checkpoint ack nack release park
stale_token-refused s id token cp o reason now b h =
    let f : held s.m id token ≡ failed (lost s id) = held-lost s id token h in ground (arith, b, f)

find_id-append :
    (id : String) (it : MemItem) (xs : List MemItem)
    → find_id id xs ≡ none
    → it.stored.id ≡ id
    → find_id id (xs ++ it ∷ []) ≡ some it
unfolding find_id
find_id-append id it [] n e = ground (arith, eq_iff it.stored.id id)
find_id-append id it (x ∷ xs) n e = ground (arith, find_id-append id it xs)

-- What an append that returns no error leaves to be read: the record that was there already, or the
-- appended one with its Seq and its defaults.
abbrev pub appended : MemoryStore → Record → ℕ → Read Record
appended s r now = elim (find_id r.id s.m.items) [
  | none ↦ read (completed s.m r now)
  | some it ↦ read it.stored
]

insert-find :
    (m : Machine) (r : Record)
    → find_id r.id m.items ≡ none
    → find_id r.id (insert m r).items ≡ some (new_item r)
unfolding insert insert_item link
insert-find m r n = rw n (find_id-append r.id (new_item r) m.items n refl)

abbrev is_rejected : Prepared → Bool
is_rejected (reject e) = true
is_rejected _ = false

prepare-cases :
    (m : Machine) (r : Record) (now : ℕ)
    → ((prepare m r now ≡ store (completed m r now)) × (find_id r.id m.items ≡ none))
      ⊎ ((prepare m r now ≡ duplicate) × (is_some (find_id r.id m.items) ≡ true))
      ⊎ (is_rejected (prepare m r now) ≡ true)
unfolding prepare
prepare-cases m r now = elim (Option-cases (validate r)) [
  | inl n ↦ elim (Option-cases (find_id r.id m.items)) [
    | inl k ↦ ground arith
    | inr (it, k) ↦ ground arith
  ]
  | inr (e, n) ↦ ground arith
]

-- An append that returns no error leaves the record to be read.
pub append-get :
    (s : MemoryStore) (r : Record) (now : ℕ)
    → begin s live ≡ none
    → (append s live r now).1 ≡ none
    → get (append s live r now).0 live r.id ≡ appended s r now
unfolding append get begin
append-get s r now b e = elim (prepare-cases s.m r now) [
  | inl (p, n) ↦ ground (arith, p, n, b, insert-find s.m (completed s.m r now))
  | inr (inl (p, n)) ↦ ground (arith, p, n, b)
  | inr (inr p) ↦ ground (arith, p, b, e)
]

-- An item of an order key that is selected comes first of all items of its key in the store.
abbrev pub IsFirst : Machine → MemItem → Type 0
IsFirst m it =
    str_eq it.stored.order_key "" ≡ false
    → is_head it.stored.seq (pick (has_key it.stored.order_key) m.items) ≡ true

Takes-IsFirst :
    (m : Machine) (now : ℕ) (req : LeaseRequest) (v : IsIndexed m) (its : List MemItem)
    → All (Takes m now req) its
    → All (IsFirst m) its
unfolding eligible
Takes-IsFirst m now req v [] w = tt
Takes-IsFirst m now req v (x ∷ xs) w =
    (λ h. ground (arith, h, w.0, v.keyed x.stored.order_key h), Takes-IsFirst m now req v xs w.1)

-- On a queue whose index is exact, every item with an order key that a lease selects is the oldest
-- item of the queue with that key, whatever state the others are in.
pub select_lease-IsFirst :
    (m : Machine) (now : ℕ) (req : LeaseRequest)
    → IsIndexed m
    → All (IsFirst m) (select_lease m now req).0
select_lease-IsFirst m now req v =
    Takes-IsFirst m now req v (select_lease m now req).0 (select_lease-Takes m now req v).2
