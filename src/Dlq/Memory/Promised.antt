-- ===== src/Dlq/Memory/Promised.antt =====
-- dlq/memory.go: the in-memory store is a store.
use Prim.Native.String.{String}
use go_guard_lib.Prelude.{ℕ, refl, Option, none, some, ◌≡◌, arith, Option-cases, inl, inr}
use go_guard_lib.Errors.{live, store_err, not_found}
use go_guard_lib.Dlq.Record.{Record}
use go_guard_lib.Dlq.Machine.{find_id, MemItem}
use go_guard_lib.Dlq.Store.{Store, IsAppended}
use go_guard_lib.Dlq.Memory.{
  Read, read, not_read, MemoryStore, begin, append, get, lease, checkpoint, ack, nack, release,
  park, requeue_with, has_key_in,
}
use go_guard_lib.Dlq.Memory.Calls.Promises.{append-get, appended}

-- What is read of the item that is found.
abbrev found : Option MemItem → Read Record
found none = not_read (store_err not_found)
found (some it) = read it.stored

appended-IsAppended :
    (s : MemoryStore) (r : Record) (now : ℕ) (o : Option MemItem)
    → find_id r.id s.m.items ≡ o
    → IsAppended r (found o) (appended s r now)
appended-IsAppended s r now none n =
    rw (n, appended) (refl, refl, refl, refl, refl, refl, refl, refl, refl)
appended-IsAppended s r now (some it) n = rw (n, appended) refl

get-found :
    (s : MemoryStore) (id : String)
    → begin s live ≡ none
    → get s live id ≡ found (find_id id s.m.items)
unfolding get begin
get-found s id b = elim (Option-cases (find_id id s.m.items)) [
  | inl n ↦ ground (arith, b, n)
  | inr (it, n) ↦ ground (arith, b, n)
]

pub append-IsAppended :
    (s : MemoryStore) (r : Record) (now : ℕ)
    → (append s live r now).1 ≡ none
    → IsAppended r (get s live r.id) (get (append s live r now).0 live r.id)
unfolding append begin
append-IsAppended s r now e = elim (Option-cases (begin s live)) [
  | inl n ↦
      rw (get-found s r.id n, append-get s r now n e)
        (appended-IsAppended s r now (find_id r.id s.m.items) refl)
  | inr (e', n) ↦ ground (arith, n, e)
]

-- `tokens` is what `crypto/rand` gives.
unfoldable pub memory_store : (ℕ → String) → Store MemoryStore
memory_store tokens = record {
  append = append;
  get = get;
  lease = lease tokens;
  checkpoint = checkpoint;
  ack = ack;
  nack = nack;
  release = release;
  park = park;
  requeue_with = requeue_with;
  has_key_in = has_key_in;
  append-get = append-IsAppended;
}
