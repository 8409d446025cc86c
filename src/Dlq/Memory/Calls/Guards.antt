-- ===== src/Dlq/Memory/Calls/Guards.antt =====
-- dlq/memory.go: what is true of a store's machine, and of the machine after a call's last step, is
-- true after the call, whichever of its guards ends it.
use go_guard_lib.Prelude.{◌≡◌, refl, Option, none, some}
use go_guard_lib.Errors.{Err, StoreErr, store_err}
use go_guard_lib.Dlq.Machine.{Machine, MemItem}
use go_guard_lib.Dlq.Machine.Settling.{Found, found, failed}
use go_guard_lib.Dlq.Memory.{
  MemoryStore, Reply, Leases, begun, lease_begun, with_item, checked_checkpoint,
}

module _ (p : Machine → Type 0) (s : MemoryStore) (v : p s.m) where
  pub begun-keeps : (o : Option Err) (r : Reply (Option Err)) → p r.0.m → p (begun s o r).0.m
  begun-keeps none r w = w
  begun-keeps (some e) r w = v

  pub lease_begun-keeps : (o : Option Err) (r : Reply Leases) → p r.0.m → p (lease_begun s o r).0.m
  lease_begun-keeps none r w = w
  lease_begun-keeps (some e) r w = v

  pub with_item-keeps :
      (o : Option Err) (f : Found) (k : MemItem → Reply (Option Err))
      → ((it : MemItem) → f ≡ found it → p (k it).0.m)
      → p (begun s o (with_item s f k)).0.m
  with_item-keeps o (failed e) k w = begun-keeps o (s, some (store_err e)) v
  with_item-keeps o (found it) k w = begun-keeps o (k it) (w it refl)

  pub checked_checkpoint-keeps :
      (e : Option StoreErr) (m : Machine) → p m → p (checked_checkpoint s e m).0.m
  checked_checkpoint-keeps none m w = w
  checked_checkpoint-keeps (some e) m w = v
