-- ===== src/Dlq/Memory/Calls.antt =====
-- dlq/memory.go: any sequence of calls on a new store, and what is true after it.
pub mod Invariant
mod Examples
mod Replays
pub mod Guards
pub mod Fewer
pub mod Promises
pub mod Limit
use Prim.Native.String.{String}
use go_guard_lib.Prelude.{ℕ, Bool, Option, List, [], ◌∷◌}
use go_guard_lib.Errors.{Err, CtxErr}
use go_guard_lib.Dlq.Record.{Record, Bytes}
use go_guard_lib.Dlq.Machine.Leasing.{LeaseRequest}
use go_guard_lib.Dlq.Machine.Settling.{NackOptions}
use go_guard_lib.Dlq.Memory.{
  MemoryStore, append, lease, checkpoint, ack, nack, release, park, requeue_with, discard, close,
}

-- A call that may change the store. Each comes with its context and the clock's reading.
pub data Call : Type 0 where
  c_append : CtxErr → Record → ℕ → Call
  c_lease : CtxErr → LeaseRequest → ℕ → Call
  c_checkpoint : CtxErr → (id token : String) → Bytes → Call
  c_ack : CtxErr → (id token : String) → Call
  c_nack : CtxErr → (id token : String) → NackOptions → ℕ → Call
  c_release : CtxErr → (id token : String) → Call
  c_park : CtxErr → (id token reason : String) → ℕ → Call
  c_requeue : CtxErr → (id : String) → Bool → Bytes → Call
  c_discard : CtxErr → (id : String) → Call
  c_close : Call

unfoldable pub call : (ℕ → String) → MemoryStore → Call → MemoryStore
unfolding append lease checkpoint ack nack release park requeue_with discard close
call tokens s (c_append ctx r now) = (append s ctx r now).0
call tokens s (c_lease ctx req now) = (lease tokens s ctx req now).0
call tokens s (c_checkpoint ctx id token cp) = (checkpoint s ctx id token cp).0
call tokens s (c_ack ctx id token) = (ack s ctx id token).0
call tokens s (c_nack ctx id token o now) = (nack s ctx id token o now).0
call tokens s (c_release ctx id token) = (release s ctx id token).0
call tokens s (c_park ctx id token reason now) = (park s ctx id token reason now).0
call tokens s (c_requeue ctx id replace cp) = (requeue_with s ctx id replace cp).0
call tokens s (c_discard ctx id) = (discard s ctx id).0
call tokens s c_close = close s

unfoldable pub calls : (ℕ → String) → MemoryStore → List Call → MemoryStore
unfolding call
calls tokens s [] = s
calls tokens s (c ∷ cs) = calls tokens (call tokens s c) cs
