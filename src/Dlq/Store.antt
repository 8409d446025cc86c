-- ===== src/Dlq/Store.antt =====
-- dlq/store.go: the operations that the store's users call, as an interface. `S` is what a store is
-- at a moment; a call is given its context and, where the store reads its clock, the time.
use Prim.Native.String.{String}
use go_guard_lib.Prelude.{ℕ, Bool, Option, none, ◌≡◌}
use go_guard_lib.Errors.{Err, CtxErr, live}
use go_guard_lib.Dlq.Record.{Record, Bytes}
use go_guard_lib.Dlq.Machine.Leasing.{LeaseRequest}
use go_guard_lib.Dlq.Machine.Settling.{NackOptions}
use go_guard_lib.Dlq.Memory.{Leases, Read, read, not_read}

-- What a stored record has of the one that was appended: all but its place in the queue, its times and
-- its schema.
abbrev pub Carries : Record → Record → Type 0
Carries r r' =
    (r'.id ≡ r.id)
    × (r'.state ≡ r.state)
    × (r'.source ≡ r.source)
    × (r'.key ≡ r.key)
    × (r'.value ≡ r.value)
    × (r'.headers ≡ r.headers)
    × (r'.order_key ≡ r.order_key)
    × (r'.checkpoint ≡ r.checkpoint)
    × (r'.blocked_on ≡ r.blocked_on)

-- What an append has done, by what is read under the record's ID before it and after: a record that was
-- there stays as it is.
abbrev pub IsAppended : Record → Read Record → Read Record → Type 0
IsAppended r (read old) after = after ≡ read old
IsAppended r (not_read e) (read r') = Carries r r'
IsAppended r (not_read e) (not_read e') = ⊥

-- The law is what `Append` promises: without an error, the record is stored, or one with its ID was.
pub record Store (S : Type 0) : Type 0 where
  pub append : S → CtxErr → Record → ℕ → S × Option Err
  pub get : S → CtxErr → String → Read Record
  pub lease : S → CtxErr → LeaseRequest → ℕ → S × Leases
  pub checkpoint : S → CtxErr → String → String → Bytes → S × Option Err
  pub ack : S → CtxErr → String → String → S × Option Err
  pub nack : S → CtxErr → String → String → NackOptions → ℕ → S × Option Err
  pub release : S → CtxErr → String → String → S × Option Err
  pub park : S → CtxErr → String → String → String → ℕ → S × Option Err
  pub requeue_with : S → CtxErr → String → Bool → Bytes → S × Option Err
  pub has_key_in : S → CtxErr → String → Read Bool
  pub append-get :
      (s : S) (r : Record) (now : ℕ)
      → (append s live r now).1 ≡ none
      → IsAppended r (get s live r.id) (get (append s live r now).0 live r.id)
