-- ===== src/Kafka/Processing.antt =====
-- kafka/consumer.go: what runs one message, or stores it behind an earlier one with its key.
pub mod Held
mod Examples
use Prim.Native.String.{String}
use text.Mathlib.Text.{◌==◌ as str_eq}
use go_guard_lib.Prelude.{ℕ, Bool, true, false, if◌then◌else◌, Option, none, some, List}
use go_guard_lib.Errors.{Err, CtxErr}
use go_guard_lib.Dlq.Record as DlqRecord
use go_guard_lib.Dlq.Memory.{Read, read, not_read}
use go_guard_lib.Dlq.Store.{Store}
use go_guard_lib.Pipeline.{Pipeline, Checkpoint}
use go_guard_lib.Pipeline.Run.{Surroundings}
use go_guard_lib.Pipeline.Execute.{Input, Result, failed, deferred, store, execute}

module _ {S : Type 0} (ops : Store S) (redact : Err → String) (encode : Checkpoint → List ℕ) where
  abbrev pub stored_behind : S → Input → ℕ → S × Result × Option Err
  stored_behind s m now =
      store ops s m none DlqRecord.pending "" "stored behind an earlier message with the same key"
        now deferred

  -- By what `HasOrderKey` has answered.
  abbrev pub process_behind :
      Pipeline → Surroundings → S → Input → ℕ → Read Bool → S × Result × Option Err
  process_behind p around s m now (not_read e) = (s, failed, some e)
  process_behind p around s m now (read true) = stored_behind s m now
  process_behind p around s m now (read false) = execute ops redact encode p around s m now

  unfoldable pub process :
      Pipeline → Surroundings → S → CtxErr → Input → ℕ → S × Result × Option Err
  unfolding store execute
  process p around s ctx m now =
      if str_eq m.order_key ""
      then execute ops redact encode p around s m now
      else process_behind p around s m now (ops.has_key_in s ctx m.order_key)
