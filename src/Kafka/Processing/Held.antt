-- ===== src/Kafka/Processing/Held.antt =====
-- kafka/consumer.go: what the result of a message promises.
use Prim.Native.String.{String}
use text.Mathlib.Text.{◌==◌ as str_eq}
use go_guard_lib.Prelude.{ℕ, Bool, if◌then◌else◌, true, none, some, List}
use go_guard_lib.Errors.{Err}
use go_guard_lib.Dlq.Record as DlqRecord
use go_guard_lib.Dlq.Record.{Bytes}
use go_guard_lib.Dlq.Memory.{Read, read}
use go_guard_lib.Dlq.Store.{Store}
use go_guard_lib.Pipeline.{Pipeline, Checkpoint}
use go_guard_lib.Pipeline.Run.{Surroundings, in_checkpoint}
use go_guard_lib.Pipeline.Execute.Safe.{live_run}

-- The progress that is stored with a message: a message put behind another one has none.
abbrev pub behind_or : Read Bool → Bytes → Bytes
behind_or (read true) cp = none
behind_or _ cp = cp

abbrev pub progress_of : String → Read Bool → Bytes → Bytes
progress_of order_key held cp = if str_eq order_key "" then cp else behind_or held cp

module _ {S : Type 0} (ops : Store S) (redact : Err → String) (encode : Checkpoint → List ℕ) where
  -- The progress of the message when its run has ended.
  abbrev pub ended_at : Pipeline → Surroundings → Bytes
  ended_at p around = some (encode (in_checkpoint (live_run redact p around).0))
